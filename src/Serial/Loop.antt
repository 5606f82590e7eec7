-- ===== src/Serial/Loop.antt =====
-- pkg/run.go: which lines are handled, and what follows a serial error.
use module_core_loraraw.Prelude.{ℕ, ◌≡◌, ◌≢◌, refl, ap, List, [], ◌∷◌, ◌++◌, none, some}
use module_core_loraraw.Serial.{
  RunState, opening, listening, returned, panicked, RunEvent, interrupt, opened, serial_error,
  payload, RunEffect, network_fault, handle_serial_payload, run_step, run_loop,
}

-- The lines that `run` hands on, in order.
abbrev pub handled : List RunEffect → List (List ℕ)
handled [] = []
handled (network_fault in_fault message ∷ effects) = handled effects
handled (handle_serial_payload line ∷ effects) = line ∷ handled effects

-- The lines that come after the port is open and before an interrupt or the end of the input.
abbrev pub lines : RunState → List RunEvent → List (List ℕ)
lines state [] = []
lines opening (opened none ∷ events) = lines listening events
lines opening (interrupt ∷ events) = []
lines opening (event ∷ events) = lines opening events
lines listening (interrupt ∷ events) = []
lines listening (serial_error none ∷ events) = []
lines listening (payload line ∷ events) = line ∷ lines listening events
lines listening (event ∷ events) = lines listening events
lines state (event ∷ events) = []

handled-append : (xs ys : List RunEffect) → handled (xs ++ ys) ≡ handled xs ++ handled ys
handled-append [] ys = refl
handled-append (network_fault in_fault message ∷ xs) ys = handled-append xs ys
handled-append (handle_serial_payload line ∷ xs) ys = ap (◌∷◌ line) (handled-append xs ys)

handled-returned : (events : List RunEvent) → handled (run_loop returned events).1 ≡ []
unfolding run_loop run_step
handled-returned [] = refl
handled-returned (event ∷ events) = handled-returned events

handled-panicked : (events : List RunEvent) → handled (run_loop panicked events).1 ≡ []
unfolding run_loop run_step
handled-panicked [] = refl
handled-panicked (event ∷ events) = handled-panicked events

handled-listening :
    (events : List RunEvent) → handled (run_loop listening events).1 ≡ lines listening events
unfolding run_loop run_step
handled-listening [] = refl
handled-listening (interrupt ∷ events) = handled-returned events
handled-listening (opened result ∷ events) = handled-listening events
handled-listening (serial_error none ∷ events) = handled-panicked events
handled-listening (serial_error (some err) ∷ events) = handled-listening events
handled-listening (payload line ∷ events) = ap (◌∷◌ line) (handled-listening events)

-- From the start, `run` hands on exactly the lines that it takes while the port is open and before an interrupt or
-- the end of the input, each once and in their order.
pub handled-run_loop :
    (events : List RunEvent) → handled (run_loop opening events).1 ≡ lines opening events
unfolding run_loop run_step
handled-run_loop [] = refl
handled-run_loop (interrupt ∷ events) = handled-returned events
handled-run_loop (opened none ∷ events) = handled-listening events
handled-run_loop (opened (some err) ∷ events) = handled-run_loop events
handled-run_loop (serial_error err ∷ events) = handled-run_loop events
handled-run_loop (payload line ∷ events) = handled-run_loop events

returned-stays : (events : List RunEvent) → (run_loop returned events).0 ≢ opening
unfolding run_loop run_step
returned-stays [] e = cc
returned-stays (event ∷ events) e = returned-stays events e

panicked-stays : (events : List RunEvent) → (run_loop panicked events).0 ≢ opening
unfolding run_loop run_step
panicked-stays [] e = cc
panicked-stays (event ∷ events) e = panicked-stays events e

-- Once the port has been opened, no events, serial errors among them, lead back to SerialOpen: `run` stays in the inner
-- loop until it is interrupted or panics.
pub run_loop-never_reopens : (events : List RunEvent) → (run_loop listening events).0 ≢ opening
unfolding run_loop run_step
run_loop-never_reopens [] e = cc
run_loop-never_reopens (interrupt ∷ events) e = returned-stays events e
run_loop-never_reopens (opened result ∷ events) e = run_loop-never_reopens events e
run_loop-never_reopens (serial_error none ∷ events) e = panicked-stays events e
run_loop-never_reopens (serial_error (some err) ∷ events) e = run_loop-never_reopens events e
run_loop-never_reopens (payload line ∷ events) e = run_loop-never_reopens events e
