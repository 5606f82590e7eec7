-- ===== src/Serial.antt =====
-- pkg/run.go and the choice of the network in pkg/serial.go: the loop that opens the serial port and takes its
-- lines. What the port and the user do is a sequence of events.
pub mod Loop
use module_core_loraraw.Prelude.{ℕ, suc, Bool, true, false, List, [], ◌∷◌, ◌++◌, Option, none, some}
use module_core_loraraw.Prelude.Text.{codes}

-- model.Network, as far as SerialOpen reads it.
pub record SerialNetwork : Type 0 where
  pub uuid : List ℕ
  pub serial_port : Option (List ℕ)
  pub serial_baud_rate : Option ℕ

-- The network and the port that SerialOpen opens, or `none` for an error before that.
unfoldable pub serial_open : List SerialNetwork → Option (List ℕ × List ℕ × ℕ)
serial_open [] = none
serial_open (net ∷ other ∷ nets) = none
serial_open (net ∷ []) = elim net.serial_port [
  | none ↦ none
  | some port ↦ elim net.serial_baud_rate [ none ↦ none | some rate ↦ some (net.uuid, port, rate) ]
]

-- Where `run` is: before SerialOpen, in the inner loop, returned (which closes the port), or stopped by a panic.
pub data RunState : Type 0 where
  opening listening returned panicked : RunState

-- What the select statements see.
pub data RunEvent : Type 0 where
  interrupt : RunEvent
  -- SerialOpen's result, with the error's text
  opened : Option (List ℕ) → RunEvent
  -- from Loop: the scanner's error, which is nil at the end of the input
  serial_error : Option (List ℕ) → RunEvent
  payload : List ℕ → RunEvent

-- UpdateNetworkFault and handleSerialPayload.
pub data RunEffect : Type 0 where
  network_fault : Bool → List ℕ → RunEffect
  handle_serial_payload : List ℕ → RunEffect

-- `err.Error()` on nil panics. `continue` in the inner select goes on with the inner loop.
unfoldable pub run_step : RunState → RunEvent → RunState × List RunEffect
run_step opening interrupt = (returned, [])
run_step opening (opened none) = (listening, network_fault false [] ∷ [])
run_step opening (opened (some err)) =
    (opening, network_fault true (codes "error opening serial: " ++ err) ∷ [])
run_step opening event = (opening, [])
run_step listening interrupt = (returned, [])
run_step listening (serial_error none) = (panicked, [])
run_step listening (serial_error (some err)) =
    (listening, network_fault true (codes "serial connection error: " ++ err) ∷ [])
run_step listening (payload line) = (listening, handle_serial_payload line ∷ [])
run_step listening (opened result) = (listening, [])
run_step returned event = (returned, [])
run_step panicked event = (panicked, [])

unfoldable pub run_loop : RunState → List RunEvent → RunState × List RunEffect
run_loop state [] = (state, [])
run_loop state (event ∷ events) =
    let (next, effects) = run_step state event in
    let (last, later) = run_loop next events in (last, effects ++ later)
