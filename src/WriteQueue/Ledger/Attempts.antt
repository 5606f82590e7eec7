-- ===== src/WriteQueue/Ledger/Attempts.antt =====
-- pkg/writeQueueManager.go: what the scheduler's attempts do to the ledger of a queue.
use module_core_loraraw.Prelude.{
  ℕ, zero, suc, ◌+◌, ◌<◌, ◌≡◌, refl, ap, arith, true, false, List, [], ◌∷◌, Option, none, some,
  get_elem?, ltb, ◌==◌, Bool-cases, inl, inr, if◌then◌else◌,
}
use module_core_loraraw.WriteQueue.{
  PendingPointWrite, PointWriteQueue, enqueue_write_queue, dequeue, enqueue, message, retry, remove,
  dequeued,
}
use module_core_loraraw.WriteQueue.Manager.{prepare_attempt, finish_attempt}
use module_core_loraraw.WriteQueue.Ledger.{Ticket, Ledger, change, first_is, step, ticket}
use module_core_loraraw.WriteQueue.Ledger.Refines.{tickets}

-- What is done to the queue of one device: a write, its RESPONSE, and the start and the failure of an attempt.
pub data QueueCall (P : Type 0) : Type 0 where
  write : P → QueueCall P
  response : ℕ → QueueCall P
  prepare : ℕ → Option (ℕ × List ℕ) → QueueCall P
  fail : ℕ → QueueCall P

module _ {P : Type 0} where
  unfoldable pub call : ℕ → QueueCall P → PointWriteQueue P → PointWriteQueue P
  call max_retry (write point) q = enqueue_write_queue P point q
  call max_retry (response id) q = (dequeue P (some id) q).0
  call max_retry (prepare item prepared) q = prepare_attempt P item prepared q
  call max_retry (fail item) q = (finish_attempt P max_retry item q).0

  abbrev pub find : ℕ → List (Ticket P) → Option (Ticket P)
  find i [] = none
  find i (t ∷ ts) = if t.number == i then some t else find i ts

  -- A write that waits and was not sent yet is sent under the id that was prepared, or is removed.
  abbrev pub prepare_first : ℕ → Option (ℕ × List ℕ) → Option ℕ → Ledger P → Ledger P
  prepare_first item prepared (some id) l = l
  prepare_first item none none l = step (remove item) l
  prepare_first item (some (id, bytes)) none l = step (message item id bytes) l

  abbrev pub prepare_step : ℕ → Option (ℕ × List ℕ) → Option (Ticket P) → Ledger P → Ledger P
  prepare_step item prepared none l = l
  prepare_step item prepared (some t) l = prepare_first item prepared t.sent l

  -- A write that has failed so often is removed.
  abbrev pub fail_step : ℕ → ℕ → Option (Ticket P) → Ledger P → Ledger P
  fail_step max_retry item none l = l
  fail_step max_retry item (some t) l = if ltb t.tries max_retry then l else step (remove item) l

  abbrev pub call_step : ℕ → QueueCall P → Ledger P → Ledger P
  call_step max_retry (write point) l = step (enqueue point) l
  call_step max_retry (response id) l = step (dequeued (some id)) l
  call_step max_retry (prepare item prepared) l = prepare_step item prepared (find item l.waiting) l
  call_step max_retry (fail item) l =
      let failed = step (retry item) l in fail_step max_retry item (find item failed.waiting) failed

  abbrev pub found_at : ℕ → Option (PendingPointWrite P) → Option (Ticket P)
  found_at n none = none
  found_at n (some x) = if x.is_done then none else some (ticket n x)

  find-below : (i n : ℕ) (xs : List (PendingPointWrite P)) → i < n → find i (tickets n xs) ≡ none
  find-below i n [] h = refl
  find-below i n (x ∷ xs) h =
      let later = find-below i (suc n) xs (omega arith) in
      let other : (n == i) ≡ false = ground arith in
      elim (Bool-cases x.is_done) [
        | inl gone ↦ rw gone later
        | inr stays ↦ rw stays (rw other later)
      ]

  find-tickets :
      (i n : ℕ) (xs : List (PendingPointWrite P))
      → find (n + i) (tickets n xs) ≡ found_at (n + i) (get_elem? xs i)
  find-tickets i n [] = refl
  find-tickets zero n (x ∷ xs) =
      let later = find-below (n + 0) (suc n) xs (omega arith) in
      let mine : (n == n + 0) ≡ true = ground arith in
      let same : n ≡ n + 0 = omega arith in
      elim (Bool-cases x.is_done) [
        | inl gone ↦ rw gone later
        | inr stays ↦ rw stays (rw mine (ap (λ (k : ℕ). some (ticket k x)) same))
      ]
  find-tickets (suc i) n (x ∷ xs) =
      let other : (n == n + suc i) ≡ false = ground arith in
      let e : suc n + i ≡ n + suc i = omega arith in
      let later : find (n + suc i) (tickets (suc n) xs) ≡ found_at (n + suc i) (get_elem? xs i) =
        rw e at (find-tickets i (suc n) xs) in
      elim (Bool-cases x.is_done) [
        | inl gone ↦ rw gone later
        | inr stays ↦ rw stays (rw other later)
      ]

  pub find-ledger_of :
      (i : ℕ) (items : List (PendingPointWrite P))
      → find i (tickets 0 items) ≡ found_at i (get_elem? items i)
  find-ledger_of i items = let e : 0 + i ≡ i = omega arith in rw e at (find-tickets i 0 items)

  pub change-absent :
      (i : ℕ) (g : Ticket P → Ticket P) (ts : List (Ticket P))
      → find i ts ≡ none
      → change i g ts ≡ ts
  change-absent i g [] h = refl
  change-absent i g (t ∷ ts) h = elim (Bool-cases (t.number == i)) [
    | inl mine ↦ let bad : some t ≡ none = rw mine at h in cc
    | inr other ↦ rw other (ap (◌∷◌ t) (change-absent i g ts (rw other at h)))
  ]

  first_is-absent : (i : ℕ) (ts : List (Ticket P)) → find i ts ≡ none → first_is i ts ≡ false
  first_is-absent i [] h = refl
  first_is-absent i (t ∷ ts) h = elim (Bool-cases (t.number == i)) [
    | inl mine ↦ let bad : some t ≡ none = rw mine at h in cc
    | inr other ↦ other
  ]

  pub remove-absent : (i : ℕ) (l : Ledger P) → find i l.waiting ≡ none → step (remove i) l ≡ l
  remove-absent i l h = let other = first_is-absent i l.waiting h in rw other refl
