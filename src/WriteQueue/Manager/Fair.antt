-- ===== src/WriteQueue/Manager/Fair.antt =====
-- pkg/writeQueueManager.go: the choice of nextPending.
use module_core_loraraw.Prelude.{
  ℕ, zero, suc, ◌+◌, ◌%◌, ◌≤◌, ◌<◌, ◌≡◌, refl, arith, List, none, some, length, Option-cases, inl,
  inr, ◌==◌, Bool-cases,
}
use module_core_loraraw.WriteQueue.Manager.{
  PointWriteQueueManager, pending_at, search_pending, next_pending,
}

module _ {P : Type 0} where
  place : PointWriteQueueManager P → ℕ → ℕ
  place m j = (m.rr_index + j) % length m.order

  -- What a search from `i` for so many rounds finds.
  data Search (m : PointWriteQueueManager P) (i rounds : ℕ) : Type 0 where
    found :
        (j item : ℕ) (uuid : List ℕ)
        → i ≤ j
        → j < i + rounds
        → pending_at P m (place m j) ≡ some (uuid, item)
        → ((k : ℕ) → i ≤ k → k < j → pending_at P m (place m k) ≡ none)
        → search_pending P rounds i m ≡ some (place m j, uuid, item)
        → Search m i rounds
    nowhere :
        ((k : ℕ) → i ≤ k → k < i + rounds → pending_at P m (place m k) ≡ none)
        → search_pending P rounds i m ≡ none
        → Search m i rounds

  search_lem : (rounds i : ℕ) (m : PointWriteQueueManager P) → Search m i rounds
  unfolding search_pending place
  search_lem zero i m = nowhere (λ k a b. absurd (omega arith)) refl
  search_lem (suc rounds) i m = elim (Option-cases (pending_at P m (place m i))) [
    | inr ((uuid, item), here) ↦
        found i item uuid (omega arith) (omega arith) here (λ k a b. absurd (omega arith))
          (rw (search_pending, here) refl)
    | inl empty ↦ later empty (search_lem rounds (i + 1) m)
  ]
    where
      at :
          (k : ℕ)
          → pending_at P m (place m i) ≡ none
          → i ≤ k
          → ((i + 1 ≤ k) → pending_at P m (place m k) ≡ none)
          → pending_at P m (place m k) ≡ none
      at k empty a rest = elim (Bool-cases (k == i)) [
        | inl same ↦ let e : k ≡ i = ground arith in rw e empty
        | inr other ↦ rest (ground arith)
      ]

      later : pending_at P m (place m i) ≡ none → Search m (i + 1) rounds → Search m i (suc rounds)
      later empty (found j item uuid a b here before e) =
          found j item uuid (omega arith) (omega arith) here
            (λ k c d. at k empty c (λ c'. before k c' d)) (rw (search_pending, empty) e)
      later empty (nowhere none_left e) =
          nowhere (λ k c d. at k empty c (λ c'. none_left k c' (omega arith)))
            (rw (search_pending, empty) e)

  -- What nextPending does, from the place after the last one served.
  pub data Pick (m : PointWriteQueueManager P) : Type 0 where
    picked :
        (j item : ℕ) (uuid : List ℕ)
        → j < length m.order
        → pending_at P m ((m.rr_index + j) % length m.order) ≡ some (uuid, item)
        → ((k : ℕ) → k < j → pending_at P m ((m.rr_index + k) % length m.order) ≡ none)
        → next_pending P m
          ≡ (record m { rr_index = (m.rr_index + j) % length m.order + 1 }, some (uuid, item))
        → Pick m
    idle :
        ((k : ℕ) → k < length m.order → pending_at P m ((m.rr_index + k) % length m.order) ≡ none)
        → next_pending P m ≡ (m, none)
        → Pick m

  -- nextPending picks the head of the first device with a waiting write, in cyclic order from
  -- rrIndex, and moves rrIndex behind that device; it finds nothing only where no device has one.
  pub next_pending-Pick : (m : PointWriteQueueManager P) → Pick m
  unfolding next_pending place
  next_pending-Pick m = from (search_lem (length m.order) 0 m)
    where
      from : Search m 0 (length m.order) → Pick m
      from (found j item uuid a b here before e) =
          picked j item uuid (omega arith) here (λ k c. before k (omega arith) c)
            (rw (next_pending, e) refl)
      from (nowhere none_left e) =
          idle (λ k c. none_left k (omega arith) (omega arith)) (rw (next_pending, e) refl)
