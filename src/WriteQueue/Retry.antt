-- ===== src/WriteQueue/Retry.antt =====
-- pkg/writeQueueManager.go: the retry bound of finishAttempt.
use module_core_loraraw.Prelude.{
  ℕ, zero, suc, ◌+◌, ◌≤◌, ◌<◌, ◌≡◌, refl, ap, arith, true, false, List, [], ◌∷◌, some, get_elem?,
  if◌then◌else◌, ◌==◌, le→ltb, lt→ltb,
}
use module_core_loraraw.WriteQueue.{
  PendingPointWrite, PointWriteQueue, modify, inc_retry, leave, remove_item,
}
use module_core_loraraw.WriteQueue.Manager.{finish_attempt}

module _ {P : Type 0} where
  get_elem?-modify :
      (f : PendingPointWrite P → PendingPointWrite P) (xs : List (PendingPointWrite P)) (i : ℕ)
      (x : PendingPointWrite P)
      → get_elem? xs i ≡ some x
      → get_elem? (modify P f i xs) i ≡ some (f x)
  get_elem?-modify f [] i x e = cc
  get_elem?-modify f (y ∷ ys) zero x e =
      let same : y ≡ x = cc in ap (λ (t : PendingPointWrite P). some (f t)) same
  get_elem?-modify f (y ∷ ys) (suc i) x e = get_elem?-modify f ys i x e

  -- The queue with one more failed attempt of an item.
  abbrev retried : ℕ → PointWriteQueue P → PointWriteQueue P
  retried item q = record q {
    items = modify P (λ x. record x { retry_count = x.retry_count + 1 }) item q.items;
  }

  inc_retry_lem :
      (item : ℕ) (q : PointWriteQueue P) (x : PendingPointWrite P)
      → get_elem? q.items item ≡ some x
      → inc_retry P item q ≡ (retried item q, some (x.retry_count + 1))
  unfolding inc_retry
  inc_retry_lem item q x e = rw e refl

  attempt_again :
      (max item : ℕ) (q : PointWriteQueue P) (x : PendingPointWrite P)
      → get_elem? q.items item ≡ some x
      → x.retry_count + 1 < max
      → finish_attempt P max item q ≡ (retried item q, false)
  unfolding finish_attempt
  attempt_again max item q x e h =
      simp (finish_attempt, inc_retry_lem item q x e, lt→ltb (x.retry_count + 1) max h)

  attempt_last :
      (max item : ℕ) (rest : List ℕ) (q : PointWriteQueue P) (x : PendingPointWrite P)
      → get_elem? q.items item ≡ some x
      → q.write_queue ≡ item ∷ rest
      → max ≤ x.retry_count + 1
      → finish_attempt P max item q ≡ (leave P false item rest (retried item q), true)
  unfolding finish_attempt remove_item
  attempt_last max item rest q x e w h =
      let same : (item == item) ≡ true = ground arith in
      simp (
        finish_attempt,
        inc_retry_lem item q x e,
        le→ltb (x.retry_count + 1) max h,
        remove_item,
        w,
        same,
      )

  -- So many failed attempts of one item in a row, and how often it was reported as exhausted.
  unfoldable pub failures : ℕ → ℕ → ℕ → PointWriteQueue P → PointWriteQueue P × ℕ
  failures zero max item q = (q, 0)
  failures (suc n) max item q =
      let (q', given_up) = finish_attempt P max item q in
      let (q'', reports) = failures n max item q' in
      (q'', (if given_up then suc reports else reports))

  failures_lem :
      (n max item : ℕ) (rest : List ℕ) (q : PointWriteQueue P) (x : PendingPointWrite P)
      → q.write_queue ≡ item ∷ rest
      → get_elem? q.items item ≡ some x
      → ((x.retry_count + n < max)
          → ((failures n max item q).0.write_queue ≡ item ∷ rest) × ((failures n max item q).1 ≡ 0))
        × ((x.retry_count + n ≡ max)
            → 0 < n
            → ((failures n max item q).0.write_queue ≡ rest) × ((failures n max item q).1 ≡ 1))
  unfolding failures
  failures_lem zero max item rest q x w e = ((λ h. (w, refl)), λ h pos. absurd (omega arith))
  failures_lem (suc zero) max item rest q x w e = (
    (λ h. let step = attempt_again max item q x e (omega arith) in rw step (w, refl)),
    λ h pos. let step = attempt_last max item rest q x e w (omega arith) in rw step (refl, refl),
  )
  failures_lem (suc (suc n)) max item rest q x w e =
      let x' : PendingPointWrite P = record x { retry_count = x.retry_count + 1 } in
      let more =
        failures_lem (suc n) max item rest (retried item q) x' w
          (get_elem?-modify (λ y. record y { retry_count = y.retry_count + 1 }) q.items item x e) in
      (
        (λ h.
            let step = attempt_again max item q x e (omega arith) in
            rw step (more.0 (omega arith))),
        λ h pos.
            let step = attempt_again max item q x e (omega arith) in
            rw step (more.1 (omega arith) (omega arith)),
      )

  -- The head of a queue stays there, and is not reported, while its failed attempts are fewer than maxRetry.
  pub failures-below :
      (n max item : ℕ) (rest : List ℕ) (q : PointWriteQueue P) (x : PendingPointWrite P)
      → q.write_queue ≡ item ∷ rest
      → get_elem? q.items item ≡ some x
      → x.retry_count + n < max
      → ((failures n max item q).0.write_queue ≡ item ∷ rest) × ((failures n max item q).1 ≡ 0)
  failures-below n max item rest q x w e h = (failures_lem n max item rest q x w e).0 h

  -- The failed attempt that makes them maxRetry takes the head out of the queue, and it is reported
  -- as exhausted exactly once.
  pub failures-exhaust :
      (n max item : ℕ) (rest : List ℕ) (q : PointWriteQueue P) (x : PendingPointWrite P)
      → q.write_queue ≡ item ∷ rest
      → get_elem? q.items item ≡ some x
      → x.retry_count + n ≡ max
      → 0 < n
      → ((failures n max item q).0.write_queue ≡ rest) × ((failures n max item q).1 ≡ 1)
  failures-exhaust n max item rest q x w e h pos = (failures_lem n max item rest q x w e).1 h pos
