-- ===== src/WriteQueue/Order/Steps.antt =====
-- pkg/writeQueue.go: the order under each method, and the acknowledgement.
use module_core_loraraw.Prelude.{
  ℕ, suc, ◌+◌, ◌≡◌, refl, sym, ap, ◌∙◌, arith, true, false, List, [], ◌∷◌, ◌++◌, append_assoc,
  Option, none, some, length, length-append, get_elem?, ◌==◌, Bool-cases, Option-cases, inl, inr,
  ◌⊎◌,
}
use module_core_loraraw.WriteQueue.{
  PendingPointWrite, PointWriteQueue, new_point_write_queue, enqueue_write_queue, set_message,
  inc_retry, leave, remove_item, answers, dequeue_head, dequeue, dequeue_using_message_id,
  Operation, enqueue, message, retry, remove, dequeued, apply, run,
}
use module_core_loraraw.WriteQueue.Order.{
  InOrder, IsWaiting, range, range-suc, All-append, modify-InOrder, leave-InOrder,
}

pub List-cases : (xs : List ℕ) → (xs ≡ []) ⊎ ((x : ℕ) × (rest : List ℕ) × (xs ≡ x ∷ rest))
List-cases [] = inl refl
List-cases (x ∷ xs) = inr (x, xs, refl)

module _ {P : Type 0} where
  pub enqueue-InOrder :
      (point : P) (q : PointWriteQueue P) → InOrder q → InOrder (enqueue_write_queue P point q)
  unfolding enqueue_write_queue
  enqueue-InOrder point q o =
      let fresh : PendingPointWrite P = record {
        message_id = 0;
        message = none;
        point = point;
        retry_count = 0;
        is_done = false;
        acked = false;
      } in
      let total : length q.items ≡ length o.gone + length o.waiting =
        omega (arith, ap length o.shape, length-append o.gone o.waiting) in
      let size : suc (length o.waiting) ≡ length (o.waiting ++ fresh ∷ []) =
        omega (arith, length-append o.waiting (fresh ∷ [])) in
      record {
        gone = o.gone;
        waiting = o.waiting ++ fresh ∷ [];
        shape =
            ap (λ (l : List (PendingPointWrite P)). l ++ fresh ∷ []) o.shape
            ∙ append_assoc o.gone o.waiting (fresh ∷ []);
        order =
            ap (λ (l : List ℕ). l ++ length q.items ∷ []) o.order
            ∙ range-suc (length o.gone) (length o.waiting) (length q.items) total
            ∙ ap (range (length o.gone)) size;
        all_done = o.all_done;
        none_done = All-append IsWaiting o.waiting (fresh ∷ []) o.none_done (refl, tt);
      }

  remove-InOrder : (item : ℕ) (q : PointWriteQueue P) → InOrder q → InOrder (remove_item P item q).0
  unfolding remove_item
  remove-InOrder item q o = elim (List-cases q.write_queue) [
    | inl empty ↦ rw (empty, remove_item) o
    | inr (head, rest, e) ↦ elim (Bool-cases (head == item)) [
      | inl same ↦ rw (remove_item, e, same) (leave-InOrder false head rest q o e)
      | inr other ↦ rw (remove_item, e, other) o
    ]
  ]

  dequeue_head-InOrder :
      (id : Option ℕ) (head : ℕ) (rest : List ℕ) (q : PointWriteQueue P)
      → InOrder q
      → q.write_queue ≡ head ∷ rest
      → InOrder (dequeue_head P id head rest q).0
  dequeue_head-InOrder none head rest q o e = elim (Option-cases (get_elem? q.items head)) [
    | inl missing ↦ rw (dequeue_head, missing) o
    | inr (item, found) ↦ rw (dequeue_head, found) (leave-InOrder false head rest q o e)
  ]
  dequeue_head-InOrder (some id) head rest q o e = elim (Option-cases (get_elem? q.items head)) [
    | inl missing ↦ rw (dequeue_head, missing) o
    | inr (item, found) ↦ elim (Bool-cases (answers P id item)) [
      | inl mine ↦ rw (dequeue_head, found, mine) (leave-InOrder true head rest q o e)
      | inr foreign ↦ rw (dequeue_head, found, foreign) o
    ]
  ]

  dequeue-InOrder : (id : Option ℕ) (q : PointWriteQueue P) → InOrder q → InOrder (dequeue P id q).0
  unfolding dequeue
  dequeue-InOrder id q o = elim (List-cases q.write_queue) [
    | inl empty ↦ rw (dequeue, empty) o
    | inr (head, rest, e) ↦ rw (dequeue, e) (dequeue_head-InOrder id head rest q o e)
  ]

  pub apply-InOrder :
      (op : Operation P) (q : PointWriteQueue P) → InOrder q → InOrder (apply P op q)
  unfolding apply set_message inc_retry
  apply-InOrder (enqueue point) q o = enqueue-InOrder point q o
  apply-InOrder (message item id bytes) q o =
      modify-InOrder (λ x. record x { message_id = id; message = some bytes }) item q (λ x. refl) o
  apply-InOrder (retry item) q o =
      modify-InOrder (λ x. record x { retry_count = x.retry_count + 1 }) item q (λ x. refl) o
  apply-InOrder (remove item) q o = remove-InOrder item q o
  apply-InOrder (dequeued id) q o = dequeue-InOrder id q o

  run_from-InOrder :
      (ops : List (Operation P)) (q : PointWriteQueue P) → InOrder q → InOrder (run P ops q)
  unfolding run
  run_from-InOrder [] q o = o
  run_from-InOrder (op ∷ ops) q o = run_from-InOrder ops (apply P op q) (apply-InOrder op q o)

  -- After any calls of the queue's methods on a new queue, the queue holds the numbers of exactly the
  -- items that are not done, in the order of their coming, and every item before those is done.
  pub run-InOrder : (ops : List (Operation P)) → InOrder (run P ops (new_point_write_queue P))
  run-InOrder ops = run_from-InOrder ops (new_point_write_queue P) (record {
    gone = [];
    waiting = [];
    shape = refl;
    order = refl;
    all_done = tt;
    none_done = tt;
  })

  -- What a RESPONSE with a message id does to a queue.
  pub data Acknowledged (id : ℕ) (q : PointWriteQueue P) : Type 0 where
    -- nothing waits
    nothing : q.write_queue ≡ [] → dequeue_using_message_id P id q ≡ (q, none) → Acknowledged id q
    -- the head was not sent, or under another id
    ignored :
        (head : ℕ) (rest : List ℕ) (item : PendingPointWrite P)
        → q.write_queue ≡ head ∷ rest
        → get_elem? q.items head ≡ some item
        → answers P id item ≡ false
        → dequeue_using_message_id P id q ≡ (q, none)
        → Acknowledged id q
    -- the head was sent under this id
    accepted :
        (head : ℕ) (rest : List ℕ) (item : PendingPointWrite P)
        → q.write_queue ≡ head ∷ rest
        → get_elem? q.items head ≡ some item
        → answers P id item ≡ true
        → dequeue_using_message_id P id q ≡ (leave P true head rest q, some item.point)
        → Acknowledged id q

  pub head_present :
      (q : PointWriteQueue P) (head : ℕ) (rest : List ℕ)
      → InOrder q
      → q.write_queue ≡ head ∷ rest
      → (item : PendingPointWrite P) × (get_elem? q.items head ≡ some item)
  head_present q head rest o e = by_waiting o.waiting o.shape o.order
    where
      after :
          (gone waiting : List (PendingPointWrite P)) (x : PendingPointWrite P)
          → get_elem? (gone ++ x ∷ waiting) (length gone) ≡ some x
      after [] waiting x = refl
      after (y ∷ ys) waiting x = after ys waiting x

      by_waiting :
          (waiting : List (PendingPointWrite P))
          → q.items ≡ o.gone ++ waiting
          → q.write_queue ≡ range (length o.gone) (length waiting)
          → (item : PendingPointWrite P) × (get_elem? q.items head ≡ some item)
      by_waiting [] shape order = let empty : head ∷ rest ≡ [] = sym e ∙ order in cc
      by_waiting (x ∷ xs) shape order =
          let same : head ∷ rest ≡ length o.gone ∷ range (suc (length o.gone)) (length xs) =
            sym e ∙ order in
          let first : head ≡ length o.gone = cc in
          (
            x,
            ap (λ (l : List (PendingPointWrite P)). get_elem? l head) shape
                ∙ ap (get_elem? (o.gone ++ x ∷ xs)) first
                ∙ after o.gone xs x,
          )

  pub dequeue_using_message_id-Acknowledged :
      (id : ℕ) (q : PointWriteQueue P) → InOrder q → Acknowledged id q
  unfolding dequeue_using_message_id dequeue
  dequeue_using_message_id-Acknowledged id q o = elim (List-cases q.write_queue) [
    | inl empty ↦ nothing empty (simp (dequeue_using_message_id, dequeue, empty))
    | inr (head, rest, e) ↦
        let (item, found) = head_present q head rest o e in
        elim (Bool-cases (answers P id item)) [
          | inl mine ↦
              let step : dequeue_head P (some id) head rest q
                  ≡ (leave P true head rest q, some item) =
                rw (dequeue_head, found, mine) refl in
              accepted head rest item e found mine
                (simp (dequeue_using_message_id, dequeue, e, step))
          | inr foreign ↦
              let step : dequeue_head P (some id) head rest q ≡ (q, none) =
                rw (dequeue_head, found, foreign) refl in
              ignored head rest item e found foreign
                (simp (dequeue_using_message_id, dequeue, e, step))
        ]
  ]
