-- ===== src/WriteQueue/Order/Fifo.antt =====
-- pkg/writeQueue.go: the points of a queue, and how enqueueing changes those that wait.
use module_core_loraraw.Prelude.{
  ℕ, zero, suc, ◌+◌, ◌≡◌, refl, sym, ap, ◌∙◌, arith, Bool, true, false, List, [], ◌∷◌, ◌++◌,
  append_assoc, append-nil, Option, none, some, length, length-append, get_elem?, ◌==◌, Bool-cases,
  Option-cases, inl, inr,
}
use module_core_loraraw.WriteQueue.{
  PendingPointWrite, PointWriteQueue, modify, mark_done, enqueue_write_queue, set_message,
  inc_retry, leave, remove_item, answers, dequeue_head, dequeue, Operation, enqueue, message, retry,
  remove, dequeued, apply, run,
}
use module_core_loraraw.WriteQueue.Order.{InOrder, range, range-suc}
use module_core_loraraw.WriteQueue.Order.Steps.{List-cases}

module _ {P : Type 0} where
  abbrev pub points : List (PendingPointWrite P) → List P
  points [] = []
  points (x ∷ xs) = x.point ∷ points xs

  abbrev pub points_at : List (PendingPointWrite P) → List ℕ → List P
  points_at items [] = []
  points_at items (i ∷ is) = elim (get_elem? items i) [
    | none ↦ points_at items is
    | some x ↦ x.point ∷ points_at items is
  ]

  -- The abstract queue: the points that wait, the next one first.
  abbrev pub view : PointWriteQueue P → List P
  view q = points_at q.items q.write_queue

  -- The points of the calls of EnqueueWriteQueue.
  abbrev pub enqueued : List (Operation P) → List P
  enqueued [] = []
  enqueued (enqueue point ∷ ops) = point ∷ enqueued ops
  enqueued (message item id bytes ∷ ops) = enqueued ops
  enqueued (retry item ∷ ops) = enqueued ops
  enqueued (remove item ∷ ops) = enqueued ops
  enqueued (dequeued id ∷ ops) = enqueued ops

  points-append : (xs ys : List (PendingPointWrite P)) → points (xs ++ ys) ≡ points xs ++ points ys
  points-append [] ys = refl
  points-append (x ∷ xs) ys = ap (◌∷◌ x.point) (points-append xs ys)

  points-modify :
      (f : PendingPointWrite P → PendingPointWrite P) (i : ℕ) (xs : List (PendingPointWrite P))
      → ((x : PendingPointWrite P) → (f x).point ≡ x.point)
      → points (modify P f i xs) ≡ points xs
  points-modify f i [] h = refl
  points-modify f zero (x ∷ xs) h = ap (λ (p : P). p ∷ points xs) (h x)
  points-modify f (suc i) (x ∷ xs) h = ap (◌∷◌ x.point) (points-modify f i xs h)

  points-leave :
      (acked : Bool) (head : ℕ) (rest : List ℕ) (q : PointWriteQueue P)
      → points (leave P acked head rest q).items ≡ points q.items
  unfolding mark_done
  points-leave acked head rest q = points-modify (mark_done P acked) head q.items (λ x.
      elim (Bool-cases x.is_done) [
        | inl closed ↦ rw (closed, mark_done) refl
        | inr open' ↦ rw (open', mark_done) refl
      ])

  points-remove :
      (item : ℕ) (q : PointWriteQueue P) → points (remove_item P item q).0.items ≡ points q.items
  unfolding remove_item
  points-remove item q = elim (List-cases q.write_queue) [
    | inl empty ↦ rw (empty, remove_item) refl
    | inr (head, rest, e) ↦ elim (Bool-cases (head == item)) [
      | inl same ↦ rw (remove_item, e, same) (points-leave false head rest q)
      | inr other ↦ rw (remove_item, e, other) refl
    ]
  ]

  points-dequeue_head :
      (id : Option ℕ) (head : ℕ) (rest : List ℕ) (q : PointWriteQueue P)
      → points (dequeue_head P id head rest q).0.items ≡ points q.items
  points-dequeue_head none head rest q = elim (Option-cases (get_elem? q.items head)) [
    | inl missing ↦ rw (dequeue_head, missing) refl
    | inr (item, found) ↦ rw (dequeue_head, found) (points-leave false head rest q)
  ]
  points-dequeue_head (some id) head rest q = elim (Option-cases (get_elem? q.items head)) [
    | inl missing ↦ rw (dequeue_head, missing) refl
    | inr (item, found) ↦ elim (Bool-cases (answers P id item)) [
      | inl mine ↦ rw (dequeue_head, found, mine) (points-leave true head rest q)
      | inr foreign ↦ rw (dequeue_head, found, foreign) refl
    ]
  ]

  points-dequeue :
      (id : Option ℕ) (q : PointWriteQueue P) → points (dequeue P id q).0.items ≡ points q.items
  unfolding dequeue
  points-dequeue id q = elim (List-cases q.write_queue) [
    | inl empty ↦ rw (dequeue, empty) refl
    | inr (head, rest, e) ↦ rw (dequeue, e) (points-dequeue_head id head rest q)
  ]

  pub points-run :
      (ops : List (Operation P)) (q : PointWriteQueue P)
      → points (run P ops q).items ≡ points q.items ++ enqueued ops
  unfolding run apply enqueue_write_queue set_message inc_retry
  points-run [] q = sym (append-nil (points q.items))
  points-run (enqueue point ∷ ops) q =
      points-run ops (enqueue_write_queue P point q)
      ∙ ap (λ (l : List P). l ++ enqueued ops) (points-append q.items _)
      ∙ append_assoc (points q.items) (point ∷ []) (enqueued ops)
  points-run (message item id bytes ∷ ops) q =
      points-run ops (set_message P item id bytes q)
      ∙ ap (λ (l : List P). l ++ enqueued ops) (points-modify _ item q.items (λ x. refl))
  points-run (retry item ∷ ops) q =
      points-run ops (inc_retry P item q).0
      ∙ ap (λ (l : List P). l ++ enqueued ops) (points-modify _ item q.items (λ x. refl))
  points-run (remove item ∷ ops) q =
      points-run ops (remove_item P item q).0
      ∙ ap (λ (l : List P). l ++ enqueued ops) (points-remove item q)
  points-run (dequeued id ∷ ops) q =
      points-run ops (dequeue P id q).0
      ∙ ap (λ (l : List P). l ++ enqueued ops) (points-dequeue id q)

  get_elem?-behind :
      (gone : List (PendingPointWrite P)) (x : PendingPointWrite P)
      (xs : List (PendingPointWrite P))
      → get_elem? (gone ++ x ∷ xs) (length gone) ≡ some x
  get_elem?-behind [] x xs = refl
  get_elem?-behind (y ∷ ys) x xs = get_elem?-behind ys x xs

  points_at-range :
      (gone waiting : List (PendingPointWrite P)) (n : ℕ)
      → n ≡ length gone
      → points_at (gone ++ waiting) (range n (length waiting)) ≡ points waiting
  points_at-range gone [] n e = refl
  points_at-range gone (x ∷ xs) n e =
      let found : get_elem? (gone ++ x ∷ xs) n ≡ some x = rw e (get_elem?-behind gone x xs) in
      let later : points_at ((gone ++ x ∷ []) ++ xs) (range (suc n) (length xs)) ≡ points xs =
        points_at-range (gone ++ x ∷ []) xs (suc n)
          (omega (arith, e, length-append gone (x ∷ []))) in
      let same = append_assoc gone (x ∷ []) xs in
      rw (found, points_at) (ap (◌∷◌ x.point) (rw same at later))

  pub view-InOrder : (q : PointWriteQueue P) (o : InOrder q) → view q ≡ points o.waiting
  view-InOrder q o =
      ap (λ (l : List (PendingPointWrite P)). points_at l q.write_queue) o.shape
      ∙ ap (points_at (o.gone ++ o.waiting)) o.order
      ∙ points_at-range o.gone o.waiting (length o.gone) refl

  -- A new item waits behind those that wait.
  pub view-enqueue_write_queue :
      (point : P) (q : PointWriteQueue P)
      → InOrder q
      → view (enqueue_write_queue P point q) ≡ view q ++ point ∷ []
  unfolding enqueue_write_queue
  view-enqueue_write_queue point q o =
      let fresh : PendingPointWrite P = record {
        message_id = 0;
        message = none;
        point = point;
        retry_count = 0;
        is_done = false;
        acked = false;
      } in
      let total : length q.items ≡ length o.gone + length o.waiting =
        omega (arith, ap length o.shape, length-append o.gone o.waiting) in
      let size : suc (length o.waiting) ≡ length (o.waiting ++ fresh ∷ []) =
        omega (arith, length-append o.waiting (fresh ∷ [])) in
      let shape : q.items ++ fresh ∷ [] ≡ o.gone ++ (o.waiting ++ fresh ∷ []) =
        ap (λ (l : List (PendingPointWrite P)). l ++ fresh ∷ []) o.shape
        ∙ append_assoc o.gone o.waiting (fresh ∷ []) in
      let order : q.write_queue ++ length q.items ∷ []
          ≡ range (length o.gone) (length (o.waiting ++ fresh ∷ [])) =
        ap (λ (l : List ℕ). l ++ length q.items ∷ []) o.order
        ∙ range-suc (length o.gone) (length o.waiting) (length q.items) total
        ∙ ap (range (length o.gone)) size in
      ap (λ (l : List (PendingPointWrite P)). points_at l (q.write_queue ++ length q.items ∷ []))
        shape
      ∙ ap (points_at (o.gone ++ (o.waiting ++ fresh ∷ []))) order
      ∙ points_at-range o.gone (o.waiting ++ fresh ∷ []) (length o.gone) refl
      ∙ points-append o.waiting (fresh ∷ [])
      ∙ ap (λ (l : List P). l ++ point ∷ []) (sym (view-InOrder q o))
