-- ===== src/WriteQueue/Order/Named.antt =====
-- pkg/writeQueue.go: where the message and the id of an item come from.
use mathlib.Core.List.{Memᴰ}
use mathlib.Core.Path.{subst}
use module_core_loraraw.Prelude.{
  ℕ, zero, suc, ◌+◌, ◌≡◌, refl, sym, ap, ◌∙◌, Bool, true, false, List, [], ◌∷◌, ◌++◌, Option, none,
  some, get_elem?, ◌==◌, Bool-cases, Option-cases, inl, inr, ◌⊎◌,
}
use module_core_loraraw.WriteQueue.{
  PendingPointWrite, PointWriteQueue, modify, mark_done, enqueue_write_queue, set_message,
  inc_retry, leave, remove_item, answers, dequeue_head, dequeue, Operation, enqueue, message, retry,
  remove, dequeued, apply, run,
}
use module_core_loraraw.WriteQueue.Order.Steps.{List-cases}

module _ {P : Type 0} where
  get_elem?-modify :
      (f : PendingPointWrite P → PendingPointWrite P) (i j : ℕ) (xs : List (PendingPointWrite P))
      (y : PendingPointWrite P)
      → get_elem? (modify P f i xs) j ≡ some y
      → (x : PendingPointWrite P) × (get_elem? xs j ≡ some x) × (((i ≡ j) × (f x ≡ y)) ⊎ (x ≡ y))
  get_elem?-modify f i j [] y e = cc
  get_elem?-modify f zero zero (x ∷ xs) y e = (x, refl, inl (refl, cc))
  get_elem?-modify f zero (suc j) (x ∷ xs) y e = (y, e, inr refl)
  get_elem?-modify f (suc i) zero (x ∷ xs) y e = (x, refl, inr (cc))
  get_elem?-modify f (suc i) (suc j) (x ∷ xs) y e =
      let (x', found, how) = get_elem?-modify f i j xs y e in
      (x', found, elim how [ inl (same, made) ↦ inl (ap suc same, made) | inr same ↦ inr same ])

  get_elem?-append :
      (xs : List (PendingPointWrite P)) (x : PendingPointWrite P) (j : ℕ) (y : PendingPointWrite P)
      → get_elem? (xs ++ x ∷ []) j ≡ some y
      → (get_elem? xs j ≡ some y) ⊎ (x ≡ y)
  get_elem?-append [] x zero y e = inr (cc)
  get_elem?-append [] x (suc j) y e = cc
  get_elem?-append (z ∷ zs) x zero y e = inl e
  get_elem?-append (z ∷ zs) x (suc j) y e = get_elem?-append zs x j y e

  -- Every message of an item, and its id, have a property.
  module _ (R : ℕ → ℕ → List ℕ → Type 0) where
    abbrev pub Named : List (PendingPointWrite P) → Type 0
    Named items =
        (i : ℕ) (x : PendingPointWrite P) (bytes : List ℕ)
        → get_elem? items i ≡ some x
        → x.message ≡ some bytes
        → R i x.message_id bytes

    -- A change that leaves message and id alone.
    modify-Named :
        (f : PendingPointWrite P → PendingPointWrite P) (i : ℕ) (items : List (PendingPointWrite P))
        → ((x : PendingPointWrite P) → (f x).message ≡ x.message)
        → ((x : PendingPointWrite P) → (f x).message_id ≡ x.message_id)
        → Named items
        → Named (modify P f i items)
    modify-Named f i items hm hi named j y bytes e m =
        let (x, found, how) = get_elem?-modify f i j items y e in
        elim how [
          | inr same ↦ rw same at (named j x bytes found (rw (← same) at m))
          | inl (at_j, made) ↦
              let kept : x.message ≡ some bytes =
                sym (hm x) ∙ ap (λ (z : PendingPointWrite P). z.message) made ∙ m in
              let id : x.message_id ≡ y.message_id =
                sym (hi x) ∙ ap (λ (z : PendingPointWrite P). z.message_id) made in
              subst (λ (k : ℕ). R j k bytes) id (named j x bytes found kept)
        ]

    leave-Named :
        (acked : Bool) (head : ℕ) (rest : List ℕ) (q : PointWriteQueue P)
        → Named q.items
        → Named (leave P acked head rest q).items
    unfolding mark_done
    leave-Named acked head rest q named =
        modify-Named (mark_done P acked) head q.items
          (λ x. elim (Bool-cases x.is_done) [
            | inl closed ↦ rw (closed, mark_done) refl
            | inr open' ↦ rw (open', mark_done) refl
          ])
          (λ x. elim (Bool-cases x.is_done) [
            | inl closed ↦ rw (closed, mark_done) refl
            | inr open' ↦ rw (open', mark_done) refl
          ])
          named

    remove-Named :
        (item : ℕ) (q : PointWriteQueue P) → Named q.items → Named (remove_item P item q).0.items
    unfolding remove_item
    remove-Named item q named = elim (List-cases q.write_queue) [
      | inl empty ↦ rw (remove_item, empty) named
      | inr (head, rest, e) ↦ elim (Bool-cases (head == item)) [
        | inl same ↦ rw (remove_item, e, same) (leave-Named false head rest q named)
        | inr other ↦ rw (remove_item, e, other) named
      ]
    ]

    dequeue_head-Named :
        (id : Option ℕ) (head : ℕ) (rest : List ℕ) (q : PointWriteQueue P)
        → Named q.items
        → Named (dequeue_head P id head rest q).0.items
    dequeue_head-Named none head rest q named = elim (Option-cases (get_elem? q.items head)) [
      | inl missing ↦ rw (dequeue_head, missing) named
      | inr (item, found) ↦ rw (dequeue_head, found) (leave-Named false head rest q named)
    ]
    dequeue_head-Named (some id) head rest q named = elim (Option-cases (get_elem? q.items head)) [
      | inl missing ↦ rw (dequeue_head, missing) named
      | inr (item, found) ↦ elim (Bool-cases (answers P id item)) [
        | inl mine ↦ rw (dequeue_head, found, mine) (leave-Named true head rest q named)
        | inr foreign ↦ rw (dequeue_head, found, foreign) named
      ]
    ]

    dequeue-Named :
        (id : Option ℕ) (q : PointWriteQueue P) → Named q.items → Named (dequeue P id q).0.items
    unfolding dequeue
    dequeue-Named id q named = elim (List-cases q.write_queue) [
      | inl empty ↦ rw (dequeue, empty) named
      | inr (head, rest, e) ↦ rw (dequeue, e) (dequeue_head-Named id head rest q named)
    ]

    set_message-Named :
        (item id : ℕ) (bytes : List ℕ) (q : PointWriteQueue P)
        → R item id bytes
        → Named q.items
        → Named (set_message P item id bytes q).items
    unfolding set_message
    set_message-Named item id bytes q r named j y bs e m =
        let f : PendingPointWrite P → PendingPointWrite P =
          λ x. record x { message_id = id; message = some bytes } in
        let (x, found, how) = get_elem?-modify f item j q.items y e in
        elim how [
          | inr same ↦
              let kept : x.message ≡ some bs =
                ap (λ (z : PendingPointWrite P). z.message) same ∙ m in
              subst (λ (z : PendingPointWrite P). R j z.message_id bs) same
                (named j x bs found kept)
          | inl (at_j, made) ↦
              let id_same : id ≡ y.message_id =
                ap (λ (z : PendingPointWrite P). z.message_id) made in
              let some_same : some bytes ≡ some bs =
                ap (λ (z : PendingPointWrite P). z.message) made ∙ m in
              let same : bytes ≡ bs = cc in
              subst (λ (k : ℕ). R k y.message_id bs) at_j
                (subst (λ (k : ℕ). R item k bs) id_same (subst (R item id) same r))
        ]

    apply-Named :
        (op : Operation P) (q : PointWriteQueue P)
        → ((item id : ℕ) (bytes : List ℕ) → op ≡ message item id bytes → R item id bytes)
        → Named q.items
        → Named (apply P op q).items
    unfolding apply enqueue_write_queue inc_retry
    apply-Named (enqueue point) q r named = λ j y bytes e m.
        elim (get_elem?-append q.items _ j y e) [
          | inl old ↦ named j y bytes old m
          | inr new ↦
              let unsent : none ≡ some bytes =
                ap (λ (z : PendingPointWrite P). z.message) new ∙ m in
              cc
        ]
    apply-Named (message item id bytes) q r named =
        set_message-Named item id bytes q (r item id bytes refl) named
    apply-Named (retry item) q r named =
        modify-Named (λ x. record x { retry_count = x.retry_count + 1 }) item q.items (λ x. refl)
          (λ x. refl) named
    apply-Named (remove item) q r named = remove-Named item q named
    apply-Named (dequeued id) q r named = dequeue-Named id q named

    pub run-Named :
        (ops : List (Operation P)) (q : PointWriteQueue P)
        → ((item id : ℕ) (bytes : List ℕ) → Memᴰ (message item id bytes) ops → R item id bytes)
        → Named q.items
        → Named (run P ops q).items
    unfolding run
    run-Named [] q r named = named
    run-Named (op ∷ ops) q r named =
        run-Named ops (apply P op q) (λ item id bytes m. r item id bytes (Memᴰ.tail m))
          (apply-Named op q (λ item id bytes e. r item id bytes (Memᴰ.head (sym e))) named)
