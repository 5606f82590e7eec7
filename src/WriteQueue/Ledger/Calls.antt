-- ===== src/WriteQueue/Ledger/Calls.antt =====
-- pkg/writeQueueManager.go: each call on a device's queue takes the step of the ledger that it stands for.
use module_core_loraraw.Prelude.{
  ℕ, zero, suc, ◌+◌, ◌≡◌, refl, ap, ◌∙◌, false, List, [], ◌∷◌, Option, none, some, get_elem?, ltb,
  Bool-cases, Option-cases, inl, inr, if◌then◌else◌,
}
use module_core_loraraw.WriteQueue.{
  PendingPointWrite, PointWriteQueue, modify, inc_retry, remove_item, Operation, enqueue, message,
  retry, remove, dequeued, apply,
}
use module_core_loraraw.WriteQueue.Order.{InOrder}
use module_core_loraraw.WriteQueue.Order.Steps.{apply-InOrder}
use module_core_loraraw.WriteQueue.Manager.{prepare_attempt, finish_attempt}
use module_core_loraraw.WriteQueue.Ledger.{Ticket, Ledger, step, ticket, sent_as}
use module_core_loraraw.WriteQueue.Ledger.Refines.{tickets, ledger_of}
use module_core_loraraw.WriteQueue.Ledger.Fifo.{ledger_of-apply}
use module_core_loraraw.WriteQueue.Ledger.Attempts.{
  QueueCall, write, response, prepare, fail, call, call_step, find, found_at, prepare_first,
  prepare_step, fail_step, find-ledger_of, change-absent, remove-absent,
}

module _ {P : Type 0} where
  -- In order still, with the ledger that is asked for.
  abbrev pub Takes : PointWriteQueue P → Ledger P → Type 0
  Takes q l = InOrder q × (ledger_of q.items ≡ l)

  Takes-apply :
      (op : Operation P) (q : PointWriteQueue P)
      → InOrder q
      → Takes (apply P op q) (step op (ledger_of q.items))
  Takes-apply op q o = (apply-InOrder op q o, ledger_of-apply op q o)

  -- An item that left has no ticket, so that nothing changes.
  prepare_gone :
      (item : ℕ) (prepared : Option (ℕ × List ℕ)) (q : PointWriteQueue P) (x : PendingPointWrite P)
      → InOrder q
      → get_elem? q.items item ≡ some x
      → find item (tickets 0 q.items) ≡ none
      → Takes (prepare_attempt P item prepared q) (ledger_of q.items)
  unfolding prepare_attempt apply
  prepare_gone item prepared q x o found absent = elim (Option-cases x.message) [
    | inr (bytes, sent) ↦ rw (prepare_attempt, found) (rw (sent) (o, refl))
    | inl unsent ↦ elim (Option-cases prepared) [
      | inl error ↦
          let (o', e) = Takes-apply (remove item) q o in
          rw (prepare_attempt, found)
            (rw (unsent, error) (o', e ∙ remove-absent item (ledger_of q.items) absent))
      | inr ((id, bytes), ready) ↦
          let (o', e) = Takes-apply (message item id bytes) q o in
          let same =
            change-absent item (λ t. record t { sent = some id }) (tickets 0 q.items) absent in
          rw (prepare_attempt, found)
            (rw (unsent, ready)
              (
                o',
                e ∙ ap (λ (w : List (Ticket P)). record (ledger_of q.items) { waiting = w }) same,
              ))
    ]
  ]

  prepare_waiting :
      (item : ℕ) (prepared : Option (ℕ × List ℕ)) (q : PointWriteQueue P) (x : PendingPointWrite P)
      → InOrder q
      → get_elem? q.items item ≡ some x
      → Takes
          (prepare_attempt P item prepared q)
          (prepare_first item prepared (sent_as x.message x.message_id) (ledger_of q.items))
  unfolding prepare_attempt apply
  prepare_waiting item prepared q x o found = elim (Option-cases x.message) [
    | inr (bytes, sent) ↦ rw (prepare_attempt, found) (rw (sent) (o, refl))
    | inl unsent ↦ elim (Option-cases prepared) [
      | inl error ↦ rw (prepare_attempt, found) (rw (unsent, error) (Takes-apply (remove item) q o))
      | inr ((id, bytes), ready) ↦
          rw (prepare_attempt, found) (rw (unsent, ready) (Takes-apply (message item id bytes) q o))
    ]
  ]

  prepare-Takes :
      (item : ℕ) (prepared : Option (ℕ × List ℕ)) (q : PointWriteQueue P)
      → InOrder q
      → Takes
          (prepare_attempt P item prepared q)
          (prepare_step item prepared (find item (tickets 0 q.items)) (ledger_of q.items))
  unfolding prepare_attempt
  prepare-Takes item prepared q o =
      let at = find-ledger_of item q.items in
      elim (Option-cases (get_elem? q.items item)) [
        | inl missing ↦
            let absent : find item (tickets 0 q.items) ≡ none = at ∙ rw missing refl in
            rw absent (rw (prepare_attempt, missing) (o, refl))
        | inr (x, found) ↦ elim (Bool-cases x.is_done) [
          | inl gone ↦
              let absent : find item (tickets 0 q.items) ≡ none = at ∙ rw found (rw gone refl) in
              rw absent (prepare_gone item prepared q x o found absent)
          | inr waits ↦
              let present : find item (tickets 0 q.items) ≡ some (ticket item x) =
                at ∙ rw found (rw waits refl) in
              rw present (prepare_waiting item prepared q x o found)
        ]
      ]

  get_elem?-modify_same :
      (f : PendingPointWrite P → PendingPointWrite P) (i : ℕ) (xs : List (PendingPointWrite P))
      (x : PendingPointWrite P)
      → get_elem? xs i ≡ some x
      → get_elem? (modify P f i xs) i ≡ some (f x)
  get_elem?-modify_same f i [] x e = cc
  get_elem?-modify_same f zero (y ∷ ys) x e =
      let same : y ≡ x = cc in ap (λ (z : PendingPointWrite P). some (f z)) same
  get_elem?-modify_same f (suc i) (y ∷ ys) x e = get_elem?-modify_same f i ys x e

  get_elem?-modify-none :
      (f : PendingPointWrite P → PendingPointWrite P) (i : ℕ) (xs : List (PendingPointWrite P))
      → get_elem? xs i ≡ none
      → get_elem? (modify P f i xs) i ≡ none
  get_elem?-modify-none f i [] e = refl
  get_elem?-modify-none f zero (y ∷ ys) e = cc
  get_elem?-modify-none f (suc i) (y ∷ ys) e = get_elem?-modify-none f i ys e

  -- After the count: the item stays, or leaves where it has failed often enough.
  fail_counted :
      (max_retry item count : ℕ) (q : PointWriteQueue P)
      → InOrder q
      → Takes (if ltb count max_retry then (q, false) else remove_item P item q).0 (
          if ltb count max_retry then ledger_of q.items else step (remove item) (ledger_of q.items))
  unfolding apply
  fail_counted max_retry item count q o = elim (Bool-cases (ltb count max_retry)) [
    | inl below ↦ rw below (o, refl)
    | inr enough ↦ rw enough (Takes-apply (remove item) q o)
  ]

  Takes-trans : (q : PointWriteQueue P) (l l' : Ledger P) → Takes q l → l ≡ l' → Takes q l'
  Takes-trans q l l' (o, e) same = (o, e ∙ same)

  -- The count of an item that waits is that of its ticket; an item that left stays where it is.
  fail_found :
      (max_retry item : ℕ) (q : PointWriteQueue P) (x : PendingPointWrite P)
      → InOrder q
      → get_elem? q.items item ≡ some (record x { retry_count = x.retry_count + 1 })
      → Takes
          (if ltb (x.retry_count + 1) max_retry then (q, false) else remove_item P item q).0
          (fail_step max_retry item (find item (tickets 0 q.items)) (ledger_of q.items))
  fail_found max_retry item q x o found =
      let at = find-ledger_of item q.items in
      let counted = fail_counted max_retry item (x.retry_count + 1) q o in
      elim (Bool-cases x.is_done) [
        | inl gone ↦
            let absent : find item (tickets 0 q.items) ≡ none = at ∙ rw found (rw gone refl) in
            let same : (if ltb (x.retry_count + 1) max_retry
                  then ledger_of q.items
                  else step (remove item) (ledger_of q.items))
                ≡ ledger_of q.items =
              elim (Bool-cases (ltb (x.retry_count + 1) max_retry)) [
                | inl below ↦ rw below refl
                | inr enough ↦ rw enough (remove-absent item (ledger_of q.items) absent)
              ] in
            rw absent (Takes-trans _ _ _ counted same)
        | inr waits ↦
            let present : find item (tickets 0 q.items)
                ≡ some (ticket item (record x { retry_count = x.retry_count + 1 })) =
              at ∙ rw found (rw waits refl) in
            rw present counted
      ]

  fail-Takes :
      (max_retry item : ℕ) (q : PointWriteQueue P)
      → InOrder q
      → Takes
          (finish_attempt P max_retry item q).0
          (call_step max_retry (fail item) (ledger_of q.items))
  unfolding finish_attempt inc_retry apply
  fail-Takes max_retry item q o =
      let q' : PointWriteQueue P = (inc_retry P item q).0 in
      let (o', e) = Takes-apply (retry item) q o in
      let same : fail_step max_retry item (find item (tickets 0 q'.items)) (ledger_of q'.items)
          ≡ call_step max_retry (fail item) (ledger_of q.items) =
        ap (λ (l : Ledger P). fail_step max_retry item (find item l.waiting) l) e in
      Takes-trans _ _ _
        (elim (Option-cases (get_elem? q.items item)) [
          | inl missing ↦
              let absent : find item (tickets 0 q'.items) ≡ none =
                find-ledger_of item q'.items
                ∙ ap (found_at item) (get_elem?-modify-none _ item q.items missing) in
              rw absent (rw (finish_attempt, inc_retry, missing) (o', refl))
          | inr (x, found) ↦
              rw (finish_attempt, inc_retry, found)
                (fail_found max_retry item q' x o' (get_elem?-modify_same _ item q.items x found))
        ])
        same

  pub call-Takes :
      (max_retry : ℕ) (c : QueueCall P) (q : PointWriteQueue P)
      → InOrder q
      → Takes (call max_retry c q) (call_step max_retry c (ledger_of q.items))
  unfolding call apply
  call-Takes max_retry (write point) q o = Takes-apply (enqueue point) q o
  call-Takes max_retry (response id) q o = Takes-apply (dequeued (some id)) q o
  call-Takes max_retry (prepare item prepared) q o = prepare-Takes item prepared q o
  call-Takes max_retry (fail item) q o = fail-Takes max_retry item q o
