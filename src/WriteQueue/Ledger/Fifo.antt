-- ===== src/WriteQueue/Ledger/Fifo.antt =====
-- pkg/writeQueue.go: each method takes the step of the ledger that it stands for.
use module_core_loraraw.Prelude.{
  ℕ, suc, ◌+◌, ◌≡◌, refl, sym, ap, ◌∙◌, arith, true, false, List, [], ◌∷◌, ◌++◌, append-nil, Option,
  none, some, length, length-append, get_elem?, ◌==◌, Bool-cases, Option-cases, inl, inr,
}
use module_core_loraraw.WriteQueue.{
  PendingPointWrite, PointWriteQueue, new_point_write_queue, enqueue_write_queue, set_message,
  inc_retry, remove_item, answers, dequeue_head, dequeue, Operation, enqueue, message, retry,
  remove, dequeued, apply, run,
}
use module_core_loraraw.WriteQueue.Order.{InOrder}
use module_core_loraraw.WriteQueue.Order.Steps.{run-InOrder, apply-InOrder, List-cases}
use module_core_loraraw.WriteQueue.Ledger.{
  Ledger, empty_ledger, first_is, is_sent_as, first_sent_as, step, steps, sent_as, outcomes, ledger,
}
use module_core_loraraw.WriteQueue.Ledger.Refines.{
  tickets, get_elem?-behind, ledger_of, ledger-ledger_of, ledger_of-leave, Oldest, first_present,
  tickets-head, tickets-append, outcomes-append,
}
use module_core_loraraw.WriteQueue.Ledger.Changes.{ledger_of-modify}

module _ {P : Type 0} where
  ledger_of-enqueue :
      (point : P) (q : PointWriteQueue P)
      → ledger_of (enqueue_write_queue P point q).items ≡ step (enqueue point) (ledger_of q.items)
  unfolding enqueue_write_queue
  ledger_of-enqueue point q =
      let fresh : PendingPointWrite P = record {
        message_id = 0;
        message = none;
        point = point;
        retry_count = 0;
        is_done = false;
        acked = false;
      } in
      let size : length (q.items ++ fresh ∷ []) ≡ suc (length q.items) =
        omega (arith, length-append q.items (fresh ∷ [])) in
      let waiting : tickets 0 (q.items ++ fresh ∷ [])
          ≡ tickets 0 q.items
            ++ record { number = length q.items; point = point; sent = none; tries = 0 } ∷ [] =
        tickets-append q.items fresh 0 refl
        ∙ ap
            (λ (k : ℕ).
              tickets 0 q.items
              ++ record { number = k; point = point; sent = none; tries = 0 } ∷ [])
            (let e : 0 + length q.items ≡ length q.items = omega arith in e) in
      let settled = outcomes-append q.items (fresh ∷ []) ∙ append-nil (outcomes q.items) in
      λ i. record { next = size i; waiting = waiting i; settled = settled i }

  nothing_waits : (q : PointWriteQueue P) → InOrder q → q.write_queue ≡ [] → tickets 0 q.items ≡ []
  nothing_waits q o e = sym (ap (λ (l : Ledger P). l.waiting) (ledger-ledger_of q o)) ∙ rw e refl

  ledger_of-remove :
      (item : ℕ) (q : PointWriteQueue P)
      → InOrder q
      → ledger_of (remove_item P item q).0.items ≡ step (remove item) (ledger_of q.items)
  unfolding remove_item
  ledger_of-remove item q o = elim (List-cases q.write_queue) [
    | inl empty ↦
        let none_wait = nothing_waits q o empty in rw (remove_item, empty) (rw none_wait refl)
    | inr (head, rest, e) ↦
        let first = tickets-head q head (first_present q head rest o e) in
        let left = ledger_of-leave false head rest q o e in
        let chosen : first_is item (tickets 0 q.items) ≡ (head == item) = rw first refl in
        elim (Bool-cases (head == item)) [
          | inl same ↦ rw (chosen, same) (rw (remove_item, e, same) left)
          | inr other ↦ rw (chosen, other) (rw (remove_item, e, other) refl)
        ]
  ]

  answers-is_sent_as :
      (id : ℕ) (x : PendingPointWrite P)
      → answers P id x ≡ is_sent_as id (sent_as x.message x.message_id)
  answers-is_sent_as id x = elim (Option-cases x.message) [
    | inl unsent ↦ rw unsent refl
    | inr (bytes, sent) ↦ rw sent refl
  ]

  pub head-found :
      (q : PointWriteQueue P) (head : ℕ) (h : Oldest q head) → get_elem? q.items head ≡ some h.item
  head-found q head h =
      ap (λ (l : List (PendingPointWrite P)). get_elem? l head) h.shape
      ∙ ap (get_elem? (h.gone ++ h.item ∷ h.later)) h.place
      ∙ get_elem?-behind h.gone h.item h.later

  ledger_of-dequeue_head :
      (id : Option ℕ) (head : ℕ) (rest : List ℕ) (q : PointWriteQueue P)
      → InOrder q
      → q.write_queue ≡ head ∷ rest
      → ledger_of (dequeue_head P id head rest q).0.items ≡ step (dequeued id) (ledger_of q.items)
  ledger_of-dequeue_head none head rest q o e =
      let found = head-found q head (first_present q head rest o e) in
      rw (dequeue_head, found) (ledger_of-leave false head rest q o e)
  ledger_of-dequeue_head (some id) head rest q o e =
      let h = first_present q head rest o e in
      let found = head-found q head h in
      let first = tickets-head q head h in
      let chosen : first_sent_as id (tickets 0 q.items) ≡ answers P id h.item =
        ap (first_sent_as id) first ∙ sym (answers-is_sent_as id h.item) in
      elim (Bool-cases (answers P id h.item)) [
        | inl mine ↦
            rw (chosen, mine)
              (rw (dequeue_head, found, mine) (ledger_of-leave true head rest q o e))
        | inr foreign ↦ rw (chosen, foreign) (rw (dequeue_head, found, foreign) refl)
      ]

  pub ledger_of-dequeue :
      (id : Option ℕ) (q : PointWriteQueue P)
      → InOrder q
      → ledger_of (dequeue P id q).0.items ≡ step (dequeued id) (ledger_of q.items)
  unfolding dequeue
  ledger_of-dequeue id q o = elim (List-cases q.write_queue) [
    | inl empty ↦
        let none_wait = nothing_waits q o empty in
        elim (Option-cases id) [
          | inl any ↦ rw (any, dequeue, empty) (rw none_wait refl)
          | inr (n, one) ↦ rw (one, dequeue, empty) (rw none_wait refl)
        ]
    | inr (head, rest, e) ↦ rw (dequeue, e) (ledger_of-dequeue_head id head rest q o e)
  ]

  pub ledger_of-apply :
      (op : Operation P) (q : PointWriteQueue P)
      → InOrder q
      → ledger_of (apply P op q).items ≡ step op (ledger_of q.items)
  unfolding apply set_message inc_retry
  ledger_of-apply (enqueue point) q o = ledger_of-enqueue point q
  ledger_of-apply (message item id bytes) q o =
      ledger_of-modify (λ x. record x { message_id = id; message = some bytes })
        (λ t. record t { sent = some id })
        (record {
          ticket_lem = λ n x. refl;
          point_lem = λ x. refl;
          done_lem = λ x. refl;
          acked_lem = λ x. refl;
        })
        item q.items
  ledger_of-apply (retry item) q o =
      ledger_of-modify (λ x. record x { retry_count = x.retry_count + 1 })
        (λ t. record t { tries = t.tries + 1 })
        (record {
          ticket_lem = λ n x. refl;
          point_lem = λ x. refl;
          done_lem = λ x. refl;
          acked_lem = λ x. refl;
        })
        item q.items
  ledger_of-apply (remove item) q o = ledger_of-remove item q o
  ledger_of-apply (dequeued id) q o = ledger_of-dequeue id q o

  ledger_of-run :
      (ops : List (Operation P)) (q : PointWriteQueue P)
      → InOrder q
      → ledger_of (run P ops q).items ≡ steps ops (ledger_of q.items)
  unfolding run
  ledger_of-run [] q o = refl
  ledger_of-run (op ∷ ops) q o =
      ledger_of-run ops (apply P op q) (apply-InOrder op q o)
      ∙ ap (steps ops) (ledger_of-apply op q o)

  -- The queue refines its ledger: after any calls of its methods on a new queue, the writes that wait, in their
  -- order and each with its number, its point, the id under which it was sent and its failures, and the writes that left, in
  -- their order and each with whether it was acknowledged, are exactly those to which the same calls lead
  -- a ledger. There a write joins the end, and leaves from the front alone: acknowledged by a RESPONSE with
  -- the id under which it was sent, and not acknowledged where it is removed or dequeued without an id.
  pub ledger-run :
      (ops : List (Operation P))
      → ledger (run P ops (new_point_write_queue P)) ≡ steps ops empty_ledger
  unfolding run
  ledger-run ops =
      ledger-ledger_of (run P ops (new_point_write_queue P)) (run-InOrder ops)
      ∙ ledger_of-run ops (new_point_write_queue P) (run-InOrder [])
