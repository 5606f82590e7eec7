-- ===== src/WriteQueue/Order/Answered.antt =====
-- pkg/writeQueue.go: which write a RESPONSE can acknowledge.
use mathlib.Core.List.{Memᴰ}
use mathlib.Core.Path.{subst}
use module_core_loraraw.Prelude.{
  ℕ, zero, suc, ◌≡◌, sym, ap, ◌∙◌, arith, true, false, List, [], ◌∷◌, none, some, get_elem?, ◌==◌,
  Option-cases, inl, inr,
}
use module_core_loraraw.WriteQueue.{
  PendingPointWrite, PointWriteQueue, new_point_write_queue, answers, dequeue_using_message_id,
  Operation, message, run,
}
use module_core_loraraw.WriteQueue.Order.Steps.{
  run-InOrder, Acknowledged, nothing, ignored, accepted, dequeue_using_message_id-Acknowledged,
}
use module_core_loraraw.WriteQueue.Order.Named.{run-Named}
use module_core_loraraw.WriteQueue.Order.Fifo.{points, enqueued, points-run}

module _ {P : Type 0} where
  point_at :
      (items : List (PendingPointWrite P)) (i : ℕ) (x : PendingPointWrite P)
      → get_elem? items i ≡ some x
      → get_elem? (points items) i ≡ some x.point
  point_at [] i x e = cc
  point_at (y ∷ ys) zero x e =
      let same : y ≡ x = cc in ap (λ (z : PendingPointWrite P). some z.point) same
  point_at (y ∷ ys) (suc i) x e = point_at ys i x e

  -- An item that answers has a message, under this id.
  sent_message :
      (id : ℕ) (x : PendingPointWrite P)
      → answers P id x ≡ true
      → (bytes : List ℕ) × (x.message ≡ some bytes) × (x.message_id ≡ id)
  sent_message id x e = elim (Option-cases x.message) [
    | inl unsent ↦ let bad : false ≡ true = rw unsent at e in cc
    | inr (bytes, sent) ↦
        let same : (x.message_id == id) ≡ true = rw sent at e in (bytes, sent, ground arith)
  ]

  sent_head :
      (ops : List (Operation P)) (id : ℕ) (point : P)
      → Acknowledged id (run P ops (new_point_write_queue P))
      → (dequeue_using_message_id P id (run P ops (new_point_write_queue P))).1 ≡ some point
      → (head : ℕ) × (rest : List ℕ) × (bytes : List ℕ) × ((run P ops
            (new_point_write_queue P)).write_queue
          ≡ head ∷ rest)
        × (get_elem? (enqueued ops) head ≡ some point)
        × Memᴰ (message head id bytes) ops
  sent_head ops id point (nothing empty step) e =
      let bad : none ≡ some point = sym (ap (λ r. r.1) step) ∙ e in cc
  sent_head ops id point (ignored head rest x at_head found foreign step) e =
      let bad : none ≡ some point = sym (ap (λ r. r.1) step) ∙ e in cc
  sent_head ops id point (accepted head rest x at_head found mine step) e =
      let returned : some x.point ≡ some point = sym (ap (λ r. r.1) step) ∙ e in
      let (bytes, sent, id_same) = sent_message id x mine in
      let named =
        run-Named (λ item k bs. Memᴰ (message item k bs) ops) ops (new_point_write_queue P)
          (λ item k bs m. m) (λ j y bs missing m. let bad : none ≡ some y = missing in cc) head x
          bytes found sent in
      let all : points (run P ops (new_point_write_queue P)).items ≡ enqueued ops =
        points-run ops (new_point_write_queue P) in
      (
        head,
        rest,
        bytes,
        at_head,
        ap (λ (l : List P). get_elem? l head) (sym all)
            ∙ point_at (run P ops (new_point_write_queue P)).items head x found
            ∙ returned,
        subst (λ (k : ℕ). Memᴰ (message head k bytes) ops) id_same named,
      )

  -- A RESPONSE acknowledges no write but the oldest that waits, and that only where SetMessage gave this very write a
  -- message under the id of the RESPONSE: after any calls on a new queue, a point that
  -- DequeueUsingMessageId returns is the one with which EnqueueWriteQueue made the head, and among those calls is a
  -- SetMessage of the head with that id.
  pub dequeue_using_message_id-Sent :
      (ops : List (Operation P)) (id : ℕ) (point : P)
      → (dequeue_using_message_id P id (run P ops (new_point_write_queue P))).1 ≡ some point
      → (head : ℕ) × (rest : List ℕ) × (bytes : List ℕ) × ((run P ops
            (new_point_write_queue P)).write_queue
          ≡ head ∷ rest)
        × (get_elem? (enqueued ops) head ≡ some point)
        × Memᴰ (message head id bytes) ops
  dequeue_using_message_id-Sent ops id point e =
      let q : PointWriteQueue P = run P ops (new_point_write_queue P) in
      sent_head ops id point (dequeue_using_message_id-Acknowledged id q (run-InOrder ops)) e
