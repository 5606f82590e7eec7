-- ===== src/Router/Requests.antt =====
-- pkg/router.go: a write request, from the database to the queue.
use module_core_loraraw.Prelude.{
  ℕ, ◌≡◌, ◌∙◌, refl, sym, List, [], ◌∷◌, ◌++◌, append-nil, Option, none, some, Bool-cases, inl, inr,
  if◌then◌else◌,
}
use module_core_loraraw.Prelude.Text.{text_eq}
use module_core_loraraw.WriteQueue.Order.{InOrder}
use module_core_loraraw.WriteQueue.Order.Fifo.{view}
use module_core_loraraw.WriteQueue.Manager.{PointWriteQueueManager}
use module_core_loraraw.WriteQueue.Manager.Devices.{queue_of}
use module_core_loraraw.Points.Store.{Point, PointWriter, Marshaller}
use module_core_loraraw.Points.Writer.{write_point}
use module_core_loraraw.Router.{queue_written, point_write_request}
use module_core_loraraw.Router.Requeue.{Holds, Holds-enqueue, Holds-other}

-- What a request's answer adds to the queue of a device.
abbrev pub added : {F : Type 0} → List ℕ → Option (Point F) → List (Point F)
added d none = []
added d (some point) = if text_eq point.device_uuid d then point ∷ [] else []

module _ {F : Type 0} (db : Marshaller F) where
  view-queue_written :
      (d : List ℕ) (answer : Option (Point F) × db.S) (m : PointWriteQueueManager (Point F))
      → InOrder (queue_of d m)
      → view (queue_of d (queue_written db answer m).1.1) ≡ view (queue_of d m) ++ added d answer.0
  unfolding Holds
  view-queue_written d (none, s) m o = sym (append-nil (view (queue_of d m)))
  view-queue_written d (some point, s) m o = elim (Bool-cases (text_eq point.device_uuid d)) [
    | inl same ↦ rw (same, added) (Holds-enqueue d point m (view (queue_of d m)) (o, refl) same).1
    | inr other ↦
        rw (other, added)
          ((Holds-other d point m (view (queue_of d m)) (o, refl) other).1
            ∙ sym (append-nil (view (queue_of d m))))
  ]

  -- A write request changes the database as writePoint does, and adds the point that the database answers with to the
  -- end of the queue of that point's device and to no other queue; where the database refuses the
  -- write, no queue changes.
  pub point_write_request-added :
      (d uuid : List ℕ) (body : PointWriter F) (s : db.S) (m : PointWriteQueueManager (Point F))
      → InOrder (queue_of d m)
      → ((point_write_request db uuid body (s, m)).1.0 ≡ (write_point db uuid body s).1)
        × (view (queue_of d (point_write_request db uuid body (s, m)).1.1)
            ≡ view (queue_of d m) ++ added d (write_point db uuid body s).0)
  unfolding point_write_request
  point_write_request-added d uuid body s m o =
      (state (write_point db uuid body s), view-queue_written d (write_point db uuid body s) m o)
    where
      state : (answer : Option (Point F) × db.S) → (queue_written db answer m).1.0 ≡ answer.1
      state (none, s') = refl
      state (some point, s') = refl
