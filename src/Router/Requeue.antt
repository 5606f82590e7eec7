-- ===== src/Router/Requeue.antt =====
-- pkg/enable.go: the writes that are open when the plugin is enabled.
use module_core_loraraw.Prelude.{
  ℕ, ◌≡◌, refl, sym, ap, ◌∙◌, true, false, ◌&&◌, List, [], ◌∷◌, ◌++◌, append_assoc, append-nil,
  Bool-cases, inl, inr, if◌then◌else◌,
}
use module_core_loraraw.Prelude.Text.{text_eq, text_eq→eq}
use module_core_loraraw.WriteQueue.{enqueue_write_queue, run}
use module_core_loraraw.WriteQueue.Order.{InOrder}
use module_core_loraraw.WriteQueue.Order.Steps.{enqueue-InOrder, run-InOrder}
use module_core_loraraw.WriteQueue.Order.Fifo.{view, view-enqueue_write_queue}
use module_core_loraraw.WriteQueue.Manager.{PointWriteQueueManager, find_queue, enqueue_point}
use module_core_loraraw.WriteQueue.Manager.Devices.{
  new_manager, queue_of, queue_of-write, queue_of-write_other,
}
use module_core_loraraw.Points.Store.{Point, StoredDevice}
use module_core_loraraw.Router.{enqueue_for_device, is_open, requeue_points, requeue_devices}

module _ {F : Type 0} where
  -- The open writes of a device among some points, in their order.
  abbrev pub open_writes : List ℕ → List (Point F) → List (Point F)
  open_writes d [] = []
  open_writes d (point ∷ points) =
      if is_open point.point_state && text_eq point.device_uuid d
      then point ∷ open_writes d points
      else open_writes d points

  abbrev pub all_points : List (StoredDevice F) → List (Point F)
  all_points [] = []
  all_points (device ∷ devices) = device.points ++ all_points devices

  -- A manager whose queue of a device is in order and holds these points.
  unfoldable pub Holds : List ℕ → PointWriteQueueManager (Point F) → List (Point F) → Type 0
  Holds d m waiting = InOrder (queue_of d m) × (view (queue_of d m) ≡ waiting)

  pub Holds-enqueue :
      (d : List ℕ) (point : Point F) (m : PointWriteQueueManager (Point F))
      (waiting : List (Point F))
      → Holds d m waiting
      → text_eq point.device_uuid d ≡ true
      → Holds d (enqueue_for_device point m) (waiting ++ point ∷ [])
  unfolding Holds
  Holds-enqueue d point m waiting (o, v) same =
      let e = text_eq→eq point.device_uuid d same in
      let step : queue_of d (enqueue_for_device point m)
          ≡ enqueue_write_queue (Point F) point (queue_of d m) =
        ap (λ (u : List ℕ). queue_of d (enqueue_point (Point F) u point m)) e
        ∙ queue_of-write d point m in
      (
        rw step (enqueue-InOrder point (queue_of d m) o),
        ap view step
            ∙ view-enqueue_write_queue point (queue_of d m) o
            ∙ ap (λ (l : List (Point F)). l ++ point ∷ []) v,
      )

  pub Holds-other :
      (d : List ℕ) (point : Point F) (m : PointWriteQueueManager (Point F))
      (waiting : List (Point F))
      → Holds d m waiting
      → text_eq point.device_uuid d ≡ false
      → Holds d (enqueue_for_device point m) waiting
  unfolding Holds
  Holds-other d point m waiting (o, v) other =
      let step = queue_of-write_other d point.device_uuid point m other in
      (rw step o, ap view step ∙ v)

  Holds-requeue_points :
      (d : List ℕ) (points : List (Point F)) (m : PointWriteQueueManager (Point F))
      (waiting : List (Point F))
      → Holds d m waiting
      → Holds d (requeue_points points m) (waiting ++ open_writes d points)
  unfolding requeue_points
  Holds-requeue_points d [] m waiting h = rw (append-nil waiting) h
  Holds-requeue_points d (point ∷ points) m waiting h =
      elim (Bool-cases (is_open point.point_state)) [
        | inr closed ↦
            rw (closed, requeue_points, open_writes) (Holds-requeue_points d points m waiting h)
        | inl open' ↦ elim (Bool-cases (text_eq point.device_uuid d)) [
          | inr other ↦
              rw (open', other, requeue_points, open_writes)
                (Holds-requeue_points d points (enqueue_for_device point m) waiting
                  (Holds-other d point m waiting h other))
          | inl same ↦
              let later =
                Holds-requeue_points d points (enqueue_for_device point m) (waiting ++ point ∷ [])
                  (Holds-enqueue d point m waiting h same) in
              rw (open', same, requeue_points, open_writes)
                (rw (append_assoc waiting (point ∷ []) (open_writes d points)) at later)
        ]
      ]

  open_writes-append :
      (d : List ℕ) (xs ys : List (Point F))
      → open_writes d (xs ++ ys) ≡ open_writes d xs ++ open_writes d ys
  open_writes-append d [] ys = refl
  open_writes-append d (x ∷ xs) ys =
      elim (Bool-cases (is_open x.point_state && text_eq x.device_uuid d)) [
        | inl mine ↦ rw (mine, open_writes) (ap (◌∷◌ x) (open_writes-append d xs ys))
        | inr other ↦ rw (other, open_writes) (open_writes-append d xs ys)
      ]

  Holds-requeue_devices :
      (d : List ℕ) (devices : List (StoredDevice F)) (m : PointWriteQueueManager (Point F))
      (waiting : List (Point F))
      → Holds d m waiting
      → Holds d (requeue_devices devices m) (waiting ++ open_writes d (all_points devices))
  unfolding requeue_devices
  Holds-requeue_devices d [] m waiting h = rw (append-nil waiting) h
  Holds-requeue_devices d (device ∷ devices) m waiting h =
      let later =
        Holds-requeue_devices d devices (requeue_points device.points m)
          (waiting ++ open_writes d device.points)
          (Holds-requeue_points d device.points m waiting h) in
      let whole : (waiting ++ open_writes d device.points) ++ open_writes d (all_points devices)
          ≡ waiting ++ open_writes d (device.points ++ all_points devices) =
        append_assoc waiting (open_writes d device.points) (open_writes d (all_points devices))
        ∙ ap (λ (l : List (Point F)). waiting ++ l)
            (sym (open_writes-append d device.points (all_points devices))) in
      rw whole at later

  -- When the plugin is enabled, the new queue of each device holds exactly that device's points whose write was
  -- pending or had failed, each once and in the order of the network's devices and their points.
  pub requeue_devices-open_writes :
      (d : List ℕ) (devices : List (StoredDevice F)) (max_retry : ℕ)
      → view (queue_of d (requeue_devices devices (new_manager max_retry)))
        ≡ open_writes d (all_points devices)
  unfolding Holds find_queue run
  requeue_devices-open_writes d devices max_retry =
      (Holds-requeue_devices d devices (new_manager max_retry) [] (run-InOrder [], refl)).1
