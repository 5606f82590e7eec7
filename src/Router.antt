-- ===== src/Router.antt =====
-- pkg/router.go and pkg/enable.go: the requests that change points, devices and queues, and the pings of a
-- UART. The JSON of a request is decoded before, and that of an answer encoded behind them.
pub mod Requeue
pub mod Requests
use module_core_loraraw.Prelude.{
  ℕ, zero, suc, Bool, true, false, ◌||◌, not, List, [], ◌∷◌, Option, none, some, length, ltb, leb,
  if◌then◌else◌,
}
use module_core_loraraw.Prelude.Int.{pos}
use module_core_loraraw.Prelude.Go.{Go, done, panic}
use module_core_loraraw.Prelude.Text.{codes, text_eq}
use module_core_loraraw.Prelude.Decimal.{itoa}
use module_core_loraraw.Rubix.MetaData.{mdk_bool}
use module_core_loraraw.WriteQueue.Manager.{PointWriteQueueManager, enqueue_point}
use module_core_loraraw.Points.Store.{
  Point, PointWriter, StoredDevice, Marshaller, PointState, api_write_pending, api_write_failed,
  new_point,
}
use module_core_loraraw.Points.Writer.{write_point}

-- A write that has not reached its device.
abbrev pub is_open : PointState → Bool
is_open api_write_pending = true
is_open api_write_failed = true
is_open _ = false

abbrev pub uart_ping_max_retries : ℕ
uart_ping_max_retries = 10

abbrev pub uart_ping_min_points_required : ℕ
uart_ping_min_points_required = 10

module _ {F : Type 0} where
  -- EnqueuePoint takes the device from the point.
  abbrev pub enqueue_for_device :
      Point F → PointWriteQueueManager (Point F) → PointWriteQueueManager (Point F)
  enqueue_for_device point m = enqueue_point (Point F) point.device_uuid point m

  -- The loops of Enable over a network's devices and their points.
  unfoldable pub requeue_points :
      List (Point F) → PointWriteQueueManager (Point F) → PointWriteQueueManager (Point F)
  requeue_points [] m = m
  requeue_points (point ∷ points) m =
      requeue_points points (if is_open point.point_state then enqueue_for_device point m else m)

  unfoldable pub requeue_devices :
      List (StoredDevice F) → PointWriteQueueManager (Point F) → PointWriteQueueManager (Point F)
  requeue_devices [] m = m
  requeue_devices (device ∷ devices) m = requeue_devices devices (requeue_points device.points m)

  -- The point that pings a UART; `one` is the value 1.
  abbrev pub ping_point : F → StoredDevice F → Point F
  ping_point one device = record new_point {
    io_number = codes "UVP-4";
    address_id = some (pos 4);
    data_type = itoa mdk_bool;
    device_uuid = device.uuid;
    address_uuid = device.address_uuid;
    write_value = some one;
  }

  module _ (db : Marshaller F) where
    -- The state that requests change.
    abbrev pub State : Type 0
    State = db.S × PointWriteQueueManager (Point F)

    -- PointWrite: a write is queued once the database has it.
    abbrev pub queue_written :
        Option (Point F) × db.S → PointWriteQueueManager (Point F) → Option (Point F) × State
    queue_written (none, s) m = (none, (s, m))
    queue_written (some point, s) m = (some point, (s, enqueue_for_device point m))

    unfoldable pub point_write_request : List ℕ → PointWriter F → State → Option (Point F) × State
    point_write_request uuid body (s, m) = queue_written (write_point db uuid body s) m

    abbrev pub enough_points : Option (StoredDevice F) → Bool
    enough_points none = false
    enough_points (some device) = leb uart_ping_min_points_required (length device.points)

    -- enqueueUartPingWithRetry, with the attempts that are left. `waited` is the state that the radio, the other
    -- requests and the scheduler make of it in the interval of an attempt.
    unfoldable pub ping_with_retry : F → StoredDevice F → (ℕ → State → State) → ℕ → State → State
    ping_with_retry one device waited zero state = state
    ping_with_retry one device waited (suc left) (s, m) =
        let (s1, m1) = waited left (s, enqueue_for_device (ping_point one device) m) in
        let (found, s2) = db.get_device device.uuid s1 in
        let later = ping_with_retry one device waited left (s2, m1) in
        if enough_points found then (s2, m1) else later

    -- enqueueUartPing, for devices of the model UART.
    unfoldable pub enqueue_uart_ping : F → StoredDevice F → (ℕ → State → State) → State → State
    enqueue_uart_ping one device waited state =
        if text_eq device.model (codes "UART")
        then ping_with_retry one device waited uart_ping_max_retries state
        else state
