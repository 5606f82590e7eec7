-- ===== src/Tests/Router.antt =====
-- The theorems on requests, on enabling and on the serial loop, applied.
use module_core_loraraw.Prelude.{ℕ, ◌≡◌, ◌≢◌, List, [], ◌∷◌, ◌++◌, none, some}
use module_core_loraraw.Prelude.Text.{codes, text_eq}
use module_core_loraraw.WriteQueue.Order.Steps.{run-InOrder}
use module_core_loraraw.WriteQueue.Order.{InOrder}
use module_core_loraraw.WriteQueue.Order.Fifo.{view}
use module_core_loraraw.WriteQueue.{run}
use module_core_loraraw.WriteQueue.Manager.{find_queue}
use module_core_loraraw.WriteQueue.Manager.Devices.{new_manager, queue_of}
use module_core_loraraw.Points.Store.{
  Point, StoredDevice, Marshaller, new_point, api_write_pending, api_write_failed, write_ok,
}
use module_core_loraraw.Points.Writer.{empty_writer, write_point}
use module_core_loraraw.Router.{requeue_devices, point_write_request}
use module_core_loraraw.Router.Requeue.{requeue_devices-open_writes}
use module_core_loraraw.Router.Requests.{added, point_write_request-added}
use module_core_loraraw.Serial.{
  RunEvent, serial_error, payload, opened, listening, opening, run_loop,
}
use module_core_loraraw.Serial.Loop.{run_loop-never_reopens}
use module_core_loraraw.Tests.Points.{log_db, uart_device}

abbrev waiting_point : Point ℕ
waiting_point = record new_point {
  uuid = 1 ∷ [];
  device_uuid = codes "dev";
  point_state = api_write_pending;
}

abbrev failed_point : Point ℕ
failed_point = record waiting_point { uuid = 2 ∷ []; point_state = api_write_failed }

abbrev written_point : Point ℕ
written_point = record waiting_point { uuid = 3 ∷ []; point_state = write_ok }

abbrev devices : List (StoredDevice ℕ)
devices =
    record uart_device { points = waiting_point ∷ written_point ∷ [] }
    ∷ record uart_device { points = failed_point ∷ [] }
    ∷ []

requeue_devices-open_writes_example :
    view (queue_of (codes "dev") (requeue_devices devices (new_manager 5)))
    ≡ waiting_point ∷ failed_point ∷ []
unfolding text_eq
requeue_devices-open_writes_example = requeue_devices-open_writes (codes "dev") devices 5

-- A database that answers each write with a point of the device.
abbrev answering_db : Marshaller ℕ
answering_db = record log_db { point_write = λ uuid writer s. (some waiting_point, s) }

empty_InOrder : InOrder (queue_of {P = Point ℕ} (codes "dev") (new_manager 5))
unfolding find_queue run
empty_InOrder = run-InOrder []

point_write_request-added_example :
    ((point_write_request answering_db (1 ∷ []) empty_writer ([], new_manager 5)).1.0
      ≡ (write_point answering_db (1 ∷ []) empty_writer []).1)
    × (view (
          queue_of
            (codes "dev")
            (point_write_request answering_db (1 ∷ []) empty_writer ([], new_manager 5)).1.1)
        ≡ view (queue_of (codes "dev") (new_manager 5))
          ++ added (codes "dev") (write_point answering_db (1 ∷ []) empty_writer []).0)
point_write_request-added_example =
    point_write_request-added answering_db (codes "dev") (1 ∷ []) empty_writer [] (new_manager 5)
      empty_InOrder

abbrev events : List RunEvent
events = payload (codes "00C0FFEE") ∷ serial_error (some (codes "gone")) ∷ opened none ∷ []

run_loop-never_reopens_example : (run_loop listening events).0 ≢ opening
run_loop-never_reopens_example = run_loop-never_reopens events
