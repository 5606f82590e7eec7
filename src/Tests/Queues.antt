-- ===== src/Tests/Queues.antt =====
-- The theorems on the write queues, applied.
use mathlib.Core.List.{Memᴰ}
use module_core_loraraw.Prelude.{
  ℕ, ◌≡◌, refl, arith, List, [], ◌∷◌, none, some, true, false, get_elem?,
}
use module_core_loraraw.Prelude.Text.{text_eq}
use module_core_loraraw.WriteQueue.{
  PendingPointWrite, PointWriteQueue, new_point_write_queue, enqueue_write_queue, set_message,
  dequeue, dequeue_using_message_id, Operation, enqueue, message, retry, dequeued, apply, run,
}
use module_core_loraraw.WriteQueue.Order.{InOrder}
use module_core_loraraw.WriteQueue.Order.Steps.{run-InOrder}
use module_core_loraraw.WriteQueue.Order.Answered.{dequeue_using_message_id-Sent}
use module_core_loraraw.WriteQueue.Ledger.{ledger}
use module_core_loraraw.WriteQueue.Ledger.Fifo.{ledger-run}
use module_core_loraraw.WriteQueue.Ledger.Attempts.{write, response, prepare, fail}
use module_core_loraraw.WriteQueue.Retry.{failures, failures-below, failures-exhaust}
use module_core_loraraw.WriteQueue.Manager.{PointWriteQueueManager}
use module_core_loraraw.WriteQueue.Manager.Devices.{
  ManagerOperation, at_device, pick, new_manager, queue_of, run_manager,
}
use module_core_loraraw.WriteQueue.Manager.Ledgers.{ledger-run_manager}
use module_core_loraraw.WriteQueue.Manager.Fair.{Pick, next_pending-Pick}

-- Points are numbers. Two writes wait, the first one was sent under the id 9.
abbrev calls : List (Operation ℕ)
calls = enqueue 100 ∷ enqueue 200 ∷ message 0 9 (1 ∷ []) ∷ []

run-InOrder_example : InOrder (run ℕ calls (new_point_write_queue ℕ))
run-InOrder_example = run-InOrder calls

first_answered : (dequeue_using_message_id ℕ 9 (run ℕ calls (new_point_write_queue ℕ))).1 ≡ some 100
unfolding dequeue_using_message_id dequeue run apply enqueue_write_queue set_message
first_answered = refl

dequeue_using_message_id-Sent_example :
    (head : ℕ) × (rest : List ℕ) × (bytes : List ℕ) × ((run ℕ calls
        (new_point_write_queue ℕ)).write_queue
      ≡ head ∷ rest)
    × (get_elem? {A = ℕ} (100 ∷ 200 ∷ []) head ≡ some 100)
    × Memᴰ (message head 9 bytes) calls
dequeue_using_message_id-Sent_example = dequeue_using_message_id-Sent calls 9 100 first_answered

abbrev fresh : PendingPointWrite ℕ
fresh = record {
  message_id = 9;
  message = some (1 ∷ []);
  point = 100;
  retry_count = 0;
  is_done = false;
  acked = false;
}

abbrev one_write : PointWriteQueue ℕ
one_write = record { items = fresh ∷ []; write_queue = 0 ∷ [] }

failures-below_example :
    ((failures 2 3 0 one_write).0.write_queue ≡ 0 ∷ []) × ((failures 2 3 0 one_write).1 ≡ 0)
failures-below_example = failures-below 2 3 0 [] one_write fresh refl refl (omega arith)

failures-exhaust_example :
    ((failures 3 3 0 one_write).0.write_queue ≡ []) × ((failures 3 3 0 one_write).1 ≡ 1)
failures-exhaust_example = failures-exhaust 3 3 0 [] one_write fresh refl refl refl (omega arith)

abbrev one_device : PointWriteQueueManager ℕ
one_device = record {
  queues = (7 ∷ [], one_write) ∷ [];
  order = (7 ∷ []) ∷ [];
  rr_index = 0;
  max_retry = 3;
}

next_pending-Pick_example : Pick one_device
next_pending-Pick_example = next_pending-Pick one_device

-- The first write is answered, and the second one fails once.
abbrev more_calls : List (Operation ℕ)
more_calls = enqueue 100 ∷ enqueue 200 ∷ message 0 9 (1 ∷ []) ∷ dequeued (some 9) ∷ retry 1 ∷ []

ledger-run_example : ledger (run ℕ more_calls (new_point_write_queue ℕ)) ≡ record {
  next = 2;
  waiting = record { number = 1; point = 200; sent = none; tries = 1 } ∷ [];
  settled = (100, true) ∷ [];
}
ledger-run_example = ledger-run more_calls

-- Two devices. The first one's write is sent and answered, while the other one's fails for the last time.
abbrev manager_calls : List (ManagerOperation ℕ)
manager_calls =
    at_device (1 ∷ []) (write 100)
    ∷ at_device (2 ∷ []) (write 200)
    ∷ pick
    ∷ at_device (1 ∷ []) (prepare 0 (some (9, 1 ∷ [])))
    ∷ at_device (2 ∷ []) (fail 0)
    ∷ at_device (1 ∷ []) (response 9)
    ∷ at_device (1 ∷ []) (write 300)
    ∷ []

ledger-run_manager_example :
    ledger (queue_of (1 ∷ []) (run_manager manager_calls (new_manager 1))) ≡ record {
      next = 2;
      waiting = record { number = 1; point = 300; sent = none; tries = 0 } ∷ [];
      settled = (100, true) ∷ [];
    }
unfolding text_eq
ledger-run_manager_example = ledger-run_manager (1 ∷ []) manager_calls 1
