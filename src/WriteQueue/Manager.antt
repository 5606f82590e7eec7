-- ===== src/WriteQueue/Manager.antt =====
-- pkg/writeQueueManager.go: the devices' queues, the choice of the next frame and one attempt to send it.
-- What the radio, the database and the other goroutines do is given as arguments.
pub mod Fair
pub mod Devices
pub mod Ledgers
use module_core_loraraw.Prelude.{
  ℕ, zero, suc, ◌+◌, ◌%◌, Bool, true, false, List, [], ◌∷◌, ◌++◌, Option, none, some, length,
  get_elem?, ltb, if◌then◌else◌, ◌==◌,
}
use module_core_loraraw.Prelude.Text.{text_eq}
use module_core_loraraw.WriteQueue.{
  PendingPointWrite, PointWriteQueue, Operation, new_point_write_queue, enqueue_write_queue, peek,
  set_message, inc_retry, remove_item, dequeue, run,
}

module _ (P : Type 0) where
  pub record PointWriteQueueManager : Type 0 where
    -- the map from a device's UUID
    pub queues : List (List ℕ × PointWriteQueue P)
    pub order : List (List ℕ)
    pub rr_index : ℕ
    pub max_retry : ℕ

  unfoldable pub find_queue :
      List ℕ → List (List ℕ × PointWriteQueue P) → Option (PointWriteQueue P)
  find_queue uuid [] = none
  find_queue uuid ((key, q) ∷ rest) =
      let later = find_queue uuid rest in if text_eq key uuid then some q else later

  unfoldable pub store_queue :
      List ℕ
      → PointWriteQueue P
      → List (List ℕ × PointWriteQueue P)
      → List (List ℕ × PointWriteQueue P)
  store_queue uuid q [] = (uuid, q) ∷ []
  store_queue uuid q ((key, old) ∷ rest) =
      let later = store_queue uuid q rest in
      if text_eq key uuid then (key, q) ∷ rest else (key, old) ∷ later

  unfoldable pub get_or_create_queue :
      List ℕ → PointWriteQueueManager → PointWriteQueueManager × PointWriteQueue P
  get_or_create_queue uuid m = elim (find_queue uuid m.queues) [
    | some q ↦ (m, q)
    | none ↦ (
      record m {
        queues = store_queue uuid (new_point_write_queue P) m.queues;
        order = m.order ++ uuid ∷ [];
      },
      new_point_write_queue P,
    )
  ]

  unfoldable pub enqueue_point : List ℕ → P → PointWriteQueueManager → PointWriteQueueManager
  enqueue_point uuid point m =
      let (m', q) = get_or_create_queue uuid m in
      record m' { queues = store_queue uuid (enqueue_write_queue P point q) m'.queues }

  unfoldable pub dequeue_for_device :
      List ℕ → ℕ → PointWriteQueueManager → PointWriteQueueManager × Option P
  dequeue_for_device uuid id m = elim (find_queue uuid m.queues) [
    | none ↦ (m, none)
    | some q ↦
        let (q', item) = dequeue P (some id) q in
        (
          record m { queues = store_queue uuid q' m.queues },
          elim item [ none ↦ none | some x ↦ some x.point ],
        )
  ]

  -- The head of the queue of the device in a place of the order. Every device of the order has a queue.
  unfoldable pub pending_at : PointWriteQueueManager → ℕ → Option (List ℕ × ℕ)
  pending_at m idx = elim (get_elem? m.order idx) [
    | none ↦ none
    | some uuid ↦ elim (find_queue uuid m.queues) [
      | none ↦ none
      | some q ↦ elim (peek P q) [ none ↦ none | some item ↦ some (uuid, item) ]
    ]
  ]

  -- The loop from `i` on, for `rounds` rounds.
  unfoldable pub search_pending : ℕ → ℕ → PointWriteQueueManager → Option (ℕ × List ℕ × ℕ)
  search_pending zero i m = none
  search_pending (suc rounds) i m =
      let idx = (m.rr_index + i) % length m.order in
      elim (pending_at m idx) [
        | some (uuid, item) ↦ some (idx, uuid, item)
        | none ↦ search_pending rounds (i + 1) m
      ]

  unfoldable pub next_pending :
      PointWriteQueueManager → PointWriteQueueManager × Option (List ℕ × ℕ)
  next_pending m = elim (search_pending (length m.order) 0 m) [
    | none ↦ (m, none)
    | some (idx, uuid, item) ↦ (record m { rr_index = idx + 1 }, some (uuid, item))
  ]

  -- Whether the write is given up, which onWriteExhausted hears of.
  unfoldable pub finish_attempt : ℕ → ℕ → PointWriteQueue P → PointWriteQueue P × Bool
  finish_attempt max_retry item q =
      let (q', count) = inc_retry P item q in
      elim count [
        | none ↦ (q', false)
        | some n ↦ if ltb n max_retry then (q', false) else remove_item P item q'
      ]

  pub data Wait : Type 0 where
    responded timed_out stopped : Wait

  unfoldable pub await : ℕ → ℕ → PointWriteQueue P → Wait → PointWriteQueue P × Bool
  await max_retry item q responded = (q, false)
  await max_retry item q timed_out = finish_attempt max_retry item q
  await max_retry item q stopped = (q, false)

  -- A frame is written, other goroutines use the queue, and the wait ends.
  unfoldable pub send :
      ℕ → ℕ → Bool → List (Operation P) → Wait → PointWriteQueue P → PointWriteQueue P × Bool
  send max_retry item written meanwhile wait q =
      if written
      then await max_retry item (run P meanwhile q) wait
      else finish_attempt max_retry item q

  -- The start of transmit: an item with no message gets that of prepareMessage with its id, `prepared`, or is
  -- removed where that is an error.
  unfoldable pub prepare_attempt : ℕ → Option (ℕ × List ℕ) → PointWriteQueue P → PointWriteQueue P
  prepare_attempt item prepared q = elim (get_elem? q.items item) [
    | none ↦ q
    | some x ↦ elim x.message [
      | some m ↦ q
      | none ↦ elim prepared [
        | none ↦ (remove_item P item q).0
        | some (id, bytes) ↦ set_message P item id bytes q
      ]
    ]
  ]

  -- `prepared` is the message of prepareMessage with its id, or an error.
  unfoldable pub transmit :
      ℕ
      → ℕ
      → Option (ℕ × List ℕ)
      → Bool
      → List (Operation P)
      → Wait
      → PointWriteQueue P
      → PointWriteQueue P × Bool
  transmit max_retry item prepared written meanwhile wait q = elim (get_elem? q.items item) [
    | none ↦ (q, false)
    | some x ↦ elim x.message [
      | some m ↦ send max_retry item written meanwhile wait q
      | none ↦ elim prepared [
        | none ↦ ((remove_item P item q).0, false)
        | some (id, bytes) ↦
            send max_retry item written meanwhile wait (set_message P item id bytes q)
      ]
    ]
  ]
