-- ===== src/WriteQueue.antt =====
-- pkg/writeQueue.go: one device's pending writes.
-- The items that EnqueueWriteQueue made are numbered; a number stands for the pointer. Every method
-- locks the queue, so the methods happen one after the other.
pub mod Order
pub mod Retry
pub mod Ledger
pub mod Manager
use module_core_loraraw.Prelude.{
  ℕ, zero, suc, ◌+◌, Bool, true, false, not, ◌||◌, List, [], ◌∷◌, ◌++◌, Option, none, some, length,
  get_elem?, if◌then◌else◌, ◌==◌,
}

module _ (P : Type 0) where
  pub record PendingPointWrite : Type 0 where
    pub message_id : ℕ
    pub message : Option (List ℕ)
    pub point : P
    pub retry_count : ℕ
    -- `done` is closed
    pub is_done : Bool
    pub acked : Bool

  pub record PointWriteQueue : Type 0 where
    pub items : List PendingPointWrite
    pub write_queue : List ℕ

  abbrev pub new_point_write_queue : PointWriteQueue
  new_point_write_queue = record { items = []; write_queue = [] }

  abbrev pub modify :
      (PendingPointWrite → PendingPointWrite) → ℕ → List PendingPointWrite → List PendingPointWrite
  modify f i [] = []
  modify f zero (x ∷ xs) = f x ∷ xs
  modify f (suc i) (x ∷ xs) = x ∷ modify f i xs

  -- Once only.
  unfoldable pub mark_done : Bool → PendingPointWrite → PendingPointWrite
  mark_done acked item =
      if item.is_done then item else record item { is_done = true; acked = acked }

  -- The new item is the last number.
  unfoldable pub enqueue_write_queue : P → PointWriteQueue → PointWriteQueue
  enqueue_write_queue point q = record {
    items =
        q.items
        ++ record {
          message_id = 0;
          message = none;
          point = point;
          retry_count = 0;
          is_done = false;
          acked = false;
        }
          ∷ [];
    write_queue = q.write_queue ++ length q.items ∷ [];
  }

  unfoldable pub peek : PointWriteQueue → Option ℕ
  peek q = elim q.write_queue [ [] ↦ none | head ∷ rest ↦ some head ]

  unfoldable pub set_message : ℕ → ℕ → List ℕ → PointWriteQueue → PointWriteQueue
  set_message item message_id message q = record q {
    items = modify (λ x. record x { message_id = message_id; message = some message }) item q.items;
  }

  -- The new count too; an item always is one of the queue's.
  unfoldable pub inc_retry : ℕ → PointWriteQueue → PointWriteQueue × Option ℕ
  inc_retry item q = (
    record q { items = modify (λ x. record x { retry_count = x.retry_count + 1 }) item q.items },
    elim (get_elem? q.items item) [ none ↦ none | some x ↦ some (x.retry_count + 1) ],
  )

  -- The head leaves, marked.
  abbrev pub leave : Bool → ℕ → List ℕ → PointWriteQueue → PointWriteQueue
  leave acked head rest q = record {
    items = modify (mark_done acked) head q.items;
    write_queue = rest;
  }

  unfoldable pub remove_item : ℕ → PointWriteQueue → PointWriteQueue × Bool
  remove_item item q = elim q.write_queue [
    | [] ↦ (q, false)
    | head ∷ rest ↦ if head == item then (leave false head rest q, true) else (q, false)
  ]

  -- `head.Message != nil && head.MessageId == messageId`
  abbrev pub answers : ℕ → PendingPointWrite → Bool
  answers message_id item = elim item.message [
    | none ↦ false
    | some m ↦ item.message_id == message_id
  ]

  abbrev pub dequeue_head :
      Option ℕ → ℕ → List ℕ → PointWriteQueue → PointWriteQueue × Option PendingPointWrite
  dequeue_head message_id head rest q = elim (get_elem? q.items head) [
    | none ↦ (q, none)
    | some item ↦ elim message_id [
      | none ↦ (leave false head rest q, some item)
      | some id ↦ if answers id item then (leave true head rest q, some item) else (q, none)
    ]
  ]

  -- The item, as it was in the queue, where it leaves.
  unfoldable pub dequeue : Option ℕ → PointWriteQueue → PointWriteQueue × Option PendingPointWrite
  dequeue message_id q = elim q.write_queue [
    | [] ↦ (q, none)
    | head ∷ rest ↦ dequeue_head message_id head rest q
  ]

  unfoldable pub dequeue_using_message_id : ℕ → PointWriteQueue → PointWriteQueue × Option P
  dequeue_using_message_id message_id q =
      let (q', item) = dequeue (some message_id) q in
      (q', elim item [ none ↦ none | some x ↦ some x.point ])

  abbrev pub size : PointWriteQueue → ℕ
  size q = length q.write_queue

  -- The methods of the queue that change it.
  pub data Operation : Type 0 where
    enqueue : P → Operation
    message : ℕ → ℕ → List ℕ → Operation
    retry : ℕ → Operation
    remove : ℕ → Operation
    dequeued : Option ℕ → Operation

  unfoldable pub apply : Operation → PointWriteQueue → PointWriteQueue
  apply (enqueue point) q = enqueue_write_queue point q
  apply (message item id bytes) q = set_message item id bytes q
  apply (retry item) q = (inc_retry item q).0
  apply (remove item) q = (remove_item item q).0
  apply (dequeued id) q = (dequeue id q).0

  unfoldable pub run : List Operation → PointWriteQueue → PointWriteQueue
  run [] q = q
  run (o ∷ os) q = run os (apply o q)
