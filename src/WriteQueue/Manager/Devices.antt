-- ===== src/WriteQueue/Manager/Devices.antt =====
-- pkg/writeQueueManager.go: the queues of the devices do not touch each other.
use module_core_loraraw.Prelude.{
  ℕ, ◌≡◌, refl, sym, ap, ◌∙◌, false, List, [], ◌∷◌, Option, none, some, length, Bool-cases,
  Option-cases, inl, inr, if◌then◌else◌,
}
use module_core_loraraw.Prelude.Text.{text_eq, text_eq_refl, text_eq→eq}
use module_core_loraraw.WriteQueue.{
  PointWriteQueue, new_point_write_queue, enqueue_write_queue, inc_retry, dequeue,
}
use module_core_loraraw.WriteQueue.Manager.{
  PointWriteQueueManager, find_queue, store_queue, get_or_create_queue, enqueue_point,
  dequeue_for_device, next_pending, search_pending, prepare_attempt, finish_attempt,
}
use module_core_loraraw.WriteQueue.Ledger.{Ledger}
use module_core_loraraw.WriteQueue.Ledger.Attempts.{
  QueueCall, write, response, prepare, fail, call, call_step,
}

-- A call on the queue of one device, or the scheduler's choice.
pub data ManagerOperation (P : Type 0) : Type 0 where
  at_device : List ℕ → QueueCall P → ManagerOperation P
  pick : ManagerOperation P

module _ {P : Type 0} where
  -- NewPointWriteQueueManager
  abbrev pub new_manager : ℕ → PointWriteQueueManager P
  new_manager max_retry = record { queues = []; order = []; rr_index = 0; max_retry = max_retry }

  abbrev pub or_new : Option (PointWriteQueue P) → PointWriteQueue P
  or_new none = new_point_write_queue P
  or_new (some q) = q

  -- The queue of a device; one that has not been made is empty.
  abbrev pub queue_of : List ℕ → PointWriteQueueManager P → PointWriteQueue P
  queue_of uuid m = or_new (find_queue P uuid m.queues)

  -- The scheduler's call on the queue that nextPending gave it.
  abbrev pub at_queue :
      List ℕ
      → (PointWriteQueue P → PointWriteQueue P)
      → PointWriteQueueManager P
      → PointWriteQueueManager P
  at_queue uuid f m = elim (find_queue P uuid m.queues) [
    | none ↦ m
    | some q ↦ record m { queues = store_queue P uuid (f q) m.queues }
  ]

  abbrev pub apply_call : List ℕ → QueueCall P → PointWriteQueueManager P → PointWriteQueueManager P
  apply_call uuid (write point) m = enqueue_point P uuid point m
  apply_call uuid (response id) m = (dequeue_for_device P uuid id m).0
  apply_call uuid (prepare item prepared) m = at_queue uuid (prepare_attempt P item prepared) m
  apply_call uuid (fail item) m = at_queue uuid (λ q. (finish_attempt P m.max_retry item q).0) m

  abbrev pub apply_manager :
      ManagerOperation P → PointWriteQueueManager P → PointWriteQueueManager P
  apply_manager (at_device uuid c) m = apply_call uuid c m
  apply_manager pick m = (next_pending P m).0

  abbrev pub run_manager :
      List (ManagerOperation P) → PointWriteQueueManager P → PointWriteQueueManager P
  run_manager [] m = m
  run_manager (o ∷ os) m = run_manager os (apply_manager o m)

  -- Those of a device alone.
  abbrev pub calls_of : List ℕ → List (ManagerOperation P) → List (QueueCall P)
  calls_of d [] = []
  calls_of d (at_device uuid c ∷ os) =
      let later = calls_of d os in if text_eq uuid d then c ∷ later else later
  calls_of d (pick ∷ os) = calls_of d os

  abbrev pub calls : ℕ → List (QueueCall P) → PointWriteQueue P → PointWriteQueue P
  calls max_retry [] q = q
  calls max_retry (c ∷ cs) q = calls max_retry cs (call max_retry c q)

  abbrev pub call_steps : ℕ → List (QueueCall P) → Ledger P → Ledger P
  call_steps max_retry [] l = l
  call_steps max_retry (c ∷ cs) l = call_steps max_retry cs (call_step max_retry c l)

  find_queue-store_queue :
      (d : List ℕ) (q : PointWriteQueue P) (queues : List (List ℕ × PointWriteQueue P))
      → find_queue P d (store_queue P d q queues) ≡ some q
  unfolding find_queue store_queue
  find_queue-store_queue d q [] = rw (text_eq_refl d) refl
  find_queue-store_queue d q ((key, old) ∷ rest) = elim (Bool-cases (text_eq key d)) [
    | inl same ↦ rw (same, store_queue) (rw (same, find_queue) refl)
    | inr other ↦ rw (other, store_queue) (rw (other, find_queue) (find_queue-store_queue d q rest))
  ]

  find_queue-store_queue_other :
      (d uuid : List ℕ) (q : PointWriteQueue P) (queues : List (List ℕ × PointWriteQueue P))
      → text_eq uuid d ≡ false
      → find_queue P d (store_queue P uuid q queues) ≡ find_queue P d queues
  unfolding find_queue store_queue
  find_queue-store_queue_other d uuid q [] h = rw h refl
  find_queue-store_queue_other d uuid q ((key, old) ∷ rest) h =
      let later = find_queue-store_queue_other d uuid q rest h in
      elim (Bool-cases (text_eq key uuid)) [
        | inl same ↦
            let other : text_eq key d ≡ false = rw (text_eq→eq key uuid same) h in
            rw (same, store_queue) (rw (other, find_queue) refl)
        | inr different ↦ elim (Bool-cases (text_eq key d)) [
          | inl mine ↦ rw (different, store_queue) (rw (mine, find_queue) refl)
          | inr other ↦ rw (different, store_queue) (rw (other, find_queue) later)
        ]
      ]

  pub queue_of-write :
      (d : List ℕ) (point : P) (m : PointWriteQueueManager P)
      → queue_of d (enqueue_point P d point m) ≡ enqueue_write_queue P point (queue_of d m)
  unfolding enqueue_point get_or_create_queue
  queue_of-write d point m = elim (Option-cases (find_queue P d m.queues)) [
    | inl absent ↦
        rw (absent, enqueue_point, get_or_create_queue)
          (ap or_new (
            find_queue-store_queue d (enqueue_write_queue P point (new_point_write_queue P))
              (store_queue P d (new_point_write_queue P) m.queues)))
    | inr (q, found) ↦
        rw (found, enqueue_point, get_or_create_queue)
          (ap or_new (find_queue-store_queue d (enqueue_write_queue P point q) m.queues))
  ]

  pub queue_of-write_other :
      (d uuid : List ℕ) (point : P) (m : PointWriteQueueManager P)
      → text_eq uuid d ≡ false
      → queue_of d (enqueue_point P uuid point m) ≡ queue_of d m
  unfolding enqueue_point get_or_create_queue
  queue_of-write_other d uuid point m h = elim (Option-cases (find_queue P uuid m.queues)) [
    | inl absent ↦
        rw (absent, enqueue_point, get_or_create_queue)
          (ap or_new (
            find_queue-store_queue_other d uuid _
              (store_queue P uuid (new_point_write_queue P) m.queues) h
            ∙ find_queue-store_queue_other d uuid (new_point_write_queue P) m.queues h))
    | inr (q, found) ↦
        rw (found, enqueue_point, get_or_create_queue)
          (ap or_new (find_queue-store_queue_other d uuid _ m.queues h))
  ]

  queue_of-response :
      (d : List ℕ) (id : ℕ) (m : PointWriteQueueManager P)
      → queue_of d (dequeue_for_device P d id m).0 ≡ (dequeue P (some id) (queue_of d m)).0
  unfolding dequeue_for_device dequeue
  queue_of-response d id m = elim (Option-cases (find_queue P d m.queues)) [
    | inl absent ↦ rw (absent, dequeue_for_device) (rw absent refl)
    | inr (q, found) ↦
        rw (found, dequeue_for_device)
          (ap or_new (find_queue-store_queue d (dequeue P (some id) q).0 m.queues))
  ]

  queue_of-response_other :
      (d uuid : List ℕ) (id : ℕ) (m : PointWriteQueueManager P)
      → text_eq uuid d ≡ false
      → queue_of d (dequeue_for_device P uuid id m).0 ≡ queue_of d m
  unfolding dequeue_for_device
  queue_of-response_other d uuid id m h = elim (Option-cases (find_queue P uuid m.queues)) [
    | inl absent ↦ rw (absent, dequeue_for_device) refl
    | inr (q, found) ↦
        rw (found, dequeue_for_device)
          (ap or_new (find_queue-store_queue_other d uuid _ m.queues h))
  ]

  queue_of-at_queue :
      (d : List ℕ) (f : PointWriteQueue P → PointWriteQueue P) (m : PointWriteQueueManager P)
      → f (new_point_write_queue P) ≡ new_point_write_queue P
      → queue_of d (at_queue d f m) ≡ f (queue_of d m)
  queue_of-at_queue d f m empty = elim (Option-cases (find_queue P d m.queues)) [
    | inl absent ↦ rw (absent, at_queue) (rw absent (sym empty))
    | inr (q, found) ↦ rw (found, at_queue) (ap or_new (find_queue-store_queue d (f q) m.queues))
  ]

  queue_of-at_queue_other :
      (d uuid : List ℕ) (f : PointWriteQueue P → PointWriteQueue P) (m : PointWriteQueueManager P)
      → text_eq uuid d ≡ false
      → queue_of d (at_queue uuid f m) ≡ queue_of d m
  queue_of-at_queue_other d uuid f m h = elim (Option-cases (find_queue P uuid m.queues)) [
    | inl absent ↦ rw (absent, at_queue) refl
    | inr (q, found) ↦
        rw (found, at_queue) (ap or_new (find_queue-store_queue_other d uuid (f q) m.queues h))
  ]

  pub queue_of-apply_call :
      (d : List ℕ) (c : QueueCall P) (m : PointWriteQueueManager P)
      → queue_of d (apply_call d c m) ≡ call m.max_retry c (queue_of d m)
  unfolding call prepare_attempt finish_attempt inc_retry
  queue_of-apply_call d (write point) m = queue_of-write d point m
  queue_of-apply_call d (response id) m = queue_of-response d id m
  queue_of-apply_call d (prepare item prepared) m =
      queue_of-at_queue d (prepare_attempt P item prepared) m refl
  queue_of-apply_call d (fail item) m =
      queue_of-at_queue d (λ q. (finish_attempt P m.max_retry item q).0) m refl

  pub queue_of-apply_call_other :
      (d uuid : List ℕ) (c : QueueCall P) (m : PointWriteQueueManager P)
      → text_eq uuid d ≡ false
      → queue_of d (apply_call uuid c m) ≡ queue_of d m
  queue_of-apply_call_other d uuid (write point) m h = queue_of-write_other d uuid point m h
  queue_of-apply_call_other d uuid (response id) m h = queue_of-response_other d uuid id m h
  queue_of-apply_call_other d uuid (prepare item prepared) m h =
      queue_of-at_queue_other d uuid (prepare_attempt P item prepared) m h
  queue_of-apply_call_other d uuid (fail item) m h =
      queue_of-at_queue_other d uuid (λ q. (finish_attempt P m.max_retry item q).0) m h

  max_retry-at_queue :
      (uuid : List ℕ) (f : PointWriteQueue P → PointWriteQueue P) (m : PointWriteQueueManager P)
      → (at_queue uuid f m).max_retry ≡ m.max_retry
  max_retry-at_queue uuid f m = elim (Option-cases (find_queue P uuid m.queues)) [
    | inl absent ↦ rw (absent, at_queue) refl
    | inr (q, found) ↦ rw (found, at_queue) refl
  ]

  max_retry-response :
      (uuid : List ℕ) (id : ℕ) (m : PointWriteQueueManager P)
      → (dequeue_for_device P uuid id m).0.max_retry ≡ m.max_retry
  unfolding dequeue_for_device
  max_retry-response uuid id m = elim (Option-cases (find_queue P uuid m.queues)) [
    | inl absent ↦ rw (absent, dequeue_for_device) refl
    | inr (q, found) ↦ rw (found, dequeue_for_device) refl
  ]

  pub max_retry-apply_call :
      (uuid : List ℕ) (c : QueueCall P) (m : PointWriteQueueManager P)
      → (apply_call uuid c m).max_retry ≡ m.max_retry
  unfolding enqueue_point get_or_create_queue
  max_retry-apply_call uuid (write point) m = elim (Option-cases (find_queue P uuid m.queues)) [
    | inl absent ↦ rw (absent, enqueue_point, get_or_create_queue) refl
    | inr (q, found) ↦ rw (found, enqueue_point, get_or_create_queue) refl
  ]
  max_retry-apply_call uuid (response id) m = max_retry-response uuid id m
  max_retry-apply_call uuid (prepare item prepared) m =
      max_retry-at_queue uuid (prepare_attempt P item prepared) m
  max_retry-apply_call uuid (fail item) m =
      max_retry-at_queue uuid (λ q. (finish_attempt P m.max_retry item q).0) m

  pub max_retry-next_pending :
      (m : PointWriteQueueManager P) → (next_pending P m).0.max_retry ≡ m.max_retry
  unfolding next_pending
  max_retry-next_pending m = elim (Option-cases (search_pending P (length m.order) 0 m)) [
    | inl nothing ↦ rw (nothing, next_pending) refl
    | inr (chosen, found) ↦ rw (found, next_pending) refl
  ]

  pub queues-next_pending : (m : PointWriteQueueManager P) → (next_pending P m).0.queues ≡ m.queues
  unfolding next_pending
  queues-next_pending m = elim (Option-cases (search_pending P (length m.order) 0 m)) [
    | inl nothing ↦ rw (nothing, next_pending) refl
    | inr (chosen, found) ↦ rw (found, next_pending) refl
  ]
