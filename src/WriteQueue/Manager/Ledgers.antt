-- ===== src/WriteQueue/Manager/Ledgers.antt =====
-- pkg/writeQueueManager.go: a ledger for each device.
use module_core_loraraw.Prelude.{ℕ, ◌≡◌, refl, ap, ◌∙◌, List, [], ◌∷◌, Bool-cases, inl, inr}
use module_core_loraraw.Prelude.Text.{text_eq, text_eq→eq}
use module_core_loraraw.WriteQueue.{PointWriteQueue, new_point_write_queue, run}
use module_core_loraraw.WriteQueue.Order.{InOrder}
use module_core_loraraw.WriteQueue.Order.Steps.{run-InOrder}
use module_core_loraraw.WriteQueue.Manager.{PointWriteQueueManager, find_queue, next_pending}
use module_core_loraraw.WriteQueue.Ledger.{empty_ledger, ledger}
use module_core_loraraw.WriteQueue.Ledger.Refines.{ledger_of, ledger-ledger_of}
use module_core_loraraw.WriteQueue.Ledger.Attempts.{QueueCall, call}
use module_core_loraraw.WriteQueue.Ledger.Calls.{Takes, call-Takes}
use module_core_loraraw.WriteQueue.Manager.Devices.{
  ManagerOperation, at_device, pick, new_manager, or_new, queue_of, apply_call, run_manager,
  calls_of, calls, call_steps, queue_of-apply_call, queue_of-apply_call_other, max_retry-apply_call,
  max_retry-next_pending, queues-next_pending,
}

module _ {P : Type 0} where
  queue_of-run_manager :
      (d : List ℕ) (max_retry : ℕ) (os : List (ManagerOperation P)) (m : PointWriteQueueManager P)
      → m.max_retry ≡ max_retry
      → queue_of d (run_manager os m) ≡ calls max_retry (calls_of d os) (queue_of d m)
  queue_of-run_manager d max_retry [] m e = refl
  queue_of-run_manager d max_retry (at_device uuid c ∷ os) m e =
      let rest =
        queue_of-run_manager d max_retry os (apply_call uuid c m)
          (max_retry-apply_call uuid c m ∙ e) in
      elim (Bool-cases (text_eq uuid d)) [
        | inl same ↦
            let mine : queue_of d (apply_call uuid c m) ≡ call max_retry c (queue_of d m) =
              ap (λ (u : List ℕ). queue_of d (apply_call u c m)) (text_eq→eq uuid d same)
              ∙ queue_of-apply_call d c m
              ∙ ap (λ (n : ℕ). call n c (queue_of d m)) e in
            rw (same, calls_of) (rest ∙ ap (calls max_retry (calls_of d os)) mine)
        | inr other ↦
            rw (other, calls_of)
              (rest
                ∙ ap (calls max_retry (calls_of d os)) (queue_of-apply_call_other d uuid c m other))
      ]
  queue_of-run_manager d max_retry (pick ∷ os) m e =
      queue_of-run_manager d max_retry os (next_pending P m).0 (max_retry-next_pending m ∙ e)
      ∙ ap
          (λ (qs : List (List ℕ × PointWriteQueue P)).
            calls max_retry (calls_of d os) (or_new (find_queue P d qs)))
          (queues-next_pending m)

  calls-Takes :
      (max_retry : ℕ) (cs : List (QueueCall P)) (q : PointWriteQueue P)
      → InOrder q
      → Takes (calls max_retry cs q) (call_steps max_retry cs (ledger_of q.items))
  calls-Takes max_retry [] q o = (o, refl)
  calls-Takes max_retry (c ∷ cs) q o =
      let (o', e) = call-Takes max_retry c q o in
      let (o'', e') = calls-Takes max_retry cs (call max_retry c q) o' in
      (o'', e' ∙ ap (call_steps max_retry cs) e)

  -- The manager refines a ledger for each device: after any writes, RESPONSES and attempts to send,
  -- of any devices, and any choices of the scheduler, in whatever order, the writes of a device that
  -- wait and those that left are exactly those to which that device's own calls, without the
  -- others', lead an empty ledger. There a first attempt sends a write under its message's id or,
  -- where it has no message, drops it if it is the oldest, a RESPONSE with the id of the oldest write
  -- acknowledges it, and a failed attempt that makes the failures of the oldest write maxRetry or more
  -- drops it.
  pub ledger-run_manager :
      (d : List ℕ) (os : List (ManagerOperation P)) (max_retry : ℕ)
      → ledger (queue_of d (run_manager os (new_manager max_retry)))
        ≡ call_steps max_retry (calls_of d os) empty_ledger
  unfolding find_queue run
  ledger-run_manager d os max_retry =
      let alone = queue_of-run_manager d max_retry os (new_manager max_retry) refl in
      let (o, e) =
        calls-Takes max_retry (calls_of d os) (new_point_write_queue P) (run-InOrder []) in
      ap ledger alone
      ∙ ledger-ledger_of (calls max_retry (calls_of d os) (new_point_write_queue P)) o
      ∙ e
