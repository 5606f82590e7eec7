-- ===== src/WriteQueue/Ledger.antt =====
-- pkg/writeQueue.go: what a queue promises, a ledger of the writes that wait and of those that left.
pub mod Refines
pub mod Changes
pub mod Fifo
pub mod Attempts
pub mod Calls
use module_core_loraraw.Prelude.{
  ℕ, suc, ◌+◌, Bool, true, false, List, [], ◌∷◌, ◌++◌, Option, none, some, length, get_elem?, ◌==◌,
  if◌then◌else◌,
}
use module_core_loraraw.WriteQueue.{
  PendingPointWrite, PointWriteQueue, Operation, enqueue, message, retry, remove, dequeued,
}

-- A write that waits: its number, its point, the id under which it was sent, and its failures.
pub record Ticket (P : Type 0) : Type 0 where
  pub number : ℕ
  pub point : P
  pub sent : Option ℕ
  pub tries : ℕ

-- The next number, the waiting writes, oldest first, and those that left, in that order, each with
-- whether it was acknowledged.
pub record Ledger (P : Type 0) : Type 0 where
  pub next : ℕ
  pub waiting : List (Ticket P)
  pub settled : List (P × Bool)

abbrev pub is_sent_as : ℕ → Option ℕ → Bool
is_sent_as id none = false
is_sent_as id (some sent) = sent == id

-- The id of an item that has a message.
abbrev pub sent_as : Option (List ℕ) → ℕ → Option ℕ
sent_as none id = none
sent_as (some bytes) id = some id

module _ {P : Type 0} where
  abbrev pub empty_ledger : Ledger P
  empty_ledger = record { next = 0; waiting = []; settled = [] }

  -- The change of the ticket with a number, where it waits.
  abbrev pub change : ℕ → (Ticket P → Ticket P) → List (Ticket P) → List (Ticket P)
  change i g [] = []
  change i g (t ∷ ts) = (if t.number == i then g t else t) ∷ change i g ts

  abbrev pub release_first : Bool → List (Ticket P) → Ledger P → Ledger P
  release_first acked [] l = l
  release_first acked (t ∷ ts) l = record l {
    waiting = ts;
    settled = l.settled ++ (t.point, acked) ∷ [];
  }

  -- The oldest write leaves.
  abbrev pub release : Bool → Ledger P → Ledger P
  release acked l = release_first acked l.waiting l

  abbrev pub first_is : ℕ → List (Ticket P) → Bool
  first_is i [] = false
  first_is i (t ∷ ts) = t.number == i

  abbrev pub first_sent_as : ℕ → List (Ticket P) → Bool
  first_sent_as id [] = false
  first_sent_as id (t ∷ ts) = is_sent_as id t.sent

  abbrev pub step : Operation P → Ledger P → Ledger P
  step (enqueue point) l = record l {
    next = suc l.next;
    waiting = l.waiting ++ record { number = l.next; point = point; sent = none; tries = 0 } ∷ [];
  }
  step (message i id bytes) l = record l {
    waiting = change i (λ t. record t { sent = some id }) l.waiting;
  }
  step (retry i) l = record l {
    waiting = change i (λ t. record t { tries = t.tries + 1 }) l.waiting;
  }
  step (remove i) l = if first_is i l.waiting then release false l else l
  step (dequeued none) l = release false l
  step (dequeued (some id)) l = if first_sent_as id l.waiting then release true l else l

  abbrev pub steps : List (Operation P) → Ledger P → Ledger P
  steps [] l = l
  steps (o ∷ os) l = steps os (step o l)

  -- The ledger of a queue.
  abbrev pub ticket : ℕ → PendingPointWrite P → Ticket P
  ticket n x = record {
    number = n;
    point = x.point;
    sent = sent_as x.message x.message_id;
    tries = x.retry_count;
  }

  abbrev pub tickets_at : List (PendingPointWrite P) → List ℕ → List (Ticket P)
  tickets_at items [] = []
  tickets_at items (i ∷ is) = elim (get_elem? items i) [
    | none ↦ tickets_at items is
    | some x ↦ ticket i x ∷ tickets_at items is
  ]

  abbrev pub outcomes : List (PendingPointWrite P) → List (P × Bool)
  outcomes [] = []
  outcomes (x ∷ xs) = if x.is_done then (x.point, x.acked) ∷ outcomes xs else outcomes xs

  abbrev pub ledger : PointWriteQueue P → Ledger P
  ledger q = record {
    next = length q.items;
    waiting = tickets_at q.items q.write_queue;
    settled = outcomes q.items;
  }
