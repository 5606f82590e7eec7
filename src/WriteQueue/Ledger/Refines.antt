-- ===== src/WriteQueue/Ledger/Refines.antt =====
-- pkg/writeQueue.go: the queue keeps its ledger.
use module_core_loraraw.Prelude.{
  ℕ, zero, suc, ◌+◌, ◌≡◌, refl, sym, ap, ◌∙◌, arith, Bool, List, [], ◌∷◌, ◌++◌, append_assoc,
  append-nil, some, All, length, length-append, get_elem?, Bool-cases, inl, inr, if◌then◌else◌,
}
use module_core_loraraw.WriteQueue.{PendingPointWrite, PointWriteQueue, modify, mark_done, leave}
use module_core_loraraw.WriteQueue.Order.{InOrder, IsDone, IsWaiting, range}
use module_core_loraraw.WriteQueue.Ledger.{
  Ticket, Ledger, release, ticket, tickets_at, outcomes, ledger,
}

module _ {P : Type 0} where
  -- The tickets of the items that are not done, from a number on.
  abbrev pub tickets : ℕ → List (PendingPointWrite P) → List (Ticket P)
  tickets n [] = []
  tickets n (x ∷ xs) = if x.is_done then tickets (suc n) xs else ticket n x ∷ tickets (suc n) xs

  abbrev pub ledger_of : List (PendingPointWrite P) → Ledger P
  ledger_of items = record {
    next = length items;
    waiting = tickets 0 items;
    settled = outcomes items;
  }

  tickets-gone :
      (gone waiting : List (PendingPointWrite P)) (n : ℕ)
      → All IsDone gone
      → tickets n (gone ++ waiting) ≡ tickets (n + length gone) waiting
  tickets-gone [] waiting n h = ap (λ (k : ℕ). tickets k waiting) (omega arith)
  tickets-gone (x ∷ xs) waiting n h =
      rw (h.0)
        (tickets-gone xs waiting (suc n) h.1 ∙ ap (λ (k : ℕ). tickets k waiting) (omega arith))

  pub get_elem?-behind :
      (gone : List (PendingPointWrite P)) (x : PendingPointWrite P)
      (xs : List (PendingPointWrite P))
      → get_elem? (gone ++ x ∷ xs) (length gone) ≡ some x
  get_elem?-behind [] x xs = refl
  get_elem?-behind (y ∷ ys) x xs = get_elem?-behind ys x xs

  tickets_at-range :
      (gone waiting : List (PendingPointWrite P)) (n : ℕ)
      → n ≡ length gone
      → All IsWaiting waiting
      → tickets_at (gone ++ waiting) (range n (length waiting)) ≡ tickets n waiting
  tickets_at-range gone [] n e h = refl
  tickets_at-range gone (x ∷ xs) n e h =
      let found : get_elem? (gone ++ x ∷ xs) n ≡ some x = rw e (get_elem?-behind gone x xs) in
      let later : tickets_at ((gone ++ x ∷ []) ++ xs) (range (suc n) (length xs))
          ≡ tickets (suc n) xs =
        tickets_at-range (gone ++ x ∷ []) xs (suc n) (omega (arith, e, length-append gone (x ∷ [])))
          h.1 in
      let same = append_assoc gone (x ∷ []) xs in
      let right : tickets n (x ∷ xs) ≡ ticket n x ∷ tickets (suc n) xs = rw (h.0) refl in
      rw (found, tickets_at) (ap (◌∷◌ (ticket n x)) (rw same at later)) ∙ sym right

  -- In order, the queue's own numbers are those of the items that are not done.
  pub ledger-ledger_of : (q : PointWriteQueue P) → InOrder q → ledger q ≡ ledger_of q.items
  ledger-ledger_of q o =
      let waiting : tickets_at q.items q.write_queue ≡ tickets 0 q.items =
        ap (λ (l : List (PendingPointWrite P)). tickets_at l q.write_queue) o.shape
        ∙ ap (tickets_at (o.gone ++ o.waiting)) o.order
        ∙ tickets_at-range o.gone o.waiting (length o.gone) refl o.none_done
        ∙ ap (λ (k : ℕ). tickets k o.waiting) (omega arith)
        ∙ sym (tickets-gone o.gone o.waiting 0 o.all_done)
        ∙ ap (tickets 0) (sym o.shape) in
      ap
        (λ (w : List (Ticket P)). record {
          next = length q.items;
          waiting = w;
          settled = outcomes q.items;
        })
        waiting

  pub tickets-append :
      (xs : List (PendingPointWrite P)) (x : PendingPointWrite P) (n : ℕ)
      → IsWaiting x
      → tickets n (xs ++ x ∷ []) ≡ tickets n xs ++ ticket (n + length xs) x ∷ []
  tickets-append [] x n h = rw h (ap (λ (k : ℕ). ticket k x ∷ []) (omega arith))
  tickets-append (y ∷ ys) x n h =
      let later : tickets (suc n) (ys ++ x ∷ [])
          ≡ tickets (suc n) ys ++ ticket (n + suc (length ys)) x ∷ [] =
        tickets-append ys x (suc n) h
        ∙ ap (λ (k : ℕ). tickets (suc n) ys ++ ticket k x ∷ []) (omega arith) in
      elim (Bool-cases y.is_done) [
        | inl gone ↦ rw gone later
        | inr stays ↦ rw stays (ap (◌∷◌ (ticket n y)) later)
      ]

  pub outcomes-append :
      (xs ys : List (PendingPointWrite P)) → outcomes (xs ++ ys) ≡ outcomes xs ++ outcomes ys
  outcomes-append [] ys = refl
  outcomes-append (x ∷ xs) ys = elim (Bool-cases x.is_done) [
    | inl gone ↦ rw gone (ap (◌∷◌ (x.point, x.acked)) (outcomes-append xs ys))
    | inr stays ↦ rw stays (outcomes-append xs ys)
  ]

  outcomes-waiting : (xs : List (PendingPointWrite P)) → All IsWaiting xs → outcomes xs ≡ []
  outcomes-waiting [] h = refl
  outcomes-waiting (x ∷ xs) h = rw (h.0) (outcomes-waiting xs h.1)

  outcomes-gone :
      (xs : List (PendingPointWrite P)) (acked : Bool) (x : PendingPointWrite P)
      (waiting : List (PendingPointWrite P))
      → IsWaiting x
      → All IsWaiting waiting
      → outcomes (xs ++ mark_done P acked x ∷ waiting) ≡ outcomes xs ++ (x.point, acked) ∷ []
  unfolding mark_done
  outcomes-gone xs acked x waiting h hw =
      outcomes-append xs (mark_done P acked x ∷ waiting)
      ∙ ap (λ (l : List (P × Bool)). outcomes xs ++ l)
          (rw h (ap (◌∷◌ (x.point, acked)) (outcomes-waiting waiting hw)))

  -- The head of a queue in order: its place among the items, and what stands round it.
  pub record Oldest (q : PointWriteQueue P) (head : ℕ) : Type 0 where
    pub gone : List (PendingPointWrite P)
    pub item : PendingPointWrite P
    pub later : List (PendingPointWrite P)
    pub shape : q.items ≡ gone ++ item ∷ later
    pub place : head ≡ length gone
    pub all_done : All IsDone gone
    pub item_waits : IsWaiting item
    pub later_wait : All IsWaiting later

  pub first_present :
      (q : PointWriteQueue P) (head : ℕ) (rest : List ℕ)
      → InOrder q
      → q.write_queue ≡ head ∷ rest
      → Oldest q head
  first_present q head rest o e = by_waiting o.waiting o.shape o.order o.none_done
    where
      by_waiting :
          (waiting : List (PendingPointWrite P))
          → q.items ≡ o.gone ++ waiting
          → q.write_queue ≡ range (length o.gone) (length waiting)
          → All IsWaiting waiting
          → Oldest q head
      by_waiting [] shape order h = let empty : head ∷ rest ≡ [] = sym e ∙ order in cc
      by_waiting (x ∷ xs) shape order h =
          let same : head ∷ rest ≡ length o.gone ∷ range (suc (length o.gone)) (length xs) =
            sym e ∙ order in
          record {
            gone = o.gone;
            item = x;
            later = xs;
            shape = shape;
            place = cc;
            all_done = o.all_done;
            item_waits = h.0;
            later_wait = h.1;
          }

  pub tickets-head :
      (q : PointWriteQueue P) (head : ℕ) (h : Oldest q head)
      → tickets 0 q.items ≡ ticket head h.item ∷ tickets (suc head) h.later
  tickets-head q head h =
      ap (tickets 0) h.shape
      ∙ tickets-gone h.gone (h.item ∷ h.later) 0 h.all_done
      ∙ ap (λ (k : ℕ). tickets k (h.item ∷ h.later))
          (let e : 0 + length h.gone ≡ head = omega (arith, h.place) in e)
      ∙ rw (h.item_waits) refl

  modify-first :
      (f : PendingPointWrite P → PendingPointWrite P) (gone waiting : List (PendingPointWrite P))
      (x : PendingPointWrite P)
      → modify P f (length gone) (gone ++ x ∷ waiting) ≡ gone ++ f x ∷ waiting
  modify-first f [] waiting x = refl
  modify-first f (y ∷ ys) waiting x = ap (◌∷◌ y) (modify-first f ys waiting x)

  mark_done-IsDone :
      (acked : Bool) (x : PendingPointWrite P) → IsWaiting x → IsDone (mark_done P acked x)
  unfolding mark_done
  mark_done-IsDone acked x h = rw h refl

  pub length-modify :
      (f : PendingPointWrite P → PendingPointWrite P) (i : ℕ) (xs : List (PendingPointWrite P))
      → length (modify P f i xs) ≡ length xs
  length-modify f i [] = refl
  length-modify f zero (x ∷ xs) = refl
  length-modify f (suc i) (x ∷ xs) = ap suc (length-modify f i xs)

  pub ledger_of-leave :
      (acked : Bool) (head : ℕ) (rest : List ℕ) (q : PointWriteQueue P)
      → InOrder q
      → q.write_queue ≡ head ∷ rest
      → ledger_of (leave P acked head rest q).items ≡ release acked (ledger_of q.items)
  ledger_of-leave acked head rest q o e =
      let h = first_present q head rest o e in
      let f : PendingPointWrite P → PendingPointWrite P = mark_done P acked in
      let left : modify P f head q.items ≡ h.gone ++ f h.item ∷ h.later =
        ap (λ (i : ℕ). modify P f i q.items) h.place
        ∙ ap (modify P f (length h.gone)) h.shape
        ∙ modify-first f h.gone h.later h.item in
      let marked = mark_done-IsDone acked h.item h.item_waits in
      let waiting : tickets 0 (modify P f head q.items) ≡ tickets (suc head) h.later =
        ap (tickets 0) left
        ∙ tickets-gone h.gone (f h.item ∷ h.later) 0 h.all_done
        ∙ rw marked (
            ap (λ (k : ℕ). tickets k h.later)
              (let at : suc (0 + length h.gone) ≡ suc head = omega (arith, h.place) in at)) in
      let before : outcomes q.items ≡ outcomes h.gone =
        ap outcomes h.shape
        ∙ outcomes-append h.gone (h.item ∷ h.later)
        ∙ ap (λ (l : List (P × Bool)). outcomes h.gone ++ l)
            (outcomes-waiting (h.item ∷ h.later) (h.item_waits, h.later_wait))
        ∙ append-nil (outcomes h.gone) in
      let after : outcomes (modify P f head q.items)
          ≡ outcomes q.items ++ (h.item.point, acked) ∷ [] =
        ap outcomes left
        ∙ outcomes-gone h.gone acked h.item h.later h.item_waits h.later_wait
        ∙ ap (λ (l : List (P × Bool)). l ++ (h.item.point, acked) ∷ []) (sym before) in
      let size = length-modify f head q.items in
      rw (tickets-head q head h)
        (λ i. record { next = size i; waiting = waiting i; settled = after i })
