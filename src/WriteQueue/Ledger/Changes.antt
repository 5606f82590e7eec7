-- ===== src/WriteQueue/Ledger/Changes.antt =====
-- pkg/writeQueue.go: SetMessage and IncRetry change one ticket of the ledger.
use module_core_loraraw.Prelude.{
  ℕ, zero, suc, ◌+◌, ◌<◌, ◌≡◌, refl, ap, ◌∙◌, arith, Bool, true, false, List, [], ◌∷◌, ◌==◌,
  Bool-cases, inl, inr, if◌then◌else◌,
}
use module_core_loraraw.WriteQueue.{PendingPointWrite, modify}
use module_core_loraraw.WriteQueue.Ledger.{Ticket, change, ticket, outcomes}
use module_core_loraraw.WriteQueue.Ledger.Refines.{tickets, ledger_of, length-modify}

-- A change of an item that its ticket follows, and that leaves alone what the outcomes are made of.
pub record Follows {P : Type 0} (f : PendingPointWrite P → PendingPointWrite P)
    (g : Ticket P → Ticket P) : Type 0 where
  pub ticket_lem : (n : ℕ) (x : PendingPointWrite P) → ticket n (f x) ≡ g (ticket n x)
  pub point_lem : (x : PendingPointWrite P) → (f x).point ≡ x.point
  pub done_lem : (x : PendingPointWrite P) → (f x).is_done ≡ x.is_done
  pub acked_lem : (x : PendingPointWrite P) → (f x).acked ≡ x.acked

module _ {P : Type 0} where
  -- A number that is too low is that of no ticket.
  pub change-tickets :
      (g : Ticket P → Ticket P) (i n : ℕ) (xs : List (PendingPointWrite P))
      → i < n
      → change i g (tickets n xs) ≡ tickets n xs
  change-tickets g i n [] h = refl
  change-tickets g i n (x ∷ xs) h =
      let later = change-tickets g i (suc n) xs (omega arith) in
      let other : (n == i) ≡ false = ground arith in
      elim (Bool-cases x.is_done) [
        | inl gone ↦ rw gone later
        | inr stays ↦ rw stays (rw other (ap (◌∷◌ (ticket n x)) later))
      ]

  module _ (f : PendingPointWrite P → PendingPointWrite P) (g : Ticket P → Ticket P)
      (follows : Follows f g) where
    tickets-modify :
        (i n : ℕ) (xs : List (PendingPointWrite P))
        → tickets n (modify P f i xs) ≡ change (n + i) g (tickets n xs)
    tickets-modify i n [] = refl
    tickets-modify zero n (x ∷ xs) =
        let mine : (n == n + 0) ≡ true = ground arith in
        let later : change (n + 0) g (tickets (suc n) xs) ≡ tickets (suc n) xs =
          change-tickets g (n + 0) (suc n) xs (omega arith) in
        let left : (b : Bool)
            → x.is_done ≡ b
            → tickets n (f x ∷ xs)
              ≡ (if b then tickets (suc n) xs else g (ticket n x) ∷ tickets (suc n) xs) =
          λ b e.
            ap (λ (c : Bool). if c then tickets (suc n) xs else ticket n (f x) ∷ tickets (suc n) xs)
              (follows.done_lem x ∙ e)
            ∙ ap (λ (t : Ticket P). if b then tickets (suc n) xs else t ∷ tickets (suc n) xs)
                (follows.ticket_lem n x) in
        elim (Bool-cases x.is_done) [
          | inl gone ↦ left true gone ∙ rw gone (rw later refl)
          | inr stays ↦ left false stays ∙ rw stays (rw (mine, later) refl)
        ]
    tickets-modify (suc i) n (x ∷ xs) =
        let other : (n == n + suc i) ≡ false = ground arith in
        let later : tickets (suc n) (modify P f i xs) ≡ change (n + suc i) g (tickets (suc n) xs) =
          tickets-modify i (suc n) xs
          ∙ ap (λ (k : ℕ). change k g (tickets (suc n) xs))
              (let e : suc n + i ≡ n + suc i = omega arith in e) in
        elim (Bool-cases x.is_done) [
          | inl gone ↦ rw gone later
          | inr stays ↦ rw stays (rw other (ap (◌∷◌ (ticket n x)) later))
        ]

    outcomes-modify :
        (i : ℕ) (xs : List (PendingPointWrite P)) → outcomes (modify P f i xs) ≡ outcomes xs
    outcomes-modify i [] = refl
    outcomes-modify zero (x ∷ xs) =
        rw (follows.done_lem x, follows.point_lem x, follows.acked_lem x) refl
    outcomes-modify (suc i) (x ∷ xs) =
        ap (λ (l : List (P × Bool)). if x.is_done then (x.point, x.acked) ∷ l else l)
          (outcomes-modify i xs)

    pub ledger_of-modify :
        (i : ℕ) (xs : List (PendingPointWrite P))
        → ledger_of (modify P f i xs)
          ≡ record (ledger_of xs) { waiting = change i g (tickets 0 xs) }
    ledger_of-modify i xs =
        let size = length-modify f i xs in
        let waiting : tickets 0 (modify P f i xs) ≡ change i g (tickets 0 xs) =
          tickets-modify i 0 xs
          ∙ ap (λ (k : ℕ). change k g (tickets 0 xs)) (let e : 0 + i ≡ i = omega arith in e) in
        let settled = outcomes-modify i xs in
        λ i. record { next = size i; waiting = waiting i; settled = settled i }
