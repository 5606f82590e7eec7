-- ===== src/WriteQueue/Order.antt =====
-- pkg/writeQueue.go: the order of the items.
pub mod Steps
pub mod Fifo
pub mod Named
pub mod Answered
use module_core_loraraw.Prelude.{
  ℕ, zero, suc, ◌+◌, ◌-◌, ◌≤◌, ◌<◌, ◌≡◌, refl, sym, ap, ◌∙◌, arith, Bool, true, false, List, [],
  ◌∷◌, ◌++◌, append_assoc, append-nil, Option, none, some, All, length, length-append, get_elem?,
  if◌then◌else◌, ◌==◌, Bool-cases, Option-cases, inl, inr, ◌⊎◌,
}
use module_core_loraraw.WriteQueue
use module_core_loraraw.WriteQueue.{
  PendingPointWrite, PointWriteQueue, new_point_write_queue, modify, mark_done, enqueue_write_queue,
  set_message, inc_retry, leave, remove_item, answers, dequeue_head, dequeue, Operation, enqueue,
  message, retry, remove, dequeued, apply, run,
}

-- n, n + 1, ... : so many numbers.
abbrev pub range : ℕ → ℕ → List ℕ
range n zero = []
range n (suc k) = n ∷ range (suc n) k

pub range-suc : (n k m : ℕ) → m ≡ n + k → range n k ++ m ∷ [] ≡ range n (suc k)
range-suc n zero m e = let same : m ≡ n = omega arith in ap (λ (t : ℕ). t ∷ []) same
range-suc n (suc k) m e = ap (◌∷◌ n) (range-suc (suc n) k m (omega arith))

module _ {P : Type 0} where
  abbrev pub IsDone : PendingPointWrite P → Type 0
  IsDone x = x.is_done ≡ true

  abbrev pub IsWaiting : PendingPointWrite P → Type 0
  IsWaiting x = x.is_done ≡ false

  -- The items that left are done, those that have not are not, and these are the queue, oldest first.
  pub record InOrder (q : PointWriteQueue P) : Type 0 where
    pub gone : List (PendingPointWrite P)
    pub waiting : List (PendingPointWrite P)
    pub shape : q.items ≡ gone ++ waiting
    pub order : q.write_queue ≡ range (length gone) (length waiting)
    pub all_done : All IsDone gone
    pub none_done : All IsWaiting waiting

  pub All-append :
      (Q : PendingPointWrite P → Type 0) (xs ys : List (PendingPointWrite P))
      → All Q xs
      → All Q ys
      → All Q (xs ++ ys)
  All-append Q [] ys hx hy = hy
  All-append Q (x ∷ xs) ys hx hy = (hx.0, All-append Q xs ys hx.1 hy)

  -- A change that leaves `done` alone keeps the order.
  modify-append :
      (f : PendingPointWrite P → PendingPointWrite P) (i : ℕ)
      (gone waiting : List (PendingPointWrite P))
      → ((x : PendingPointWrite P) → (f x).is_done ≡ x.is_done)
      → All IsDone gone
      → All IsWaiting waiting
      → (gone' : List (PendingPointWrite P)) × (waiting' : List (PendingPointWrite P)) × (modify P f
            i
            (gone ++ waiting)
          ≡ gone' ++ waiting')
        × (length gone' ≡ length gone)
        × (length waiting' ≡ length waiting)
        × All IsDone gone'
        × All IsWaiting waiting'
  modify-append f i [] [] h hg hw = ([], [], refl, refl, refl, tt, tt)
  modify-append f zero [] (x ∷ xs) h hg hw =
      ([], f x ∷ xs, refl, refl, refl, tt, (h x ∙ hw.0, hw.1))
  modify-append f (suc i) [] (x ∷ xs) h hg hw =
      let (g, w, e, eg, ew, dg, dw) = modify-append f i [] xs h tt hw.1 in
      (
        [],
        x ∷ (g ++ w),
        ap (◌∷◌ x) e,
        refl,
        omega (arith, eg, ew, length-append g w),
        tt,
        (hw.0, together g w eg dw),
      )
    where
      together :
          (g w : List (PendingPointWrite P))
          → length g ≡ 0
          → All IsWaiting w
          → All IsWaiting (g ++ w)
      together [] w e h' = h'
      together (y ∷ ys) w e h' = absurd (omega arith)
  modify-append f zero (x ∷ xs) ws h hg hw =
      (f x ∷ xs, ws, refl, refl, refl, (h x ∙ hg.0, hg.1), hw)
  modify-append f (suc i) (x ∷ xs) ws h hg hw =
      let (g, w, e, eg, ew, dg, dw) = modify-append f i xs ws h hg.1 hw in
      (x ∷ g, w, ap (◌∷◌ x) e, ap suc eg, ew, (hg.0, dg), dw)

  pub modify-InOrder :
      (f : PendingPointWrite P → PendingPointWrite P) (i : ℕ) (q : PointWriteQueue P)
      → ((x : PendingPointWrite P) → (f x).is_done ≡ x.is_done)
      → InOrder q
      → InOrder (record q { items = modify P f i q.items })
  modify-InOrder f i q h o =
      let (g, w, e, eg, ew, dg, dw) = modify-append f i o.gone o.waiting h o.all_done o.none_done in
      record {
        gone = g;
        waiting = w;
        shape = ap (modify P f i) o.shape ∙ e;
        order =
            o.order
            ∙ ap (λ (n : ℕ). range n (length o.waiting)) (sym eg)
            ∙ ap (range (length g)) (sym ew);
        all_done = dg;
        none_done = dw;
      }

  -- The first waiting item is marked in its place.
  modify-first :
      (f : PendingPointWrite P → PendingPointWrite P) (gone waiting : List (PendingPointWrite P))
      (x : PendingPointWrite P)
      → modify P f (length gone) (gone ++ x ∷ waiting) ≡ (gone ++ f x ∷ []) ++ waiting
  modify-first f [] waiting x = refl
  modify-first f (y ∷ ys) waiting x = ap (◌∷◌ y) (modify-first f ys waiting x)

  pub leave-InOrder :
      (acked : Bool) (head : ℕ) (rest : List ℕ) (q : PointWriteQueue P)
      → InOrder q
      → q.write_queue ≡ head ∷ rest
      → InOrder (leave P acked head rest q)
  unfolding mark_done
  leave-InOrder acked head rest q o e = by_waiting o.waiting o.shape o.order o.none_done
    where
      by_waiting :
          (waiting : List (PendingPointWrite P))
          → q.items ≡ o.gone ++ waiting
          → q.write_queue ≡ range (length o.gone) (length waiting)
          → All IsWaiting waiting
          → InOrder (leave P acked head rest q)
      by_waiting [] shape order h = let empty : head ∷ rest ≡ [] = sym e ∙ order in cc
      by_waiting (x ∷ xs) shape order h =
          let same : head ∷ rest ≡ length o.gone ∷ range (suc (length o.gone)) (length xs) =
            sym e ∙ order in
          let first : head ≡ length o.gone = cc in
          let others : rest ≡ range (suc (length o.gone)) (length xs) = cc in
          let marked : (mark_done P acked x).is_done ≡ true = rw h.0 refl in
          record {
            gone = o.gone ++ mark_done P acked x ∷ [];
            waiting = xs;
            shape =
                ap (modify P (mark_done P acked) head) shape
                ∙ ap (λ (i : ℕ). modify P (mark_done P acked) i (o.gone ++ x ∷ xs)) first
                ∙ modify-first (mark_done P acked) o.gone xs x;
            order =
                others
                ∙ ap (λ (n : ℕ). range n (length xs))
                    (omega (arith, length-append o.gone (mark_done P acked x ∷ [])));
            all_done = All-append IsDone o.gone (mark_done P acked x ∷ []) o.all_done (marked, tt);
            none_done = h.1;
          }
