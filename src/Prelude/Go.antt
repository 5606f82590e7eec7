-- ===== src/Prelude/Go.antt =====
-- A Go call either returns or panics (an index or a slice out of range, or CBC on a partial block).
use module_core_loraraw.Prelude.{ℕ, ◌≡◌, List, [], ◌∷◌}

pub data Go {ℓ} (A : Type ℓ) : Type ℓ where
  done : A → Go A
  panic : Go A

infixl 5 ◌>>=◌ ◌>>◌
abbrev pub ◌>>=◌ {ℓ κ} : {A : Type ℓ} {B : Type κ} → Go A → (A → Go B) → Go B
done a >>= f = f a
panic >>= f = panic

abbrev pub ◌>>◌ {ℓ} : {B : Type ℓ} → Go (Unit {0}) → Go B → Go B
m >> k = m >>= λ _. k

-- The head of a slice that the source indexes by 0.
abbrev pub first : List ℕ → Go ℕ
first [] = panic
first (x ∷ xs) = done x

-- Returned without a panic.
abbrev pub Returns {ℓ} : {A : Type ℓ} → Go A → Type ℓ
Returns {A} m = (a : A) × (m ≡ done a)

pub >>=-Returns {ℓ κ} :
    {A : Type ℓ} {B : Type κ} (m : Go A) (f : A → Go B)
    → Returns m
    → ((a : A) → Returns (f a))
    → Returns (m >>= f)
>>=-Returns (done a) f r h = h a
>>=-Returns panic f (a, e) h = cc e
