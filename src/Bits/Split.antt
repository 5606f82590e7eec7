-- ===== src/Bits/Split.antt =====
-- Cutting the bits of a number in two, and reading a number back from its bits.
use native.Mathlib.Nat.{
  div-div-eq-div-mul, pow-suc, pow-succ', div-one, div-add-mod, mul-add-mod_self_left, mod-eq_of_lt,
  mod-lt, one-le-pow,
}
use module_core_loraraw.Prelude.{
  ℕ, zero, suc, ◌+◌, ◌*◌, ◌/◌, ◌%◌, ◌^◌, ◌≤◌, ◌<◌, ◌≡◌, refl, sym, ap, ◌∙◌, arith, List, [], ◌∷◌,
  ◌++◌, append-nil, append_assoc, length, length-append,
}
use module_core_loraraw.Bits.{to_bits, of_bits, zeros}

pub length-to_bits : (n x : ℕ) → length (to_bits n x) ≡ n
unfolding to_bits
length-to_bits zero x = refl
length-to_bits (suc n) x =
    omega (arith, length-append (to_bits n (x / 2)) (x % 2 ∷ []), length-to_bits n (x / 2))

pub half-div-pow : (x n : ℕ) → x / 2 / 2 ^ n ≡ x / 2 ^ suc n
half-div-pow x n = div-div-eq-div-mul x 2 (2 ^ n) ∙ ap (λ (t : ℕ). x / t) (sym (pow-succ' 2 n))

-- The upper `m` bits and the lower `n` bits.
pub to_bits-split : (m n k x : ℕ) → k ≡ m + n → to_bits k x ≡ to_bits m (x / 2 ^ n) ++ to_bits n x
unfolding to_bits
to_bits-split m zero k x e =
    let same : k ≡ m = omega arith in
    ap (λ (j : ℕ). to_bits j x) same ∙ ap (to_bits m) (sym (div-one x)) ∙ sym (append-nil _)
to_bits-split m (suc n) zero x e = absurd (omega arith)
to_bits-split m (suc n) (suc k) x e =
    rw (to_bits-split m n k (x / 2) (omega arith), half-div-pow x n, append_assoc)

div_mod_pow : (x k : ℕ) → x % 2 ^ suc k / 2 ≡ x / 2 % 2 ^ k
div_mod_pow x k =
    let p : ℕ = 2 ^ k in
    let q : ℕ = x / 2 ^ suc k in
    let r : ℕ = x % 2 ^ suc k in
    let whole : p * 2 * q + r ≡ x = rw (← pow-suc 2 k) (div-add-mod x (2 ^ suc k)) in
    let small : r < p * 2 = rw (← pow-suc 2 k) (mod-lt x (one-le-pow (suc k) 2 (omega arith))) in
    let half : x / 2 ≡ p * q + r / 2 = omega arith in
    rw half (sym (mul-add-mod_self_left p q (r / 2) ∙ mod-eq_of_lt (omega arith)))

low_bit_mod_pow : (x k : ℕ) → x % 2 ^ suc k % 2 ≡ x % 2
low_bit_mod_pow x k =
    omega (arith, div-add-mod x (2 ^ suc k), ap (λ (t : ℕ). t * (x / 2 ^ suc k)) (pow-suc 2 k))

-- Bits above the `n` that are read do not matter.
pub to_bits_mod : (n k x : ℕ) → n ≤ k → to_bits n (x % 2 ^ k) ≡ to_bits n x
unfolding to_bits
to_bits_mod zero k x h = refl
to_bits_mod (suc n) zero x h = absurd (omega arith)
to_bits_mod (suc n) (suc k) x h =
    rw (div_mod_pow x k, low_bit_mod_pow x k, to_bits_mod n k (x / 2) (omega arith))

pub zeros-snoc : (n : ℕ) → zeros n ++ 0 ∷ [] ≡ 0 ∷ zeros n
zeros-snoc zero = refl
zeros-snoc (suc n) = ap (◌∷◌ 0) (zeros-snoc n)

pub to_bits-zero : (n : ℕ) → to_bits n 0 ≡ zeros n
unfolding to_bits
to_bits-zero zero = refl
to_bits-zero (suc n) = rw (to_bits-zero n) (zeros-snoc n)

-- The low bits are zero exactly where the number is a multiple.
pub to_bits-zeros : (n x : ℕ) → x % 2 ^ n ≡ 0 → to_bits n x ≡ zeros n
to_bits-zeros n x h = sym (to_bits_mod n n x (omega arith)) ∙ ap (to_bits n) h ∙ to_bits-zero n

of_bits-snoc : (acc b : ℕ) (xs : List ℕ) → of_bits acc (xs ++ b ∷ []) ≡ of_bits acc xs * 2 + b
unfolding of_bits
of_bits-snoc acc b [] = refl
of_bits-snoc acc b (x ∷ xs) = of_bits-snoc (acc * 2 + x) b xs

pub of_bits-to_bits : (n x : ℕ) → of_bits 0 (to_bits n x) ≡ x % 2 ^ n
unfolding to_bits
of_bits-to_bits zero x = unfold of_bits in omega arith
of_bits-to_bits (suc n) x =
    of_bits-snoc 0 (x % 2) (to_bits n (x / 2))
    ∙ omega (arith, of_bits-to_bits n (x / 2), div_mod_pow x n, low_bit_mod_pow x n)

pub mod-zero_of_zeros : (n x : ℕ) → to_bits n x ≡ zeros n → x % 2 ^ n ≡ 0
mod-zero_of_zeros n x h =
    sym (of_bits-to_bits n x)
    ∙ ap (of_bits 0) (h ∙ sym (to_bits-zero n))
    ∙ of_bits-to_bits n 0
    ∙ zero_mod n
  where
    zero_mod : (n : ℕ) → 0 % 2 ^ n ≡ 0
    zero_mod n = omega arith
