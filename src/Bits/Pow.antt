-- ===== src/Bits/Pow.antt =====
-- Powers of two.
use native.Mathlib.Nat.{pow-suc, mul_assoc, mul-one, mul_comm, div-div-eq-div-mul}
use module_core_loraraw.Prelude.{ℕ, zero, suc, ◌+◌, ◌*◌, ◌/◌, ◌^◌, ◌≡◌, sym, ap, ◌∙◌, arith}

pub pow_add : (m n k : ℕ) → k ≡ m + n → 2 ^ k ≡ 2 ^ m * 2 ^ n
pow_add m zero k e =
    let same : k ≡ m = omega arith in ap (λ (t : ℕ). 2 ^ t) same ∙ sym (mul-one (2 ^ m))
pow_add m (suc n) zero e = absurd (omega arith)
pow_add m (suc n) (suc k) e = omega (
  arith,
  pow-suc 2 k,
  pow-suc 2 n,
  ap (λ (t : ℕ). t * 2) (pow_add m n k (omega arith)),
  ap (λ (t : ℕ). 2 ^ m * t) (pow-suc 2 n),
  mul_assoc (2 ^ m) (2 ^ n) 2,
)

pub div_swap : (x m n : ℕ) → x / m / n ≡ x / n / m
div_swap x m n =
    div-div-eq-div-mul x m n ∙ ap (λ (t : ℕ). x / t) (mul_comm m n) ∙ sym (div-div-eq-div-mul x n m)
