-- ===== src/Bits/Or.antt =====
-- `|` of disjoint fields is a sum.
use native.Mathlib.Nat.{
  pow-suc, mul-one, add-zero, one-le-pow, mul-mod_left, div-add-mod', div-lt_iff_lt-mul,
  mul-le-mul_right, mod-add-mod,
}
use module_core_loraraw.Prelude.{
  ℕ, zero, suc, ◌+◌, ◌-◌, ◌%◌, ◌≤◌, sym, ◌∙◌, ◌*◌, ◌/◌, ◌^◌, ◌<◌, ◌≡◌, ap, arith,
}
use module_core_loraraw.Bits.{bor, u64}
use module_core_loraraw.Bits.Split.{to_bits_mod, to_bits-zeros, mod-zero_of_zeros}
use module_core_loraraw.Bits.Pow.{pow_add}

bor-zero : (w a : ℕ) → a < 2 ^ w → bor w a 0 ≡ a
unfolding bor
bor-zero zero a h = omega arith
bor-zero (suc w) a h = ground (arith, pow-suc 2 w, bor-zero w (a / 2))

-- The low `k` bits come from `r`, the others from `q`.
pub bor_disjoint :
    (w k q r : ℕ) → r < 2 ^ k → q * 2 ^ k + r < 2 ^ w → bor w (q * 2 ^ k) r ≡ q * 2 ^ k + r
unfolding bor
bor_disjoint w zero q r h fits =
    let none_low : r ≡ 0 = omega arith in
    rw none_low (rw (mul-one, add-zero) (bor-zero w q (omega arith)))
bor_disjoint zero (suc k) q r h fits = omega arith
bor_disjoint (suc w) (suc k) q r h fits = ground (
  arith,
  bor_disjoint w k q (r / 2),
  pow-suc 2 w,
  ap (λ (t : ℕ). q * t) (pow-suc 2 k),
  pow-suc 2 k,
)

-- The same on 64 bits where the upper part has overflowed.
pub bor-u64 : (k h r : ℕ) → k ≤ 64 → r < 2 ^ k → bor 64 (u64 (h * 2 ^ k)) r ≡ u64 (h * 2 ^ k + r)
bor-u64 k h r hk hr =
    let p : ℕ = 2 ^ k in
    let z : ℕ = u64 (h * p) in
    let width : 2 ^ 64 ≡ 2 ^ (64 - k) * p = pow_add (64 - k) k 64 (omega arith) in
    let pos : 0 < p = one-le-pow k 2 (omega arith) in
    let clear : z % p ≡ 0 =
      mod-zero_of_zeros k z
        (to_bits_mod k 64 (h * p) hk ∙ to_bits-zeros k (h * p) (mul-mod_left h p)) in
    let whole : z ≡ z / p * p =
      sym (div-add-mod' z p) ∙ ap (λ (t : ℕ). z / p * p + t) clear ∙ add-zero _ in
    let under : z / p < 2 ^ (64 - k) = (div-lt_iff_lt-mul pos).1 (omega arith) in
    let fits : z / p * p + r < 2 ^ 64 = omega (arith, mul-le-mul_right p under) in
    ap (λ (t : ℕ). bor 64 t r) whole
    ∙ bor_disjoint 64 k (z / p) r hr fits
    ∙ omega (arith, mod-add-mod (h * p) (2 ^ 64) r)
