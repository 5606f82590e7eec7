-- ===== src/Rubix/Encoder/Shift.antt =====
-- The shift of reshapeVector (encoder.go), in bits.
use native.Mathlib.Nat.{mul-div_cancel, one-le-pow, mul_assoc}
use module_core_loraraw.Prelude.{
  ℕ, suc, ◌+◌, ◌-◌, ◌*◌, ◌/◌, ◌%◌, ◌^◌, ◌≤◌, ◌≡◌, refl, sym, ap, ◌∙◌, arith, List, [], ◌∷◌, ◌++◌,
  append_assoc, append-nil, All, length,
}
use module_core_loraraw.Bits.{to_bits, bits, num, bor, IsByte, u8, u64}
use module_core_loraraw.Bits.Split.{to_bits-split, to_bits_mod}
use module_core_loraraw.Bits.Bytes.{push_byte}
use module_core_loraraw.Bits.Or.{bor_disjoint}
use module_core_loraraw.Bits.Pow.{pow_add, div_swap}
use module_core_loraraw.Rubix.Encoder.{shift_bytes}

-- `TB | v`: the accumulator's low byte is clear.
or_byte : (x v : ℕ) → IsByte v → bor 64 (u64 (x * 256)) v ≡ u64 (x * 256 + v)
or_byte x v h =
    let top : u64 (x * 256) ≡ x % 2 ^ 56 * 2 ^ 8 = omega arith in
    rw top (bor_disjoint 64 8 (x % 2 ^ 56) v h (omega arith) ∙ omega arith)

-- The accumulator after a byte, in terms of the number `y` of all the bytes so far.
shifted_back : (w z : ℕ) → w ≤ 8 → z * 256 / 2 ^ w * 2 ^ w ≡ z * 256
shifted_back w z h =
    let whole : z * 256 ≡ z * 2 ^ (8 - w) * 2 ^ w =
      ap (λ (t : ℕ). z * t) (pow_add (8 - w) w 8 (omega arith))
      ∙ sym (mul_assoc z (2 ^ (8 - w)) (2 ^ w)) in
    let part : z * 256 / 2 ^ w ≡ z * 2 ^ (8 - w) =
      rw whole (mul-div_cancel (z * 2 ^ (8 - w)) (one-le-pow w 2 (omega arith))) in
    ap (λ (t : ℕ). t * 2 ^ w) part ∙ sym whole

out_byte : (w z : ℕ) → z * 256 / 2 ^ w / 2 ^ 8 ≡ z / 2 ^ w
out_byte w z = div_swap (z * 256) (2 ^ w) (2 ^ 8) ∙ ap (λ (t : ℕ). t / 2 ^ w) (omega arith)

-- The byte that leaves, with what stays behind: nothing is lost.
shift_step :
    (w x v : ℕ)
    → w ≤ 8
    → IsByte v
    → to_bits 8 ((x * 256 + v) % 2 ^ 56 / 2 ^ w) ++ to_bits w (x * 256 + v)
      ≡ to_bits w x ++ to_bits 8 v
shift_step w x v hw hv =
    let y : ℕ = x * 256 + v in
    ap (◌++◌ (to_bits 8 (y % 2 ^ 56 / 2 ^ w))) (sym (to_bits_mod w 56 y (omega arith)))
    ∙ sym (to_bits-split 8 w (w + 8) (y % 2 ^ 56) (omega arith))
    ∙ to_bits_mod (w + 8) 56 y (omega arith)
    ∙ push_byte w x v hv

shift_bytes-cons :
    (w x v : ℕ) (vs : List ℕ)
    → w ≤ 8
    → IsByte v
    → shift_bytes w (u64 (x * 256)) (v ∷ vs)
      ≡ u8 ((x * 256 + v) % 2 ^ 56 / 2 ^ w) ∷ shift_bytes w (u64 ((x * 256 + v) * 256)) vs
unfolding shift_bytes
shift_bytes-cons w x v vs hw hv =
    let y : ℕ = x * 256 + v in
    let joined : u64 (bor 64 (u64 (x * 256)) v * 2 ^ 8) ≡ y % 2 ^ 56 * 256 =
      ap (λ (t : ℕ). u64 (t * 2 ^ 8)) (or_byte x v hv) ∙ omega arith in
    let back : u64 (y % 2 ^ 56 * 256 / 2 ^ w * 2 ^ w) ≡ u64 (y * 256) =
      ap u64 (shifted_back w (y % 2 ^ 56) hw) ∙ omega arith in
    rw (joined, out_byte w (y % 2 ^ 56), back)

pub bits-shift_bytes :
    (w x : ℕ) (vs : List ℕ)
    → w ≤ 8
    → All IsByte vs
    → bits (shift_bytes w (u64 (x * 256)) vs) ++ to_bits w (num x vs) ≡ to_bits w x ++ bits vs
unfolding num bits
bits-shift_bytes w x [] hw hv = unfold shift_bytes in sym (append-nil (to_bits w x))
bits-shift_bytes w x (v ∷ vs) hw hv =
    let y : ℕ = x * 256 + v in
    let out : ℕ = y % 2 ^ 56 / 2 ^ w in
    rw (shift_bytes-cons w x v vs hw hv.0, to_bits_mod 8 8 out (omega arith), append_assoc)
      (ap (◌++◌ (to_bits 8 out)) (bits-shift_bytes w y vs hw hv.1)
        ∙ sym (append_assoc (to_bits 8 out) (to_bits w y) (bits vs))
        ∙ ap (λ (l : List ℕ). l ++ bits vs) (shift_step w x v hw hv.0)
        ∙ append_assoc (to_bits w x) (to_bits 8 v) (bits vs))

pub shift_bytes-IsByte : (w : ℕ) (vs : List ℕ) (tb : ℕ) → All IsByte (shift_bytes w tb vs)
unfolding shift_bytes
shift_bytes-IsByte w [] tb = tt
shift_bytes-IsByte w (v ∷ vs) tb = (omega arith, shift_bytes-IsByte w vs _)

pub length-shift_bytes : (w : ℕ) (vs : List ℕ) (tb : ℕ) → length (shift_bytes w tb vs) ≡ length vs
unfolding shift_bytes
length-shift_bytes w [] tb = refl
length-shift_bytes w (v ∷ vs) tb = ap suc (length-shift_bytes w vs _)
