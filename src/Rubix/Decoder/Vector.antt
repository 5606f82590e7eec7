-- ===== src/Rubix/Decoder/Vector.antt =====
-- vectorToBits (decoder.go): the number in a vector.
use native.Mathlib.Nat.{
  div-lt_iff_lt-mul, mul-add-mod_self_right, div-add-mod', mul-add-div_right, one-le-pow, mul_assoc,
}
use module_core_loraraw.Prelude.{
  ℕ, ◌+◌, ◌-◌, ◌*◌, ◌/◌, ◌%◌, ◌^◌, ◌≤◌, ◌<◌, ◌≡◌, refl, sym, ap, ◌∙◌, arith, List, [], ◌∷◌, ◌++◌,
  All, length, ltb, Bool-cases, inl, inr, ltb→le, le→ltb, if◌then◌else◌,
}
use module_core_loraraw.Prelude.Go.{Go, done}
use module_core_loraraw.Bits.{to_bits, of_bits, bits, num, bor, IsByte, u64}
use module_core_loraraw.Bits.Split.{length-to_bits, to_bits-split, to_bits_mod, of_bits-to_bits}
use module_core_loraraw.Bits.Bytes.{to_bits-num}
use module_core_loraraw.Bits.Or.{bor-u64}
use module_core_loraraw.Bits.Pow.{pow_add}
use module_core_loraraw.Rubix.Decoder.{bytes_required, read_upper, vector_to_bits}

-- Enough bytes, and less than one byte too many.
pub bytes_required_bounds :
    (n p : ℕ) → (n + p % 8 ≤ bytes_required n p * 8) × (bytes_required n p * 8 < n + p % 8 + 8)
unfolding bytes_required
bytes_required_bounds n p = ground arith

-- The upper bytes as a uint64, and the last byte.
pub record Parts (r : Go (ℕ × ℕ)) (x : ℕ) : Type 0 where
  pub upper : ℕ
  pub last : ℕ
  pub returns : r ≡ done (u64 upper, last)
  pub value : x ≡ upper * 256 + last
  pub byte : IsByte last

read_upper-Parts :
    (x y : ℕ) (zs : List ℕ) (acc : ℕ)
    → All IsByte (x ∷ y ∷ zs)
    → Parts (read_upper (u64 (acc * 2 ^ 8)) (x ∷ y ∷ zs)) (num acc (x ∷ y ∷ zs))
unfolding read_upper num
read_upper-Parts x y [] acc h = record {
  upper = acc * 256 + x;
  last = y;
  returns = rw (bor-u64 8 acc x (omega arith) h.0);
  value = refl;
  byte = h.1.0;
}
read_upper-Parts x y (z ∷ zs) acc h =
    let rest = read_upper-Parts y z zs (acc * 256 + x) h.1 in
    let carried : u64 (bor 64 (u64 (acc * 2 ^ 8)) x * 2 ^ 8) ≡ u64 ((acc * 256 + x) * 2 ^ 8) =
      rw (bor-u64 8 acc x (omega arith) h.0) (omega arith) in
    record {
      upper = rest.upper;
      last = rest.last;
      returns = rw carried rest.returns;
      value = rest.value;
      byte = rest.byte;
    }

read_whole : (vs : List ℕ) → 0 < length vs → All IsByte vs → Parts (read_upper 0 vs) (num 0 vs)
unfolding read_upper num
read_whole [] hn h = absurd (omega arith)
read_whole (x ∷ []) hn h = record {
  upper = 0;
  last = x;
  returns = refl;
  value = omega arith;
  byte = h.0;
}
read_whole (x ∷ y ∷ zs) hn h = read_upper-Parts x y zs 0 h

-- The number without its `sl` low bits, from its parts.
joined :
    (sl upper last : ℕ)
    → sl ≤ 8
    → IsByte last
    → bor 64 (u64 (u64 upper * 2 ^ (8 - sl))) (last / 2 ^ sl) ≡ u64 ((upper * 256 + last) / 2 ^ sl)
joined sl upper last hs hb =
    let p : ℕ = 2 ^ (8 - sl) in
    let pos : 0 < 2 ^ sl = one-le-pow sl 2 (omega arith) in
    let width : 2 ^ 8 ≡ p * 2 ^ sl = pow_add (8 - sl) sl 8 (omega arith) in
    let low : last / 2 ^ sl < p = (div-lt_iff_lt-mul pos).1 (omega arith) in
    let top : upper * 256 + last ≡ upper * p * 2 ^ sl + last =
      omega (arith, ap (λ (t : ℕ). upper * t) width, mul_assoc upper p (2 ^ sl)) in
    let wrapped : u64 (u64 upper * p) ≡ u64 (upper * p) =
      sym (mul-add-mod_self_right (upper / 2 ^ 64 * p) (2 ^ 64) (u64 upper * p))
      ∙ ap u64 (omega (arith, ap (λ (t : ℕ). t * p) (div-add-mod' upper (2 ^ 64)))) in
    ap (λ (t : ℕ). bor 64 t (last / 2 ^ sl)) wrapped
    ∙ bor-u64 (8 - sl) upper (last / 2 ^ sl) (omega arith) low
    ∙ ap u64 (sym (ap (λ (t : ℕ). t / 2 ^ sl) top ∙ mul-add-div_right pos (upper * p) last))

u64_mod : (n x : ℕ) → n ≤ 64 → u64 x % 2 ^ n ≡ x % 2 ^ n
u64_mod n x h =
    sym (of_bits-to_bits n (u64 x)) ∙ ap (of_bits 0) (to_bits_mod n 64 x h) ∙ of_bits-to_bits n x

-- The mask that vectorToBits puts on is needed below 64 bits only.
masked : (n x : ℕ) → n ≤ 64 → (if ltb n 64 then u64 x % 2 ^ n else u64 x) ≡ x % 2 ^ n
masked n x h = elim (Bool-cases (ltb n 64)) [
  | inl short ↦ rw short (u64_mod n x h)
  | inr long ↦
      let full : n ≡ 64 = omega (arith, ltb→le n 64 long) in
      rw long (ap (λ (t : ℕ). x % 2 ^ t) (sym full))
]

-- vectorToBits drops the bits behind the field and masks those before it.
pub vector_to_bits_lem :
    (vs : List ℕ) (n shift required : ℕ)
    → All IsByte vs
    → 0 < length vs
    → n ≤ 64
    → n + shift ≤ required * 8
    → required * 8 ≤ n + shift + 8
    → vector_to_bits vs n shift required ≡ done (num 0 vs / 2 ^ (required * 8 - n - shift) % 2 ^ n)
unfolding vector_to_bits
vector_to_bits_lem vs n shift required hv hn hw lo hi =
    let sl : ℕ = required * 8 - n - shift in
    let parts = read_whole vs hn hv in
    rw
      (
        le→ltb (required * 8) (n + shift) lo,
        le→ltb 8 sl (omega arith),
        parts.returns,
        joined sl parts.upper parts.last (omega arith) parts.byte,
      )
      (ap done (
        masked n ((parts.upper * 256 + parts.last) / 2 ^ sl) hw
        ∙ ap (λ (t : ℕ). t / 2 ^ sl % 2 ^ n) (sym parts.value)))

-- The field in the bits of a vector.
pub field_of_vector :
    (vs : List ℕ) (n shift : ℕ)
    → All IsByte vs
    → n + shift ≤ length vs * 8
    → let sl = length vs * 8 - n - shift in
      (front : List ℕ) × (back : List ℕ) × (bits vs
        ≡ front ++ (to_bits n (num 0 vs / 2 ^ sl) ++ back))
      × (length front ≡ shift)
unfolding to_bits
field_of_vector vs n shift hv h =
    let sl : ℕ = length vs * 8 - n - shift in
    let x : ℕ = num 0 vs in
    (
      to_bits shift (x / 2 ^ (n + sl)),
      to_bits sl x,
      sym (to_bits-num 0 (8 * length vs) 0 vs hv (omega arith))
          ∙ to_bits-split shift (n + sl) (8 * length vs) x (omega arith)
          ∙ ap (◌++◌ (to_bits shift (x / 2 ^ (n + sl)))) (to_bits-split n sl (n + sl) x refl),
      length-to_bits shift _,
    )
