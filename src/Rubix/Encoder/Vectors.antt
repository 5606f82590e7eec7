-- ===== src/Rubix/Encoder/Vectors.antt =====
-- bitsToVector and the memory copy of dataTypeToBits (encoder.go), in bits.
use native.Mathlib.Nat.{mul-div_cancel, one-le-pow, mul-mod_left}
use module_core_loraraw.Prelude.{
  ℕ, zero, suc, ◌+◌, ◌-◌, ◌*◌, ◌/◌, ◌%◌, ◌^◌, ◌≤◌, ◌<◌, ◌≡◌, refl, sym, ap, ◌∙◌, arith, List, ◌++◌,
  All, length,
}
use module_core_loraraw.Bits.{to_bits, bits, IsByte, u64, zeros}
use module_core_loraraw.Bits.Split.{to_bits-split, to_bits_mod, to_bits-zeros}
use module_core_loraraw.Bits.Pow.{pow_add}
use module_core_loraraw.Bits.Bytes.{bits-append}
use module_core_loraraw.Rubix.Encoder.{vector_bytes, bits_to_vector, memory, copy_memory}

bits-vector_bytes : (i x : ℕ) → bits (vector_bytes i x) ≡ to_bits (8 * i) x
unfolding vector_bytes bits
bits-vector_bytes zero x = unfold to_bits in refl
bits-vector_bytes (suc i) x =
    rw (to_bits_mod 8 8 (x / 2 ^ (8 * i)) (omega arith), bits-vector_bytes i x)
      (sym (to_bits-split 8 (8 * i) (8 * suc i) x (omega arith)))

pub vector_bytes-IsByte : (i x : ℕ) → All IsByte (vector_bytes i x)
unfolding vector_bytes
vector_bytes-IsByte zero x = tt
vector_bytes-IsByte (suc i) x = (omega arith, vector_bytes-IsByte i x)

pub length-vector_bytes : (i x : ℕ) → length (vector_bytes i x) ≡ i
unfolding vector_bytes
length-vector_bytes zero x = refl
length-vector_bytes (suc i) x = ap suc (length-vector_bytes i x)

-- The zero bits that fill up the last byte.
abbrev pub fill : ℕ → ℕ
fill n = (n + 7) / 8 * 8 - n

pub bits-bits_to_vector :
    (x n : ℕ) (vector : List ℕ)
    → n ≤ 64
    → bits (bits_to_vector x n vector) ≡ bits vector ++ (to_bits n x ++ zeros (fill n))
unfolding bits_to_vector
bits-bits_to_vector x n vector h =
    let f : ℕ = fill n in
    let count : ℕ = (n + 7) / 8 in
    let shifted : x * 2 ^ f / 2 ^ f ≡ x = mul-div_cancel x (one-le-pow f 2 (omega arith)) in
    let clear : x * 2 ^ f % 2 ^ f ≡ 0 = mul-mod_left x (2 ^ f) in
    bits-append vector (vector_bytes count (u64 (x * 2 ^ f)))
    ∙ ap (◌++◌ (bits vector)) (
        bits-vector_bytes count (u64 (x * 2 ^ f))
        ∙ to_bits_mod (8 * count) 64 (x * 2 ^ f) (omega arith)
        ∙ to_bits-split n f (8 * count) (x * 2 ^ f) (omega arith)
        ∙ ap (λ (t : ℕ). to_bits n t ++ to_bits f (x * 2 ^ f)) shifted
        ∙ ap (◌++◌ (to_bits n x)) (to_bits-zeros f (x * 2 ^ f) clear))

-- The copy of a value of `n` bytes is its bit pattern.
pub copy_memory-memory : (n x : ℕ) → x < 2 ^ (8 * n) → copy_memory (memory n x) ≡ x
unfolding copy_memory memory
copy_memory-memory zero x h = omega arith
copy_memory-memory (suc n) x h = omega (arith, copy_memory-memory n (x / 2 ^ 8) small)
  where
    small : x / 2 ^ 8 < 2 ^ (8 * n)
    small = omega (arith, pow_add 8 (8 * n) (8 * suc n) (omega arith))
