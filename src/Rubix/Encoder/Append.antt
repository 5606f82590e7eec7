-- ===== src/Rubix/Encoder/Append.antt =====
-- addVectorToBuffer (encoder.go): the stream that a buffer holds, and the last byte of it.
use native.Mathlib.Nat.{
  one-le-pow, div-lt_iff_lt-mul, mod-eq_of_lt, div-add-mod', add-zero, mul-le-mul_right,
  mul-add-div_right, mul-add-mod_self_right,
}
use module_core_loraraw.Prelude.{
  ℕ, zero, suc, ◌+◌, ◌-◌, ◌*◌, ◌/◌, ◌%◌, ◌^◌, ◌≤◌, ◌<◌, ◌≡◌, refl, sym, ap, ◌∙◌, arith, List, [],
  ◌∷◌, ◌++◌, append_assoc, append-nil, All, length, length-append, length-replicate,
  append_injective,
}
use module_core_loraraw.Prelude.Go.{done}
use module_core_loraraw.Bits.{to_bits, bits, num, bor, IsByte, zeros}
use module_core_loraraw.Bits.Split.{
  length-to_bits, to_bits-split, to_bits_mod, mod-zero_of_zeros, to_bits-zero,
}
use module_core_loraraw.Bits.Bytes.{bits-append, length-bits}
use module_core_loraraw.Bits.Or.{bor_disjoint}
use module_core_loraraw.Bits.Pow.{pow_add}
use module_core_loraraw.Rubix.Serial.{SerialData}
use module_core_loraraw.Rubix.Encoder.{shift_bytes, or_last}
use module_core_loraraw.Rubix.Encoder.Shift.{bits-shift_bytes, length-shift_bytes}

-- The bits of the last byte that are not yet written.
abbrev pub pad : ℕ → ℕ
pad w = (8 - w) % 8

-- The buffer is the stream `u`, filled up with zeros to whole bytes.
pub record Holds (sd : SerialData) (u : List ℕ) : Type 0 where
  pub stream : bits sd.buffer ≡ u ++ zeros (pad sd.write_bit_pos)
  pub in_range : sd.write_bit_pos ≤ 8
  pub bytes : All IsByte sd.buffer
  pub nonempty : 0 < length sd.buffer

pub zeros-append : (m n k : ℕ) → k ≡ m + n → zeros k ≡ zeros m ++ zeros n
zeros-append zero n k e = let same : k ≡ n = omega arith in ap zeros same
zeros-append (suc m) n zero e = absurd (omega arith)
zeros-append (suc m) n (suc k) e = ap (◌∷◌ 0) (zeros-append m n k (omega arith))

pub All-append : (P : ℕ → Type 0) (xs ys : List ℕ) → All P xs → All P ys → All P (xs ++ ys)
All-append P [] ys hx hy = hy
All-append P (x ∷ xs) ys hx hy = (hx.0, All-append P xs ys hx.1 hy)

-- The shifted vector has its bits after `w` zeros; it still ends with `q - w` zeros.
pub shifted_bits :
    (w q : ℕ) (vs d : List ℕ)
    → w ≤ 8
    → w ≤ q
    → All IsByte vs
    → bits vs ≡ d ++ zeros q
    → bits (shift_bytes w 0 vs) ≡ zeros w ++ (d ++ zeros (q - w))
shifted_bits w q vs d hw hq hv e =
    (append_injective _ (to_bits w (num 0 vs)) _ (zeros w) whole lengths).0
  where
    whole :
        bits (shift_bytes w 0 vs) ++ to_bits w (num 0 vs)
        ≡ (zeros w ++ (d ++ zeros (q - w))) ++ zeros w
    whole =
        bits-shift_bytes w 0 vs hw hv
        ∙ ap (λ (l : List ℕ). l ++ bits vs) (to_bits-zero w)
        ∙ ap (◌++◌ (zeros w)) (e ∙ ap (◌++◌ d) (zeros-append (q - w) w q (omega arith)))
        ∙ simp append_assoc

    lengths : length (bits (shift_bytes w 0 vs)) ≡ length (zeros w ++ (d ++ zeros (q - w)))
    lengths = omega (
      arith,
      ap length e,
      length-bits vs,
      length-bits (shift_bytes w 0 vs),
      length-shift_bytes w vs 0,
      length-append d (zeros q),
      length-append (zeros w) (d ++ zeros (q - w)),
      length-append d (zeros (q - w)),
      length-replicate {A = ℕ} q 0,
      length-replicate {A = ℕ} w 0,
      length-replicate {A = ℕ} (q - w) 0,
    )

bits-one : (x : ℕ) → bits (x ∷ []) ≡ to_bits 8 x
unfolding bits
bits-one x = append-nil (to_bits 8 x)

-- or_last changes the last byte only.
or_last-append :
    (front : List ℕ) (x b : ℕ) → or_last (front ++ x ∷ []) b ≡ done (front ++ bor 8 x b ∷ [])
unfolding or_last
or_last-append [] x b = refl
or_last-append (y ∷ []) x b = refl
or_last-append (y ∷ z ∷ front) x b = rw (or_last-append (z ∷ front) x b)

split_last : (xs : List ℕ) → 0 < length xs → (front : List ℕ) × (x : ℕ) × (xs ≡ front ++ x ∷ [])
split_last [] h = absurd (omega arith)
split_last (x ∷ []) h = ([], x, refl)
split_last (x ∷ y ∷ ys) h =
    let (front, last, e) = split_last (y ∷ ys) (omega arith) in (x ∷ front, last, ap (◌∷◌ x) e)

-- A byte with its low `k` bits clear takes the low bits of one with its other bits clear.
or_bits :
    (w k x b : ℕ)
    → w + k ≡ 8
    → IsByte x
    → IsByte b
    → to_bits k x ≡ zeros k
    → to_bits w (b / 2 ^ k) ≡ zeros w
    → (to_bits 8 (bor 8 x b) ≡ to_bits w (x / 2 ^ k) ++ to_bits k b) × IsByte (bor 8 x b)
or_bits w k x b e hx hb cx cb =
    let p : ℕ = 2 ^ k in
    let width : 2 ^ 8 ≡ 2 ^ w * p = pow_add w k 8 (sym e) in
    let pos : 0 < p = one-le-pow k 2 (omega arith) in
    let under : (y : ℕ) → y < 256 → y / p < 2 ^ w =
      λ y h. (div-lt_iff_lt-mul pos).1 (omega arith) in
    let none : b / p ≡ 0 = sym (mod-eq_of_lt (under b hb)) ∙ mod-zero_of_zeros w (b / p) cb in
    let low : b < p =
      omega (arith, (div-lt_iff_lt-mul {k = p} {x = b} {y = 1} pos).0 (omega arith)) in
    let whole : x ≡ x / p * p =
      sym (div-add-mod' x p)
      ∙ ap (λ (t : ℕ). x / p * p + t) (mod-zero_of_zeros k x cx)
      ∙ add-zero _ in
    let fits : x / p * p + b < 2 ^ 8 = omega (arith, mul-le-mul_right p (under x hx)) in
    let sum : bor 8 x b ≡ x / p * p + b =
      ap (λ (t : ℕ). bor 8 t b) whole ∙ bor_disjoint 8 k (x / p) b low fits in
    let upper : (x / p * p + b) / p ≡ x / p = mul-add-div_right pos (x / p) b ∙ omega arith in
    let lower : to_bits k (x / p * p + b) ≡ to_bits k b =
      sym (to_bits_mod k k (x / p * p + b) (omega arith))
      ∙ ap (to_bits k) (mul-add-mod_self_right (x / p) p b)
      ∙ to_bits_mod k k b (omega arith) in
    (
      ap (to_bits 8) sum
          ∙ to_bits-split w k 8 (x / p * p + b) (sym e)
          ∙ ap (λ (t : ℕ). to_bits w t ++ to_bits k (x / p * p + b)) upper
          ∙ ap (◌++◌ (to_bits w (x / p))) lower,
      rw sum fits,
    )

All-snoc : (front : List ℕ) (x : ℕ) → All IsByte (front ++ x ∷ []) → All IsByte front × IsByte x
All-snoc [] x h = (tt, h.0)
All-snoc (y ∷ ys) x h = let (rest, last) = All-snoc ys x h.1 in ((h.0, rest), last)

bits-snoc : (front : List ℕ) (x : ℕ) → bits (front ++ x ∷ []) ≡ bits front ++ to_bits 8 x
bits-snoc front x = bits-append front (x ∷ []) ∙ ap (◌++◌ (bits front)) (bits-one x)

same_front : (a b c d : List ℕ) → a ++ b ≡ c ++ d → length b ≡ length d → length a ≡ length c
same_front a b c d e h = omega (arith, ap length e, length-append a b, length-append c d)

-- The unfinished last byte takes the first shifted byte.
pub or_last-bits :
    (w : ℕ) (buffer u : List ℕ) (b : ℕ)
    → w ≤ 8
    → All IsByte buffer
    → 0 < length buffer
    → bits buffer ≡ u ++ zeros (8 - w)
    → IsByte b
    → to_bits w (b / 2 ^ (8 - w)) ≡ zeros w
    → (buffer' : List ℕ) × (or_last buffer b ≡ done buffer')
      × (bits buffer' ≡ u ++ to_bits (8 - w) b)
      × All IsByte buffer'
      × (0 < length buffer')
or_last-bits w buffer u b hw hv hn e hb cb =
    let (front, x, shape) = split_last buffer hn in
    let k : ℕ = 8 - w in
    let parts : All IsByte front × IsByte x = All-snoc front x (rw shape at hv) in
    let cut : to_bits 8 x ≡ to_bits w (x / 2 ^ k) ++ to_bits k x =
      to_bits-split w k 8 x (omega arith) in
    let regrouped : (bits front ++ to_bits w (x / 2 ^ k)) ++ to_bits k x ≡ u ++ zeros k =
      append_assoc (bits front) (to_bits w (x / 2 ^ k)) (to_bits k x)
      ∙ ap (◌++◌ (bits front)) (sym cut)
      ∙ sym (bits-snoc front x)
      ∙ ap bits (sym shape)
      ∙ e in
    let lengths =
      same_front (bits front ++ to_bits w (x / 2 ^ k)) (to_bits k x) u (zeros k) regrouped
        (omega (arith, length-to_bits k x, length-replicate {A = ℕ} k 0)) in
    let (old, clear) = append_injective _ _ _ _ regrouped lengths in
    let (joined, byte) = or_bits w k x b (omega arith) parts.1 hb clear cb in
    (
      front ++ bor 8 x b ∷ [],
      ap (λ (l : List ℕ). or_last l b) shape ∙ or_last-append front x b,
      bits-snoc front (bor 8 x b)
          ∙ ap (◌++◌ (bits front)) joined
          ∙ sym (append_assoc (bits front) (to_bits w (x / 2 ^ k)) (to_bits k b))
          ∙ ap (λ (l : List ℕ). l ++ to_bits k b) old,
      All-append IsByte front (bor 8 x b ∷ []) parts.0 (byte, tt),
      omega (arith, length-append front (bor 8 x b ∷ [])),
    )
