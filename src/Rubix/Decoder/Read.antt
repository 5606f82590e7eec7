-- ===== src/Rubix/Decoder/Read.antt =====
-- getVector and vectorToBits (decoder.go) together, inside the buffer and past its end.
use native.Mathlib.Nat.{mod-eq_of_lt}
use module_core_loraraw.Prelude.{
  ℕ, zero, suc, ◌+◌, ◌-◌, ◌*◌, ◌/◌, ◌%◌, ◌^◌, ◌≤◌, ◌<◌, ◌≡◌, refl, sym, ap, ◌∙◌, arith, List, [],
  ◌∷◌, ◌++◌, append_assoc, All, length, length-append, append_injective, take, drop,
  take-append-drop, length-take, length-drop, length-replicate, ◌==◌, ltb, Bool-cases, inl, inr,
  ltb→lt, ltb→le, lt→ltb, le→ltb, true, false,
}
use module_core_loraraw.Prelude.Go.{done}
use module_core_loraraw.Bits.{to_bits, of_bits, bits, num, IsByte, zeros}
use module_core_loraraw.Bits.Split.{length-to_bits, of_bits-to_bits}
use module_core_loraraw.Bits.Bytes.{bits-append, length-bits}
use module_core_loraraw.Rubix.Serial.{SerialData}
use module_core_loraraw.Rubix.Decoder.{bytes_required, slice_or_zeros, read_bits}
use module_core_loraraw.Rubix.Decoder.Vector.{
  bytes_required_bounds, vector_to_bits_lem, field_of_vector,
}

-- The vector that getVector cuts out of a buffer long enough.
slice_in_range :
    (buffer : List ℕ) (location count : ℕ)
    → location + count ≤ length buffer
    → slice_or_zeros buffer location count ≡ done (take count (drop location buffer))
unfolding slice_or_zeros
slice_in_range buffer location count h = rw (le→ltb (length buffer) (location + count) h)

All-take : (P : ℕ → Type 0) (n : ℕ) (xs : List ℕ) → All P xs → All P (take n xs)
All-take P zero xs h = tt
All-take P (suc n) [] h = tt
All-take P (suc n) (x ∷ xs) h = (h.0, All-take P n xs h.1)

All-drop : (P : ℕ → Type 0) (n : ℕ) (xs : List ℕ) → All P xs → All P (drop n xs)
All-drop P zero xs h = h
All-drop P (suc n) [] h = tt
All-drop P (suc n) (x ∷ xs) h = All-drop P n xs h.1

bits-slice :
    (buffer : List ℕ) (location count : ℕ)
    → bits buffer
      ≡ bits (take location buffer)
        ++ (bits (take count (drop location buffer)) ++ bits (drop count (drop location buffer)))
bits-slice buffer location count =
    ap bits (sym (take-append-drop location buffer))
    ∙ bits-append (take location buffer) (drop location buffer)
    ∙ ap (λ (l : List ℕ). bits (take location buffer) ++ l)
        (ap bits (sym (take-append-drop count (drop location buffer)))
          ∙ bits-append (take count (drop location buffer)) (drop count (drop location buffer)))

-- Both views of a buffer, by its vector and by its stream, show one field.
field_in_stream :
    (buffer : List ℕ) (n at x : ℕ) (before vs after front back : List ℕ)
    → 0 < n
    → length before + at % 8 ≡ at
    → All IsByte vs
    → n + at % 8 ≤ length vs * 8
    → bits buffer ≡ before ++ (bits vs ++ after)
    → bits buffer ≡ front ++ (to_bits n x ++ back)
    → length front ≡ at
    → num 0 vs / 2 ^ (length vs * 8 - n - at % 8) % 2 ^ n ≡ x % 2 ^ n
field_in_stream buffer n at x before vs after front back hn hb hv hl cut e hp =
    let y : ℕ = num 0 vs / 2 ^ (length vs * 8 - n - at % 8) in
    let (ahead, behind, inner, size) = field_of_vector vs n (at % 8) hv hl in
    let inward : (before ++ ahead) ++ (to_bits n y ++ (behind ++ after))
        ≡ before ++ ((ahead ++ (to_bits n y ++ behind)) ++ after) =
      simp append_assoc in
    let regrouped : (before ++ ahead) ++ (to_bits n y ++ (behind ++ after))
        ≡ front ++ (to_bits n x ++ back) =
      inward ∙ ap (λ (l : List ℕ). before ++ (l ++ after)) (sym inner) ∙ sym cut ∙ e in
    let rest =
      (append_injective (before ++ ahead) _ front _ regrouped
        (omega (arith, length-append before ahead))).1 in
    let same =
      (append_injective (to_bits n y) _ (to_bits n x) _ rest
        (omega (arith, length-to_bits n x, length-to_bits n y))).0 in
    sym (of_bits-to_bits n y) ∙ ap (of_bits 0) same ∙ of_bits-to_bits n x

-- A read of 1 to 64 bits gives the number whose bits stand in the stream at the cursor, at whatever
-- alignment, and moves the cursor behind them.
pub read_bits_lem :
    (sd : SerialData) (n x : ℕ) (front back : List ℕ)
    → All IsByte sd.buffer
    → bits sd.buffer ≡ front ++ (to_bits n x ++ back)
    → length front ≡ sd.read_bit_pos
    → n ≤ 64
    → 0 < n
    → x < 2 ^ n
    → read_bits sd n ≡ done (x, record sd { read_bit_pos = sd.read_bit_pos + n })
unfolding read_bits
read_bits_lem sd n x front back hv e hp hw hn hx =
    let at : ℕ = sd.read_bit_pos in
    let count : ℕ = bytes_required n at in
    let location : ℕ = at / 8 in
    let (lo, hi) = bytes_required_bounds n at in
    let total : length sd.buffer * 8 ≡ at + n + length back = omega (
      arith,
      ap length e,
      length-bits sd.buffer,
      length-append front (to_bits n x ++ back),
      length-append (to_bits n x) back,
      length-to_bits n x,
    ) in
    let inside : location + count ≤ length sd.buffer = omega arith in
    let vs : List ℕ = take count (drop location sd.buffer) in
    let bytes : All IsByte vs = All-take IsByte count _ (All-drop IsByte location _ hv) in
    let size : length vs ≡ count =
      omega (arith, length-take count (drop location sd.buffer), length-drop location sd.buffer) in
    let field =
      field_in_stream sd.buffer n at x _ vs _ front back hn
        (omega (arith, length-bits (take location sd.buffer), length-take location sd.buffer)) bytes
        (rw size lo) (bits-slice sd.buffer location count) e hp in
    rw (slice_in_range sd.buffer location count inside) (
      rw (vector_to_bits_lem vs n (at % 8) count bytes (omega arith) hw lo (omega arith)) (
        ap (λ (v : ℕ). done (v, record sd { read_bit_pos = at + n }))
          (ap (λ (c : ℕ). num 0 vs / 2 ^ (c * 8 - n - at % 8) % 2 ^ n) (sym size)
            ∙ field
            ∙ mod-eq_of_lt hx)))

num-zeros : (n : ℕ) → num 0 (zeros n) ≡ 0
unfolding num
num-zeros zero = refl
num-zeros (suc n) = num-zeros n

zeros-IsByte : (n : ℕ) → All IsByte (zeros n)
zeros-IsByte zero = tt
zeros-IsByte (suc n) = (omega arith, zeros-IsByte n)

-- A read of 1 to 64 bits that reaches past the end of the buffer gives 0 and moves the cursor all the same.
pub read_bits_past :
    (sd : SerialData) (n : ℕ)
    → length sd.buffer * 8 < sd.read_bit_pos + n
    → 0 < n
    → n ≤ 64
    → read_bits sd n ≡ done (0, record sd { read_bit_pos = sd.read_bit_pos + n })
unfolding read_bits slice_or_zeros
read_bits_past sd n h hn hw =
    let at : ℕ = sd.read_bit_pos in
    let count : ℕ = bytes_required n at in
    let (lo, hi) = bytes_required_bounds n at in
    let outside : ltb (length sd.buffer) (at / 8 + count) ≡ true = lt→ltb _ _ (omega arith) in
    let some_byte : (count == 0) ≡ false = ground arith in
    let size : length (zeros count) ≡ count = length-replicate count 0 in
    rw (outside, some_byte)
      (rw
        (vector_to_bits_lem (zeros count) n (at % 8) count (zeros-IsByte count) (omega arith) hw lo
          (omega arith))
        (ap
            (λ (v : ℕ).
              done (v / 2 ^ (count * 8 - n - at % 8) % 2 ^ n, record sd { read_bit_pos = at + n }))
            (num-zeros count)
          ∙ ap (λ (v : ℕ). done (v, record sd { read_bit_pos = at + n })) (omega arith)))

-- A read never panics, wherever it stands, and moves the cursor by what it was asked for.
pub read_bits_total :
    (sd : SerialData) (n : ℕ)
    → All IsByte sd.buffer
    → 0 < n
    → n ≤ 64
    → (x : ℕ) × (read_bits sd n ≡ done (x, record sd { read_bit_pos = sd.read_bit_pos + n }))
unfolding read_bits
read_bits_total sd n hv hn hw =
    let at : ℕ = sd.read_bit_pos in
    let count : ℕ = bytes_required n at in
    let (lo, hi) = bytes_required_bounds n at in
    let vs : List ℕ = take count (drop (at / 8) sd.buffer) in
    elim (Bool-cases (ltb (length sd.buffer * 8) (at + n))) [
      | inl outside ↦ (0, read_bits_past sd n (ltb→lt _ _ outside) hn hw)
      | inr inside ↦
          let enough : at + n ≤ length sd.buffer * 8 = ltb→le _ _ inside in
          let size : length vs ≡ count =
            omega (
              arith,
              length-take count (drop (at / 8) sd.buffer),
              length-drop (at / 8) sd.buffer,
            ) in
          (
            num 0 vs / 2 ^ (count * 8 - n - at % 8) % 2 ^ n,
            rw (slice_in_range sd.buffer (at / 8) count (omega arith)) (
                rw (
                  vector_to_bits_lem vs n (at % 8) count
                    (All-take IsByte count _ (All-drop IsByte (at / 8) _ hv)) (omega arith) hw lo
                    (omega arith))),
          )
    ]
