-- ===== src/Rubix/Encoder/Stream.antt =====
-- addVectorToBuffer (encoder.go) on a stream.
use mathlib.Core.Path.{ap₂}
use module_core_loraraw.Prelude.{
  ℕ, ◌+◌, ◌-◌, ◌*◌, ◌/◌, ◌%◌, ◌^◌, ◌≤◌, ◌<◌, ◌≡◌, refl, sym, ap, ◌∙◌, arith, List, [], ◌∷◌, ◌++◌,
  append_assoc, append-nil, All, length, length-append, length-replicate, append_injective, inl,
  inr, ◌==◌, ltb, Bool-cases, true, false, ltb→lt, ltb→le, lt→ltb, le→ltb, if◌then◌else◌,
}
use module_core_loraraw.Prelude.Go.{Go, done}
use module_core_loraraw.Bits.{to_bits, bits, IsByte, zeros}
use module_core_loraraw.Bits.Split.{length-to_bits, to_bits-split}
use module_core_loraraw.Bits.Bytes.{bits-append, length-bits}
use module_core_loraraw.Rubix.Serial.{SerialData}
use module_core_loraraw.Rubix.Encoder.{reshape_vector, put_vector, add_vector_to_buffer}
use module_core_loraraw.Rubix.Encoder.Shift.{shift_bytes-IsByte, length-shift_bytes}
use module_core_loraraw.Rubix.Encoder.Append.{
  Holds, pad, zeros-append, All-append, shifted_bits, or_last-bits,
}

-- The buffer after a vector: all its bits, bytes again, not empty.
pub record Filled (r : Go (List ℕ)) (u : List ℕ) : Type 0 where
  pub buffer : List ℕ
  pub returns : r ≡ done buffer
  pub stream : bits buffer ≡ u
  pub bytes : All IsByte buffer
  pub nonempty : 0 < length buffer

put_vector-Filled :
    (sd : SerialData) (u rest : List ℕ) (v : ℕ) (vs : List ℕ)
    → Holds sd u
    → All IsByte (v ∷ vs)
    → bits (v ∷ vs) ≡ zeros sd.write_bit_pos ++ rest
    → Filled (put_vector sd (v ∷ vs)) (u ++ rest)
unfolding put_vector bits
put_vector-Filled sd u rest v vs h hv e = elim (Bool-cases (sd.write_bit_pos == 0)) [
  | inl fresh ↦ fresh_byte fresh
  | inr partial ↦ last_byte partial
]
  where
    w : ℕ
    w = sd.write_bit_pos

    fresh_byte : (w == 0) ≡ true → Filled (put_vector sd (v ∷ vs)) (u ++ rest)
    fresh_byte fresh =
        let none : w ≡ 0 = ground arith in
        record {
          buffer = sd.buffer ++ v ∷ vs;
          returns = rw fresh;
          stream =
              bits-append sd.buffer (v ∷ vs)
              ∙ ap₂ ◌++◌ (h.stream ∙ ap (λ (t : ℕ). u ++ zeros (pad t)) none ∙ append-nil u)
                  (e ∙ ap (λ (t : ℕ). zeros t ++ rest) none);
          bytes = All-append IsByte sd.buffer (v ∷ vs) h.bytes hv;
          nonempty = omega (arith, h.nonempty, length-append sd.buffer (v ∷ vs));
        }

    k : ℕ
    k = 8 - w

    cut : (to_bits w (v / 2 ^ k) ≡ zeros w) × (to_bits k v ++ bits vs ≡ rest)
    cut =
        append_injective _ _ _ _
          (sym (append_assoc (to_bits w (v / 2 ^ k)) (to_bits k v) (bits vs))
            ∙ ap (λ (l : List ℕ). l ++ bits vs)
                (sym (to_bits-split w k 8 v (omega (arith, h.in_range))))
            ∙ e)
          (omega (arith, length-to_bits w (v / 2 ^ k), length-replicate {A = ℕ} w 0))

    last_byte : (w == 0) ≡ false → Filled (put_vector sd (v ∷ vs)) (u ++ rest)
    last_byte partial =
        let free : pad w ≡ k = ground (arith, h.in_range) in
        let (front, returns, stream, bytes, nonempty) =
          or_last-bits w sd.buffer u v h.in_range h.bytes h.nonempty
            (h.stream ∙ ap (λ (t : ℕ). u ++ zeros t) free) hv.0 cut.0 in
        record {
          buffer = front ++ vs;
          returns = rw (partial, returns);
          stream =
              bits-append front vs
              ∙ ap (λ (l : List ℕ). l ++ bits vs) stream
              ∙ append_assoc u (to_bits k v) (bits vs)
              ∙ ap (◌++◌ u) cut.1;
          bytes = All-append IsByte front vs bytes hv.1;
          nonempty = omega (arith, nonempty, length-append front vs);
        }

put_vector_list :
    (sd : SerialData) (u rest vs : List ℕ)
    → Holds sd u
    → All IsByte vs
    → bits vs ≡ zeros sd.write_bit_pos ++ rest
    → 0 < length vs
    → Filled (put_vector sd vs) (u ++ rest)
put_vector_list sd u rest [] h hv e hn = absurd (omega arith)
put_vector_list sd u rest (v ∷ vs) h hv e hn = put_vector-Filled sd u rest v vs h hv e

-- The room that reshapeVector makes leaves fewer than eight bits free.
abbrev left_over : ℕ → ℕ → ℕ
left_over w q = if ltb q w then q + 8 - w else q - w

free_bits : (w n q l : ℕ) → l * 8 ≡ n + q → q < 8 → w ≤ 8 → left_over w q ≡ pad ((w + n % 8) % 8)
free_bits w n q l e hq hw = ground arith

whole_bytes :
    (vector d : List ℕ) (n q : ℕ)
    → bits vector ≡ d ++ zeros q
    → length d ≡ n
    → length vector * 8 ≡ n + q
whole_bytes vector d n q e hd = omega (
  arith,
  ap length e,
  length-bits vector,
  length-append d (zeros q),
  length-replicate {A = ℕ} q 0,
)

reshaped :
    (sd : SerialData) (n q : ℕ) (vector d : List ℕ)
    → sd.write_bit_pos ≤ 8
    → All IsByte vector
    → bits vector ≡ d ++ zeros q
    → length d ≡ n
    → (bits (reshape_vector sd n vector)
        ≡ zeros sd.write_bit_pos ++ (d ++ zeros (left_over sd.write_bit_pos q)))
      × All IsByte (reshape_vector sd n vector)
      × (length vector ≤ length (reshape_vector sd n vector))
unfolding reshape_vector
reshaped sd n q vector d hw hv e hd = elim (Bool-cases (ltb q sd.write_bit_pos)) [
  | inl more ↦
      let grows : ltb (length vector * 8) (sd.write_bit_pos + n) ≡ true =
        lt→ltb _ _ (omega (arith, ltb→lt _ _ more, whole)) in
      let longer : bits (vector ++ 0 ∷ []) ≡ d ++ zeros (q + 8) =
        bits-append vector (0 ∷ [])
        ∙ ap₂ ◌++◌ e zero_byte
        ∙ append_assoc d (zeros q) (zeros 8)
        ∙ ap (◌++◌ d) (sym (zeros-append q 8 (q + 8) refl)) in
      rw (grows, more)
        (
          shifted_bits _ (q + 8) (vector ++ 0 ∷ []) d hw (omega arith)
              (All-append IsByte vector (0 ∷ []) hv (omega arith)) longer,
          shift_bytes-IsByte _ (vector ++ 0 ∷ []) 0,
          omega (
            arith,
            length-shift_bytes sd.write_bit_pos (vector ++ 0 ∷ []) 0,
            length-append vector (0 ∷ []),
          ),
        )
  | inr enough ↦
      let fits : ltb (length vector * 8) (sd.write_bit_pos + n) ≡ false =
        le→ltb _ _ (omega (arith, ltb→le _ _ enough, whole)) in
      rw (fits, enough)
        (
          shifted_bits _ q vector d hw (ltb→le _ _ enough) hv e,
          shift_bytes-IsByte _ vector 0,
          omega (arith, length-shift_bytes sd.write_bit_pos vector 0),
        )
]
  where
    whole : length vector * 8 ≡ n + q
    whole = whole_bytes vector d n q e hd

    zero_byte : bits (0 ∷ []) ≡ zeros 8
    zero_byte = unfold bits to_bits in refl

-- The contract of addVectorToBuffer: it never panics on a vector that holds `n` bits and fewer
-- than eight zeros, and appends those bits to the stream.
pub record Appended (r : Go SerialData) (u : List ℕ) (read : ℕ) : Type 0 where
  pub after : SerialData
  pub returns : r ≡ done after
  pub holds : Holds after u
  pub same_read : after.read_bit_pos ≡ read

-- addVectorToBuffer puts the bits of a vector, less the fewer than eight zeros that fill its last
-- byte, behind the stream that the buffer holds, at whatever bit that ends; it does not panic, keeps the
-- rest of the last byte zero and leaves the read cursor alone.
pub add_vector_to_buffer-Appended :
    (sd : SerialData) (n q : ℕ) (u vector d : List ℕ)
    → Holds sd u
    → All IsByte vector
    → bits vector ≡ d ++ zeros q
    → length d ≡ n
    → q < 8
    → 0 < length vector
    → Appended (add_vector_to_buffer sd vector n) (u ++ d) sd.read_bit_pos
unfolding add_vector_to_buffer
add_vector_to_buffer-Appended sd n q u vector d h hv e hd hq hn =
    let (shape, bytes, long) = reshaped sd n q vector d h.in_range hv e hd in
    let filled =
      put_vector_list sd u (d ++ zeros (left_over sd.write_bit_pos q)) (reshape_vector sd n vector)
        h bytes shape (omega arith) in
    record {
      after = record sd { buffer = filled.buffer; write_bit_pos = (sd.write_bit_pos + n % 8) % 8 };
      returns = rw filled.returns;
      holds = record {
        stream =
            filled.stream
            ∙ sym (append_assoc u d (zeros (left_over sd.write_bit_pos q)))
            ∙ ap (λ (t : ℕ). (u ++ d) ++ zeros t)
                (free_bits sd.write_bit_pos n q (length vector) (whole_bytes vector d n q e hd) hq
                  h.in_range);
        in_range = omega arith;
        bytes = filled.bytes;
        nonempty = filled.nonempty;
      };
      same_read = refl;
    }
