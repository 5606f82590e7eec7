-- ===== src/Rubix/Encoder/Point.antt =====
-- EncodeData (encoder.go): a point on the stream, with its position, its key and its data.
use module_core_loraraw.Prelude.{
  ℕ, ◌+◌, ◌/◌, ◌%◌, ◌^◌, ◌≤◌, ◌<◌, ◌≡◌, refl, sym, ap, ◌∙◌, arith, List, [], ◌∷◌, ◌++◌,
  append_assoc, append-nil, All, length, length-append, append_injective, Bool, true, false,
  if◌then◌else◌, ◌==◌,
}
use module_core_loraraw.Prelude.Go.{done}
use module_core_loraraw.Bits.{to_bits, of_bits, bits, IsByte, zeros}
use module_core_loraraw.Bits.Split.{length-to_bits, of_bits-to_bits}
use module_core_loraraw.Rubix.Serial.{SerialData, has_positional_data}
use module_core_loraraw.Rubix.MetaData.{data_type_bit_count}
use module_core_loraraw.Rubix.Encoder.{vector_bytes, bits_to_vector, header_vector, put_point}
use module_core_loraraw.Rubix.Encoder.Vectors.{
  bits-bits_to_vector, fill, vector_bytes-IsByte, length-vector_bytes,
}
use module_core_loraraw.Rubix.Encoder.Append.{Holds, pad, All-append}
use module_core_loraraw.Rubix.Encoder.Stream.{Appended, add_vector_to_buffer-Appended}

-- The header's bits, and the whole point's.
abbrev pub header_bits : Bool → ℕ → ℕ → List ℕ
header_bits has_pos key position =
    (if has_pos then to_bits 8 position else []) ++ to_bits data_type_bit_count key

abbrev pub point_bits : Bool → ℕ → ℕ → ℕ × ℕ → List ℕ
point_bits has_pos key position (x, n) = header_bits has_pos key position ++ to_bits n x

same_byte : (b s : ℕ) → to_bits 8 b ≡ to_bits 8 s → b % 2 ≡ s % 2
same_byte b s e =
    let low : b % 2 ^ 8 ≡ s % 2 ^ 8 =
      sym (of_bits-to_bits 8 b) ∙ ap (of_bits 0) e ∙ of_bits-to_bits 8 s in
    omega arith

first_byte :
    (buffer : List ℕ) (s : ℕ) (u : List ℕ)
    → 0 < length buffer
    → bits buffer ≡ to_bits 8 s ++ u
    → (b : ℕ) × (bs : List ℕ) × (buffer ≡ b ∷ bs) × (b % 2 ≡ s % 2)
unfolding bits
first_byte [] s u h e = absurd (omega arith)
first_byte (b ∷ bs) s u h e =
    let same =
      (append_injective (to_bits 8 b) (bits bs) (to_bits 8 s) u e
        (omega (arith, length-to_bits 8 b, length-to_bits 8 s))).0 in
    (b, bs, refl, same_byte b s same)

-- A stream that begins with the settings says whether its points have positions.
pub has_positional_data-bits :
    (sd : SerialData) (s : ℕ) (u : List ℕ)
    → 0 < length sd.buffer
    → bits sd.buffer ≡ to_bits 8 s ++ u
    → has_positional_data sd ≡ done (s % 2 == 1)
unfolding has_positional_data
has_positional_data-bits sd s u h e =
    let (b, bs, shape, parity) = first_byte sd.buffer s u h e in
    rw shape (ap (λ (t : ℕ). done (t == 1)) parity)

bits_to_vector-IsByte :
    (x n : ℕ) (vector : List ℕ) → All IsByte vector → All IsByte (bits_to_vector x n vector)
unfolding bits_to_vector
bits_to_vector-IsByte x n vector h =
    All-append IsByte vector _ h (vector_bytes-IsByte ((n + 7) / 8) _)

length-bits_to_vector :
    (x n : ℕ) (vector : List ℕ) → length (bits_to_vector x n vector) ≡ length vector + (n + 7) / 8
unfolding bits_to_vector
length-bits_to_vector x n vector = omega (
  arith,
  length-append vector (vector_bytes ((n + 7) / 8) _),
  length-vector_bytes ((n + 7) / 8) _,
)

bits-byte : (b : ℕ) → bits (b ∷ []) ≡ to_bits 8 b
unfolding bits
bits-byte b = append-nil (to_bits 8 b)

-- The header's vector holds the header's bits and fewer than eight zeros.
header_vector_lem :
    (has_pos : Bool) (key position : ℕ)
    → IsByte position
    → let header = header_vector has_pos key position in
      (bits header.0 ≡ header_bits has_pos key position ++ zeros 2)
      × (length (header_bits has_pos key position) ≡ header.1)
      × All IsByte header.0
      × (0 < length header.0)
unfolding header_vector bits
header_vector_lem true key position h = (
  bits-bits_to_vector key 6 (position ∷ []) (omega arith)
      ∙ ap (λ (l : List ℕ). l ++ (to_bits 6 key ++ zeros 2)) (bits-byte position)
      ∙ sym (append_assoc (to_bits 8 position) (to_bits 6 key) (zeros 2)),
  omega (
    arith,
    length-append (to_bits 8 position) (to_bits 6 key),
    length-to_bits 8 position,
    length-to_bits 6 key,
  ),
  bits_to_vector-IsByte key 6 (position ∷ []) (h, tt),
  omega (arith, length-bits_to_vector key 6 (position ∷ [])),
)
header_vector_lem false key position h = (
  bits-bits_to_vector key 6 [] (omega arith),
  length-to_bits 6 key,
  bits_to_vector-IsByte key 6 [] tt,
  omega (arith, length-bits_to_vector key 6 []),
)

-- Header and data join the stream; the encoder never panics on a buffer with a settings byte.
pub put_point-Appended :
    (sd : SerialData) (s : ℕ) (u : List ℕ) (key position x n : ℕ)
    → Holds sd (to_bits 8 s ++ u)
    → IsByte position
    → 0 < n
    → n ≤ 64
    → Appended
        (put_point sd key position (x, n))
        (to_bits 8 s ++ (u ++ point_bits (s % 2 == 1) key position (x, n)))
        sd.read_bit_pos
unfolding put_point bits
put_point-Appended sd s u key position x n h hp hn hw =
    let has_pos : Bool = s % 2 == 1 in
    let start : List ℕ = to_bits 8 s ++ u in
    let settings =
      has_positional_data-bits sd s (u ++ zeros (pad sd.write_bit_pos)) h.nonempty
        (h.stream ∙ append_assoc (to_bits 8 s) u _) in
    let (hb, hl, hv, long) = header_vector_lem has_pos key position hp in
    let header = header_vector has_pos key position in
    let one =
      add_vector_to_buffer-Appended sd header.1 2 start header.0 (header_bits has_pos key position)
        h hv hb hl (omega arith) long in
    let two =
      add_vector_to_buffer-Appended one.after n (fill n) (start ++ header_bits has_pos key position)
        (bits_to_vector x n []) (to_bits n x) one.holds (bits_to_vector-IsByte x n [] tt)
        (bits-bits_to_vector x n [] hw) (length-to_bits n x) (omega arith)
        (omega (arith, length-bits_to_vector x n [])) in
    let regroup : (start ++ header_bits has_pos key position) ++ to_bits n x
        ≡ to_bits 8 s ++ (u ++ point_bits has_pos key position (x, n)) =
      simp append_assoc in
    record {
      after = two.after;
      returns = rw settings (rw one.returns two.returns);
      holds = rw regroup at two.holds;
      same_read = two.same_read ∙ one.same_read;
    }
