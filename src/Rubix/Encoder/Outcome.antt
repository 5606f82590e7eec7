-- ===== src/Rubix/Encoder/Outcome.antt =====
-- EncodeData on both of its branches.
use module_core_loraraw.Prelude.{
  ℕ, ◌%◌, ◌≡◌, refl, ap, ◌∙◌, true, false, List, ◌++◌, ◌==◌, none, some, Option-cases, Bool-cases,
  inl, inr, append_assoc,
}
use module_core_loraraw.Prelude.Go.{done}
use module_core_loraraw.Bits.{to_bits, IsByte, zeros}
use module_core_loraraw.Rubix.Serial.{SerialData}
use module_core_loraraw.Rubix.MetaData.{
  MetaData, DataType, no_type, fixed_point, data_point, get_meta_data,
}
use module_core_loraraw.Rubix.Floats.{Floats}
use module_core_loraraw.Rubix.Widths.{width, width_by_type, width-IsWidth}
use module_core_loraraw.Rubix.Encoder.{
  GoValue, float64, float32, integer, data_bits, bits_by_type, data_type_to_bits,
  fixed_point_to_bits64, fixed_point_to_bits32, size_of, encode_data,
}
use module_core_loraraw.Rubix.Encoder.Append.{Holds, pad}
use module_core_loraraw.Rubix.Encoder.Point.{
  point_bits, put_point-Appended, has_positional_data-bits,
}

module _ (fl : Floats) where
  -- Data bits come with the width that the table gives.
  bits_by_type_width :
      (t : DataType) (v : GoValue fl) (m : MetaData) (d : ℕ × ℕ)
      → bits_by_type fl t v m ≡ some d
      → d.1 ≡ width_by_type t m
  unfolding bits_by_type data_type_to_bits fixed_point_to_bits64 fixed_point_to_bits32
  bits_by_type_width no_type v m d e = cc
  bits_by_type_width fixed_point (float64 x) m d e = cc
  bits_by_type_width fixed_point (float32 x) m d e = cc
  bits_by_type_width fixed_point (integer size x) m d e = cc
  bits_by_type_width data_point v m d e = elim (Bool-cases (m.byte_count == size_of fl v)) [
    | inl same ↦ let taken = rw same at e in cc
    | inr other ↦ let refused = rw other at e in cc
  ]

  -- What EncodeData does with a stream that holds `u` after its settings `s`.
  pub data Outcome (sd : SerialData) (v : GoValue fl) (key position s : ℕ) (u : List ℕ)
      : Type 0 where
    unchanged :
        data_bits fl v (get_meta_data key) ≡ none
        → encode_data fl sd v key position ≡ done (sd, false)
        → Outcome sd v key position s u
    appended :
        (x : ℕ) (after : SerialData)
        → data_bits fl v (get_meta_data key) ≡ some (x, width (get_meta_data key))
        → encode_data fl sd v key position ≡ done (after, true)
        → Holds after (
            to_bits 8 s
            ++ (u ++ point_bits (s % 2 == 1) key position (x, width (get_meta_data key))))
        → after.read_bit_pos ≡ sd.read_bit_pos
        → Outcome sd v key position s u

  -- EncodeData either refuses the value, returns false and leaves the stream alone, or returns true
  -- and appends the position byte (where the settings ask for it), the key and the data bits.
  pub encode_data-Outcome :
      (sd : SerialData) (v : GoValue fl) (key position s : ℕ) (u : List ℕ)
      → Holds sd (to_bits 8 s ++ u)
      → IsByte position
      → Outcome sd v key position s u
  unfolding encode_data data_bits
  encode_data-Outcome sd v key position s u h hp =
      let m : MetaData = get_meta_data key in
      elim (Option-cases (data_bits fl v m)) [
        | inl refused ↦
            let settings =
              has_positional_data-bits sd s (u ++ zeros (pad sd.write_bit_pos)) h.nonempty
                (h.stream ∙ append_assoc (to_bits 8 s) u _) in
            unchanged refused (rw (encode_data, refused) (rw settings refl))
        | inr (d, taken) ↦
            let count : d.1 ≡ width m = bits_by_type_width m.data_type v m d taken in
            let taken' : data_bits fl v m ≡ some (d.0, width m) =
              taken ∙ ap (λ (n : ℕ). some (d.0, n)) count in
            let put =
              put_point-Appended sd s u key position d.0 (width m) h hp (width-IsWidth key).0
                (width-IsWidth key).1 in
            appended d.0 put.after taken' (rw (encode_data, taken') (rw put.returns refl)) put.holds
              put.same_read
      ]
