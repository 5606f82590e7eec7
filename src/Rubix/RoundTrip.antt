-- ===== src/Rubix/RoundTrip.antt =====
-- One round of DecodeRubix (decoder.go) on a point that EncodeData (encoder.go) wrote.
pub mod Integers
pub mod Message
pub mod Request
use mathlib.Core.Path.{ap₂}
use module_core_loraraw.Prelude.{
  ℕ, zero, suc, ◌+◌, ◌-◌, ◌*◌, ◌/◌, ◌%◌, ◌^◌, ◌≤◌, ◌<◌, ◌≡◌, refl, sym, ap, ◌∙◌, arith, List, [],
  ◌∷◌, ◌++◌, append_assoc, append-nil, All, length, length-append, Bool, true, false, not, ◌&&◌,
  if◌then◌else◌, ◌==◌, Bool-cases, Option-cases, inl, inr, Option, none, some, ◌≢◌,
}
use module_core_loraraw.Prelude.Finite.{all_below, all_below_sound}
use module_core_loraraw.Prelude.Go.{Go, done, ◌>>=◌}
use module_core_loraraw.Bits.{to_bits, bits, IsByte, u8}
use module_core_loraraw.Bits.Split.{length-to_bits}
use module_core_loraraw.Rubix.Serial.{SerialData, has_positional_data}
use module_core_loraraw.Rubix.MetaData.{
  MetaData, DataType, no_type, fixed_point, data_point, get_meta_data, serial_map, lookup,
  data_type_bit_count,
}
use module_core_loraraw.Rubix.Floats.{Floats}
use module_core_loraraw.Rubix.BitCount.{get_bit_count}
use module_core_loraraw.Rubix.Widths.{width, width_by_type, IsWidth, width-IsWidth}
use module_core_loraraw.Rubix.Fields.{PositionData, parse_position}
use module_core_loraraw.Rubix.Decoder.{read_bits, parse_meta_data}
use module_core_loraraw.Rubix.Decoder.Read.{read_bits_lem}
use module_core_loraraw.Rubix.Encoder.Point.{header_bits, point_bits}
use module_core_loraraw.Rubix.Points.{
  Pointer, Stored, Decoded, Call, target, fixed_into, point_into, expected_pointer, decode_by_type,
  decode_data, decode_target, decode_point_rubix, decoded_of, callback, decode_round,
}
use module_core_loraraw.Rubix.Points.Total.{same_settings}

abbrev is_typed : DataType → Bool
is_typed no_type = false
is_typed _ = true

-- A key below 64 for which decodePointRubix has a case is not 0, and the table knows it.
is_known : ℕ → Bool
is_known key = elim (target key) [
  | none ↦ true
  | some _ ↦ not (key == 0) && is_typed (get_meta_data key).data_type
]

keys_known : all_below 64 is_known ≡ true
unfolding all_below is_known target get_meta_data
keys_known = refl

pub target_known :
    (key : ℕ) (pointer : Pointer)
    → key < 64
    → target key ≡ some pointer
    → ((key == 0) ≡ false) × (is_typed (get_meta_data key).data_type ≡ true)
unfolding is_known
target_known key pointer h e =
    let known : is_known key ≡ true = all_below_sound 64 is_known key keys_known h in ground arith

-- Header and data as they stand in the stream.
parse_meta_data_lem :
    (sd : SerialData) (has_pos : Bool) (key position : ℕ) (front back : List ℕ)
    → All IsByte sd.buffer
    → has_positional_data sd ≡ done has_pos
    → bits sd.buffer ≡ front ++ (header_bits has_pos key position ++ back)
    → length front ≡ sd.read_bit_pos
    → key < 64
    → IsByte position
    → (fresh : PositionData) × (parse_meta_data sd
        ≡ done (
          key,
          fresh,
          record sd { read_bit_pos = sd.read_bit_pos + length (header_bits has_pos key position) },
        ))
      × ((has_pos ≡ true) → fresh ≡ parse_position position)
unfolding parse_meta_data
parse_meta_data_lem sd true key position front back hv hs e hp hk hb =
    let at : ℕ = sd.read_bit_pos in
    let one =
      read_bits_lem sd 8 position front (to_bits 6 key ++ back) hv
        (e ∙ ap (◌++◌ front) (append_assoc (to_bits 8 position) (to_bits 6 key) back)) hp
        (omega arith) (omega arith) hb in
    let two =
      read_bits_lem (record sd { read_bit_pos = at + 8 }) 6 key (front ++ to_bits 8 position) back
        hv (e ∙ simp append_assoc)
        (omega (arith, length-append front (to_bits 8 position), length-to_bits 8 position))
        (omega arith) (omega arith) hk in
    let size : at + 8 + 6 ≡ at + length (header_bits true key position) = omega (
      arith,
      length-append (to_bits 8 position) (to_bits 6 key),
      length-to_bits 8 position,
      length-to_bits 6 key,
    ) in
    let byte : u8 position ≡ position = omega arith in
    (
      parse_position (u8 position),
      rw hs (
          rw one (
            rw two (
              ap
                (λ (t : ℕ).
                  done (key, parse_position (u8 position), record sd { read_bit_pos = t }))
                size))),
      λ _. ap parse_position byte,
    )
parse_meta_data_lem sd false key position front back hv hs e hp hk hb =
    let one = read_bits_lem sd 6 key front back hv e hp (omega arith) (omega arith) hk in
    let size : sd.read_bit_pos + 6 ≡ sd.read_bit_pos + length (header_bits false key position) =
      omega (arith, length-to_bits 6 key) in
    (
      record { id = 0; type = 0 },
      rw hs (
          rw one (
            ap (λ (t : ℕ). done (key, record { id = 0; type = 0 }, record sd { read_bit_pos = t }))
              size)),
      λ h. cc,
    )

module _ (fl : Floats) where
  -- What decodeData stores for the bits `x` of a field.
  pub stored_by_type : DataType → ℕ → MetaData → Pointer → ℕ → Option (Stored fl)
  stored_by_type no_type key m pointer x = none
  stored_by_type fixed_point key m pointer x = fixed_into fl pointer x m
  stored_by_type data_point key m pointer x = point_into fl (expected_pointer key) pointer x

  pub stored_value : ℕ → Pointer → ℕ → Option (Stored fl)
  stored_value key pointer x =
      stored_by_type (get_meta_data key).data_type key (get_meta_data key) pointer x

  decode_by_type_lem :
      (t : DataType) (sd : SerialData) (key : ℕ) (m : MetaData) (pointer : Pointer) (x : ℕ)
      (front back : List ℕ)
      → is_typed t ≡ true
      → All IsByte sd.buffer
      → bits sd.buffer ≡ front ++ (to_bits (width_by_type t m) x ++ back)
      → length front ≡ sd.read_bit_pos
      → IsWidth (width_by_type t m)
      → x < 2 ^ width_by_type t m
      → decode_by_type fl t sd key m pointer
        ≡ done (
          record sd { read_bit_pos = sd.read_bit_pos + width_by_type t m },
          stored_by_type t key m pointer x,
        )
  unfolding decode_by_type stored_by_type
  decode_by_type_lem no_type sd key m pointer x front back ht hv e hp hw hx = cc
  decode_by_type_lem fixed_point sd key m pointer x front back ht hv e hp hw hx =
      rw (read_bits_lem sd _ x front back hv e hp hw.1 hw.0 hx) refl
  decode_by_type_lem data_point sd key m pointer x front back ht hv e hp hw hx =
      rw (read_bits_lem sd _ x front back hv e hp hw.1 hw.0 hx) refl

  -- decodeData and the rest of decodePointRubix, at a key and a field that stand in the stream.
  decode_point_lem :
      (sd : SerialData) (key x : ℕ) (position : PositionData) (pointer : Pointer)
      (front back : List ℕ)
      → All IsByte sd.buffer
      → bits sd.buffer ≡ front ++ (to_bits (width (get_meta_data key)) x ++ back)
      → length front ≡ sd.read_bit_pos
      → key < 64
      → target key ≡ some pointer
      → x < 2 ^ width (get_meta_data key)
      → decode_point_rubix fl sd key position
        ≡ done (
          decoded_of fl key position (stored_value key pointer x),
          record sd { read_bit_pos = sd.read_bit_pos + width (get_meta_data key) },
        )
  unfolding decode_point_rubix decode_target decode_data stored_value stored_by_type
  decode_point_lem sd key x position pointer front back hv e hp hk ht hx =
      let m : MetaData = get_meta_data key in
      let (valid, typed) = target_known key pointer hk ht in
      let field =
        decode_by_type_lem m.data_type sd key m pointer x front back typed hv e hp
          (width-IsWidth key) hx in
      rw (ht, valid) (rw field refl)

  -- A point with a case in decodePointRubix, read whole: its call, the next position and the cursor.
  pub decode_round_lem :
      (msg : Option ℕ) (has_pos : Bool) (position : PositionData) (sd : SerialData) (key byte x : ℕ)
      (pointer : Pointer) (front back : List ℕ)
      → All IsByte sd.buffer
      → has_positional_data sd ≡ done has_pos
      → bits sd.buffer
        ≡ front ++ (point_bits has_pos key byte (x, width (get_meta_data key)) ++ back)
      → length front ≡ sd.read_bit_pos
      → key < 64
      → IsByte byte
      → target key ≡ some pointer
      → x < 2 ^ width (get_meta_data key)
      → let at = if has_pos then parse_position byte else position in
        decode_round fl msg has_pos position sd
        ≡ done (
          callback fl msg (decoded_of fl key at (stored_value key pointer x)),
          record at { id = at.id + 1 },
          record sd {
            read_bit_pos =
                sd.read_bit_pos
                + length (point_bits has_pos key byte (x, width (get_meta_data key)));
          },
        )
  unfolding decode_round
  decode_round_lem msg has_pos position sd key byte x pointer front back hv hs e hp hk hb ht hx =
      let n : ℕ = width (get_meta_data key) in
      let head : List ℕ = header_bits has_pos key byte in
      let regroup : bits sd.buffer ≡ front ++ (head ++ (to_bits n x ++ back)) =
        e ∙ ap (◌++◌ front) (append_assoc head (to_bits n x) back) in
      let (fresh, meta, same) =
        parse_meta_data_lem sd has_pos key byte front (to_bits n x ++ back) hv hs regroup hp hk
          hb in
      let at : PositionData = if has_pos then fresh else position in
      let start : SerialData = record sd { read_bit_pos = sd.read_bit_pos + length head } in
      let field =
        decode_point_lem start key x at pointer (front ++ head) back hv
          (regroup ∙ sym (append_assoc front head (to_bits n x ++ back)))
          (omega (arith, length-append front head)) hk ht hx in
      let place : at ≡ (if has_pos then parse_position byte else position) =
        elim (Bool-cases has_pos) [
          | inl positional ↦ rw positional (same positional)
          | inr plain ↦ rw plain refl
        ] in
      let size : sd.read_bit_pos + length head + n
          ≡ sd.read_bit_pos + length (point_bits has_pos key byte (x, n)) =
        omega (arith, length-append head (to_bits n x), length-to_bits n x) in
      rw meta (
        rw field (
          ap₂
            (λ (p : PositionData) (t : ℕ). done (
              callback fl msg (decoded_of fl key p (stored_value key pointer x)),
              record p { id = p.id + 1 },
              record sd { read_bit_pos = t },
            ))
            place size))
