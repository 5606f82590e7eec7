-- ===== src/Rubix/RoundTrip/Integers.antt =====
-- The integer keys of serialmap.go, in dataTypeToBits (encoder.go) and decodeData (decoder.go).
use native.Mathlib.Nat.{mod-eq_of_lt}
use module_core_loraraw.Prelude.{
  ℕ, ◌+◌, List, ◌++◌, length, All, ◌*◌, ◌^◌, ◌≤◌, ◌<◌, ◌≡◌, refl, ap, arith, Bool, true, false,
  ◌&&◌, ◌==◌, ltb, Option, none, some,
}
use module_core_loraraw.Prelude.Finite.{all_below, all_below_sound}
use module_core_loraraw.Rubix.MetaData.{
  MetaData, DataType, no_type, fixed_point, data_point, get_meta_data,
}
use module_core_loraraw.Rubix.Floats.{Floats}
use module_core_loraraw.Rubix.Widths.{width, width-IsWidth}
use module_core_loraraw.Rubix.Encoder.{
  integer, data_bits, bits_by_type, data_type_to_bits, size_of, pattern_of,
}
use module_core_loraraw.Rubix.Encoder.Vectors.{copy_memory-memory}
use module_core_loraraw.Rubix.Points.{
  Pointer, to_float32, to_unsigned, to_signed, Stored, unsigned_int, signed_int, target,
  expected_pointer, same_pointer, point_into, point_value, decode_data,
}
use module_core_loraraw.Prelude.Go.{done}
use module_core_loraraw.Bits.{to_bits, bits, IsByte}
use module_core_loraraw.Rubix.Serial.{SerialData}
use module_core_loraraw.Rubix.RoundTrip.{
  stored_value, stored_by_type, target_known, decode_by_type_lem,
}

abbrev pub pointer_size : Pointer → ℕ
pointer_size to_float32 = 4
pointer_size (to_unsigned n) = n
pointer_size (to_signed n) = n

abbrev is_data_point : DataType → Bool
is_data_point data_point = true
is_data_point _ = false

abbrev accepts : Option Pointer → Pointer → Bool
accepts none p = false
accepts (some q) p = same_pointer q p

-- An integer variable of decodePointRubix has the size that the table gives for its key.
is_sized : ℕ → Option Pointer → Bool
is_sized key none = true
is_sized key (some to_float32) = true
is_sized key (some pointer) =
    is_data_point (get_meta_data key).data_type
    && (get_meta_data key).byte_count == pointer_size pointer
    && accepts (expected_pointer key) pointer
    && ltb (pointer_size pointer) 9

keys_sized : all_below 64 (λ key. is_sized key (target key)) ≡ true
unfolding all_below is_sized target get_meta_data expected_pointer same_pointer
keys_sized = refl

abbrev pub IsInteger : Pointer → Type 0
IsInteger to_float32 = ⊥
IsInteger _ = Unit {0}

same_pointer→eq : (p q : Pointer) → same_pointer p q ≡ true → p ≡ q
unfolding same_pointer
same_pointer→eq to_float32 to_float32 h = refl
same_pointer→eq to_float32 (to_unsigned n) h = cc
same_pointer→eq to_float32 (to_signed n) h = cc
same_pointer→eq (to_unsigned m) to_float32 h = cc
same_pointer→eq (to_unsigned m) (to_unsigned n) h = let e : m ≡ n = ground arith in ap to_unsigned e
same_pointer→eq (to_unsigned m) (to_signed n) h = cc
same_pointer→eq (to_signed m) to_float32 h = cc
same_pointer→eq (to_signed m) (to_unsigned n) h = cc
same_pointer→eq (to_signed m) (to_signed n) h = let e : m ≡ n = ground arith in ap to_signed e

sized_row :
    (t : DataType) (count size : ℕ) (q : Option Pointer) (pointer : Pointer)
    → (is_data_point t && count == size && accepts q pointer && ltb size 9) ≡ true
    → (t ≡ data_point) × (count ≡ size) × (q ≡ some pointer) × (size ≤ 8)
sized_row no_type count size q pointer h = cc
sized_row fixed_point count size q pointer h = cc
sized_row data_point count size none pointer h = absurd (ground arith)
sized_row data_point count size (some q) pointer h =
    let same : same_pointer q pointer ≡ true = ground arith in
    (refl, ground arith, ap some (same_pointer→eq q pointer same), ground arith)

-- What the table says of a key with an integer variable.
sized_lem :
    (key : ℕ) (pointer : Pointer)
    → is_sized key (some pointer) ≡ true
    → IsInteger pointer
    → ((get_meta_data key).data_type ≡ data_point)
      × ((get_meta_data key).byte_count ≡ pointer_size pointer)
      × (expected_pointer key ≡ some pointer)
      × (pointer_size pointer ≤ 8)
unfolding is_sized
sized_lem key to_float32 h hi = absurd hi
sized_lem key (to_unsigned n) h hi =
    sized_row (get_meta_data key).data_type (get_meta_data key).byte_count n (expected_pointer key)
      (to_unsigned n) h
sized_lem key (to_signed n) h hi =
    sized_row (get_meta_data key).data_type (get_meta_data key).byte_count n (expected_pointer key)
      (to_signed n) h

module _ (fl : Floats) where
  abbrev integer_of : Pointer → ℕ → Option (Stored fl)
  integer_of to_float32 x = none
  integer_of (to_unsigned n) x = some (unsigned_int n x)
  integer_of (to_signed n) x = some (signed_int n x)

  point_into_same :
      (pointer : Pointer) (x : ℕ)
      → IsInteger pointer
      → x < 2 ^ (8 * pointer_size pointer)
      → point_into fl (some pointer) pointer x ≡ integer_of pointer x
  unfolding point_into same_pointer point_value
  point_into_same to_float32 x hi hx = absurd hi
  point_into_same (to_unsigned n) x hi hx =
      let same : (n == n) ≡ true = ground arith in
      rw same (ap (λ (t : ℕ). some (unsigned_int n t)) (mod-eq_of_lt hx))
  point_into_same (to_signed n) x hi hx =
      let same : (n == n) ≡ true = ground arith in
      rw same (ap (λ (t : ℕ). some (signed_int n t)) (mod-eq_of_lt hx))

  pub stored_value-data_bits :
      (key : ℕ) (pointer : Pointer) (x : ℕ)
      → key < 64
      → target key ≡ some pointer
      → IsInteger pointer
      → x < 2 ^ (8 * pointer_size pointer)
      → (data_bits fl (integer (pointer_size pointer) x) (get_meta_data key)
          ≡ some (x, width (get_meta_data key)))
        × (x < 2 ^ width (get_meta_data key))
        × (stored_value fl key pointer x ≡ integer_of pointer x)
  unfolding data_bits bits_by_type data_type_to_bits stored_value stored_by_type size_of pattern_of
  stored_value-data_bits key pointer x hk ht hi hx =
      let sized : is_sized key (some pointer) ≡ true =
        rw ht at (all_below_sound 64 (λ k. is_sized k (target k)) key keys_sized hk) in
      let (typed, count, expected, small) = sized_lem key pointer sized hi in
      let size : ℕ = pointer_size pointer in
      let same : (size == size) ≡ true = ground arith in
      let wide : size * 8 ≡ 8 * size = omega arith in
      (
        rw (typed, count, same) (ap (λ (t : ℕ). some (t, size * 8)) (copy_memory-memory size x hx)),
        rw (typed, count, wide) hx,
        rw (typed, expected) (point_into_same pointer x hi hx),
      )

  -- For a key with an integer variable, EncodeData takes an integer of that variable's size, its
  -- data bits are the integer's pattern in the key's width, and where they stand in the stream behind the read position,
  -- at whatever alignment, decodeData moves behind them and stores the same pattern in that variable.
  pub decode_data-data_bits :
      (key : ℕ) (pointer : Pointer) (x : ℕ) (sd : SerialData) (front back : List ℕ)
      → key < 64
      → target key ≡ some pointer
      → IsInteger pointer
      → x < 2 ^ (8 * pointer_size pointer)
      → All IsByte sd.buffer
      → bits sd.buffer ≡ front ++ (to_bits (width (get_meta_data key)) x ++ back)
      → length front ≡ sd.read_bit_pos
      → (data_bits fl (integer (pointer_size pointer) x) (get_meta_data key)
          ≡ some (x, width (get_meta_data key)))
        × (decode_data fl sd key pointer
            ≡ done (
              record sd { read_bit_pos = sd.read_bit_pos + width (get_meta_data key) },
              integer_of pointer x,
            ))
  unfolding decode_data stored_value
  decode_data-data_bits key pointer x sd front back hk ht hi hx hv e hp =
      let (encoded, narrow, stored) = stored_value-data_bits key pointer x hk ht hi hx in
      let (known, typed) = target_known key pointer hk ht in
      let m : MetaData = get_meta_data key in
      let read =
        decode_by_type_lem fl m.data_type sd key m pointer x front back typed hv e hp
          (width-IsWidth key) narrow in
      let after : SerialData = record sd { read_bit_pos = sd.read_bit_pos + width m } in
      (encoded, rw (known, read) (ap (λ (v : Option (Stored fl)). done (after, v)) stored))
