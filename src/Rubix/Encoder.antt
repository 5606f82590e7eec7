-- ===== src/Rubix/Encoder.antt =====
-- codecs/rubixDataEncoding/encoder.go: bit vectors, and EncodeData.
pub mod Shift
pub mod Vectors
pub mod Append
pub mod Stream
pub mod Point
pub mod Outcome
use module_core_loraraw.Prelude.{
  ℕ, zero, suc, ◌+◌, ◌-◌, ◌*◌, ◌/◌, ◌%◌, ◌^◌, Bool, true, false, List, [], ◌∷◌, ◌++◌, length, ltb,
  ◌==◌, if◌then◌else◌, Option, none, some,
}
use module_core_loraraw.Prelude.Go.{Go, done, panic, ◌>>=◌}
use module_core_loraraw.Bits.{bor, u8, u64}
use module_core_loraraw.Rubix.Serial.{SerialData, has_positional_data}
use module_core_loraraw.Rubix.MetaData.{
  MetaData, DataType, no_type, fixed_point, data_point, data_type_bit_count, get_meta_data,
}
use module_core_loraraw.Rubix.Floats.{Floats}
use module_core_loraraw.Rubix.BitCount.{get_bit_count}

-- The loop of reshapeVector: `tb` is TB, a uint64.
unfoldable pub shift_bytes : ℕ → ℕ → List ℕ → List ℕ
shift_bytes w tb [] = []
shift_bytes w tb (v ∷ vs) =
    let tb' = u64 (bor 64 tb v * 2 ^ 8) / 2 ^ w in
    u8 (tb' / 2 ^ 8) ∷ shift_bytes w (u64 (tb' * 2 ^ w)) vs

unfoldable pub reshape_vector : SerialData → ℕ → List ℕ → List ℕ
unfolding shift_bytes
reshape_vector sd bit_count vector =
    let room =
      if ltb (length vector * 8) (sd.write_bit_pos + bit_count) then vector ++ 0 ∷ [] else vector in
    shift_bytes sd.write_bit_pos 0 room

-- `buffer[len(buffer)-1] |= b`
unfoldable pub or_last : List ℕ → ℕ → Go (List ℕ)
or_last [] b = panic
or_last (x ∷ []) b = done (bor 8 x b ∷ [])
or_last (x ∷ y ∷ ys) b = do rest ← or_last (y ∷ ys) b; done (x ∷ rest)

-- How the first shifted byte meets the buffer: a new byte, or the rest of the last one.
unfoldable pub put_vector : SerialData → List ℕ → Go (List ℕ)
unfolding or_last
put_vector sd [] = panic
put_vector sd (v ∷ vs) =
    if sd.write_bit_pos == 0
    then done (sd.buffer ++ v ∷ vs)
    else (or_last sd.buffer v >>= λ buffer. done (buffer ++ vs))

unfoldable pub add_vector_to_buffer : SerialData → List ℕ → ℕ → Go SerialData
unfolding reshape_vector put_vector
add_vector_to_buffer sd vector bit_count = do
  buffer ← put_vector sd (reshape_vector sd bit_count vector)
  done (record sd { buffer = buffer; write_bit_pos = (sd.write_bit_pos + bit_count % 8) % 8 })

-- `for i := n - 1; i >= 0; i--` of bitsToVector.
unfoldable pub vector_bytes : ℕ → ℕ → List ℕ
vector_bytes zero x = []
vector_bytes (suc i) x = u8 (x / 2 ^ (8 * i)) ∷ vector_bytes i x

-- Appends to the vector; the number of bytes is the ceiling of bitCount / 8.
unfoldable pub bits_to_vector : ℕ → ℕ → List ℕ → List ℕ
unfolding vector_bytes
bits_to_vector x bit_count vector =
    let number_of_bytes = (bit_count + 7) / 8 in
    let left_shift = number_of_bytes * 8 - bit_count in
    vector ++ vector_bytes number_of_bytes (u64 (x * 2 ^ left_shift))

-- The bytes of a value in memory, lowest first, and the copy of them into a uint64.
unfoldable pub memory : ℕ → ℕ → List ℕ
memory zero x = []
memory (suc n) x = u8 x ∷ memory n (x / 2 ^ 8)

unfoldable pub copy_memory : List ℕ → ℕ
copy_memory [] = 0
copy_memory (b ∷ bs) = b + copy_memory bs * 2 ^ 8

module _ (fl : Floats) where
  open fl use {
    F64, F32, widen, narrow, of_int, lt, sub64, sub32, mul64, pow10, round, to_u64, bits64, bits32,
  }

  -- The Go values that EncodeData is called with; integers by their bit pattern.
  pub data GoValue : Type 0 where
    float64 : F64 → GoValue
    float32 : F32 → GoValue
    -- the size in bytes and the pattern of a signed or an unsigned integer
    integer : ℕ → ℕ → GoValue

  unfoldable pub clamp : F64 → F64 → F64 → F64
  clamp value low high = if lt value low then low else if lt high value then high else value

  -- The uint64 for a float64 or float32 value, with its bit count.
  unfoldable pub fixed_point_to_bits64 : F64 → MetaData → ℕ × ℕ
  unfolding clamp
  fixed_point_to_bits64 value m =
      let value' = clamp value (of_int m.low_value) (of_int m.high_value) in
      (
        to_u64 (round (mul64 (sub64 value' (of_int m.low_value)) (pow10 m.decimal_point))),
        get_bit_count m.low_value m.high_value m.decimal_point,
      )

  unfoldable pub fixed_point_to_bits32 : F32 → MetaData → ℕ × ℕ
  unfolding clamp
  fixed_point_to_bits32 value m =
      let value' = narrow (clamp (widen value) (of_int m.low_value) (of_int m.high_value)) in
      (
        to_u64 (
            round
              (mul64 (widen (sub32 value' (narrow (of_int m.low_value)))) (pow10 m.decimal_point))),
        get_bit_count m.low_value m.high_value m.decimal_point,
      )

  -- unsafe.Sizeof and the memory of a value.
  unfoldable pub size_of : GoValue → ℕ
  size_of (float64 x) = 8
  size_of (float32 x) = 4
  size_of (integer size x) = size

  unfoldable pub pattern_of : GoValue → ℕ
  pattern_of (float64 x) = bits64 x
  pattern_of (float32 x) = bits32 x
  pattern_of (integer size x) = x

  -- `none` where the sizes differ. No value has more than 8 bytes.
  unfoldable pub data_type_to_bits : GoValue → MetaData → Option (ℕ × ℕ)
  unfolding size_of pattern_of memory copy_memory
  data_type_to_bits value m =
      if m.byte_count == size_of value
      then some (copy_memory (memory (size_of value) (pattern_of value)), m.byte_count * 8)
      else none

  -- The data bits and their count, or `none` for a key, type or size that EncodeData refuses.
  unfoldable pub bits_by_type : DataType → GoValue → MetaData → Option (ℕ × ℕ)
  unfolding data_type_to_bits fixed_point_to_bits64 fixed_point_to_bits32
  bits_by_type no_type v m = none
  bits_by_type fixed_point (float64 x) m = some (fixed_point_to_bits64 x m)
  bits_by_type fixed_point (float32 x) m = some (fixed_point_to_bits32 x m)
  bits_by_type fixed_point (integer size x) m = none
  bits_by_type data_point v m = data_type_to_bits v m

  unfoldable pub data_bits : GoValue → MetaData → Option (ℕ × ℕ)
  unfolding bits_by_type
  data_bits value m = bits_by_type m.data_type value m

-- The header vector with its bit count: the position byte, where the stream has positions, and the key.
unfoldable pub header_vector : Bool → ℕ → ℕ → List ℕ × ℕ
unfolding bits_to_vector
header_vector true key position =
    (bits_to_vector key data_type_bit_count (position ∷ []), data_type_bit_count + 8)
header_vector false key position = (bits_to_vector key data_type_bit_count [], data_type_bit_count)

-- Header and data, one after the other.
unfoldable pub put_point : SerialData → ℕ → ℕ → ℕ × ℕ → Go SerialData
put_point sd key position (x, bit_count) = do
  positional ← has_positional_data sd
  let header = header_vector positional key position
  sd' ← add_vector_to_buffer sd header.0 header.1
  add_vector_to_buffer sd' (bits_to_vector x bit_count []) bit_count

-- EncodeData: the new state and its Boolean result.
unfoldable pub encode_data :
    (fl : Floats) → SerialData → GoValue fl → ℕ → ℕ → Go (SerialData × Bool)
encode_data fl sd value key position = elim (data_bits fl value (get_meta_data key)) [
  | none ↦ (has_positional_data sd >>= λ positional. done (sd, false))
  | some d ↦ (put_point sd key position d >>= λ sd'. done (sd', true))
]
