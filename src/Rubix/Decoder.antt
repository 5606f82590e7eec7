-- ===== src/Rubix/Decoder.antt =====
-- codecs/rubixDataEncoding/decoder.go: reading a stream of points.
pub mod Vector
pub mod Read
use module_core_loraraw.Prelude.{
  ℕ, zero, suc, ◌+◌, ◌-◌, ◌*◌, ◌/◌, ◌%◌, ◌^◌, Bool, true, false, ◌||◌, List, [], ◌∷◌, ◌++◌, Option,
  none, some, length, take, drop, replicate, ltb, ◌==◌, if◌then◌else◌,
}
use module_core_loraraw.Prelude.Int.{ℤ, pos, negsuc}
use module_core_loraraw.Prelude.Go.{Go, done, panic, ◌>>=◌}
use module_core_loraraw.Prelude.Text.{codes}
use module_core_loraraw.Prelude.Decimal.{itoa}
use module_core_loraraw.Bits.{bor, u8, u64}
use module_core_loraraw.Rubix.Serial.{SerialData, has_positional_data, new_serial_data_with_buffer}
use module_core_loraraw.Rubix.MetaData
use module_core_loraraw.Rubix.MetaData.{
  MetaData, DataType, no_type, fixed_point, data_point, data_type_bit_count, get_meta_data,
}
use module_core_loraraw.Rubix.Floats.{Floats}
use module_core_loraraw.Rubix.BitCount.{get_bit_count}
use module_core_loraraw.Rubix.Fields.{PositionData, parse_position, generate_field_name, general}

-- `ReadBitPos < len(Buffer)*8 - 6`, on integers.
unfoldable pub can_decode : SerialData → Bool
can_decode sd = ltb (sd.read_bit_pos + data_type_bit_count) (length sd.buffer * 8)

-- The bytes that hold `bit_count` bits from `position` on.
unfoldable pub bytes_required : ℕ → ℕ → ℕ
bytes_required bit_count position =
    let whole = if bit_count % 8 == 0 then bit_count / 8 else bit_count / 8 + 1 in
    if ltb (whole * 8) (bit_count + position % 8) then whole + 1 else whole

-- Zeros where the buffer is too short; `dataVector[0] = 0` panics on an empty vector.
unfoldable pub slice_or_zeros : List ℕ → ℕ → ℕ → Go (List ℕ)
slice_or_zeros buffer location count =
    if ltb (length buffer) (location + count)
    then (if count == 0 then panic else done (replicate count 0))
    else done (take count (drop location buffer))

-- All but the last byte, shifted together, and the last byte.
unfoldable pub read_upper : ℕ → List ℕ → Go (ℕ × ℕ)
read_upper acc [] = panic
read_upper acc (y ∷ []) = done (acc, y)
read_upper acc (x ∷ y ∷ []) = done (bor 64 acc x, y)
read_upper acc (x ∷ y ∷ z ∷ zs) = read_upper (u64 (bor 64 acc x * 2 ^ 8)) (y ∷ z ∷ zs)

-- A negative shift count panics.
unfoldable pub vector_to_bits : List ℕ → ℕ → ℕ → ℕ → Go ℕ
unfolding read_upper
vector_to_bits vector bit_count shift_pos required =
    let shift_left = required * 8 - bit_count - shift_pos in
    if ltb (required * 8) (bit_count + shift_pos) || ltb 8 shift_left
    then panic
    else (read_upper 0 vector >>= λ parts.
        let x = bor 64 (u64 (parts.0 * 2 ^ (8 - shift_left))) (parts.1 / 2 ^ shift_left) in
        done (if ltb bit_count 64 then x % 2 ^ bit_count else x))

-- getVector at the read position and vectorToBits, which the source always calls one after the other.
unfoldable pub read_bits : SerialData → ℕ → Go (ℕ × SerialData)
unfolding bytes_required slice_or_zeros vector_to_bits
read_bits sd bit_count = do
  let position = sd.read_bit_pos
  let required = bytes_required bit_count position
  vector ← slice_or_zeros sd.buffer (position / 8) required
  x ← vector_to_bits vector bit_count (position % 8) required
  done (x, record sd { read_bit_pos = position + bit_count })

-- The position, where the stream has positions, and the key.
unfoldable pub parse_meta_data : SerialData → Go (ℕ × PositionData × SerialData)
parse_meta_data sd = do
  positional ← has_positional_data sd
  (byte, sd') ← (if positional then read_bits sd 8 else done (0, sd))
  (key, sd'') ← read_bits sd' data_type_bit_count
  done (key, (if positional then parse_position (u8 byte) else record { id = 0; type = 0 }), sd'')
