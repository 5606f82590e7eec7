-- ===== src/Rubix/Points.antt =====
-- codecs/rubixDataEncoding/decoder.go: decodeData, decodePointRubix and the loop of DecodeRubix.
pub mod Total
-- A callback is a value of the list that the loop returns; the callbacks' own effects are pkg's.
use module_core_loraraw.Prelude.{
  ℕ, zero, suc, ◌+◌, ◌-◌, ◌*◌, ◌/◌, ◌%◌, ◌^◌, ◌≤◌, Bool, true, false, ◌&&◌, ◌||◌, List, [], ◌∷◌,
  ◌++◌, Option, none, some, length, ltb, leb, ◌==◌, if◌then◌else◌,
}
use module_core_loraraw.Prelude.Int.{ℤ, pos, negsuc}
use module_core_loraraw.Prelude.Go.{Go, done, panic, ◌>>=◌}
use module_core_loraraw.Prelude.Text.{codes}
use module_core_loraraw.Prelude.Decimal.{itoa}
use module_core_loraraw.Rubix.Serial.{SerialData, has_positional_data, new_serial_data_with_buffer}
use module_core_loraraw.Rubix.MetaData.{
  MetaData, DataType, no_type, fixed_point, data_point, get_meta_data, mdk_temp, mdk_rh, mdk_lux,
  mdk_movement, mdk_counter, mdk_digital, mdk_voltage_0_10, mdk_milliamps_4_20, mdk_ohm, mdk_co2,
  mdk_battery_voltage, mdk_push_frequency, mdk_analog_in, mdk_firmware_version,
  mdk_hardware_version, mdk_uint_8, mdk_int_8, mdk_uint_16, mdk_int_16, mdk_uint_32, mdk_int_32,
  mdk_uint_64, mdk_int_64, mdk_bool, mdk_char, mdk_float, mdk_error,
}
use module_core_loraraw.Rubix.Floats.{Floats}
use module_core_loraraw.Rubix.BitCount.{get_bit_count}
use module_core_loraraw.Rubix.Fields.{PositionData, generate_field_name, general}
use module_core_loraraw.Rubix.Decoder.{can_decode, read_bits, parse_meta_data}

-- The type that the caller's pointer has: *float32, or an integer of so many bytes.
pub data Pointer : Type 0 where
  to_float32 : Pointer
  to_unsigned to_signed : ℕ → Pointer

-- The pointer that the inner switch of decodeData accepts; byte and uint8 are one type.
unfoldable pub expected_pointer : ℕ → Option Pointer
expected_pointer key =
    if key == mdk_char
    then some (to_unsigned 1)
    else if key == mdk_uint_8
    then some (to_unsigned 1)
    else if key == mdk_int_8
    then some (to_signed 1)
    else if key == mdk_uint_16
    then some (to_unsigned 2)
    else if key == mdk_int_16
    then some (to_signed 2)
    else if key == mdk_uint_32
    then some (to_unsigned 4)
    else if key == mdk_int_32
    then some (to_signed 4)
    else if key == mdk_uint_64
    then some (to_unsigned 8)
    else if key == mdk_int_64
    then some (to_signed 8)
    else if key == mdk_float
    then some to_float32
    else if key == mdk_error
    then some (to_unsigned 1)
    else none

unfoldable pub same_pointer : Pointer → Pointer → Bool
same_pointer to_float32 to_float32 = true
same_pointer (to_unsigned m) (to_unsigned n) = m == n
same_pointer (to_signed m) (to_signed n) = m == n
same_pointer _ _ = false

-- The integer that a two's complement pattern of `size` bytes stands for.
abbrev pub signed : ℕ → ℕ → ℤ
signed size x = if ltb x (2 ^ (8 * size - 1)) then pos x else negsuc (2 ^ (8 * size) - x - 1)

-- The variable that decodePointRubix hands to decodeData for a key, if it has a case for it.
-- MDK_DOUBLE and MDK_STRING have none.
unfoldable pub target : ℕ → Option Pointer
target key =
    if leb mdk_temp key && leb key mdk_milliamps_4_20
    then some to_float32
    else if leb mdk_ohm key && leb key mdk_push_frequency
    then some to_float32
    else if key == mdk_analog_in || key == mdk_firmware_version || key == mdk_hardware_version
    then some to_float32
    else if key == mdk_uint_8
    then some (to_unsigned 1)
    else if key == mdk_int_8
    then some (to_signed 1)
    else if key == mdk_uint_16
    then some (to_unsigned 2)
    else if key == mdk_int_16
    then some (to_signed 2)
    else if key == mdk_uint_32
    then some (to_unsigned 4)
    else if key == mdk_int_32
    then some (to_signed 4)
    else if key == mdk_uint_64
    then some (to_unsigned 8)
    else if key == mdk_int_64
    then some (to_signed 8)
    else if key == mdk_char
    then some (to_unsigned 1)
    else if key == mdk_float
    then some to_float32
    else if key == mdk_bool
    then some to_float32
    else if key == mdk_error
    then some (to_unsigned 1)
    else none

-- The error for an error code, and none for code 0.
unfoldable pub error_text : ℕ → Option (List ℕ)
unfolding itoa
error_text code =
    if code == 0
    then none
    else if code == 1
    then some (codes "unknown error")
    else if code == 2
    then some (codes "non-writable point")
    else if code == 3
    then some (codes "internal error")
    else if code == 4
    then some (codes "invalid point ID")
    else if code == 5
    then some (codes "data type mismatch")
    else if code == 6
    then some (codes "invalid value")
    else some (codes "Unknown error" ++ itoa code)

module _ (fl : Floats) where
  open fl use {F64, F32, widen, narrow, of_int, of_uint, add64, div64, pow10, of_bits32}

  -- What decodeData stores.
  pub data Stored : Type 0 where
    float32 : F32 → Stored
    unsigned_int signed_int : ℕ → ℕ → Stored

  unfoldable pub fixed_value : ℕ → MetaData → F32
  fixed_value x m = narrow (add64 (div64 (of_uint x) (pow10 m.decimal_point)) (of_int m.low_value))

  unfoldable pub point_value : Pointer → ℕ → Stored
  point_value to_float32 x = float32 (of_bits32 (x % 2 ^ 32))
  point_value (to_unsigned n) x = unsigned_int n (x % 2 ^ (8 * n))
  point_value (to_signed n) x = signed_int n (x % 2 ^ (8 * n))

  unfoldable pub fixed_into : Pointer → ℕ → MetaData → Option Stored
  unfolding fixed_value
  fixed_into to_float32 x m = some (float32 (fixed_value x m))
  fixed_into (to_unsigned n) x m = none
  fixed_into (to_signed n) x m = none

  unfoldable pub point_into : Option Pointer → Pointer → ℕ → Option Stored
  unfolding same_pointer point_value
  point_into none pointer x = none
  point_into (some expected) pointer x =
      if same_pointer expected pointer then some (point_value pointer x) else none

  unfoldable pub decode_by_type :
      DataType → SerialData → ℕ → MetaData → Pointer → Go (SerialData × Option Stored)
  decode_by_type no_type sd key m pointer = done (sd, none)
  decode_by_type fixed_point sd key m pointer = do
    (x, sd') ← read_bits sd (get_bit_count m.low_value m.high_value m.decimal_point)
    done (sd', fixed_into pointer x m)
  decode_by_type data_point sd key m pointer = do
    (x, sd') ← read_bits sd (m.byte_count * 8)
    done (sd', point_into (expected_pointer key) pointer x)

  -- decodeData: `none` is an error, and then the pointer's target keeps its zero.
  unfoldable pub decode_data : SerialData → ℕ → Pointer → Go (SerialData × Option Stored)
  decode_data sd key pointer =
      let m = get_meta_data key in
      if key == 0 then done (sd, none) else decode_by_type m.data_type sd key m pointer

  -- float64(v)
  unfoldable pub as_float64 : Option Stored → F64
  as_float64 none = of_uint 0
  as_float64 (some (float32 x)) = widen x
  as_float64 (some (unsigned_int n x)) = of_uint x
  as_float64 (some (signed_int n x)) = of_int (signed n x)

  abbrev pub stored_code : Option Stored → ℕ
  stored_code (some (unsigned_int n x)) = x
  stored_code _ = 0

  pub record Decoded : Type 0 where
    pub name : List ℕ
    pub value : F64
    pub error : Option (List ℕ)

  unfoldable pub decoded_value : ℕ → Option Stored → F64
  unfolding as_float64
  decoded_value key stored = if key == mdk_error then of_uint 0 else as_float64 stored

  -- The name, the value and the error that decodePointRubix returns for what was stored.
  unfoldable pub decoded_of : ℕ → PositionData → Option Stored → Decoded
  decoded_of key position stored = record {
    name = generate_field_name key position;
    value = decoded_value key stored;
    error = if key == mdk_error then error_text (stored_code stored) else none;
  }

  -- A key with no case reads nothing and gives the value 0.
  unfoldable pub decode_target :
      Option Pointer → SerialData → ℕ → PositionData → Go (Decoded × SerialData)
  decode_target none sd key position =
      done (record { name = generate_field_name key position; value = of_uint 0; error = none }, sd)
  decode_target (some pointer) sd key position = do
    (sd', stored) ← decode_data sd key pointer
    done (decoded_of key position stored, sd')

  unfoldable pub decode_point_rubix : SerialData → ℕ → PositionData → Go (Decoded × SerialData)
  decode_point_rubix sd key position = decode_target (target key) sd key position

  -- A call of one of the four callbacks: for an uplink the first two, for a response the others.
  pub data Call : Type 0 where
    update_point : List ℕ → F64 → Call
    update_point_error : List ℕ → List ℕ → Call
    update_written_point : List ℕ → F64 → ℕ → Call
    update_written_point_error : List ℕ → List ℕ → ℕ → Call

  -- `none` for an uplink, or the message id of a response.
  unfoldable pub callback : Option ℕ → Decoded → Call
  callback none d = elim d.error [
    | none ↦ update_point d.name d.value
    | some e ↦ update_point_error d.name e
  ]
  callback (some id) d = elim d.error [
    | none ↦ update_written_point d.name d.value id
    | some e ↦ update_written_point_error d.name e id
  ]

  -- One round of the loop: the call, the new state and the position for the next round.
  unfoldable pub decode_round :
      Option ℕ → Bool → PositionData → SerialData → Go (Call × PositionData × SerialData)
  decode_round msg has_pos position sd = do
    (key, fresh, sd') ← parse_meta_data sd
    let at = if has_pos then fresh else position
    (d, sd'') ← decode_point_rubix sd' key at
    done (callback msg d, record at { id = at.id + 1 }, sd'')

  -- The loop with fuel; `none` where the fuel runs out.
  unfoldable pub decode_loop :
      ℕ → Option ℕ → Bool → PositionData → SerialData → Go (Option (List Call))
  decode_loop zero msg has_pos position sd = done none
  decode_loop (suc fuel) msg has_pos position sd = elim (can_decode sd) [
    | false ↦ done (some [])
    | true ↦ do
      (call, position', sd') ← decode_round msg has_pos position sd
      rest ← decode_loop fuel msg has_pos position' sd'
      done (elim rest [ none ↦ none | some calls ↦ some (call ∷ calls) ])
  ]

  -- DecodeRubix. Each round reads a key, so the number of the payload's bits is fuel enough.
  unfoldable pub decode_rubix : Option ℕ → List ℕ → Go (Option (List Call))
  decode_rubix msg payload = do
    let sd = new_serial_data_with_buffer payload
    has_pos ← has_positional_data sd
    decode_loop (length payload * 8) msg has_pos (record { id = 0; type = general }) sd
