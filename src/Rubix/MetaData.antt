-- ===== src/Rubix/MetaData.antt =====
-- codecs/rubixDataEncoding/serialmap.go: the keys of the stream and how each is laid out.
-- A Go `int` key is its 64-bit pattern.
use module_core_loraraw.Prelude.{ℕ, List, [], ◌∷◌, if◌then◌else◌, ◌==◌}
use module_core_loraraw.Prelude.Int.{ℤ, pos, negsuc}
use module_core_loraraw.Prelude.Text.{codes}

abbrev pub data_type_bit_count : ℕ
data_type_bit_count = 6

pub data DataType : Type 0 where
  no_type fixed_point data_point : DataType

pub record MetaData : Type 0 where
  pub data_type : DataType
  pub low_value : ℤ
  pub high_value : ℤ
  pub decimal_point : ℕ
  pub byte_count : ℕ

-- The two kinds of entries of `serialMap`.
abbrev fixed : ℤ → ℕ → ℕ → MetaData
fixed low high decimal = record {
  data_type = fixed_point;
  low_value = low;
  high_value = pos high;
  decimal_point = decimal;
  byte_count = 0;
}

abbrev point : ℕ → MetaData
point size = record {
  data_type = data_point;
  low_value = pos 0;
  high_value = pos 0;
  decimal_point = 0;
  byte_count = size;
}

-- What Go returns for a key that the map lacks.
abbrev pub zero_meta_data : MetaData
zero_meta_data = record {
  data_type = no_type;
  low_value = pos 0;
  high_value = pos 0;
  decimal_point = 0;
  byte_count = 0;
}

abbrev pub mdk_temp : ℕ
mdk_temp = 1

abbrev pub mdk_rh : ℕ
mdk_rh = 2

abbrev pub mdk_lux : ℕ
mdk_lux = 3

abbrev pub mdk_movement : ℕ
mdk_movement = 4

abbrev pub mdk_counter : ℕ
mdk_counter = 5

abbrev pub mdk_digital : ℕ
mdk_digital = 6

abbrev pub mdk_voltage_0_10 : ℕ
mdk_voltage_0_10 = 7

abbrev pub mdk_milliamps_4_20 : ℕ
mdk_milliamps_4_20 = 8

abbrev pub mdk_ohm : ℕ
mdk_ohm = 10

abbrev pub mdk_co2 : ℕ
mdk_co2 = 11

abbrev pub mdk_battery_voltage : ℕ
mdk_battery_voltage = 12

abbrev pub mdk_push_frequency : ℕ
mdk_push_frequency = 13

abbrev pub mdk_analog_in : ℕ
mdk_analog_in = 16

abbrev pub mdk_firmware_version : ℕ
mdk_firmware_version = 61

abbrev pub mdk_hardware_version : ℕ
mdk_hardware_version = 62

abbrev pub mdk_uint_8 : ℕ
mdk_uint_8 = 30

abbrev pub mdk_int_8 : ℕ
mdk_int_8 = 31

abbrev pub mdk_uint_16 : ℕ
mdk_uint_16 = 32

abbrev pub mdk_int_16 : ℕ
mdk_int_16 = 33

abbrev pub mdk_uint_32 : ℕ
mdk_uint_32 = 34

abbrev pub mdk_int_32 : ℕ
mdk_int_32 = 35

abbrev pub mdk_uint_64 : ℕ
mdk_uint_64 = 36

abbrev pub mdk_int_64 : ℕ
mdk_int_64 = 37

abbrev pub mdk_bool : ℕ
mdk_bool = 38

abbrev pub mdk_char : ℕ
mdk_char = 39

abbrev pub mdk_float : ℕ
mdk_float = 40

abbrev pub mdk_double : ℕ
mdk_double = 41

abbrev pub mdk_string : ℕ
mdk_string = 42

abbrev pub mdk_error : ℕ
mdk_error = 43

unfoldable pub serial_map : List (ℕ × MetaData)
serial_map =
    (mdk_temp, fixed (negsuc 44) 120 2)
    ∷ (mdk_rh, fixed (pos 0) 100 2)
    ∷ (mdk_lux, fixed (pos 0) 65534 0)
    ∷ (mdk_movement, fixed (pos 0) 1 0)
    ∷ (mdk_counter, fixed (pos 0) 1048576 0)
    ∷ (mdk_digital, fixed (pos 0) 1 0)
    ∷ (mdk_voltage_0_10, fixed (pos 0) 10 2)
    ∷ (mdk_milliamps_4_20, fixed (pos 4) 20 2)
    ∷ (mdk_ohm, fixed (pos 0) 1048576 0)
    ∷ (mdk_co2, fixed (pos 0) 400 0)
    ∷ (mdk_battery_voltage, fixed (pos 0) 6 1)
    ∷ (mdk_push_frequency, fixed (pos 0) 2000 0)
    ∷ (mdk_analog_in, fixed (pos 0) 1 3)
    ∷ (mdk_firmware_version, fixed (pos 0) 255 0)
    ∷ (mdk_hardware_version, fixed (pos 0) 255 0)
    ∷ (mdk_uint_8, point 1)
    ∷ (mdk_int_8, point 1)
    ∷ (mdk_uint_16, point 2)
    ∷ (mdk_int_16, point 2)
    ∷ (mdk_uint_32, point 4)
    ∷ (mdk_int_32, point 4)
    ∷ (mdk_uint_64, point 8)
    ∷ (mdk_int_64, point 8)
    ∷ (mdk_bool, fixed (pos 0) 1 0)
    ∷ (mdk_char, point 1)
    ∷ (mdk_float, point 4)
    ∷ (mdk_double, point 8)
    ∷ (mdk_error, point 1)
    ∷ []

unfoldable pub lookup : ℕ → List (ℕ × MetaData) → MetaData
lookup k [] = zero_meta_data
lookup k ((j, m) ∷ rest) = if j == k then m else lookup k rest

unfoldable pub get_meta_data : ℕ → MetaData
unfolding lookup serial_map
get_meta_data key = lookup key serial_map

-- MetaDataKey.String
unfoldable pub key_name : ℕ → List ℕ
key_name m =
    if m == mdk_temp
    then codes "temp"
    else if m == mdk_rh
    then codes "rh"
    else if m == mdk_lux
    then codes "lux"
    else if m == mdk_movement
    then codes "movement"
    else if m == mdk_counter
    then codes "count"
    else if m == mdk_digital
    then codes "digital"
    else if m == mdk_voltage_0_10
    then codes "0-10v"
    else if m == mdk_milliamps_4_20
    then codes "4-20ma"
    else if m == mdk_ohm
    then codes "ohm"
    else if m == mdk_co2
    then codes "co2"
    else if m == mdk_battery_voltage
    then codes "battery-voltage"
    else if m == mdk_push_frequency
    then codes "push-frequency"
    else if m == mdk_analog_in
    then codes "ai-raw"
    else if m == mdk_firmware_version
    then codes "firmware-version"
    else if m == mdk_hardware_version
    then codes "hardware-version"
    else if m == mdk_bool
    then codes "bool"
    else if m == mdk_char
    then codes "char"
    else if m == mdk_uint_8
    then codes "uint_8"
    else if m == mdk_int_8
    then codes "int_8"
    else if m == mdk_uint_16
    then codes "uint_16"
    else if m == mdk_int_16
    then codes "int_16"
    else if m == mdk_uint_32
    then codes "uint_32"
    else if m == mdk_int_32
    then codes "int_32"
    else if m == mdk_uint_64
    then codes "uint_64"
    else if m == mdk_int_64
    then codes "int_64"
    else if m == mdk_float
    then codes "float"
    else if m == mdk_double
    then codes "double"
    else if m == mdk_error
    then codes "error"
    else codes "unknown"
