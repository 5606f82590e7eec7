-- ===== src/Tests/RubixStream.antt =====
-- The theorems on the Rubix stream, applied.
use module_core_loraraw.Prelude.{
  ℕ, ◌+◌, ◌^◌, ◌≤◌, ◌≡◌, ◌↔◌, refl, arith, List, [], ◌∷◌, ◌++◌, none, some, true, false, length,
}
use module_core_loraraw.Prelude.Int.{pos}
use module_core_loraraw.Prelude.Go.{done, panic}
use module_core_loraraw.Prelude.Text.{codes, text_eq}
use module_core_loraraw.Prelude.Decimal.{atoi, read_number, read_digits, split}
use module_core_loraraw.Bits.{zeros, bits, to_bits}
use module_core_loraraw.Rubix.Serial.{SerialData, set_positional_data, has_positional_data}
use module_core_loraraw.Rubix.MetaData.{get_meta_data, mdk_uint_8, mdk_temp}
use module_core_loraraw.Rubix.BitCount.{required_size, get_bit_count}
use module_core_loraraw.Rubix.Widths.{width, get_bit_count-least}
use module_core_loraraw.Rubix.Fields.{
  ok, position_of_parts, numbered_position, position_byte, get_position, parse_position,
  generate_field_name,
}
use module_core_loraraw.Rubix.Fields.Names.{get_position-generate_field_name}
use module_core_loraraw.Rubix.Encoder.{
  add_vector_to_buffer, integer, data_bits, bits_by_type, data_type_to_bits, size_of, pattern_of,
  memory, copy_memory,
}
use module_core_loraraw.Bits.Split.{length-to_bits}
use module_core_loraraw.Rubix.Encoder.Stream.{Appended, add_vector_to_buffer-Appended}
use module_core_loraraw.Rubix.Encoder.Append.{Holds}
use module_core_loraraw.Rubix.Encoder.Outcome.{Outcome, encode_data-Outcome}
use module_core_loraraw.Rubix.Decoder.{read_bits}
use module_core_loraraw.Rubix.Decoder.Read.{read_bits_past, read_bits_lem}
use module_core_loraraw.Rubix.Request.{WritePoint, typed_value, encoded, encode_request_message}
use module_core_loraraw.Rubix.Points.{Call, to_unsigned, unsigned_int, target, decode_rubix}
use module_core_loraraw.Rubix.Points.Total.{decode_rubix_total}
use module_core_loraraw.Rubix.Settings.{
  decode_rubix_panics, has_positional_data-set_positional_data,
}
use module_core_loraraw.Rubix.Points.{decode_data}
use module_core_loraraw.Rubix.RoundTrip.Integers.{decode_data-data_bits}
use module_core_loraraw.Rubix.RoundTrip.Message.{Item, IsItem, items_bits, calls_of}
use module_core_loraraw.Rubix.RoundTrip.Request.{
  Carries, padding, decode_rubix-encode_request_message,
}
use module_core_loraraw.Tests.{whole_floats}

-- The value 5 for the third universal output, as an unsigned byte.
abbrev request : WritePoint whole_floats
request = record { write_value = some 5; data_type = codes "30"; io_number = codes "UO-3" }

abbrev item : Item
item = record { key = mdk_uint_8; byte = 34; field = 5; pointer = to_unsigned 1 }

request_type : atoi (codes "30") ≡ some (pos mdk_uint_8)
unfolding atoi read_number read_digits
request_type = refl

request_position : get_position (codes "UO-3") ≡ ok 34
unfolding get_position split position_of_parts numbered_position position_byte text_eq atoi
    read_number read_digits
request_position = refl

request_bits :
    data_bits whole_floats (typed_value whole_floats mdk_uint_8 5) (get_meta_data mdk_uint_8)
    ≡ some (5, width (get_meta_data mdk_uint_8))
unfolding data_bits bits_by_type data_type_to_bits size_of pattern_of memory copy_memory
    get_meta_data typed_value
request_bits = refl

request-Carries : Carries whole_floats request item
request-Carries = record {
  value = 5;
  number = pos mdk_uint_8;
  has_value = refl;
  has_type = request_type;
  has_key = refl;
  has_position = request_position;
  accepted = request_bits;
}

uint_8_target : target mdk_uint_8 ≡ some (to_unsigned 1)
unfolding target
uint_8_target = refl

uint_8_width : width (get_meta_data mdk_uint_8) ≡ 8
unfolding get_meta_data
uint_8_width = refl

item-IsItem : IsItem item
item-IsItem = record {
  small_key = omega arith;
  byte_position = omega arith;
  readable = uint_8_target;
  fits = rw uint_8_width (omega arith);
}

decode_rubix-encode_request_message_example :
    (buffer : List ℕ) × (encode_request_message whole_floats (request ∷ []) ≡ done (encoded buffer))
    × (decode_rubix whole_floats (some 9) buffer
        ≡ done (
            some (
              calls_of whole_floats
                (some 9)
                true
                (padding (length (items_bits true (item ∷ []))))
                (item ∷ [])
                (record { id = 0; type = 0 }))))
decode_rubix-encode_request_message_example =
    decode_rubix-encode_request_message whole_floats (some 9) (request ∷ []) (item ∷ [])
      (request-Carries, tt) (item-IsItem, tt)

decode_rubix_total_example :
    (calls : List (Call whole_floats)) × (decode_rubix whole_floats none (0 ∷ 4 ∷ 255 ∷ [])
      ≡ done (some calls))
decode_rubix_total_example =
    decode_rubix_total whole_floats none (0 ∷ 4 ∷ 255 ∷ [])
      (omega arith, (omega arith, (omega arith, tt))) (omega arith)

abbrev settings_only : List ℕ
settings_only = 0 ∷ []

decode_rubix_panics_example :
    (decode_rubix whole_floats none settings_only ≡ panic) ↔ (settings_only ≡ [])
decode_rubix_panics_example = decode_rubix_panics whole_floats none settings_only (omega arith, tt)

abbrev start : SerialData
start = record { buffer = 1 ∷ []; read_bit_pos = 8; write_bit_pos = 8 }

start-Holds : Holds start (to_bits 8 1 ++ [])
unfolding bits to_bits
start-Holds = record {
  stream = refl;
  in_range = omega arith;
  bytes = (omega arith, tt);
  nonempty = omega arith;
}

encode_data-Outcome_example : Outcome whole_floats start (integer 1 5) mdk_uint_8 34 1 []
encode_data-Outcome_example =
    encode_data-Outcome whole_floats start (integer 1 5) mdk_uint_8 34 1 [] start-Holds
      (omega arith)

-- The byte 200 behind a settings byte.
abbrev one_integer : SerialData
one_integer = record { buffer = 0 ∷ 200 ∷ []; read_bit_pos = 8; write_bit_pos = 16 }

one_integer_shape :
    bits one_integer.buffer ≡ to_bits 8 0 ++ (to_bits (width (get_meta_data mdk_uint_8)) 200 ++ [])
unfolding bits to_bits get_meta_data
one_integer_shape = refl

decode_data-data_bits_example :
    (data_bits whole_floats (integer 1 200) (get_meta_data mdk_uint_8)
      ≡ some (200, width (get_meta_data mdk_uint_8)))
    × (decode_data whole_floats one_integer mdk_uint_8 (to_unsigned 1)
        ≡ done (
          record one_integer { read_bit_pos = 8 + width (get_meta_data mdk_uint_8) },
          some (unsigned_int 1 200),
        ))
decode_data-data_bits_example =
    decode_data-data_bits whole_floats mdk_uint_8 (to_unsigned 1) 200 one_integer (to_bits 8 0) []
      (omega arith) uint_8_target tt (omega arith) (omega arith, (omega arith, tt))
      one_integer_shape (length-to_bits 8 0)

get_position-generate_field_name_example :
    get_position (generate_field_name mdk_temp (parse_position 34)) ≡ ok 34
get_position-generate_field_name_example =
    get_position-generate_field_name mdk_temp 34 (omega arith) (omega arith)

small_size : required_size (pos 0) (pos 100) 2 ≤ 2 ^ 53
unfolding required_size
small_size = omega arith

get_bit_count-least_example :
    (required_size (pos 0) (pos 100) 2 ≤ 2 ^ 14) ↔ (get_bit_count (pos 0) (pos 100) 2 ≤ 14)
get_bit_count-least_example =
    get_bit_count-least (pos 0) (pos 100) 2 14 (omega arith) small_size (omega arith)

has_positional_data-set_positional_data_example :
    (after : SerialData) × (set_positional_data start false ≡ done after)
    × (after ≡ record { buffer = 0 ∷ []; read_bit_pos = 8; write_bit_pos = 8 })
    × (has_positional_data after ≡ done false)
has_positional_data-set_positional_data_example =
    has_positional_data-set_positional_data start false 1 [] refl (omega arith)

read_bits_past_example :
    read_bits start 6 ≡ done (0, record { buffer = 1 ∷ []; read_bit_pos = 14; write_bit_pos = 8 })
read_bits_past_example = read_bits_past start 6 (omega arith) (omega arith) (omega arith)

abbrev six_bits : List ℕ
six_bits = 120 ∷ []

six_bits_shape : bits six_bits ≡ to_bits 6 30 ++ zeros 2
unfolding bits to_bits
six_bits_shape = refl

add_vector_to_buffer-Appended_example :
    Appended (add_vector_to_buffer start six_bits 6) ((to_bits 8 1 ++ []) ++ to_bits 6 30) 8
add_vector_to_buffer-Appended_example =
    add_vector_to_buffer-Appended start 6 2 (to_bits 8 1 ++ []) six_bits (to_bits 6 30) start-Holds
      (omega arith, tt) six_bits_shape (length-to_bits 6 30) (omega arith) (omega arith)

abbrev two_bytes : SerialData
two_bytes = record { buffer = 1 ∷ 120 ∷ []; read_bit_pos = 8; write_bit_pos = 6 }

two_bytes_shape : bits two_bytes.buffer ≡ to_bits 8 1 ++ (to_bits 6 30 ++ zeros 2)
unfolding bits to_bits
two_bytes_shape = refl

read_bits_lem_example :
    read_bits two_bytes 6
    ≡ done (30, record { buffer = 1 ∷ 120 ∷ []; read_bit_pos = 14; write_bit_pos = 6 })
read_bits_lem_example =
    read_bits_lem two_bytes 6 30 (to_bits 8 1) (zeros 2) (omega arith, (omega arith, tt))
      two_bytes_shape (length-to_bits 8 1) (omega arith) (omega arith) (omega arith)
