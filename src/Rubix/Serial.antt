-- ===== src/Rubix/Serial.antt =====
-- codecs/rubixDataEncoding/serialdata.go: the buffer with its two bit cursors.
-- A byte is a number below 256; the cursors never get negative.
use module_core_loraraw.Prelude.{ℕ, ◌-◌, ◌/◌, ◌%◌, ◌^◌, Bool, List, [], ◌∷◌, if◌then◌else◌, ◌==◌}
use module_core_loraraw.Prelude.Go.{Go, done, panic, ◌>>=◌, first}
use module_core_loraraw.Bits.{bor, u8}

pub record SerialData : Type 0 where
  pub buffer : List ℕ
  pub read_bit_pos : ℕ
  pub write_bit_pos : ℕ

abbrev pub data_offset_bits : ℕ
data_offset_bits = 8

abbrev pub default_settings : ℕ
default_settings = 0

-- `make([]byte, MinSize)` with the settings byte stored in it; MinSize is 1.
unfoldable pub new_serial_data : SerialData
new_serial_data = record {
  buffer = default_settings ∷ [];
  read_bit_pos = data_offset_bits;
  write_bit_pos = data_offset_bits;
}

unfoldable pub new_serial_data_with_buffer : List ℕ → SerialData
new_serial_data_with_buffer buffer = record {
  buffer = buffer;
  read_bit_pos = data_offset_bits;
  write_bit_pos = data_offset_bits;
}

-- `b &^ (1 << p)` clears the bit where it is set.
unfoldable pub bit_set : ℕ → Bool → ℕ → ℕ
bit_set byte bit position =
    let mask = u8 (2 ^ position) in
    if bit then bor 8 byte mask else if byte / 2 ^ position % 2 == 1 then byte - mask else byte

unfoldable pub set_positional_data : SerialData → Bool → Go SerialData
unfolding bit_set
set_positional_data sd set = set_first sd.buffer
  where
    set_first : List ℕ → Go SerialData
    set_first [] = panic
    set_first (b ∷ bs) = done (record sd { buffer = bit_set b set 0 ∷ bs })

unfoldable pub has_positional_data : SerialData → Go Bool
has_positional_data sd = do settings ← first sd.buffer; done (settings % 2 == 1)
