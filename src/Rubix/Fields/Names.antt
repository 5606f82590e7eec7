-- ===== src/Rubix/Fields/Names.antt =====
-- The names of positioned points and the position bytes that getPosition makes of them.
use module_core_loraraw.Prelude.{
  ℕ, ◌+◌, ◌-◌, ◌≤◌, ◌<◌, ◌≡◌, refl, ap, ◌∙◌, arith, true, false, ◌==◌,
}
use module_core_loraraw.Prelude.Finite.{all_below, all_below_sound}
use module_core_loraraw.Prelude.Text.{text_eq}
use module_core_loraraw.Prelude.Decimal.{itoa, digits, atoi, split, read_number, read_digits}
use module_core_loraraw.Rubix.Fields.{
  PositionData, Field, ok, err, parse_position, generate_field_name, get_position,
  position_of_parts, numbered_position, position_byte,
}

-- The number of an accepted byte, and 0 for an error.
byte_of : Field ℕ → ℕ
byte_of (ok b) = b
byte_of (err e) = 0

byte_of-ok : (f : Field ℕ) (b : ℕ) → 0 < b → (byte_of f == b) ≡ true → f ≡ ok b
unfolding byte_of
byte_of-ok (ok c) b hb h = let e : c ≡ b = ground arith in ap ok e
byte_of-ok (err e) b hb h = absurd (ground arith)

-- 224 position bytes, from 32 on.
bytes_parsed :
    all_below 224
      (λ i. byte_of (get_position (generate_field_name 0 (parse_position (i + 32)))) == i + 32)
    ≡ true
unfolding all_below byte_of get_position generate_field_name parse_position itoa digits atoi split
    read_number read_digits text_eq position_of_parts numbered_position position_byte
bytes_parsed = refl

-- The name of a typed position has no key in it.
name_of_typed :
    (key j : ℕ) (position : PositionData)
    → 0 < position.type
    → generate_field_name key position ≡ generate_field_name j position
unfolding generate_field_name
name_of_typed key j position h =
    let typed : (position.type == 0) ≡ false = ground arith in rw typed refl

-- The name that generateFieldName gives a position byte of a type other than GENERAL is parsed by
-- getPosition to the same byte, whatever the key.
pub get_position-generate_field_name :
    (key byte : ℕ)
    → 32 ≤ byte
    → byte < 256
    → get_position (generate_field_name key (parse_position byte)) ≡ ok byte
unfolding parse_position
get_position-generate_field_name key byte h h' =
    let checked = all_below_sound 224 _ (byte - 32) bytes_parsed (omega arith) in
    let back : byte - 32 + 32 ≡ byte = omega arith in
    ap get_position (name_of_typed key 0 (parse_position byte) (omega arith))
    ∙ byte_of-ok _ byte (omega arith) (rw back at checked)
