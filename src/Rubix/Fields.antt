-- ===== src/Rubix/Fields.antt =====
-- The point names and positions of codecs/rubixDataEncoding/decoder.go: parsePosition,
-- generateFieldName, getPosition and GetMetaDataKey.
pub mod Names
use module_core_loraraw.Prelude.{
  ℕ, zero, suc, ◌+◌, ◌-◌, ◌*◌, ◌/◌, ◌%◌, ◌^◌, Bool, true, false, not, ◌&&◌, ◌||◌, List, [], ◌∷◌,
  ◌++◌, Option, none, some, ltb, ◌==◌, if◌then◌else◌,
}
use module_core_loraraw.Prelude.Int.{ℤ, pos, negsuc}
use module_core_loraraw.Prelude.Text.{codes, text_eq}
use module_core_loraraw.Prelude.Decimal.{itoa, atoi, split}
use module_core_loraraw.Bits.{u8}
use module_core_loraraw.Rubix.MetaData.{key_name, mdk_float, mdk_analog_in, mdk_digital}

-- PositionDataType, a number below 8 by the source's `iota`.
abbrev pub general : ℕ
general = 0

abbrev pub uo : ℕ
uo = 1

abbrev pub do_type : ℕ
do_type = 2

abbrev pub ui : ℕ
ui = 3

abbrev pub di : ℕ
di = 4

abbrev pub uvp : ℕ
uvp = 5

abbrev pub uvp2 : ℕ
uvp2 = 6

abbrev pub dvp : ℕ
dvp = 7

pub record PositionData : Type 0 where
  pub id : ℕ
  pub type : ℕ

-- `& 0x1F` and `>> 5` of a byte.
unfoldable pub parse_position : ℕ → PositionData
parse_position byte = record { id = byte % 2 ^ 5; type = byte / 2 ^ 5 }

unfoldable pub generate_field_name : ℕ → PositionData → List ℕ
unfolding itoa key_name
generate_field_name key position =
    let id = position.id + 1 in
    let t = position.type in
    if t == general
    then key_name key ++ codes "-" ++ itoa id
    else if t == uo
    then codes "UO-" ++ itoa id
    else if t == do_type
    then codes "DO-" ++ itoa id
    else if t == ui
    then codes "UI-" ++ itoa id
    else if t == di
    then codes "DI-" ++ itoa id
    else if t == uvp
    then codes "UVP-" ++ itoa id
    else if t == uvp2
    then codes "UVP-" ++ itoa (id + 32)
    else if t == dvp
    then codes "DVP-" ++ itoa id
    else codes "INVALID_POSITION_TYPE-" ++ itoa t ++ codes "-" ++ itoa id

pub data FieldError : Type 0 where
  invalid_format not_a_number out_of_range invalid_type : FieldError

pub data Field {ℓ} (A : Type ℓ) : Type ℓ where
  ok : A → Field A
  err : FieldError → Field A

-- The position byte of a point type and a 1-based number.
unfoldable pub position_byte : List ℕ → ℕ → Field ℕ
unfolding text_eq
position_byte point_type idx =
    let place : ℕ → ℕ → Field ℕ = λ t i. ok (u8 (t * 2 ^ 5 + u8 i)) in
    if text_eq point_type (codes "UO")
    then place uo idx
    else if text_eq point_type (codes "DO")
    then place do_type idx
    else if text_eq point_type (codes "UI")
    then place ui idx
    else if text_eq point_type (codes "DI")
    then place di idx
    else if text_eq point_type (codes "UVP")
    then (if ltb idx 32 then place uvp idx else place uvp2 (idx - 32))
    else if text_eq point_type (codes "DVP")
    then place dvp idx
    else err invalid_type

-- The range check on the parsed number, then the byte.
unfoldable pub numbered_position : List ℕ → Option ℤ → Field ℕ
unfolding position_byte
numbered_position point_type none = err not_a_number
numbered_position point_type (some (negsuc n)) = err out_of_range
numbered_position point_type (some (pos n)) =
    let is_uvp = text_eq point_type (codes "UVP") in
    if ltb n 1 || is_uvp && ltb 64 n || not is_uvp && ltb 32 n
    then err out_of_range
    else position_byte point_type (n - 1)

unfoldable pub position_of_parts : List (List ℕ) → Field ℕ
unfolding numbered_position atoi
position_of_parts (point_type ∷ number ∷ []) = numbered_position point_type (atoi number)
position_of_parts _ = err invalid_format

unfoldable pub get_position : List ℕ → Field ℕ
unfolding split position_of_parts
get_position field_name = position_of_parts (split b'-' field_name)

-- The data type of a new point, and whether the name had two parts.
unfoldable pub key_of_parts : List (List ℕ) → List ℕ × Bool
unfolding itoa text_eq
key_of_parts (point_type ∷ number ∷ []) =
    if text_eq point_type (codes "UO") || text_eq point_type (codes "UI")
    then (itoa mdk_analog_in, true)
    else if text_eq point_type (codes "DO")
        || text_eq point_type (codes "DI")
        || text_eq point_type (codes "DVP")
    then (itoa mdk_digital, true)
    else (itoa mdk_float, true)
key_of_parts _ = (itoa mdk_float, false)

-- GetMetaDataKey: `false` is the error.
unfoldable pub get_meta_data_key : List ℕ → List ℕ × Bool
unfolding split key_of_parts
get_meta_data_key field_name = key_of_parts (split b'-' field_name)
