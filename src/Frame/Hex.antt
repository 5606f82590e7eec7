-- ===== src/Frame/Hex.antt =====
-- encoding/hex and strings.ToUpper and ToLower on ASCII texts, as the module calls them.
use module_core_loraraw.Prelude.{
  ℕ, ◌+◌, ◌-◌, ◌*◌, ◌/◌, ◌%◌, Bool, ◌&&◌, List, [], ◌∷◌, Option, none, some, map, leb, ltb,
  if◌then◌else◌,
}

unfoldable pub hex_value : ℕ → Option ℕ
hex_value c =
    if leb b'0' c && leb c b'9'
    then some (c - b'0')
    else if leb b'a' c && leb c b'f'
    then some (c - b'a' + 10)
    else if leb b'A' c && leb c b'F'
    then some (c - b'A' + 10)
    else none

-- hex.DecodeString: the bytes before the first fault, and whether there was none.
unfoldable pub decode_string : List ℕ → List ℕ × Bool
unfolding hex_value
decode_string [] = ([], Bool.true)
decode_string (c ∷ []) = ([], Bool.false)
decode_string (c ∷ d ∷ rest) =
    let later = decode_string rest in
    elim (hex_value c) [
      | none ↦ ([], Bool.false)
      | some hi ↦ elim (hex_value d) [
        | none ↦ ([], Bool.false)
        | some lo ↦ ((hi * 16 + lo) ∷ later.0, later.1)
      ]
    ]

abbrev pub hex_digit : ℕ → ℕ
hex_digit n = if ltb n 10 then b'0' + n else b'a' + n - 10

unfoldable pub encode_to_string : List ℕ → List ℕ
encode_to_string [] = []
encode_to_string (b ∷ bs) = hex_digit (b / 16) ∷ hex_digit (b % 16) ∷ encode_to_string bs

abbrev pub upper : ℕ → ℕ
upper c = if leb b'a' c && leb c b'z' then c - 32 else c

abbrev pub to_upper : List ℕ → List ℕ
to_upper text = map upper text

abbrev pub lower : ℕ → ℕ
lower c = if leb b'A' c && leb c b'Z' then c + 32 else c

abbrev pub to_lower : List ℕ → List ℕ
to_lower text = map lower text
