-- ===== src/Frame/Trailer.antt =====
-- codec/base.go: the address, the RSSI and the SNR of a frame in hex.
use module_core_loraraw.Prelude.{
  ℕ, zero, suc, ◌+◌, ◌-◌, ◌*◌, Bool, true, false, not, List, [], ◌∷◌, Option, none, some, length,
  take, drop, leb, ltb, if◌then◌else◌, ◌==◌,
}
use module_core_loraraw.Prelude.Int.{ℤ, pos, negsuc, sub_ℕ}
use module_core_loraraw.Frame.Hex.{hex_value, encode_to_string}

unfoldable pub valid_payload : List ℕ → Bool
valid_payload text = not (leb (length text) 8)

-- `none` is the error.
unfoldable pub decode_address_hex : List ℕ → Option (List ℕ)
decode_address_hex text = if ltb (length text) 8 then none else some (take 8 text)

unfoldable pub decode_address_bytes : List ℕ → Option (List ℕ)
unfolding encode_to_string
decode_address_bytes bytes =
    if ltb (length bytes) 4 then none else some (encode_to_string (take 4 bytes))

abbrev pub negate : ℕ → ℤ
negate zero = pos 0
negate (suc n) = negsuc n

abbrev pub signed_digit : Bool → Option ℕ → Option ℤ
signed_digit negative none = none
signed_digit false (some n) = some (pos n)
signed_digit true (some n) = some (negate n)

-- strconv.ParseInt by base 16 of a text of two characters, the first of which may be a sign.
unfoldable pub parse_hex_pair : List ℕ → Option ℤ
unfolding hex_value
parse_hex_pair (c ∷ d ∷ []) =
    if c == b'-'
    then signed_digit true (hex_value d)
    else if c == b'+'
    then signed_digit false (hex_value d)
    else elim (hex_value c) [
      | none ↦ none
      | some hi ↦ elim (hex_value d) [ none ↦ none | some lo ↦ some (pos (hi * 16 + lo)) ]
    ]
parse_hex_pair _ = none

abbrev pub opposite : ℤ → ℤ
opposite (pos n) = negate n
opposite (negsuc n) = pos (suc n)

-- The two characters before the last two, negated.
unfoldable pub decode_rssi : List ℕ → Option ℤ
unfolding parse_hex_pair
decode_rssi text =
    if ltb (length text) 4
    then none
    else elim (parse_hex_pair (take 2 (drop (length text - 4) text))) [
      | none ↦ none
      | some v ↦ some (opposite v)
    ]

-- A reading above 127 is negative.
abbrev pub quarters_of : ℤ → ℤ
quarters_of (pos v) = if ltb 127 v then sub_ℕ v 256 else pos v
quarters_of (negsuc v) = negsuc v

-- The last two characters, as a number of quarters: the float32 is an exact quarter of it.
unfoldable pub decode_snr : List ℕ → Option ℤ
unfolding parse_hex_pair
decode_snr text =
    if ltb (length text) 2 then none else elim (parse_hex_pair (drop (length text - 2) text)) [
      | none ↦ none
      | some v ↦ some (quarters_of v)
    ]
