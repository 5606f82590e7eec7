-- ===== src/Legacy/HexInt.antt =====
-- strconv.ParseInt by base 16 of short slices of a text, as the legacy decoders call it.
pub mod Bytes
use module_core_loraraw.Prelude.{
  ℕ, zero, suc, ◌+◌, ◌*◌, ◌≤◌, ◌<◌, ◌≡◌, refl, ap, ◌∙◌, sym, arith, Bool, true, false, List, [],
  ◌∷◌, ◌++◌, Option, none, some, length, length-drop, get_or, take, drop, ◌==◌, if◌then◌else◌,
  Option-cases, inl, inr,
}
use module_core_loraraw.Prelude.Int.{ℤ, pos}
use module_core_loraraw.Prelude.Go.{Go, done, ◌>>=◌, Returns, >>=-Returns}
use module_core_loraraw.Frame.Layout.{slice}
use module_core_loraraw.Frame.Safety.{slice_lem}
use module_core_loraraw.Frame.Hex.{hex_value, decode_string}
use module_core_loraraw.Frame.Trailer.{signed_digit}

-- The digits behind those that make `acc`.
unfoldable pub parse_digits : ℕ → List ℕ → Option ℕ
parse_digits acc [] = some acc
parse_digits acc (c ∷ cs) = elim (hex_value c) [
  | none ↦ none
  | some v ↦ parse_digits (acc * 16 + v) cs
]

-- At least one digit.
abbrev pub parse_uint : List ℕ → Option ℕ
parse_uint [] = none
parse_uint (c ∷ cs) = parse_digits 0 (c ∷ cs)

-- The slices have at most eight digits, so that no number leaves an int64. `none` is the error.
unfoldable pub parse_int : List ℕ → Option ℤ
parse_int [] = none
parse_int (c ∷ cs) =
    if c == b'-'
    then signed_digit true (parse_uint cs)
    else if c == b'+'
    then signed_digit false (parse_uint cs)
    else signed_digit false (parse_uint (c ∷ cs))

-- ParseInt(data[from:to], 16, 0)
unfoldable pub parse_slice : List ℕ → ℕ → ℕ → Go (Option ℤ)
parse_slice text from to = do part ← slice text from to; done (parse_int part)

-- ParseInt(data[from:to]+data[from':to'], 16, 0)
unfoldable pub parse_slices : List ℕ → ℕ → ℕ → ℕ → ℕ → Go (Option ℤ)
parse_slices text from to from' to' = do
  upper ← slice text from to
  lower ← slice text from' to'
  done (parse_int (upper ++ lower))

-- The number that bytes stand for, the highest first.
abbrev pub big_endian : ℕ → List ℕ → ℕ
big_endian acc [] = acc
big_endian acc (b ∷ bs) = big_endian (acc * 256 + b) bs

abbrev pub IsHexOf : List ℕ → List ℕ → Type 0
IsHexOf text bytes = decode_string text ≡ (bytes, true)
