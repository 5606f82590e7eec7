-- ===== src/Prelude/Decimal.antt =====
-- strconv.Itoa, strconv.Atoi and strings.Split on ASCII texts, as far as the module calls them.
use module_core_loraraw.Prelude.{
  ℕ, zero, suc, ◌+◌, ◌-◌, ◌*◌, ◌/◌, ◌%◌, ◌^◌, Bool, true, false, ◌&&◌, List, [], ◌∷◌, ◌++◌, Option,
  none, some, ltb, leb, ◌==◌, if◌then◌else◌,
}
use module_core_loraraw.Prelude.Int.{ℤ, pos, negsuc}

-- The fuel `n + 1` is more than the digits of `n`.
unfoldable pub digits : ℕ → ℕ → List ℕ
digits zero n = []
digits (suc fuel) n =
    let upper = digits fuel (n / 10) in
    if ltb n 10 then (b'0' + n) ∷ [] else upper ++ (b'0' + n % 10) ∷ []

unfoldable pub itoa : ℕ → List ℕ
unfolding digits
itoa n = digits (n + 1) n

abbrev pub is_digit : ℕ → Bool
is_digit c = leb b'0' c && leb c b'9'

unfoldable pub read_digits : ℕ → List ℕ → Option ℕ
read_digits acc [] = some acc
read_digits acc (c ∷ cs) =
    let rest = read_digits (acc * 10 + (c - b'0')) cs in if is_digit c then rest else none

-- At least one digit.
unfoldable pub read_number : List ℕ → Option ℕ
unfolding read_digits
read_number [] = none
read_number (c ∷ cs) = read_digits 0 (c ∷ cs)

abbrev pub to_int64 : Bool → Option ℕ → Option ℤ
to_int64 negative none = none
to_int64 false (some n) = if ltb n (2 ^ 63) then some (pos n) else none
to_int64 true (some zero) = some (pos 0)
to_int64 true (some (suc n)) = if ltb n (2 ^ 63) then some (negsuc n) else none

-- `none` is the error: no number, or none that fits 64 bits.
unfoldable pub atoi : List ℕ → Option ℤ
unfolding read_number
atoi [] = none
atoi (c ∷ cs) =
    if c == b'-'
    then to_int64 true (read_number cs)
    else if c == b'+'
    then to_int64 false (read_number cs)
    else to_int64 false (read_number (c ∷ cs))

-- Puts a byte in front of the first part.
abbrev pub join_first : ℕ → List (List ℕ) → List (List ℕ)
join_first c [] = (c ∷ []) ∷ []
join_first c (part ∷ parts) = (c ∷ part) ∷ parts

-- strings.Split by a separator of one byte.
unfoldable pub split : ℕ → List ℕ → List (List ℕ)
split sep [] = [] ∷ []
split sep (c ∷ cs) = let rest = split sep cs in if c == sep then [] ∷ rest else join_first c rest
