-- ===== src/Legacy/HexInt/Bytes.antt =====
-- The numbers that slices of a text have where the text is the hex of some bytes.
use module_core_loraraw.Prelude.{
  ℕ, zero, suc, ◌+◌, ◌*◌, ◌≤◌, ◌<◌, ◌≡◌, refl, ap, ◌∙◌, sym, arith, Bool, true, false, List, [],
  ◌∷◌, ◌++◌, some, length, length-drop, get_or, take, drop, ◌==◌, Option-cases, inl, inr,
}
use module_core_loraraw.Prelude.Int.{pos}
use module_core_loraraw.Prelude.Go.{done, Returns, >>=-Returns}
use module_core_loraraw.Frame.Layout.{slice}
use module_core_loraraw.Frame.Safety.{slice_lem}
use module_core_loraraw.Frame.Hex.{hex_value, decode_string}
use module_core_loraraw.Legacy.HexInt.{
  parse_digits, parse_int, parse_slice, parse_slices, big_endian, IsHexOf,
}

data Pair (c d : ℕ) (rest bytes : List ℕ) : Type 0 where
  pair :
      (hi lo : ℕ) (later : List ℕ)
      → hex_value c ≡ some hi
      → hex_value d ≡ some lo
      → IsHexOf rest later
      → bytes ≡ (hi * 16 + lo) ∷ later
      → Pair c d rest bytes

IsHexOf-Pair : (c d : ℕ) (rest bytes : List ℕ) → IsHexOf (c ∷ d ∷ rest) bytes → Pair c d rest bytes
unfolding decode_string
IsHexOf-Pair c d rest bytes h = elim (Option-cases (hex_value c)) [
  | inl e ↦
      let bad : ◌≡◌ {A = List ℕ × Bool} ([], false) (bytes, true) = rw (e, decode_string) at h in cc
  | inr (hi, e) ↦ elim (Option-cases (hex_value d)) [
    | inl e' ↦
        let bad : ◌≡◌ {A = List ℕ × Bool} ([], false) (bytes, true) =
          rw (e, e', decode_string) at h in
        cc
    | inr (lo, e') ↦
        let good : (((hi * 16 + lo) ∷ (decode_string rest).0), (decode_string rest).1)
            ≡ (bytes, true) =
          rw (e, e', decode_string) at h in
        let whole : (decode_string rest).1 ≡ true = ap (λ p. p.1) good in
        pair hi lo (decode_string rest).0 e e'
          (ap (λ (b : Bool). ((decode_string rest).0, b)) whole) (sym (ap (λ p. p.0) good))
  ]
]

pair-IsHexOf :
    (c d : ℕ) (rest : List ℕ) {hi lo : ℕ} {later : List ℕ}
    → hex_value c ≡ some hi
    → hex_value d ≡ some lo
    → IsHexOf rest later
    → IsHexOf (c ∷ d ∷ rest) ((hi * 16 + lo) ∷ later)
unfolding decode_string
pair-IsHexOf c d rest e e' h = rw (e, e', h, decode_string) refl

IsHexOf-nil : (bytes : List ℕ) → IsHexOf [] bytes → bytes ≡ []
unfolding decode_string
IsHexOf-nil bytes h = sym (ap (λ p. p.0) h)

not-IsHexOf-one : (c : ℕ) (bytes : List ℕ) → IsHexOf (c ∷ []) bytes → ⊥
unfolding decode_string
not-IsHexOf-one c bytes h = cc

pub IsHexOf-length : (text bytes : List ℕ) → IsHexOf text bytes → length text ≡ length bytes * 2
IsHexOf-length [] bytes h = ap (λ (t : List ℕ). length t * 2) (sym (IsHexOf-nil bytes h))
IsHexOf-length (c ∷ []) bytes h = absurd (not-IsHexOf-one c bytes h)
IsHexOf-length (c ∷ d ∷ rest) bytes h = elim (IsHexOf-Pair c d rest bytes h) [
  | pair hi lo later e e' h' eq ↦ omega (arith, IsHexOf-length rest later h', ap length eq)
]

pub IsHexOf-drop :
    (i : ℕ) (text bytes : List ℕ)
    → IsHexOf text bytes
    → i ≤ length bytes
    → IsHexOf (drop (i * 2) text) (drop i bytes)
IsHexOf-drop zero text bytes h le = h
IsHexOf-drop (suc i) [] bytes h le = absurd (omega (arith, ap length (IsHexOf-nil bytes h)))
IsHexOf-drop (suc i) (c ∷ []) bytes h le = absurd (not-IsHexOf-one c bytes h)
IsHexOf-drop (suc i) (c ∷ d ∷ rest) bytes h le = elim (IsHexOf-Pair c d rest bytes h) [
  | pair hi lo later e e' h' eq ↦
      let twice : suc i * 2 ≡ suc (suc (i * 2)) = omega arith in
      rw (twice, eq) (IsHexOf-drop i rest later h' (omega (arith, ap length eq)))
]

pub IsHexOf-take :
    (i : ℕ) (text bytes : List ℕ)
    → IsHexOf text bytes
    → i ≤ length bytes
    → IsHexOf (take (i * 2) text) (take i bytes)
unfolding decode_string
IsHexOf-take zero text bytes h le = refl
IsHexOf-take (suc i) [] bytes h le = absurd (omega (arith, ap length (IsHexOf-nil bytes h)))
IsHexOf-take (suc i) (c ∷ []) bytes h le = absurd (not-IsHexOf-one c bytes h)
IsHexOf-take (suc i) (c ∷ d ∷ rest) bytes h le = elim (IsHexOf-Pair c d rest bytes h) [
  | pair hi lo later e e' h' eq ↦
      let twice : suc i * 2 ≡ suc (suc (i * 2)) = omega arith in
      let before : IsHexOf (take (i * 2) rest) (take i later) =
        IsHexOf-take i rest later h' (omega (arith, ap length eq)) in
      rw (twice, eq) (pair-IsHexOf c d (take (i * 2) rest) e e' before)
]

pub IsHexOf-append :
    (text text' bytes bytes' : List ℕ)
    → IsHexOf text bytes
    → IsHexOf text' bytes'
    → IsHexOf (text ++ text') (bytes ++ bytes')
unfolding decode_string
IsHexOf-append [] text' bytes bytes' h h' = rw (IsHexOf-nil bytes h) h'
IsHexOf-append (c ∷ []) text' bytes bytes' h h' = absurd (not-IsHexOf-one c bytes h)
IsHexOf-append (c ∷ d ∷ rest) text' bytes bytes' h h' = elim (IsHexOf-Pair c d rest bytes h) [
  | pair hi lo later e e' before eq ↦
      let behind = IsHexOf-append rest text' later bytes' before h' in
      rw eq (pair-IsHexOf c d (rest ++ text') e e' behind)
]

-- A slice of the text at even places is the text of a slice of the bytes.
pub IsHexOf-slice :
    (text bytes : List ℕ) (i n : ℕ)
    → IsHexOf text bytes
    → i + n ≤ length bytes
    → (part : List ℕ) × (slice text (i * 2) ((i + n) * 2) ≡ done part)
      × IsHexOf part (take n (drop i bytes))
IsHexOf-slice text bytes i n h le = (
  take (n * 2) (drop (i * 2) text),
  slice_lem text (i * 2) ((i + n) * 2) (omega arith) (omega (arith, IsHexOf-length text bytes h))
      ∙ ap (λ (k : ℕ). done (take k (drop (i * 2) text))) (omega arith),
  IsHexOf-take n (drop (i * 2) text) (drop i bytes) (IsHexOf-drop i text bytes h (omega arith))
      (omega (arith, length-drop i bytes)),
)

parse_digits-cons :
    (acc c v : ℕ) (cs : List ℕ)
    → hex_value c ≡ some v
    → parse_digits acc (c ∷ cs) ≡ parse_digits (acc * 16 + v) cs
unfolding parse_digits
parse_digits-cons acc c v cs e = rw (e, parse_digits) refl

parse_digits-IsHexOf :
    (acc : ℕ) (text bytes : List ℕ)
    → IsHexOf text bytes
    → parse_digits acc text ≡ some (big_endian acc bytes)
unfolding parse_digits
parse_digits-IsHexOf acc [] bytes h = rw (IsHexOf-nil bytes h) refl
parse_digits-IsHexOf acc (c ∷ []) bytes h = absurd (not-IsHexOf-one c bytes h)
parse_digits-IsHexOf acc (c ∷ d ∷ rest) bytes h = elim (IsHexOf-Pair c d rest bytes h) [
  | pair hi lo later e e' behind eq ↦
      let place : (acc * 16 + hi) * 16 + lo ≡ acc * 256 + (hi * 16 + lo) = omega arith in
      rw eq (
        parse_digits-cons acc c hi (d ∷ rest) e
        ∙ parse_digits-cons (acc * 16 + hi) d lo rest e'
        ∙ ap (λ (k : ℕ). parse_digits k rest) place
        ∙ parse_digits-IsHexOf (acc * 256 + (hi * 16 + lo)) rest later behind)
]

hex_value-unsigned : (c v : ℕ) → hex_value c ≡ some v → (c == b'-' ≡ false) × (c == b'+' ≡ false)
unfolding hex_value
hex_value-unsigned c v h = (ground arith, ground arith)

-- The text of some bytes has no sign, and its number is theirs.
pub parse_int-IsHexOf :
    (text : List ℕ) (b : ℕ) (bytes : List ℕ)
    → IsHexOf text (b ∷ bytes)
    → parse_int text ≡ some (pos (big_endian 0 (b ∷ bytes)))
unfolding parse_int
parse_int-IsHexOf [] b bytes h = cc (IsHexOf-nil (b ∷ bytes) h)
parse_int-IsHexOf (c ∷ []) b bytes h = absurd (not-IsHexOf-one c (b ∷ bytes) h)
parse_int-IsHexOf (c ∷ d ∷ rest) b bytes h = elim (IsHexOf-Pair c d rest (b ∷ bytes) h) [
  | pair hi lo later e e' behind eq ↦
      let (minus, plus) = hex_value-unsigned c hi e in
      let number = parse_digits-IsHexOf 0 (c ∷ d ∷ rest) (b ∷ bytes) h in
      rw (minus, plus) (rw number refl)
]

take-cons :
    (n i : ℕ) (bytes : List ℕ)
    → i < length bytes
    → take (suc n) (drop i bytes) ≡ get_or bytes i 0 ∷ take n (drop (suc i) bytes)
take-cons n i [] h = absurd (omega arith)
take-cons n zero (b ∷ bs) h = refl
take-cons n (suc i) (b ∷ bs) h = take-cons n i bs (omega arith)

-- A slice of n + 1 bytes of the text of some bytes is their number, the highest first.
pub parse_slice-IsHexOf :
    (text bytes : List ℕ) (i n : ℕ)
    → IsHexOf text bytes
    → i + suc n ≤ length bytes
    → parse_slice text (i * 2) ((i + suc n) * 2)
      ≡ done (some (pos (big_endian 0 (take (suc n) (drop i bytes)))))
unfolding parse_slice
parse_slice-IsHexOf text bytes i n h le =
    let (part, cut, hex) = IsHexOf-slice text bytes i (suc n) h le in
    let front = take-cons n i bytes (omega arith) in
    let number =
      parse_int-IsHexOf part (get_or bytes i 0) (take n (drop (suc i) bytes)) (rw front at hex) in
    rw (cut, number, front) refl

-- Two slices of a byte in swapped order are a word, the lower byte first.
pub parse_slices-IsHexOf :
    (text bytes : List ℕ) (i : ℕ)
    → IsHexOf text bytes
    → i + 2 ≤ length bytes
    → parse_slices text ((i + 1) * 2) ((i + 1 + 1) * 2) (i * 2) ((i + 1) * 2)
      ≡ done (some (pos (get_or bytes (i + 1) 0 * 256 + get_or bytes i 0)))
unfolding parse_slices
parse_slices-IsHexOf text bytes i h le =
    let (upper, cut, hex) = IsHexOf-slice text bytes (i + 1) 1 h (omega arith) in
    let (lower, cut', hex') = IsHexOf-slice text bytes i 1 h (omega arith) in
    let front = take-cons 0 (i + 1) bytes (omega arith) in
    let front' = take-cons 0 i bytes (omega arith) in
    let both =
      IsHexOf-append upper lower (get_or bytes (i + 1) 0 ∷ []) (get_or bytes i 0 ∷ [])
        (rw front at hex) (rw front' at hex') in
    let number =
      parse_int-IsHexOf (upper ++ lower) (get_or bytes (i + 1) 0) (get_or bytes i 0 ∷ []) both in
    rw (cut, cut') (rw number (ap (λ (k : ℕ). done (some (pos k))) (omega arith)))

pub parse_byte-IsHexOf :
    (text bytes : List ℕ) (i : ℕ)
    → IsHexOf text bytes
    → i + 1 ≤ length bytes
    → parse_slice text (i * 2) ((i + 1) * 2) ≡ done (some (pos (get_or bytes i 0)))
parse_byte-IsHexOf text bytes i h le =
    parse_slice-IsHexOf text bytes i 0 h le
    ∙ ap (λ (l : List ℕ). done (some (pos (big_endian 0 l)))) (take-cons 0 i bytes (omega arith))
    ∙ ap (λ (k : ℕ). done (some (pos k))) (omega arith)

pub parse_slice-Returns :
    (text : List ℕ) (from to : ℕ)
    → from ≤ to
    → to ≤ length text
    → Returns (parse_slice text from to)
unfolding parse_slice
parse_slice-Returns text from to h h' =
    >>=-Returns (slice text from to) (λ part. done (parse_int part))
      (_, slice_lem text from to h h') (λ part. (_, refl))

pub parse_slices-Returns :
    (text : List ℕ) (from to from' to' : ℕ)
    → from ≤ to
    → to ≤ length text
    → from' ≤ to'
    → to' ≤ length text
    → Returns (parse_slices text from to from' to')
unfolding parse_slices
parse_slices-Returns text from to from' to' h l h' l' =
    >>=-Returns (slice text from to) _ (_, slice_lem text from to h l)
      (λ upper.
        >>=-Returns (slice text from' to') (λ lower. done (parse_int (upper ++ lower)))
          (_, slice_lem text from' to' h' l') (λ lower. (_, refl)))
