-- ===== src/Legacy/ZipHydroTap/Decode/Accepted.antt =====
-- The length check of a ZipHydroTap payload against what its decoders ask for.
use module_core_loraraw.Prelude.{
  ℕ, suc, ◌+◌, ◌/◌, ◌%◌, ◌≤◌, ◌<◌, ◌≡◌, ◌⊎◌, refl, sym, ap, ◌∙◌, arith, Bool, true, false, not,
  List, [], ◌∷◌, some, length, ltb, leb, ◌==◌, if◌then◌else◌, Bool-cases, inl, inr,
}
use module_core_loraraw.Prelude.Int.{pos}
use module_core_loraraw.Prelude.Go.{Go, done, Returns}
use module_core_loraraw.Rubix.Floats.{Floats}
use module_core_loraraw.Legacy.{at}
use module_core_loraraw.Legacy.HexInt.{IsHexOf}
use module_core_loraraw.Legacy.HexInt.Bytes.{
  IsHexOf-length, parse_byte-IsHexOf, parse_slice-Returns,
}
use module_core_loraraw.Legacy.ZipHydroTap.Static.{MetaTag, number_or_zero, merge_tags, static_tags}
use module_core_loraraw.Legacy.ZipHydroTap.Static.Layout.{
  has_static_length, static_data, static_extra_data, static_payload_decoder-static_data,
}
use module_core_loraraw.Legacy.ZipHydroTap.Write.Layout.{
  write_calls, write_payload_decoder-write_calls,
}
use module_core_loraraw.Legacy.ZipHydroTap.Poll.Layout.{poll_calls, poll_payload_decoder-poll_calls}
use module_core_loraraw.Legacy.ZipHydroTap.Decode.{
  ZhtResult, updated, tagged, decode_zht, get_payload_type, get_packet_version, has_length,
  check_payload_length_zht,
}

-- A payload of a known type whose decoder returns no error of its own.
abbrev pub is_accepted : {F : Type 0} → ZhtResult F → Bool
is_accepted (updated calls) = not calls.1
is_accepted (tagged (some tags)) = true
is_accepted _ = false

-- The check on the bytes.
abbrev pub length_fits : ℕ → ℕ → ℕ → Bool
length_fits kind version size =
    if version == 1
    then has_length (pos kind) size 97 51 40
    else if version == 2
    then has_length (pos kind) size 102 66 47
    else false

get_payload_type-Returns : (text : List ℕ) → Returns (get_payload_type text)
unfolding get_payload_type
get_payload_type-Returns text = elim (Bool-cases (ltb (length text) 2)) [
  | inl short ↦ (pos 0, rw short refl)
  | inr enough ↦
      let (v, e) = parse_slice-Returns text 0 2 (omega arith) (ground arith) in
      (number_or_zero v, rw (enough, e) refl)
]

check-short : (text : List ℕ) → length text < 4 → check_payload_length_zht text ≡ done false
unfolding check_payload_length_zht get_packet_version
check-short text h =
    let (kind, e) = get_payload_type-Returns text in
    let short : ltb (length text) 4 ≡ true = ground arith in rw (e, short) refl

check-long :
    (text : List ℕ) (kind version : ℕ) (rest : List ℕ)
    → IsHexOf text (kind ∷ version ∷ rest)
    → version < 256
    → check_payload_length_zht text ≡ done (length_fits kind version (2 + length rest))
unfolding check_payload_length_zht get_packet_version get_payload_type
check-long text kind version rest h small =
    let n = IsHexOf-length text (kind ∷ version ∷ rest) h in
    let two : ltb (length text) 2 ≡ false = ground arith in
    let four : ltb (length text) 4 ≡ false = ground arith in
    let size : length text / 2 ≡ 2 + length rest = omega arith in
    let first = parse_byte-IsHexOf text (kind ∷ version ∷ rest) 0 h (omega arith) in
    let second = parse_byte-IsHexOf text (kind ∷ version ∷ rest) 1 h (omega arith) in
    let byte : version % 256 ≡ version = omega arith in
    simp (two, four, size, first, second, byte)
      (elim (Bool-cases (version == 1)) [
        | inl one ↦ rw one refl
        | inr other ↦ elim (Bool-cases (version == 2)) [
          | inl two' ↦ rw (other, two') refl
          | inr unknown ↦ rw (other, unknown) refl
        ]
      ])

data Fits (kind version size : ℕ) : Type 0 where
  fits_static :
      kind ≡ 1 → (version ≡ 1) × (size ≡ 97) ⊎ (version ≡ 2) × (size ≡ 102) → Fits kind version size
  fits_write :
      kind ≡ 2 → (version ≡ 1) × (size ≡ 51) ⊎ (version ≡ 2) × (size ≡ 66) → Fits kind version size
  fits_poll :
      kind ≡ 3 → (version ≡ 1) × (size ≡ 40) ⊎ (version ≡ 2) × (size ≡ 47) → Fits kind version size

-- The cases of a true check.
length_fits-Fits :
    (kind version size : ℕ) → length_fits kind version size ≡ true → Fits kind version size
length_fits-Fits kind version size h = elim (Bool-cases (kind == 1)) [
  | inl static ↦ fits_static (ground arith) (ground arith)
  | inr other ↦ elim (Bool-cases (kind == 2)) [
    | inl write ↦ fits_write (ground arith) (ground arith)
    | inr other' ↦ fits_poll (ground arith) (ground arith)
  ]
]

static_whole :
    (version : ℕ) (rest : List ℕ)
    → (version ≡ 1) × (2 + length rest ≡ 97) ⊎ (version ≡ 2) × (2 + length rest ≡ 102)
    → has_static_length (version ∷ rest) ≡ true
static_whole version rest (inl (v, n)) = ground arith
static_whole version rest (inr (v, n)) = ground arith

-- A whole payload of the first version, and of the second.
whole_first :
    (version n least : ℕ)
    → version ≡ 1
    → least ≤ n
    → (ltb n least ≡ false) × (leb 2 version ≡ false)
whole_first version n least v h = (ground arith, ground arith)

whole_second :
    (version n least most : ℕ)
    → version ≡ 2
    → least ≤ n
    → most ≤ n
    → (ltb n least ≡ false) × (leb 2 version ≡ true) × (ltb n most ≡ false)
whole_second version n least most v h h' = (ground arith, ground arith, ground arith)

write_whole :
    (fl : Floats) (version : ℕ) (rest : List ℕ)
    → (version ≡ 1) × (2 + length rest ≡ 51) ⊎ (version ≡ 2) × (2 + length rest ≡ 66)
    → (write_calls fl (version ∷ rest)).1 ≡ false
write_whole fl version rest (inl (v, n)) =
    let (e, e') = whole_first version (suc (length rest)) 50 v (omega arith) in rw (e, e') refl
write_whole fl version rest (inr (v, n)) =
    let (e, e', e'') =
      whole_second version (suc (length rest)) 50 65 v (omega arith) (omega arith) in
    rw (e, e', e'') refl

poll_whole :
    (fl : Floats) (version : ℕ) (rest : List ℕ)
    → (version ≡ 1) × (2 + length rest ≡ 40) ⊎ (version ≡ 2) × (2 + length rest ≡ 47)
    → (poll_calls fl (version ∷ rest)).1 ≡ false
poll_whole fl version rest (inl (v, n)) =
    let (e, e') = whole_first version (suc (length rest)) 39 v (omega arith) in rw (e, e') refl
poll_whole fl version rest (inr (v, n)) =
    let (e, e', e'') =
      whole_second version (suc (length rest)) 39 46 v (omega arith) (omega arith) in
    rw (e, e', e'') refl

not_short : (n : ℕ) → ltb (suc (suc n)) 2 ≡ false
not_short n = ground arith

false≢true : {m : Go Bool} → m ≡ done false → m ≡ done true → ⊥
false≢true e e' = cc

done_true : {b : Bool} → done b ≡ done true → b ≡ true
done_true e = cc

module _ (fl : Floats) (order : List MetaTag → List MetaTag) (address : List ℕ)
    (tags : List MetaTag) where
  decode_zht-Fits :
      (kind version : ℕ) (rest : List ℕ)
      → Fits kind version (2 + length rest)
      → (r : ZhtResult fl.F64) × (decode_zht fl order address tags (kind ∷ version ∷ rest) ≡ done r)
        × (is_accepted r ≡ true)
  unfolding decode_zht
  decode_zht-Fits kind version rest (fits_static k h) =
      let (modbus, e, e') =
        static_payload_decoder-static_data order address tags (version ∷ rest) in
      (
        tagged (
            some (
              merge_tags tags (
                order (
                  static_tags (static_data (version ∷ rest)) (static_extra_data (version ∷ rest))
                    modbus)))),
        rw (k, not_short (length rest)) (rw e' (rw (static_whole version rest h) refl)),
        refl,
      )
  decode_zht-Fits kind version rest (fits_write k h) = (
    updated (write_calls fl (version ∷ rest)),
    rw (k, not_short (length rest))
        (rw (write_payload_decoder-write_calls fl (version ∷ rest)) refl),
    ap not (write_whole fl version rest h),
  )
  decode_zht-Fits kind version rest (fits_poll k h) = (
    updated (poll_calls fl (version ∷ rest)),
    rw (k, not_short (length rest)) (rw (poll_payload_decoder-poll_calls fl (version ∷ rest)) refl),
    ap not (poll_whole fl version rest h),
  )

  -- A payload whose hex text passes CheckPayloadLengthZHT is of a known type, and its decoder takes it
  -- without an error: neither DecodeZHT nor the decoder finds it too short for its packet version.
  pub decode_zht-check_payload_length_zht :
      (text bytes : List ℕ)
      → IsHexOf text bytes
      → at bytes 1 < 256
      → check_payload_length_zht text ≡ done true
      → (r : ZhtResult fl.F64) × (decode_zht fl order address tags bytes ≡ done r)
        × (is_accepted r ≡ true)
  decode_zht-check_payload_length_zht text [] h small check =
      let n = IsHexOf-length text [] h in absurd (false≢true (check-short text (omega arith)) check)
  decode_zht-check_payload_length_zht text (b ∷ []) h small check =
      let n = IsHexOf-length text (b ∷ []) h in
      absurd (false≢true (check-short text (omega arith)) check)
  decode_zht-check_payload_length_zht text (kind ∷ version ∷ rest) h small check =
      let e = check-long text kind version rest h small in
      decode_zht-Fits kind version rest
        (length_fits-Fits kind version (2 + length rest) (done_true (sym e ∙ check)))
