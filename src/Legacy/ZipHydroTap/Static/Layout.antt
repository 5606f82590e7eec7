-- ===== src/Legacy/ZipHydroTap/Static/Layout.antt =====
-- The places of the values in a static payload, and the tags that a device ends with.
use module_core_loraraw.Prelude.{
  ℕ, ◌≤◌, ◌≡◌, refl, arith, Bool, true, false, List, [], Option, none, some, length, take, drop,
  ltb, leb, if◌then◌else◌, Bool-cases, inl, inr, ltb→le,
}
use module_core_loraraw.Prelude.Int.{ℤ, pos}
use module_core_loraraw.Prelude.Go.{done, Returns}
use module_core_loraraw.Legacy.{at, word}
use module_core_loraraw.Legacy.HexInt.Bytes.{parse_slice-Returns}
use module_core_loraraw.Legacy.ZipHydroTap.Places.{
  read_u8_lem, read_u16_lem, read_bytes_lem, peek_at_lem,
}
use module_core_loraraw.Legacy.ZipHydroTap.Static.{
  bytes_to_date, MetaTag, merge_tags, StaticExtra, static_extra, modbus_address, StaticData,
  static_fields, static_tags, static_payload_decoder, number_or_zero,
}

-- `n` bytes from `i`.
abbrev pub part : List ℕ → ℕ → ℕ → List ℕ
part field i n = take n (drop i field)

-- The values by their places.
abbrev pub static_data : List ℕ → StaticData
static_data field = record {
  fw_ma = at field 1;
  fw_mi = at field 2;
  build_ma = at field 3;
  build_mi = at field 4;
  sn = part field 5 15;
  mn = part field 20 20;
  pn = part field 40 20;
  fw = part field 60 20;
  cal_date = part field 80 3;
  f50l_date = part field 83 3;
  filt_log_date_int = part field 86 3;
  filt_log_litres_int = word field 89;
  filt_log_date_ext = part field 91 3;
  filt_log_litres_ext = word field 94;
}

abbrev pub static_extra_data : List ℕ → StaticExtra
static_extra_data field =
    if leb 2 (at field 0)
    then record { date_uv = bytes_to_date (part field 96 3); litres_uv = word field 99 }
    else record { date_uv = []; litres_uv = 0 }

-- 96 bytes, and 101 from the second packet version on.
abbrev pub has_static_length : List ℕ → Bool
has_static_length field =
    if ltb (length field) 96
    then false
    else if leb 2 (at field 0)
    then (if ltb (length field) 101 then false else true)
    else true

static_extra_absent :
    (field : List ℕ)
    → 96 ≤ length field
    → leb 2 (at field 0) ≡ false
    → static_extra field 96 ≡ done (some (record { date_uv = []; litres_uv = 0 }), 96)
unfolding static_extra
static_extra_absent field le v =
    let version = peek_at_lem 0 field 96 (omega arith) in rw (version, v) refl

static_extra_short :
    (field : List ℕ)
    → 96 ≤ length field
    → leb 2 (at field 0) ≡ true
    → ltb (length field) 101 ≡ true
    → static_extra field 96 ≡ done (none, 96)
unfolding static_extra
static_extra_short field le v short =
    let version = peek_at_lem 0 field 96 (omega arith) in
    let no_room : leb 101 (length field) ≡ false = ground arith in rw (version, v, no_room) refl

static_extra_whole :
    (field : List ℕ)
    → 101 ≤ length field
    → leb 2 (at field 0) ≡ true
    → static_extra field 96
      ≡ done (
        some (record { date_uv = bytes_to_date (part field 96 3); litres_uv = word field 99 }),
        101,
      )
unfolding static_extra
static_extra_whole field le v =
    let version = peek_at_lem 0 field 96 (omega arith) in
    let enough : leb 101 (length field) ≡ true = ground arith in
    rw (version, v, enough)
      (simp (read_bytes_lem 3 field 96 (omega arith), read_u16_lem field 99 (omega arith)))

static_fields_lem :
    (field : List ℕ) (found : Option StaticExtra) (i : ℕ)
    → 96 ≤ length field
    → static_extra field 96 ≡ done (found, i)
    → static_fields field 1 ≡ done ((static_data field, found), i)
unfolding static_fields
static_fields_lem field found i le e = simp (
  read_u8_lem field 1 (omega arith),
  read_u8_lem field 2 (omega arith),
  read_u8_lem field 3 (omega arith),
  read_u8_lem field 4 (omega arith),
  read_bytes_lem 15 field 5 (omega arith),
  read_bytes_lem 20 field 20 (omega arith),
  read_bytes_lem 20 field 40 (omega arith),
  read_bytes_lem 20 field 60 (omega arith),
  read_bytes_lem 3 field 80 (omega arith),
  read_bytes_lem 3 field 83 (omega arith),
  read_bytes_lem 3 field 86 (omega arith),
  read_u16_lem field 89 (omega arith),
  read_bytes_lem 3 field 91 (omega arith),
  read_u16_lem field 94 (omega arith),
  e,
)

modbus_address-Returns : (address : List ℕ) → Returns (modbus_address address)
unfolding modbus_address
modbus_address-Returns address = elim (Bool-cases (leb 6 (length address))) [
  | inr short ↦ (pos 0, rw short refl)
  | inl enough ↦
      let (v, e) = parse_slice-Returns address 4 6 (omega arith) (ground arith) in
      (number_or_zero v, rw (enough, e) refl)
]

module _ (order : List MetaTag → List MetaTag) (address : List ℕ) (tags : List MetaTag) where
  -- The static decoder returns for every payload and address: an error where the payload is too short for
  -- its packet version, and otherwise the device's tags merged with those of the table, whose
  -- values stand at fixed places.
  pub static_payload_decoder-static_data :
      (field : List ℕ)
      → (modbus : ℤ) × (modbus_address address ≡ done modbus)
        × (static_payload_decoder order address tags field
            ≡ done (
                if has_static_length field
                then some (
                    merge_tags tags
                      (order (static_tags (static_data field) (static_extra_data field) modbus)))
                else none))
  unfolding static_payload_decoder
  static_payload_decoder-static_data field =
      let (modbus, e) = modbus_address-Returns address in
      (
        modbus,
        e,
        elim (Bool-cases (ltb (length field) 96)) [
          | inl short ↦ rw short refl
          | inr enough ↦
              let le = ltb→le _ _ enough in
              elim (Bool-cases (leb 2 (at field 0))) [
                | inr one ↦
                    rw (enough, one)
                      (rw (static_fields_lem field _ _ le (static_extra_absent field le one), e)
                        refl)
                | inl two ↦ elim (Bool-cases (ltb (length field) 101)) [
                  | inl cut ↦
                      rw (enough, two, cut)
                        (rw (static_fields_lem field _ _ le (static_extra_short field le two cut))
                          refl)
                  | inr whole ↦
                      let extra = static_extra_whole field (ltb→le _ _ whole) two in
                      rw (enough, two, whole) (rw (static_fields_lem field _ _ le extra, e) refl)
                ]
              ]
        ],
      )
