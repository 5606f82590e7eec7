-- ===== src/Legacy/ZipHydroTap/Static.antt =====
-- staticPayloadDecoder of codecs/legacyDecoders/ziphydrotap.go: the tags that it gives a device.
pub mod Layout
pub mod Merge
use module_core_loraraw.Prelude.{
  ℕ, suc, ◌+◌, ◌/◌, ◌%◌, Bool, true, false, List, [], ◌∷◌, ◌++◌, Option, none, some, map, length,
  ltb, leb, ◌==◌, if◌then◌else◌,
}
use module_core_loraraw.Prelude.Int.{ℤ, pos, negsuc}
use module_core_loraraw.Prelude.Go
use module_core_loraraw.Prelude.Go.{Go, done}
use module_core_loraraw.Prelude.Text.{codes, text_eq}
use module_core_loraraw.Prelude.Decimal.{itoa}
use module_core_loraraw.Legacy.HexInt.{parse_slice}
use module_core_loraraw.Legacy.ZipHydroTap.Cursor.{
  Cursor, ◌>>=◌, pure, read_u8, read_u16, read_bytes, peek_at, room,
}

-- string(b) is the rune b in UTF-8.
abbrev pub rune : ℕ → List ℕ
rune b = if ltb b 128 then b ∷ [] else (192 + b / 64) ∷ (128 + b % 64) ∷ []

-- Up to the first zero byte.
unfoldable pub bytes_to_string : List ℕ → List ℕ
bytes_to_string [] = []
bytes_to_string (b ∷ bs) = let rest = bytes_to_string bs in if b == 0 then [] else rune b ++ rest

unfoldable pub bytes_to_date : List ℕ → List ℕ
bytes_to_date (day ∷ month ∷ year ∷ rest) =
    itoa day ++ codes "/" ++ itoa month ++ codes "/" ++ itoa year
bytes_to_date _ = []

abbrev pub itoa_int : ℤ → List ℕ
itoa_int (pos n) = itoa n
itoa_int (negsuc n) = codes "-" ++ itoa (suc n)

-- A tag of the device, whose UUID is the same in all.
pub record MetaTag : Type 0 where
  pub key : List ℕ
  pub value : List ℕ

-- The value of a tag of this key is replaced.
abbrev pub replace : MetaTag → MetaTag → MetaTag
replace entry tag = if text_eq entry.key tag.key then record tag { value = entry.value } else tag

-- The loop over the map: `continue` goes on with the inner loop, so that every entry is appended.
unfoldable pub merge_tags : List MetaTag → List MetaTag → List MetaTag
merge_tags tags [] = tags
merge_tags tags (entry ∷ entries) = merge_tags (map (replace entry) tags ++ entry ∷ []) entries

-- The variables of the second packet version.
pub record StaticExtra : Type 0 where
  pub date_uv : List ℕ
  pub litres_uv : ℕ

abbrev pub read_static_extra : Cursor (Option StaticExtra)
read_static_extra = do
  date ← read_bytes 3
  litres ← read_u16
  pure (some (record { date_uv = bytes_to_date date; litres_uv = litres }))

-- `none` is the error of too few bytes for the second version.
unfoldable pub static_extra : Cursor (Option StaticExtra)
static_extra = do
  version ← peek_at 0
  enough ← room 5
  if leb 2 version
      then (if enough then read_static_extra else pure none)
      else pure (some (record { date_uv = []; litres_uv = 0 }))

-- An address without a number there, or one that is too short, gives 0.
abbrev pub number_or_zero : Option ℤ → ℤ
number_or_zero none = pos 0
number_or_zero (some v) = v

unfoldable pub modbus_address : List ℕ → Go ℤ
modbus_address address =
    if leb 6 (length address)
    then Go.◌>>=◌ (parse_slice address 4 6) (λ v. done (number_or_zero v))
    else done (pos 0)

-- The values that stand before those of the second version, as they are read.
pub record StaticData : Type 0 where
  pub fw_ma : ℕ
  pub fw_mi : ℕ
  pub build_ma : ℕ
  pub build_mi : ℕ
  pub sn : List ℕ
  pub mn : List ℕ
  pub pn : List ℕ
  pub fw : List ℕ
  pub cal_date : List ℕ
  pub f50l_date : List ℕ
  pub filt_log_date_int : List ℕ
  pub filt_log_litres_int : ℕ
  pub filt_log_date_ext : List ℕ
  pub filt_log_litres_ext : ℕ

unfoldable pub static_fields : Cursor (StaticData × Option StaticExtra)
static_fields = do
  fw_ma ← read_u8
  fw_mi ← read_u8
  build_ma ← read_u8
  build_mi ← read_u8
  sn ← read_bytes 15
  mn ← read_bytes 20
  pn ← read_bytes 20
  fw ← read_bytes 20
  cal_date ← read_bytes 3
  f50l_date ← read_bytes 3
  filt_log_date_int ← read_bytes 3
  filt_log_litres_int ← read_u16
  filt_log_date_ext ← read_bytes 3
  filt_log_litres_ext ← read_u16
  extra ← static_extra
  pure (
    record {
      fw_ma = fw_ma;
      fw_mi = fw_mi;
      build_ma = build_ma;
      build_mi = build_mi;
      sn = sn;
      mn = mn;
      pn = pn;
      fw = fw;
      cal_date = cal_date;
      f50l_date = f50l_date;
      filt_log_date_int = filt_log_date_int;
      filt_log_litres_int = filt_log_litres_int;
      filt_log_date_ext = filt_log_date_ext;
      filt_log_litres_ext = filt_log_litres_ext;
    },
    extra,
  )

-- The entries of the map, of which the loop may take any order.
abbrev pub static_tags : StaticData → StaticExtra → ℤ → List MetaTag
static_tags read extra modbus =
    record { key = codes "lora_firmware_major"; value = itoa read.fw_ma }
    ∷ record { key = codes "lora_firmware_minor"; value = itoa read.fw_mi }
    ∷ record { key = codes "lora_build_major"; value = itoa read.build_ma }
    ∷ record { key = codes "lora_build_minor"; value = itoa read.build_mi }
    ∷ record { key = codes "serial_number"; value = bytes_to_string read.sn }
    ∷ record { key = codes "model_number"; value = bytes_to_string read.mn }
    ∷ record { key = codes "product_number"; value = bytes_to_string read.pn }
    ∷ record { key = codes "firmware_version"; value = bytes_to_string read.fw }
    ∷ record { key = codes "calibration_date"; value = bytes_to_date read.cal_date }
    ∷ record { key = codes "first_50_litres_data"; value = bytes_to_date read.f50l_date }
    ∷ record {
      key = codes "filter_log_date_internal";
      value = bytes_to_date read.filt_log_date_int;
    }
    ∷ record { key = codes "filter_log_litres_internal"; value = itoa read.filt_log_litres_int }
    ∷ record {
      key = codes "filter_log_date_external";
      value = bytes_to_date read.filt_log_date_ext;
    }
    ∷ record { key = codes "filter_log_litres_external"; value = itoa read.filt_log_litres_ext }
    ∷ record { key = codes "filter_log_date_uv"; value = extra.date_uv }
    ∷ record { key = codes "filter_log_litres_uv"; value = itoa extra.litres_uv }
    ∷ record { key = codes "modbus_address"; value = itoa_int modbus }
    ∷ []

-- The tags that updateDeviceMetaTagsFn is called with, or `none` for the error.
unfoldable pub static_payload_decoder :
    (List MetaTag → List MetaTag) → List ℕ → List MetaTag → List ℕ → Go (Option (List MetaTag))
static_payload_decoder order address tags field =
    if ltb (length field) 96
    then done none
    else Go.◌>>=◌ (static_fields field 1) (λ read. with_extra read.0.0 read.0.1)
  where
    with_extra : StaticData → Option StaticExtra → Go (Option (List MetaTag))
    with_extra read none = done none
    with_extra read (some extra) =
        Go.◌>>=◌ (modbus_address address)
          (λ modbus. done (some (merge_tags tags (order (static_tags read extra modbus)))))
