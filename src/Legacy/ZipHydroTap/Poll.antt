-- ===== src/Legacy/ZipHydroTap/Poll.antt =====
-- pollPayloadDecoder of codecs/legacyDecoders/ziphydrotap.go.
pub mod Layout
use module_core_loraraw.Prelude.{
  ℕ, ◌/◌, ◌%◌, ◌^◌, Bool, true, false, List, [], ◌∷◌, Option, none, some, length, ltb, leb, ◌==◌,
  if◌then◌else◌,
}
use module_core_loraraw.Prelude.Go
use module_core_loraraw.Prelude.Go.{Go, done}
use module_core_loraraw.Rubix.Floats.{Floats}
use module_core_loraraw.Legacy.{update_point, Outcome, int_float, bool_to_float}
use module_core_loraraw.Legacy.ZipHydroTap.Cursor.{
  Cursor, ◌>>=◌, pure, read_u8, read_u16, read_u32, peek_at, mark, room, bit, tenths, kwh_float,
}
use module_core_loraraw.Legacy.ZipHydroTap.Names.{
  rebooted_field, sleep_mode_status_field, temperature_ntc_boiling_field,
  temperature_ntc_chilled_field, temperature_ntc_stream_field, temperature_ntc_condensor_field,
  fault1_field, fault2_field, fault3_field, fault4_field, usage_energy_kwh_field,
  usage_water_delta_dispenses_boiling_field, usage_water_delta_dispenses_chilled_field,
  usage_water_delta_dispenses_sparkling_field, usage_water_delta_litres_boiling_field,
  usage_water_delta_litres_chilled_field, usage_water_delta_litres_sparkling_field,
  filter_warning_internal_field, filter_warning_external_field,
  filter_info_usage_litres_internal_field, filter_info_usage_days_internal_field,
  filter_info_usage_litres_external_field, filter_info_usage_days_external_field,
  filter_info_usage_litres_uv_field, filter_info_usage_days_uv_field, filter_warning_uv_field,
  co2_low_gas_warning_field, co2_usage_grams_field, co2_usage_days_field,
}

-- The variables of the second packet version.
pub record PollExtra : Type 0 where
  pub litres_uv : ℕ
  pub days_uv : ℕ
  pub warning_uv : Bool
  pub low_gas : Bool
  pub grams : ℕ
  pub days : ℕ

abbrev pub no_poll_extra : PollExtra
no_poll_extra = record {
  litres_uv = 0;
  days_uv = 0;
  warning_uv = false;
  low_gas = false;
  grams = 0;
  days = 0;
}

abbrev pub read_poll_extra : ℕ → Cursor (Option PollExtra)
read_poll_extra warning_index = do
  litres_uv ← read_u16
  days_uv ← read_u16
  warnings ← peek_at warning_index
  grams ← read_u16
  days ← read_u8
  pure (
      some (record {
        litres_uv = litres_uv;
        days_uv = days_uv;
        warning_uv = bit 2 warnings;
        low_gas = bit 3 warnings;
        grams = grams;
        days = days;
      }))

-- `none` is the error of too few bytes for the second version.
unfoldable pub poll_extra : ℕ → Cursor (Option PollExtra)
poll_extra warning_index = do
  version ← peek_at 0
  enough ← room 7
  if leb 2 version
      then (if enough then read_poll_extra warning_index else pure none)
      else pure (some no_poll_extra)

-- No updates at all on the error.
abbrev pub when_read : {A F : Type 0} → Option A → (A → Outcome F) → Outcome F
when_read none calls = ([], true)
when_read (some extra) calls = calls extra

unfoldable pub poll_fields : (fl : Floats) → Cursor (Outcome fl.F64)
poll_fields fl = do
  status ← read_u8
  temp_b ← read_u16
  temp_c ← read_u16
  temp_s ← read_u16
  temp_cond ← read_u16
  f1 ← read_u8
  f2 ← read_u8
  f3 ← read_u8
  f4 ← read_u8
  kwh ← read_u32
  dlt_disp_b ← read_u16
  dlt_disp_c ← read_u16
  dlt_disp_s ← read_u16
  dlt_ltr_b ← read_u16
  dlt_ltr_c ← read_u16
  dlt_ltr_s ← read_u16
  warning_index ← mark
  warnings ← read_u8
  fltr_nfo_use_ltr_int ← read_u16
  fltr_nfo_use_day_int ← read_u16
  fltr_nfo_use_ltr_ext ← read_u16
  fltr_nfo_use_day_ext ← read_u16
  found ← poll_extra warning_index
  pure (
      when_read found (λ extra. (
        update_point rebooted_field (bool_to_float fl (bit 5 status))
            ∷ update_point sleep_mode_status_field (int_float fl (status % 64))
            ∷ update_point temperature_ntc_boiling_field (tenths fl temp_b)
            ∷ update_point temperature_ntc_chilled_field (tenths fl temp_c)
            ∷ update_point temperature_ntc_stream_field (tenths fl temp_s)
            ∷ update_point temperature_ntc_condensor_field (tenths fl temp_cond)
            ∷ update_point fault1_field (int_float fl f1)
            ∷ update_point fault2_field (int_float fl f2)
            ∷ update_point fault3_field (int_float fl f3)
            ∷ update_point fault4_field (int_float fl f4)
            ∷ update_point usage_energy_kwh_field (kwh_float fl kwh)
            ∷ update_point usage_water_delta_dispenses_boiling_field (int_float fl dlt_disp_b)
            ∷ update_point usage_water_delta_dispenses_chilled_field (int_float fl dlt_disp_c)
            ∷ update_point usage_water_delta_dispenses_sparkling_field (int_float fl dlt_disp_s)
            ∷ update_point usage_water_delta_litres_boiling_field (tenths fl dlt_ltr_b)
            ∷ update_point usage_water_delta_litres_chilled_field (tenths fl dlt_ltr_c)
            ∷ update_point usage_water_delta_litres_sparkling_field (tenths fl dlt_ltr_s)
            ∷ update_point filter_warning_internal_field (bool_to_float fl (bit 0 warnings))
            ∷ update_point filter_warning_external_field (bool_to_float fl (bit 1 warnings))
            ∷ update_point filter_info_usage_litres_internal_field
                (int_float fl fltr_nfo_use_ltr_int)
            ∷ update_point filter_info_usage_days_internal_field (int_float fl fltr_nfo_use_day_int)
            ∷ update_point filter_info_usage_litres_external_field
                (int_float fl fltr_nfo_use_ltr_ext)
            ∷ update_point filter_info_usage_days_external_field (int_float fl fltr_nfo_use_day_ext)
            ∷ update_point filter_info_usage_litres_uv_field (int_float fl extra.litres_uv)
            ∷ update_point filter_info_usage_days_uv_field (int_float fl extra.days_uv)
            ∷ update_point filter_warning_uv_field (bool_to_float fl extra.warning_uv)
            ∷ update_point co2_low_gas_warning_field (bool_to_float fl extra.low_gas)
            ∷ update_point co2_usage_grams_field (int_float fl extra.grams)
            ∷ update_point co2_usage_days_field (int_float fl extra.days)
            ∷ [],
        false,
      )))

-- The callbacks' results are dropped. The error is that of a short payload.
unfoldable pub poll_payload_decoder : (fl : Floats) → List ℕ → Go (Outcome fl.F64)
poll_payload_decoder fl bytes =
    if ltb (length bytes) 39
    then done ([], true)
    else Go.◌>>=◌ (poll_fields fl bytes 1) (λ read. done read.0)
