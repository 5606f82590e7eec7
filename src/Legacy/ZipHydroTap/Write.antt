-- ===== src/Legacy/ZipHydroTap/Write.antt =====
-- writePayloadDecoder of codecs/legacyDecoders/ziphydrotap.go.
pub mod Layout
use module_core_loraraw.Prelude.{
  ℕ, zero, suc, ◌%◌, Bool, true, false, List, [], ◌∷◌, ◌++◌, Option, none, some, length, ltb, leb,
  if◌then◌else◌,
}
use module_core_loraraw.Prelude.Go
use module_core_loraraw.Prelude.Go.{Go, done}
use module_core_loraraw.Rubix.Floats.{Floats}
use module_core_loraraw.Legacy.{PointCall, update_point, Outcome, int_float, bool_to_float}
use module_core_loraraw.Legacy.ZipHydroTap.Cursor.{
  Cursor, ◌>>=◌, pure, read_u8, read_u16, read_u32, peek_at, room, bit, tenths, single,
}
use module_core_loraraw.Legacy.ZipHydroTap.Names.{
  zip_ht_timer_length, numbered, time_start_field, time_stop_field, enable_start_field,
  enable_stop_field, time_field, dispense_time_boiling_field, dispense_time_chilled_field,
  dispense_time_sparkling_field, temperature_sp_boiling_field, temperature_sp_chilled_field,
  temperature_sp_sparkling_field, sleep_mode_setting_field, filter_info_life_litres_internal_field,
  filter_info_life_months_internal_field, filter_info_life_litres_external_field,
  filter_info_life_months_external_field, safety_allow_tap_changes_field, safety_lock_field,
  safety_hot_isolation_field, security_enable_field, security_pin_field,
  filter_info_life_litres_uv_field, filter_info_life_months_uv_field, co2_life_grams_field,
  co2_life_months_field, co2_pressure_field, co2_tank_capacity_field, co2_absorption_rate_field,
  sparkling_flow_rate_field, sparkling_flush_time_field,
}

-- The variables of the second packet version.
pub record WriteExtra : Type 0 where
  pub fil_lyf_ltr_uv : ℕ
  pub fil_lyf_mnth_uv : ℕ
  pub co2_lyf_grams : ℕ
  pub co2_lyf_mnths : ℕ
  pub co2_pressure : ℕ
  pub co2_tank_cap : ℕ
  pub co2_absorp_rate : ℕ
  pub sparkl_flow_rate : ℕ
  pub sparkl_flush_time : ℕ

abbrev pub no_write_extra : WriteExtra
no_write_extra = record {
  fil_lyf_ltr_uv = 0;
  fil_lyf_mnth_uv = 0;
  co2_lyf_grams = 0;
  co2_lyf_mnths = 0;
  co2_pressure = 0;
  co2_tank_cap = 0;
  co2_absorp_rate = 0;
  sparkl_flow_rate = 0;
  sparkl_flush_time = 0;
}

abbrev pub read_write_extra : Cursor (Option WriteExtra)
read_write_extra = do
  fil_lyf_ltr_uv ← read_u16
  fil_lyf_mnth_uv ← read_u8
  co2_lyf_grams ← read_u16
  co2_lyf_mnths ← read_u8
  co2_pressure ← read_u8
  co2_tank_cap ← read_u16
  co2_absorp_rate ← read_u16
  sparkl_flow_rate ← read_u16
  sparkl_flush_time ← read_u16
  pure (
      some (record {
        fil_lyf_ltr_uv = fil_lyf_ltr_uv;
        fil_lyf_mnth_uv = fil_lyf_mnth_uv;
        co2_lyf_grams = co2_lyf_grams;
        co2_lyf_mnths = co2_lyf_mnths;
        co2_pressure = co2_pressure;
        co2_tank_cap = co2_tank_cap;
        co2_absorp_rate = co2_absorp_rate;
        sparkl_flow_rate = sparkl_flow_rate;
        sparkl_flush_time = sparkl_flush_time;
      }))

-- `none` is the error of too few bytes for the second version.
unfoldable pub write_extra : Cursor (Option WriteExtra)
write_extra = do
  version ← peek_at 0
  enough ← room 15
  if leb 2 version
      then (if enough then read_write_extra else pure none)
      else pure (some no_write_extra)

-- The rounds of the timers' loop from `i`, of which `left` are left: each updates four points.
unfoldable pub write_timers : (fl : Floats) → ℕ → ℕ → Cursor (List (PointCall fl.F64))
write_timers fl zero i = pure []
write_timers fl (suc left) i = do
  start ← read_u16
  stop ← read_u16
  later ← write_timers fl left (suc i)
  pure (
      update_point (numbered time_start_field i) (int_float fl (start % 10000))
      ∷ update_point (numbered time_stop_field i) (int_float fl (stop % 10000))
      ∷ update_point (numbered enable_start_field i) (bool_to_float fl (leb 10000 start))
      ∷ update_point (numbered enable_stop_field i) (bool_to_float fl (leb 10000 stop))
      ∷ later)

-- Behind the timers' updates nothing more on the error.
abbrev pub behind_timers :
    {F : Type 0}
    → List (PointCall F)
    → Option WriteExtra
    → (WriteExtra → List (PointCall F))
    → Outcome F
behind_timers timers none calls = (timers, true)
behind_timers timers (some extra) calls = (timers ++ calls extra, false)

unfoldable pub write_fields : (fl : Floats) → Cursor (Outcome fl.F64)
write_fields fl = do
  time ← read_u32
  disp_b ← read_u8
  disp_c ← read_u8
  disp_s ← read_u8
  temp_sp_b ← read_u16
  temp_sp_c ← read_u8
  temp_sp_s ← read_u8
  sm ← read_u8
  fil_lyf_ltr_int ← read_u16
  fil_lyf_mnth_int ← read_u8
  fil_lyf_ltr_ext ← read_u16
  fil_lyf_mnth_ext ← read_u8
  safety ← read_u8
  security ← read_u16
  timers ← write_timers fl zip_ht_timer_length 0
  found ← write_extra
  pure (
      behind_timers timers found (λ extra.
        update_point time_field (int_float fl time)
        ∷ update_point dispense_time_boiling_field (int_float fl disp_b)
        ∷ update_point dispense_time_chilled_field (int_float fl disp_c)
        ∷ update_point dispense_time_sparkling_field (int_float fl disp_s)
        ∷ update_point temperature_sp_boiling_field (tenths fl temp_sp_b)
        ∷ update_point temperature_sp_chilled_field (single fl temp_sp_c)
        ∷ update_point temperature_sp_sparkling_field (single fl temp_sp_s)
        ∷ update_point sleep_mode_setting_field (int_float fl sm)
        ∷ update_point filter_info_life_litres_internal_field (int_float fl fil_lyf_ltr_int)
        ∷ update_point filter_info_life_months_internal_field (int_float fl fil_lyf_mnth_int)
        ∷ update_point filter_info_life_litres_external_field (int_float fl fil_lyf_ltr_ext)
        ∷ update_point filter_info_life_months_external_field (int_float fl fil_lyf_mnth_ext)
        ∷ update_point safety_allow_tap_changes_field (bool_to_float fl (bit 2 safety))
        ∷ update_point safety_lock_field (bool_to_float fl (bit 1 safety))
        ∷ update_point safety_hot_isolation_field (bool_to_float fl (bit 0 safety))
        ∷ update_point security_enable_field (bool_to_float fl (leb 10000 security))
        ∷ update_point security_pin_field (int_float fl (security % 10000))
        ∷ update_point filter_info_life_litres_uv_field (int_float fl extra.fil_lyf_ltr_uv)
        ∷ update_point filter_info_life_months_uv_field (int_float fl extra.fil_lyf_mnth_uv)
        ∷ update_point co2_life_grams_field (int_float fl extra.co2_lyf_grams)
        ∷ update_point co2_life_months_field (int_float fl extra.co2_lyf_mnths)
        ∷ update_point co2_pressure_field (int_float fl extra.co2_pressure)
        ∷ update_point co2_tank_capacity_field (int_float fl extra.co2_tank_cap)
        ∷ update_point co2_absorption_rate_field (int_float fl extra.co2_absorp_rate)
        ∷ update_point sparkling_flow_rate_field (int_float fl extra.sparkl_flow_rate)
        ∷ update_point sparkling_flush_time_field (int_float fl extra.sparkl_flush_time)
        ∷ []))

-- The callbacks' results are dropped. The error is that of a short payload.
unfoldable pub write_payload_decoder : (fl : Floats) → List ℕ → Go (Outcome fl.F64)
write_payload_decoder fl bytes =
    if ltb (length bytes) 50
    then done ([], true)
    else Go.◌>>=◌ (write_fields fl bytes 1) (λ read. done read.0)
