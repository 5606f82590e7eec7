-- ===== src/Legacy/ZipHydroTap/Names.antt =====
-- The names of the points of codecs/legacyDecoders/ziphydrotap.go.
use module_core_loraraw.Prelude.{ℕ, suc, zero, List, [], ◌∷◌, ◌++◌}
use module_core_loraraw.Prelude.Text.{codes}
use module_core_loraraw.Prelude.Decimal.{itoa}
use module_core_loraraw.Legacy.{common_value_names}

abbrev pub zip_ht_timer_length : ℕ
zip_ht_timer_length = 7

abbrev pub reboot_field : List ℕ
reboot_field = codes "reboot"

abbrev pub reset_filter_field : List ℕ
reset_filter_field = codes "reset_filter"

abbrev pub remote_calibration_field : List ℕ
remote_calibration_field = codes "remote_calibration"

abbrev pub reset_energy_field : List ℕ
reset_energy_field = codes "reset_energy"

abbrev pub time_start_field : List ℕ
time_start_field = codes "time_start"

abbrev pub time_stop_field : List ℕ
time_stop_field = codes "time_stop"

abbrev pub enable_start_field : List ℕ
enable_start_field = codes "enable_start"

abbrev pub enable_stop_field : List ℕ
enable_stop_field = codes "enable_stop"

abbrev pub time_field : List ℕ
time_field = codes "time"

abbrev pub dispense_time_boiling_field : List ℕ
dispense_time_boiling_field = codes "dispense_time_boiling"

abbrev pub dispense_time_chilled_field : List ℕ
dispense_time_chilled_field = codes "dispense_time_chilled"

abbrev pub dispense_time_sparkling_field : List ℕ
dispense_time_sparkling_field = codes "dispense_time_sparkling"

abbrev pub temperature_sp_boiling_field : List ℕ
temperature_sp_boiling_field = codes "temperature_sp_boiling"

abbrev pub temperature_sp_chilled_field : List ℕ
temperature_sp_chilled_field = codes "temperature_sp_chilled"

abbrev pub temperature_sp_sparkling_field : List ℕ
temperature_sp_sparkling_field = codes "temperature_sp_sparkling"

abbrev pub sleep_mode_setting_field : List ℕ
sleep_mode_setting_field = codes "sleep_mode_setting"

abbrev pub filter_info_life_litres_internal_field : List ℕ
filter_info_life_litres_internal_field = codes "filter_info_life_litres_internal"

abbrev pub filter_info_life_months_internal_field : List ℕ
filter_info_life_months_internal_field = codes "filter_info_life_months_internal"

abbrev pub filter_info_life_litres_external_field : List ℕ
filter_info_life_litres_external_field = codes "filter_info_life_litres_external"

abbrev pub filter_info_life_months_external_field : List ℕ
filter_info_life_months_external_field = codes "filter_info_life_months_external"

abbrev pub safety_allow_tap_changes_field : List ℕ
safety_allow_tap_changes_field = codes "safety_allow_tap_changes"

abbrev pub safety_lock_field : List ℕ
safety_lock_field = codes "safety_lock"

abbrev pub safety_hot_isolation_field : List ℕ
safety_hot_isolation_field = codes "safety_hot_isolation"

abbrev pub security_enable_field : List ℕ
security_enable_field = codes "security_enable"

abbrev pub security_pin_field : List ℕ
security_pin_field = codes "security_pin"

abbrev pub filter_info_life_litres_uv_field : List ℕ
filter_info_life_litres_uv_field = codes "filter_info_life_litres_uv"

abbrev pub filter_info_life_months_uv_field : List ℕ
filter_info_life_months_uv_field = codes "filter_info_life_months_uv"

abbrev pub co2_life_grams_field : List ℕ
co2_life_grams_field = codes "co2_life_grams"

abbrev pub co2_life_months_field : List ℕ
co2_life_months_field = codes "co2_life_months"

abbrev pub co2_pressure_field : List ℕ
co2_pressure_field = codes "co2_pressure"

abbrev pub co2_tank_capacity_field : List ℕ
co2_tank_capacity_field = codes "co2_tank_capacity"

abbrev pub co2_absorption_rate_field : List ℕ
co2_absorption_rate_field = codes "co2_absorption_rate"

abbrev pub sparkling_flow_rate_field : List ℕ
sparkling_flow_rate_field = codes "sparkling_flow_rate"

abbrev pub sparkling_flush_time_field : List ℕ
sparkling_flush_time_field = codes "sparkling_flush_time"

abbrev pub rebooted_field : List ℕ
rebooted_field = codes "rebooted"

abbrev pub sleep_mode_status_field : List ℕ
sleep_mode_status_field = codes "sleep_mode_status"

abbrev pub temperature_ntc_boiling_field : List ℕ
temperature_ntc_boiling_field = codes "temperature_ntc_boiling"

abbrev pub temperature_ntc_chilled_field : List ℕ
temperature_ntc_chilled_field = codes "temperature_ntc_chilled"

abbrev pub temperature_ntc_stream_field : List ℕ
temperature_ntc_stream_field = codes "temperature_ntc_stream"

abbrev pub temperature_ntc_condensor_field : List ℕ
temperature_ntc_condensor_field = codes "temperature_ntc_condensor"

abbrev pub fault1_field : List ℕ
fault1_field = codes "fault_1"

abbrev pub fault2_field : List ℕ
fault2_field = codes "fault_2"

abbrev pub fault3_field : List ℕ
fault3_field = codes "fault_3"

abbrev pub fault4_field : List ℕ
fault4_field = codes "fault_4"

abbrev pub usage_energy_kwh_field : List ℕ
usage_energy_kwh_field = codes "usage_energy_kwh"

abbrev pub usage_water_delta_dispenses_boiling_field : List ℕ
usage_water_delta_dispenses_boiling_field = codes "usage_water_delta_dispenses_boiling"

abbrev pub usage_water_delta_dispenses_chilled_field : List ℕ
usage_water_delta_dispenses_chilled_field = codes "usage_water_delta_dispenses_chilled"

abbrev pub usage_water_delta_dispenses_sparkling_field : List ℕ
usage_water_delta_dispenses_sparkling_field = codes "usage_water_delta_dispenses_sparkling"

abbrev pub usage_water_delta_litres_boiling_field : List ℕ
usage_water_delta_litres_boiling_field = codes "usage_water_delta_litres_boiling"

abbrev pub usage_water_delta_litres_chilled_field : List ℕ
usage_water_delta_litres_chilled_field = codes "usage_water_delta_litres_chilled"

abbrev pub usage_water_delta_litres_sparkling_field : List ℕ
usage_water_delta_litres_sparkling_field = codes "usage_water_delta_litres_sparkling"

abbrev pub filter_warning_internal_field : List ℕ
filter_warning_internal_field = codes "filter_warning_internal"

abbrev pub filter_warning_external_field : List ℕ
filter_warning_external_field = codes "filter_warning_external"

abbrev pub filter_info_usage_litres_internal_field : List ℕ
filter_info_usage_litres_internal_field = codes "filter_info_usage_litres_internal"

abbrev pub filter_info_usage_days_internal_field : List ℕ
filter_info_usage_days_internal_field = codes "filter_info_usage_days_internal"

abbrev pub filter_info_usage_litres_external_field : List ℕ
filter_info_usage_litres_external_field = codes "filter_info_usage_litres_external"

abbrev pub filter_info_usage_days_external_field : List ℕ
filter_info_usage_days_external_field = codes "filter_info_usage_days_external"

abbrev pub filter_info_usage_litres_uv_field : List ℕ
filter_info_usage_litres_uv_field = codes "filter_info_usage_litres_uv"

abbrev pub filter_info_usage_days_uv_field : List ℕ
filter_info_usage_days_uv_field = codes "filter_info_usage_days_uv"

abbrev pub filter_warning_uv_field : List ℕ
filter_warning_uv_field = codes "filter_warning_uv"

abbrev pub co2_low_gas_warning_field : List ℕ
co2_low_gas_warning_field = codes "co2_low_gas_warning"

abbrev pub co2_usage_grams_field : List ℕ
co2_usage_grams_field = codes "co2_usage_grams"

abbrev pub co2_usage_days_field : List ℕ
co2_usage_days_field = codes "co2_usage_days"

-- fmt.Sprintf("%s_%d", name, i)
abbrev pub numbered : List ℕ → ℕ → List ℕ
numbered name i = name ++ codes "_" ++ itoa i

-- The round of the loop in which `left` rounds are left.
abbrev pub timer_names : ℕ → ℕ → List (List ℕ)
timer_names zero i = []
timer_names (suc left) i =
    numbered time_start_field i
    ∷ numbered time_stop_field i
    ∷ numbered enable_start_field i
    ∷ numbered enable_stop_field i
    ∷ timer_names left (suc i)

abbrev pub generate_timer_field_names : List (List ℕ)
generate_timer_field_names = timer_names zip_ht_timer_length 0

abbrev pub get_t_zip_hydro_tap_write_only_fields : List (List ℕ)
get_t_zip_hydro_tap_write_only_fields =
    reboot_field ∷ reset_filter_field ∷ remote_calibration_field ∷ reset_energy_field ∷ []

abbrev pub get_t_zip_hydro_tap_write_fields : List (List ℕ)
get_t_zip_hydro_tap_write_fields =
    (time_field ∷ dispense_time_boiling_field ∷ dispense_time_chilled_field
      ∷ dispense_time_sparkling_field ∷ temperature_sp_boiling_field ∷ temperature_sp_chilled_field
      ∷ temperature_sp_sparkling_field ∷ sleep_mode_setting_field
      ∷ filter_info_life_litres_internal_field ∷ filter_info_life_months_internal_field
      ∷ filter_info_life_litres_external_field ∷ filter_info_life_months_external_field
      ∷ safety_allow_tap_changes_field ∷ safety_lock_field ∷ safety_hot_isolation_field
      ∷ security_enable_field ∷ security_pin_field ∷ filter_info_life_litres_uv_field
      ∷ filter_info_life_months_uv_field ∷ co2_life_grams_field ∷ co2_life_months_field
      ∷ co2_pressure_field ∷ co2_tank_capacity_field ∷ co2_absorption_rate_field
      ∷ sparkling_flow_rate_field ∷ sparkling_flush_time_field ∷ [])
    ++ generate_timer_field_names

abbrev pub get_t_zip_hydro_tap_poll_fields : List (List ℕ)
get_t_zip_hydro_tap_poll_fields =
    rebooted_field ∷ sleep_mode_status_field ∷ temperature_ntc_boiling_field
    ∷ temperature_ntc_chilled_field ∷ temperature_ntc_stream_field ∷ temperature_ntc_condensor_field
    ∷ usage_energy_kwh_field ∷ usage_water_delta_dispenses_boiling_field
    ∷ usage_water_delta_dispenses_chilled_field ∷ usage_water_delta_dispenses_sparkling_field
    ∷ usage_water_delta_litres_boiling_field ∷ usage_water_delta_litres_chilled_field
    ∷ usage_water_delta_litres_sparkling_field ∷ fault1_field ∷ fault2_field ∷ fault3_field
    ∷ fault4_field ∷ filter_warning_internal_field ∷ filter_warning_external_field
    ∷ filter_info_usage_litres_internal_field ∷ filter_info_usage_days_internal_field
    ∷ filter_info_usage_litres_external_field ∷ filter_info_usage_days_external_field
    ∷ filter_info_usage_litres_uv_field ∷ filter_info_usage_days_uv_field ∷ filter_warning_uv_field
    ∷ co2_low_gas_warning_field ∷ co2_usage_grams_field ∷ co2_usage_days_field ∷ []

abbrev pub get_zht_point_names : List (List ℕ)
get_zht_point_names =
    ((common_value_names ++ get_t_zip_hydro_tap_write_only_fields)
      ++ get_t_zip_hydro_tap_write_fields)
    ++ get_t_zip_hydro_tap_poll_fields
