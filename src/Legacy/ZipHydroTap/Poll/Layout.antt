-- ===== src/Legacy/ZipHydroTap/Poll/Layout.antt =====
-- The places of the fields in a poll payload, as a table.
use module_core_loraraw.Prelude.{
  ℕ, ◌≤◌, ◌≡◌, refl, arith, true, false, List, [], ◌∷◌, ◌++◌, map, length, Option, none, some, ltb,
  leb, if◌then◌else◌, Bool-cases, inl, inr, ltb→le,
}
use module_core_loraraw.Prelude.Go.{done}
use module_core_loraraw.Rubix.Floats.{Floats}
use module_core_loraraw.Legacy.{
  PointCall, update_point, Outcome, at, word, int_float, bool_to_float,
}
use module_core_loraraw.Legacy.ZipHydroTap.Cursor.{bit}
use module_core_loraraw.Legacy.ZipHydroTap.Places.{
  Place, place, one_byte, one_word, low_six, flag, tenths_of_word, tenths_of_long, zero_of, placed,
  read_u8_lem, read_u16_lem, read_u32_lem, peek_at_lem,
}
use module_core_loraraw.Legacy.ZipHydroTap.Names.{
  rebooted_field, sleep_mode_status_field, temperature_ntc_boiling_field,
  temperature_ntc_chilled_field, temperature_ntc_stream_field, temperature_ntc_condensor_field,
  fault1_field, fault2_field, fault3_field, fault4_field, usage_energy_kwh_field,
  usage_water_delta_dispenses_boiling_field, usage_water_delta_dispenses_chilled_field,
  usage_water_delta_dispenses_sparkling_field, usage_water_delta_litres_boiling_field,
  usage_water_delta_litres_chilled_field, usage_water_delta_litres_sparkling_field,
  filter_warning_internal_field, filter_warning_external_field,
  filter_info_usage_litres_internal_field, filter_info_usage_days_internal_field,
  filter_info_usage_litres_external_field, filter_info_usage_days_external_field,
  filter_info_usage_litres_uv_field, filter_info_usage_days_uv_field, filter_warning_uv_field,
  co2_low_gas_warning_field, co2_usage_grams_field, co2_usage_days_field,
}
use module_core_loraraw.Legacy.ZipHydroTap.Poll.{
  PollExtra, no_poll_extra, when_read, poll_extra, poll_fields, poll_payload_decoder,
}

abbrev pub poll_places : List Place
poll_places =
    place rebooted_field (flag 5) 1
    ∷ place sleep_mode_status_field low_six 1
    ∷ place temperature_ntc_boiling_field tenths_of_word 2
    ∷ place temperature_ntc_chilled_field tenths_of_word 4
    ∷ place temperature_ntc_stream_field tenths_of_word 6
    ∷ place temperature_ntc_condensor_field tenths_of_word 8
    ∷ place fault1_field one_byte 10
    ∷ place fault2_field one_byte 11
    ∷ place fault3_field one_byte 12
    ∷ place fault4_field one_byte 13
    ∷ place usage_energy_kwh_field tenths_of_long 14
    ∷ place usage_water_delta_dispenses_boiling_field one_word 18
    ∷ place usage_water_delta_dispenses_chilled_field one_word 20
    ∷ place usage_water_delta_dispenses_sparkling_field one_word 22
    ∷ place usage_water_delta_litres_boiling_field tenths_of_word 24
    ∷ place usage_water_delta_litres_chilled_field tenths_of_word 26
    ∷ place usage_water_delta_litres_sparkling_field tenths_of_word 28
    ∷ place filter_warning_internal_field (flag 0) 30
    ∷ place filter_warning_external_field (flag 1) 30
    ∷ place filter_info_usage_litres_internal_field one_word 31
    ∷ place filter_info_usage_days_internal_field one_word 33
    ∷ place filter_info_usage_litres_external_field one_word 35
    ∷ place filter_info_usage_days_external_field one_word 37
    ∷ []

-- Those of the second packet version.
abbrev pub poll_extra_places : List Place
poll_extra_places =
    place filter_info_usage_litres_uv_field one_word 39
    ∷ place filter_info_usage_days_uv_field one_word 41
    ∷ place filter_warning_uv_field (flag 2) 30
    ∷ place co2_low_gas_warning_field (flag 3) 30
    ∷ place co2_usage_grams_field one_word 43
    ∷ place co2_usage_days_field one_byte 45
    ∷ []

-- What a poll payload says, by the table: a payload too short for its packet version updates nothing.
abbrev pub poll_calls : (fl : Floats) → List ℕ → Outcome fl.F64
poll_calls fl bytes =
    if ltb (length bytes) 39
    then ([], true)
    else if leb 2 (at bytes 0)
    then (if ltb (length bytes) 46
        then ([], true)
        else (map (placed fl bytes) (poll_places ++ poll_extra_places), false))
    else (map (placed fl bytes) poll_places ++ map (zero_of fl) poll_extra_places, false)

abbrev extra_calls : (fl : Floats) → PollExtra → List (PointCall fl.F64)
extra_calls fl extra =
    update_point filter_info_usage_litres_uv_field (int_float fl extra.litres_uv)
    ∷ update_point filter_info_usage_days_uv_field (int_float fl extra.days_uv)
    ∷ update_point filter_warning_uv_field (bool_to_float fl extra.warning_uv)
    ∷ update_point co2_low_gas_warning_field (bool_to_float fl extra.low_gas)
    ∷ update_point co2_usage_grams_field (int_float fl extra.grams)
    ∷ update_point co2_usage_days_field (int_float fl extra.days)
    ∷ []

-- The extra fields of the three kinds of payload.
extra_absent :
    (bytes : List ℕ)
    → 39 ≤ length bytes
    → leb 2 (at bytes 0) ≡ false
    → poll_extra 30 bytes 39 ≡ done (some no_poll_extra, 39)
unfolding poll_extra
extra_absent bytes le v = let version = peek_at_lem 0 bytes 39 (omega arith) in rw (version, v) refl

extra_short :
    (bytes : List ℕ)
    → 39 ≤ length bytes
    → leb 2 (at bytes 0) ≡ true
    → ltb (length bytes) 46 ≡ true
    → poll_extra 30 bytes 39 ≡ done (none, 39)
unfolding poll_extra
extra_short bytes le v short =
    let version = peek_at_lem 0 bytes 39 (omega arith) in
    let no_room : leb 46 (length bytes) ≡ false = ground arith in rw (version, v, no_room) refl

abbrev extra_of : List ℕ → PollExtra
extra_of bytes = record {
  litres_uv = word bytes 39;
  days_uv = word bytes 41;
  warning_uv = bit 2 (at bytes 30);
  low_gas = bit 3 (at bytes 30);
  grams = word bytes 43;
  days = at bytes 45;
}

extra_whole :
    (bytes : List ℕ)
    → 46 ≤ length bytes
    → leb 2 (at bytes 0) ≡ true
    → poll_extra 30 bytes 39 ≡ done (some (extra_of bytes), 46)
unfolding poll_extra
extra_whole bytes le v =
    let version = peek_at_lem 0 bytes 39 (omega arith) in
    let enough : leb 46 (length bytes) ≡ true = ground arith in
    rw (version, v, enough)
      (simp (
        read_u16_lem bytes 39 (omega arith),
        read_u16_lem bytes 41 (omega arith),
        peek_at_lem 30 bytes 43 (omega arith),
        read_u16_lem bytes 43 (omega arith),
        read_u8_lem bytes 45 (omega arith),
      ))

module _ (fl : Floats) where
  -- The fields up to the extra ones, whatever those are.
  poll_fields_lem :
      (bytes : List ℕ) (found : Option PollExtra) (i : ℕ)
      → 39 ≤ length bytes
      → poll_extra 30 bytes 39 ≡ done (found, i)
      → poll_fields fl bytes 1
        ≡ done (
          when_read found
              (λ extra. (map (placed fl bytes) poll_places ++ extra_calls fl extra, false)),
          i,
        )
  unfolding poll_fields
  poll_fields_lem bytes found i le e = simp (
    read_u8_lem bytes 1 (omega arith),
    read_u16_lem bytes 2 (omega arith),
    read_u16_lem bytes 4 (omega arith),
    read_u16_lem bytes 6 (omega arith),
    read_u16_lem bytes 8 (omega arith),
    read_u8_lem bytes 10 (omega arith),
    read_u8_lem bytes 11 (omega arith),
    read_u8_lem bytes 12 (omega arith),
    read_u8_lem bytes 13 (omega arith),
    read_u32_lem bytes 14 (omega arith),
    read_u16_lem bytes 18 (omega arith),
    read_u16_lem bytes 20 (omega arith),
    read_u16_lem bytes 22 (omega arith),
    read_u16_lem bytes 24 (omega arith),
    read_u16_lem bytes 26 (omega arith),
    read_u16_lem bytes 28 (omega arith),
    read_u8_lem bytes 30 (omega arith),
    read_u16_lem bytes 31 (omega arith),
    read_u16_lem bytes 33 (omega arith),
    read_u16_lem bytes 35 (omega arith),
    read_u16_lem bytes 37 (omega arith),
    e,
  )

  -- The poll decoder makes of every payload the updates that the table of places says, and no more:
  -- none and an error where the payload is too short for its packet version, and zeros for the
  -- fields of the second version where the first is given.
  pub poll_payload_decoder-poll_calls :
      (bytes : List ℕ) → poll_payload_decoder fl bytes ≡ done (poll_calls fl bytes)
  unfolding poll_payload_decoder
  poll_payload_decoder-poll_calls bytes = elim (Bool-cases (ltb (length bytes) 39)) [
    | inl short ↦ rw short refl
    | inr enough ↦
        let le = ltb→le _ _ enough in
        elim (Bool-cases (leb 2 (at bytes 0))) [
          | inr one ↦
              rw (enough, one) (rw (poll_fields_lem bytes _ _ le (extra_absent bytes le one)) refl)
          | inl two ↦ elim (Bool-cases (ltb (length bytes) 46)) [
            | inl cut ↦
                rw (enough, two, cut)
                  (rw (poll_fields_lem bytes _ _ le (extra_short bytes le two cut)) refl)
            | inr whole ↦
                rw (enough, two, whole)
                  (rw (poll_fields_lem bytes _ _ le (extra_whole bytes (ltb→le _ _ whole) two))
                    refl)
          ]
        ]
  ]
