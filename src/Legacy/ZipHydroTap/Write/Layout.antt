-- ===== src/Legacy/ZipHydroTap/Write/Layout.antt =====
-- The places of the fields in a write payload, as a table, and what a short payload still does.
use module_core_loraraw.Prelude.{
  ℕ, zero, suc, ◌+◌, ◌*◌, ◌≤◌, ◌≡◌, refl, ap, arith, true, false, List, [], ◌∷◌, ◌++◌, map, length,
  Option, none, some, ltb, leb, if◌then◌else◌, Bool-cases, inl, inr, ltb→le,
}
use module_core_loraraw.Prelude.Go.{done}
use module_core_loraraw.Rubix.Floats.{Floats}
use module_core_loraraw.Legacy.{PointCall, update_point, Outcome, at, word, int_float}
use module_core_loraraw.Legacy.ZipHydroTap.Places.{
  Place, place, one_byte, one_word, one_long, flag, tenths_of_word, single_byte, clock, latch,
  zero_of, placed, read_u8_lem, read_u16_lem, read_u32_lem, peek_at_lem,
}
use module_core_loraraw.Legacy.ZipHydroTap.Names.{
  numbered, time_start_field, time_stop_field, enable_start_field, enable_stop_field, time_field,
  dispense_time_boiling_field, dispense_time_chilled_field, dispense_time_sparkling_field,
  temperature_sp_boiling_field, temperature_sp_chilled_field, temperature_sp_sparkling_field,
  sleep_mode_setting_field, filter_info_life_litres_internal_field,
  filter_info_life_months_internal_field, filter_info_life_litres_external_field,
  filter_info_life_months_external_field, safety_allow_tap_changes_field, safety_lock_field,
  safety_hot_isolation_field, security_enable_field, security_pin_field,
  filter_info_life_litres_uv_field, filter_info_life_months_uv_field, co2_life_grams_field,
  co2_life_months_field, co2_pressure_field, co2_tank_capacity_field, co2_absorption_rate_field,
  sparkling_flow_rate_field, sparkling_flush_time_field,
}
use module_core_loraraw.Legacy.ZipHydroTap.Write.{
  WriteExtra, no_write_extra, behind_timers, write_timers, write_extra, write_fields,
  write_payload_decoder,
}

-- The four points of each timer from `i`, whose two words stand at `k`.
abbrev pub timer_places : ℕ → ℕ → ℕ → List Place
timer_places zero i k = []
timer_places (suc left) i k =
    place (numbered time_start_field i) clock k
    ∷ place (numbered time_stop_field i) clock (k + 2)
    ∷ place (numbered enable_start_field i) latch k
    ∷ place (numbered enable_stop_field i) latch (k + 2)
    ∷ timer_places left (suc i) (k + 2 + 2)

abbrev pub write_places : List Place
write_places =
    place time_field one_long 1
    ∷ place dispense_time_boiling_field one_byte 5
    ∷ place dispense_time_chilled_field one_byte 6
    ∷ place dispense_time_sparkling_field one_byte 7
    ∷ place temperature_sp_boiling_field tenths_of_word 8
    ∷ place temperature_sp_chilled_field single_byte 10
    ∷ place temperature_sp_sparkling_field single_byte 11
    ∷ place sleep_mode_setting_field one_byte 12
    ∷ place filter_info_life_litres_internal_field one_word 13
    ∷ place filter_info_life_months_internal_field one_byte 15
    ∷ place filter_info_life_litres_external_field one_word 16
    ∷ place filter_info_life_months_external_field one_byte 18
    ∷ place safety_allow_tap_changes_field (flag 2) 19
    ∷ place safety_lock_field (flag 1) 19
    ∷ place safety_hot_isolation_field (flag 0) 19
    ∷ place security_enable_field latch 20
    ∷ place security_pin_field clock 20
    ∷ []

-- Those of the second packet version.
abbrev pub write_extra_places : List Place
write_extra_places =
    place filter_info_life_litres_uv_field one_word 50
    ∷ place filter_info_life_months_uv_field one_byte 52
    ∷ place co2_life_grams_field one_word 53
    ∷ place co2_life_months_field one_byte 55
    ∷ place co2_pressure_field one_byte 56
    ∷ place co2_tank_capacity_field one_word 57
    ∷ place co2_absorption_rate_field one_word 59
    ∷ place sparkling_flow_rate_field one_word 61
    ∷ place sparkling_flush_time_field one_word 63
    ∷ []

-- What a write payload says, by the table. Where it is too short for the second packet version, the
-- timers are updated before that shows.
abbrev pub write_calls : (fl : Floats) → List ℕ → Outcome fl.F64
write_calls fl bytes =
    let timers = map (placed fl bytes) (timer_places 7 0 22) in
    let fields = map (placed fl bytes) write_places in
    if ltb (length bytes) 50
    then ([], true)
    else if leb 2 (at bytes 0)
    then (if ltb (length bytes) 65
        then (timers, true)
        else (timers ++ fields ++ map (placed fl bytes) write_extra_places, false))
    else (timers ++ fields ++ map (zero_of fl) write_extra_places, false)

abbrev extra_calls : (fl : Floats) → WriteExtra → List (PointCall fl.F64)
extra_calls fl extra =
    update_point filter_info_life_litres_uv_field (int_float fl extra.fil_lyf_ltr_uv)
    ∷ update_point filter_info_life_months_uv_field (int_float fl extra.fil_lyf_mnth_uv)
    ∷ update_point co2_life_grams_field (int_float fl extra.co2_lyf_grams)
    ∷ update_point co2_life_months_field (int_float fl extra.co2_lyf_mnths)
    ∷ update_point co2_pressure_field (int_float fl extra.co2_pressure)
    ∷ update_point co2_tank_capacity_field (int_float fl extra.co2_tank_cap)
    ∷ update_point co2_absorption_rate_field (int_float fl extra.co2_absorp_rate)
    ∷ update_point sparkling_flow_rate_field (int_float fl extra.sparkl_flow_rate)
    ∷ update_point sparkling_flush_time_field (int_float fl extra.sparkl_flush_time)
    ∷ []

-- The extra fields of the three kinds of payload.
extra_absent :
    (bytes : List ℕ)
    → 50 ≤ length bytes
    → leb 2 (at bytes 0) ≡ false
    → write_extra bytes 50 ≡ done (some no_write_extra, 50)
unfolding write_extra
extra_absent bytes le v = let version = peek_at_lem 0 bytes 50 (omega arith) in rw (version, v) refl

extra_short :
    (bytes : List ℕ)
    → 50 ≤ length bytes
    → leb 2 (at bytes 0) ≡ true
    → ltb (length bytes) 65 ≡ true
    → write_extra bytes 50 ≡ done (none, 50)
unfolding write_extra
extra_short bytes le v short =
    let version = peek_at_lem 0 bytes 50 (omega arith) in
    let no_room : leb 65 (length bytes) ≡ false = ground arith in rw (version, v, no_room) refl

abbrev extra_of : List ℕ → WriteExtra
extra_of bytes = record {
  fil_lyf_ltr_uv = word bytes 50;
  fil_lyf_mnth_uv = at bytes 52;
  co2_lyf_grams = word bytes 53;
  co2_lyf_mnths = at bytes 55;
  co2_pressure = at bytes 56;
  co2_tank_cap = word bytes 57;
  co2_absorp_rate = word bytes 59;
  sparkl_flow_rate = word bytes 61;
  sparkl_flush_time = word bytes 63;
}

extra_whole :
    (bytes : List ℕ)
    → 65 ≤ length bytes
    → leb 2 (at bytes 0) ≡ true
    → write_extra bytes 50 ≡ done (some (extra_of bytes), 65)
unfolding write_extra
extra_whole bytes le v =
    let version = peek_at_lem 0 bytes 50 (omega arith) in
    let enough : leb 65 (length bytes) ≡ true = ground arith in
    rw (version, v, enough)
      (simp (
        read_u16_lem bytes 50 (omega arith),
        read_u8_lem bytes 52 (omega arith),
        read_u16_lem bytes 53 (omega arith),
        read_u8_lem bytes 55 (omega arith),
        read_u8_lem bytes 56 (omega arith),
        read_u16_lem bytes 57 (omega arith),
        read_u16_lem bytes 59 (omega arith),
        read_u16_lem bytes 61 (omega arith),
        read_u16_lem bytes 63 (omega arith),
      ))

module _ (fl : Floats) where
  -- The loop over any number of timers, by induction.
  write_timers_lem :
      (left i k : ℕ) (bytes : List ℕ)
      → k + left * 4 ≤ length bytes
      → write_timers fl left i bytes k
        ≡ done (map (placed fl bytes) (timer_places left i k), k + left * 4)
  unfolding write_timers
  write_timers_lem zero i k bytes le = ap (λ (j : ℕ). done ([], j)) (omega arith)
  write_timers_lem (suc left) i k bytes le =
      let start = read_u16_lem bytes k (omega arith) in
      let stop = read_u16_lem bytes (k + 2) (omega arith) in
      let later = write_timers_lem left (suc i) (k + 2 + 2) bytes (omega arith) in
      let end : k + 2 + 2 + left * 4 ≡ k + suc left * 4 = omega arith in
      rw (start, stop) (rw (later, end) refl)

  -- The fields up to the extra ones, whatever those are.
  write_fields_lem :
      (bytes : List ℕ) (found : Option WriteExtra) (i : ℕ)
      → 50 ≤ length bytes
      → write_extra bytes 50 ≡ done (found, i)
      → write_fields fl bytes 1
        ≡ done (
          behind_timers
              (map (placed fl bytes) (timer_places 7 0 22))
              found
              (λ extra. map (placed fl bytes) write_places ++ extra_calls fl extra),
          i,
        )
  unfolding write_fields
  write_fields_lem bytes found i le e = simp (
    read_u32_lem bytes 1 (omega arith),
    read_u8_lem bytes 5 (omega arith),
    read_u8_lem bytes 6 (omega arith),
    read_u8_lem bytes 7 (omega arith),
    read_u16_lem bytes 8 (omega arith),
    read_u8_lem bytes 10 (omega arith),
    read_u8_lem bytes 11 (omega arith),
    read_u8_lem bytes 12 (omega arith),
    read_u16_lem bytes 13 (omega arith),
    read_u8_lem bytes 15 (omega arith),
    read_u16_lem bytes 16 (omega arith),
    read_u8_lem bytes 18 (omega arith),
    read_u8_lem bytes 19 (omega arith),
    read_u16_lem bytes 20 (omega arith),
    write_timers_lem 7 0 22 bytes (omega arith),
    e,
  )

  -- The write decoder makes of every payload the updates that the table of places says, in that order
  -- and no more: none and an error below 50 bytes, zeros for the fields of the second packet version where the
  -- first is given, and, where a payload of the second version is shorter than 65 bytes, those of the 28 timer
  -- points and an error.
  pub write_payload_decoder-write_calls :
      (bytes : List ℕ) → write_payload_decoder fl bytes ≡ done (write_calls fl bytes)
  unfolding write_payload_decoder
  write_payload_decoder-write_calls bytes = elim (Bool-cases (ltb (length bytes) 50)) [
    | inl short ↦ rw short refl
    | inr enough ↦
        let le = ltb→le _ _ enough in
        elim (Bool-cases (leb 2 (at bytes 0))) [
          | inr one ↦
              rw (enough, one) (rw (write_fields_lem bytes _ _ le (extra_absent bytes le one)) refl)
          | inl two ↦ elim (Bool-cases (ltb (length bytes) 65)) [
            | inl cut ↦
                rw (enough, two, cut)
                  (rw (write_fields_lem bytes _ _ le (extra_short bytes le two cut)) refl)
            | inr whole ↦
                rw (enough, two, whole)
                  (rw (write_fields_lem bytes _ _ le (extra_whole bytes (ltb→le _ _ whole) two))
                    refl)
          ]
        ]
  ]
