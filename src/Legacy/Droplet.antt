-- ===== src/Legacy/Droplet.antt =====
-- codecs/legacyDecoders/droplet.go.
pub mod Layout
use module_core_loraraw.Prelude.{
  ℕ, suc, ◌-◌, ◌*◌, ◌%◌, ◌^◌, Bool, true, false, ◌||◌, List, [], ◌∷◌, ◌++◌, Option, none, some,
  length, ltb, ◌==◌, if◌then◌else◌,
}
use module_core_loraraw.Prelude.Int.{ℤ, pos, negsuc, sub_ℕ}
use module_core_loraraw.Prelude.Go.{Go, done, ◌>>=◌}
use module_core_loraraw.Prelude.Text.{codes}
use module_core_loraraw.Rubix.Floats.{Floats}
use module_core_loraraw.Legacy.{
  PointCall, update_point, point_error, Outcome, or_report, common_value_names, on_value, int_float,
  go_on, bool_to_float,
}
use module_core_loraraw.Legacy.HexInt.{parse_slice, parse_slices}

abbrev pub temperature_field : List ℕ
temperature_field = codes "temperature"

abbrev pub pressure_field : List ℕ
pressure_field = codes "pressure"

abbrev pub humidity_field : List ℕ
humidity_field = codes "humidity"

abbrev pub droplet_voltage_field : List ℕ
droplet_voltage_field = codes "voltage"

abbrev pub light_field : List ℕ
light_field = codes "light"

abbrev pub motion_field : List ℕ
motion_field = codes "motion"

abbrev pub get_th_point_names : List (List ℕ)
get_th_point_names =
    common_value_names
    ++ droplet_voltage_field ∷ temperature_field ∷ pressure_field ∷ humidity_field ∷ []

abbrev pub get_thl_point_names : List (List ℕ)
get_thl_point_names = get_th_point_names ++ light_field ∷ []

abbrev pub get_thlm_point_names : List (List ℕ)
get_thlm_point_names = get_thl_point_names ++ motion_field ∷ []

abbrev pub check_payload_length_droplet : List ℕ → Bool
check_payload_length_droplet text = length text == 36 || length text == 32 || length text == 44

-- `int16(v)`: the low 16 bits in two's complement.
abbrev pub low_word : ℤ → ℕ
low_word (pos n) = n % 2 ^ 16
low_word (negsuc n) = 2 ^ 16 - 1 - n % 2 ^ 16

abbrev pub int16 : ℤ → ℤ
int16 v = if ltb (low_word v) (2 ^ 15) then pos (low_word v) else sub_ℕ (low_word v) (2 ^ 16)

-- `v & 127` on an int64.
abbrev pub low_seven : ℤ → ℕ
low_seven (pos n) = n % 128
low_seven (negsuc n) = 127 - n % 128

abbrev pub above_127 : ℤ → Bool
above_127 (pos n) = ltb 127 n
above_127 (negsuc n) = false

-- The number of a field, or `none` for the error: a text that is too short, or no number.
unfoldable pub droplet_humidity : List ℕ → Go (Option ℕ)
droplet_humidity text =
    if ltb (length text) 18
    then done none
    else do v ← parse_slice text 16 18; done (on_value low_seven v)

unfoldable pub droplet_light : List ℕ → Go (Option ℤ)
droplet_light text = if ltb (length text) 22 then done none else parse_slices text 20 22 18 20

unfoldable pub droplet_motion : List ℕ → Go (Option Bool)
droplet_motion text =
    if ltb (length text) 18
    then done none
    else do v ← parse_slice text 16 18; done (on_value above_127 v)

module _ (fl : Floats) where
  unfoldable pub droplet_temp : List ℕ → Go (Option fl.F64)
  droplet_temp text = if ltb (length text) 12 then done none else do
    v ← parse_slices text 10 12 8 10
    done (on_value (λ n. fl.div64 (fl.of_int (int16 n)) (int_float fl 100)) v)

  unfoldable pub droplet_pressure : List ℕ → Go (Option fl.F64)
  droplet_pressure text = if ltb (length text) 16 then done none else do
    v ← parse_slices text 14 16 12 14
    done (on_value (λ n. fl.div64 (fl.of_int n) (int_float fl 10)) v)

  -- The literal 0.06 is 6 / 100, rounded once.
  abbrev pub lithium : fl.F64 → fl.F64
  lithium v =
      if fl.lt v (int_float fl 1)
      then fl.add64 (fl.sub64 v (fl.div64 (int_float fl 6) (int_float fl 100))) (int_float fl 5)
      else v

  unfoldable pub droplet_voltage : List ℕ → Go (Option fl.F64)
  droplet_voltage text = if ltb (length text) 24 then done none else do
    v ← parse_slice text 22 24
    done (on_value (λ n. lithium (fl.div64 (fl.of_int n) (int_float fl 50))) v)

  module _ (rejects : List ℕ → Bool) where
    unfoldable pub decode_droplet_th : List ℕ → Go (Outcome fl.F64)
    decode_droplet_th text = or_report rejects temperature_field (droplet_temp text) (λ temperature.
        or_report rejects pressure_field (droplet_pressure text) (λ pressure.
          or_report rejects humidity_field (droplet_humidity text) (λ humidity.
            or_report rejects droplet_voltage_field (droplet_voltage text) (λ voltage. done (
              update_point temperature_field temperature
                  ∷ update_point pressure_field pressure
                  ∷ update_point humidity_field (int_float fl humidity)
                  ∷ update_point droplet_voltage_field voltage
                  ∷ [],
              false,
            )))))

    unfoldable pub decode_droplet_thl : List ℕ → Go (Outcome fl.F64)
    decode_droplet_thl text = do
      earlier ← decode_droplet_th text
      go_on earlier (
          or_report rejects light_field (droplet_light text)
            (λ light. done (update_point light_field (fl.of_int light) ∷ [], false)))

    unfoldable pub decode_droplet_thlm : List ℕ → Go (Outcome fl.F64)
    decode_droplet_thlm text = do
      earlier ← decode_droplet_thl text
      go_on earlier (
          or_report rejects motion_field (droplet_motion text)
            (λ motion. done (update_point motion_field (bool_to_float fl motion) ∷ [], false)))
