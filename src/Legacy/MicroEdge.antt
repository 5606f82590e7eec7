-- ===== src/Legacy/MicroEdge.antt =====
-- codecs/legacyDecoders/microedge.go.
pub mod Layout
use module_core_loraraw.Prelude.{
  ℕ, Bool, false, ◌||◌, List, [], ◌∷◌, ◌++◌, Option, none, length, ltb, ◌==◌, if◌then◌else◌,
}
use module_core_loraraw.Prelude.Int.{ℤ, pos}
use module_core_loraraw.Prelude.Go.{Go, done, ◌>>=◌}
use module_core_loraraw.Prelude.Text.{codes, text_eq}
use module_core_loraraw.Rubix.Floats.{Floats}
use module_core_loraraw.Legacy.{
  update_point, Outcome, or_report, common_value_names, on_value, int_float,
}
use module_core_loraraw.Legacy.HexInt.{parse_slice}

abbrev pub me_voltage_field : List ℕ
me_voltage_field = codes "voltage"

abbrev pub pulse_field : List ℕ
pulse_field = codes "pulse"

abbrev pub ai1_field : List ℕ
ai1_field = codes "ai_1"

abbrev pub ai2_field : List ℕ
ai2_field = codes "ai_2"

abbrev pub ai3_field : List ℕ
ai3_field = codes "ai_3"

abbrev pub get_me_point_names : List (List ℕ)
get_me_point_names =
    common_value_names ++ me_voltage_field ∷ pulse_field ∷ ai1_field ∷ ai2_field ∷ ai3_field ∷ []

abbrev pub check_payload_length_me : List ℕ → Bool
check_payload_length_me text = length text == 36 || length text == 32 || length text == 44

-- `none` is the error: a text that is too short, or no number.
unfoldable pub pulse : List ℕ → Go (Option ℤ)
pulse text = if ltb (length text) 16 then done none else parse_slice text 8 16

-- The datatype.IOType of a point.
pub data IoType : Type 0 where
  raw digital thermistor_10k voltage_dc other_type : IoType

module _ (fl : Floats) where
  unfoldable pub ai1 : List ℕ → Go (Option fl.F64)
  ai1 text =
      if ltb (length text) 22
      then done none
      else do v ← parse_slice text 18 22; done (on_value fl.of_int v)

  unfoldable pub ai2 : List ℕ → Go (Option fl.F64)
  ai2 text =
      if ltb (length text) 26
      then done none
      else do v ← parse_slice text 22 26; done (on_value fl.of_int v)

  unfoldable pub ai3 : List ℕ → Go (Option fl.F64)
  ai3 text =
      if ltb (length text) 30
      then done none
      else do v ← parse_slice text 26 30; done (on_value fl.of_int v)

  unfoldable pub voltage : List ℕ → Go (Option fl.F64)
  voltage text = if ltb (length text) 18 then done none else do
    v ← parse_slice text 16 18
    done (on_value (λ n. fl.div64 (fl.of_int n) (int_float fl 50)) v)

  unfoldable pub decode_me : (List ℕ → Bool) → List ℕ → Go (Outcome fl.F64)
  decode_me rejects text = or_report rejects pulse_field (pulse text) (λ p.
      or_report rejects me_voltage_field (voltage text) (λ v.
        or_report rejects ai1_field (ai1 text) (λ a1. or_report rejects ai2_field (ai2 text) (λ a2.
          or_report rejects ai3_field (ai3 text) (λ a3. done (
            update_point pulse_field (fl.of_int p)
                ∷ update_point me_voltage_field v
                ∷ update_point ai1_field a1
                ∷ update_point ai2_field a2
                ∷ update_point ai3_field a3
                ∷ [],
            false,
          ))))))

  -- The literal 3.29 is 329 / 100, rounded once. `to_temperature` is ResistanceToTemperature with the
  -- table T210K.
  abbrev pub resistance : fl.F64 → Bool → fl.F64
  resistance value v2 =
      let volts = fl.div64 (int_float fl 329) (int_float fl 100) in
      let v = fl.mul64 (fl.div64 value (int_float fl 1023)) volts in
      if v2
      then fl.div64 (fl.mul64 (int_float fl 10000) v) (fl.sub64 volts v)
      else fl.div64 (fl.sub64 (fl.mul64 (int_float fl 16620) value) (int_float fl 3375900))
          (fl.sub64 (int_float fl 1023) value)

  unfoldable pub micro_edge_point_type : (fl.F64 → fl.F64) → IoType → fl.F64 → List ℕ → fl.F64
  micro_edge_point_type to_temperature raw value model = value
  micro_edge_point_type to_temperature digital value model =
      if fl.le (int_float fl 1000) value then int_float fl 0 else int_float fl 1
  micro_edge_point_type to_temperature thermistor_10k value model =
      to_temperature (resistance value (text_eq model (codes "MicroEdgeV2")))
  micro_edge_point_type to_temperature voltage_dc value model =
      fl.mul64 (fl.div64 value (int_float fl 1024)) (int_float fl 10)
  micro_edge_point_type to_temperature other_type value model = value
