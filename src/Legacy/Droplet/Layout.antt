-- ===== src/Legacy/Droplet/Layout.antt =====
-- The places of the fields in a droplet's frame, by bytes.
use module_core_loraraw.Prelude.{
  ℕ, ◌%◌, ◌≤◌, ◌≡◌, arith, Bool, false, List, [], ◌∷◌, length, ltb, le→ltb,
}
use module_core_loraraw.Prelude.Int.{pos}
use module_core_loraraw.Prelude.Go.{done}
use module_core_loraraw.Rubix.Floats.{Floats}
use module_core_loraraw.Legacy.{update_point, int_float, at, word, bool_to_float}
use module_core_loraraw.Legacy.HexInt.{IsHexOf}
use module_core_loraraw.Legacy.HexInt.Bytes.{
  IsHexOf-length, parse_byte-IsHexOf, parse_slices-IsHexOf,
}
use module_core_loraraw.Legacy.Droplet.{
  temperature_field, pressure_field, humidity_field, droplet_voltage_field, light_field,
  motion_field, int16, lithium, droplet_temp, droplet_pressure, droplet_humidity, droplet_voltage,
  droplet_light, droplet_motion, decode_droplet_th, decode_droplet_thl, decode_droplet_thlm,
}

module _ (fl : Floats) (rejects : List ℕ → Bool) where
  -- A droplet's frame in hex, in whatever case, of at least twelve bytes is decoded without an error into
  -- one update for each field: the temperature is the signed word at byte 4 over 100, the
  -- pressure the word at 6 over 10, byte 8 holds humidity and motion, the word at 9 is the light, and
  -- byte 11 is the voltage over 50, corrected for lithium batteries below 1.
  pub decode_droplet_thlm-IsHexOf :
      (text bytes : List ℕ)
      → IsHexOf text bytes
      → 12 ≤ length bytes
      → decode_droplet_thlm fl rejects text
        ≡ done (
          update_point temperature_field
                (fl.div64 (fl.of_int (int16 (pos (word bytes 4)))) (int_float fl 100))
              ∷ update_point pressure_field
                  (fl.div64 (int_float fl (word bytes 6)) (int_float fl 10))
              ∷ update_point humidity_field (int_float fl (at bytes 8 % 128))
              ∷ update_point droplet_voltage_field
                  (lithium fl (fl.div64 (int_float fl (at bytes 11)) (int_float fl 50)))
              ∷ update_point light_field (int_float fl (word bytes 9))
              ∷ update_point motion_field (bool_to_float fl (ltb 127 (at bytes 8)))
              ∷ [],
          false,
        )
  unfolding decode_droplet_thlm decode_droplet_thl decode_droplet_th droplet_temp droplet_pressure
      droplet_humidity droplet_voltage droplet_light droplet_motion
  decode_droplet_thlm-IsHexOf text bytes h le =
      let n = IsHexOf-length text bytes h in
      let long : (k : ℕ) → k ≤ 24 → ltb (length text) k ≡ false =
        λ k le'. le→ltb (length text) k (omega arith) in
      let t = parse_slices-IsHexOf text bytes 4 h (omega arith) in
      let p = parse_slices-IsHexOf text bytes 6 h (omega arith) in
      let l = parse_slices-IsHexOf text bytes 9 h (omega arith) in
      let m = parse_byte-IsHexOf text bytes 8 h (omega arith) in
      let v = parse_byte-IsHexOf text bytes 11 h (omega arith) in
      simp (
        long 12 (omega arith),
        long 16 (omega arith),
        long 18 (omega arith),
        long 22 (omega arith),
        long 24 (omega arith),
        t,
        p,
        m,
        v,
        l,
      )
