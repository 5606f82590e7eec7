-- ===== src/Legacy/Safety.antt =====
-- The legacy decoders of droplets and micro edges on any text.
use module_core_loraraw.Prelude.{ℕ, ◌≤◌, refl, arith, Bool, List, none, length, ltb, if◌then◌else◌}
use module_core_loraraw.Prelude.Int.{ℤ}
use module_core_loraraw.Prelude.Go.{done, ◌>>=◌, Returns, >>=-Returns}
use module_core_loraraw.Rubix.Floats.{Floats}
use module_core_loraraw.Legacy.{or_report-Returns, field-Returns, go_on-Returns, on_value}
use module_core_loraraw.Legacy.HexInt.{parse_slice, parse_slices}
use module_core_loraraw.Legacy.HexInt.Bytes.{parse_slice-Returns, parse_slices-Returns}
use module_core_loraraw.Legacy.Droplet.{
  droplet_temp, droplet_pressure, droplet_humidity, droplet_voltage, droplet_light, droplet_motion,
  decode_droplet_th, decode_droplet_thl, decode_droplet_thlm, low_seven, above_127,
}
use module_core_loraraw.Legacy.MicroEdge.{pulse, ai1, ai2, ai3, voltage, decode_me}

-- A field of one slice within the length that the field asks for.
slice_field-Returns :
    {A : Type 0} (text : List ℕ) (n from to : ℕ) (f : ℤ → A)
    → from ≤ to
    → to ≤ n
    → Returns (
        if ltb (length text) n
        then done none
        else parse_slice text from to >>= λ v. done (on_value f v))
slice_field-Returns text n from to f h h' = field-Returns text n _ (λ enough.
    >>=-Returns (parse_slice text from to) _ (parse_slice-Returns text from to h (omega arith))
      (λ v. (_, refl)))

slices_field-Returns :
    {A : Type 0} (text : List ℕ) (n from to from' to' : ℕ) (f : ℤ → A)
    → from ≤ to
    → to ≤ n
    → from' ≤ to'
    → to' ≤ n
    → Returns (
        if ltb (length text) n
        then done none
        else parse_slices text from to from' to' >>= λ v. done (on_value f v))
slices_field-Returns text n from to from' to' f h l h' l' = field-Returns text n _ (λ enough.
    >>=-Returns (parse_slices text from to from' to') _
      (parse_slices-Returns text from to from' to' h (omega arith) h' (omega arith))
      (λ v. (_, refl)))

module _ (fl : Floats) (rejects : List ℕ → Bool) where
  decode_droplet_th-Returns : (text : List ℕ) → Returns (decode_droplet_th fl rejects text)
  unfolding decode_droplet_th droplet_temp droplet_pressure droplet_humidity droplet_voltage
  decode_droplet_th-Returns text =
      or_report-Returns rejects _ (droplet_temp fl text) _
        (slices_field-Returns text 12 10 12 8 10 _ (omega arith) (omega arith) (omega arith)
          (omega arith))
        (λ temperature.
          or_report-Returns rejects _ (droplet_pressure fl text) _
            (slices_field-Returns text 16 14 16 12 14 _ (omega arith) (omega arith) (omega arith)
              (omega arith))
            (λ pressure.
              or_report-Returns rejects _ (droplet_humidity text) _
                (slice_field-Returns text 18 16 18 low_seven (omega arith) (omega arith))
                (λ humidity.
                  or_report-Returns rejects _ (droplet_voltage fl text) _
                    (slice_field-Returns text 24 22 24 _ (omega arith) (omega arith))
                    (λ voltage. (_, refl)))))

  decode_droplet_thl-Returns : (text : List ℕ) → Returns (decode_droplet_thl fl rejects text)
  unfolding decode_droplet_thl droplet_light
  decode_droplet_thl-Returns text =
      >>=-Returns (decode_droplet_th fl rejects text) _ (decode_droplet_th-Returns text) (λ earlier.
        go_on-Returns earlier _ (
          or_report-Returns rejects _ (droplet_light text) _
            (field-Returns text 22 _ (λ h.
              parse_slices-Returns text 20 22 18 20 (omega arith) (omega arith) (omega arith)
                (omega arith)))
            (λ light. (_, refl))))

  -- No text, of whatever length and characters, makes a droplet's decoder panic.
  pub decode_droplet_thlm-Returns : (text : List ℕ) → Returns (decode_droplet_thlm fl rejects text)
  unfolding decode_droplet_thlm droplet_motion
  decode_droplet_thlm-Returns text =
      >>=-Returns (decode_droplet_thl fl rejects text) _ (decode_droplet_thl-Returns text)
        (λ earlier. go_on-Returns earlier _ (
          or_report-Returns rejects _ (droplet_motion text) _
            (slice_field-Returns text 18 16 18 above_127 (omega arith) (omega arith))
            (λ motion. (_, refl))))

  -- No text, of whatever length and characters, makes a micro edge's decoder panic.
  pub decode_me-Returns : (text : List ℕ) → Returns (decode_me fl rejects text)
  unfolding decode_me pulse ai1 ai2 ai3 voltage
  decode_me-Returns text =
      or_report-Returns rejects _ (pulse text) _
        (field-Returns text 16 _ (λ h. parse_slice-Returns text 8 16 (omega arith) (omega arith)))
        (λ p.
          or_report-Returns rejects _ (voltage fl text) _
            (slice_field-Returns text 18 16 18 _ (omega arith) (omega arith))
            (λ v.
              or_report-Returns rejects _ (ai1 fl text) _
                (slice_field-Returns text 22 18 22 fl.of_int (omega arith) (omega arith))
                (λ a1.
                  or_report-Returns rejects _ (ai2 fl text) _
                    (slice_field-Returns text 26 22 26 fl.of_int (omega arith) (omega arith))
                    (λ a2.
                      or_report-Returns rejects _ (ai3 fl text) _
                        (slice_field-Returns text 30 26 30 fl.of_int (omega arith) (omega arith))
                        (λ a3. (_, refl))))))
