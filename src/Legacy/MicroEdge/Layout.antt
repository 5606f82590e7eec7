-- ===== src/Legacy/MicroEdge/Layout.antt =====
-- The places of the fields in a micro edge's frame, by bytes.
use module_core_loraraw.Prelude.{
  ℕ, ◌≤◌, ◌≡◌, arith, Bool, false, List, [], ◌∷◌, length, get_or, take, drop, ltb, le→ltb,
}
use module_core_loraraw.Prelude.Go.{done}
use module_core_loraraw.Rubix.Floats.{Floats}
use module_core_loraraw.Legacy.{update_point, int_float}
use module_core_loraraw.Legacy.HexInt.{big_endian, IsHexOf}
use module_core_loraraw.Legacy.HexInt.Bytes.{
  IsHexOf-length, parse_byte-IsHexOf, parse_slice-IsHexOf,
}
use module_core_loraraw.Legacy.MicroEdge.{
  me_voltage_field, pulse_field, ai1_field, ai2_field, ai3_field, pulse, ai1, ai2, ai3, voltage,
  decode_me,
}

module _ (fl : Floats) (rejects : List ℕ → Bool) where
  -- A float of `n` bytes of the frame from byte `i`, the highest first.
  abbrev pub number : List ℕ → ℕ → ℕ → fl.F64
  number bytes i n = int_float fl (big_endian 0 (take n (drop i bytes)))

  -- A micro edge's frame in hex, in whatever case, of at least fifteen bytes is decoded without an error
  -- into the pulses (four bytes from byte 4), the voltage (byte 8 over 50) and the three analog
  -- inputs (two bytes each from 9, 11 and 13), all with the highest byte first.
  pub decode_me-IsHexOf :
      (text bytes : List ℕ)
      → IsHexOf text bytes
      → 15 ≤ length bytes
      → decode_me fl rejects text
        ≡ done (
          update_point pulse_field (number bytes 4 4)
              ∷ update_point me_voltage_field
                  (fl.div64 (int_float fl (get_or bytes 8 0)) (int_float fl 50))
              ∷ update_point ai1_field (number bytes 9 2)
              ∷ update_point ai2_field (number bytes 11 2)
              ∷ update_point ai3_field (number bytes 13 2)
              ∷ [],
          false,
        )
  unfolding decode_me pulse ai1 ai2 ai3 voltage
  decode_me-IsHexOf text bytes h le =
      let n = IsHexOf-length text bytes h in
      let long : (k : ℕ) → k ≤ 30 → ltb (length text) k ≡ false =
        λ k le'. le→ltb (length text) k (omega arith) in
      let p = parse_slice-IsHexOf text bytes 4 3 h (omega arith) in
      let v = parse_byte-IsHexOf text bytes 8 h (omega arith) in
      let a1 = parse_slice-IsHexOf text bytes 9 1 h (omega arith) in
      let a2 = parse_slice-IsHexOf text bytes 11 1 h (omega arith) in
      let a3 = parse_slice-IsHexOf text bytes 13 1 h (omega arith) in
      simp (
        long 16 (omega arith),
        long 18 (omega arith),
        long 22 (omega arith),
        long 26 (omega arith),
        long 30 (omega arith),
        p,
        v,
        a1,
        a2,
        a3,
      )
