-- ===== src/Rubix/Points/Total.antt =====
-- The loop of DecodeRubix (decoder.go): its end and its fuel.
use module_core_loraraw.Prelude.{
  ℕ, zero, suc, ◌+◌, ◌*◌, ◌%◌, ◌≤◌, ◌<◌, ◌≡◌, refl, ◌∙◌, arith, List, [], ◌∷◌, All, length, Bool,
  true, false, Option, none, some, Bool-cases, inl, inr, ltb→lt, if◌then◌else◌, ◌==◌,
}
use module_core_loraraw.Prelude.Go.{done}
use module_core_loraraw.Bits.{IsByte, u8}
use module_core_loraraw.Rubix.Serial.{SerialData, has_positional_data, new_serial_data_with_buffer}
use module_core_loraraw.Rubix.MetaData.{
  MetaData, DataType, no_type, fixed_point, data_point, get_meta_data,
}
use module_core_loraraw.Rubix.Floats.{Floats}
use module_core_loraraw.Rubix.BitCount.{get_bit_count}
use module_core_loraraw.Rubix.Widths.{IsWidth, width_by_type, width-IsWidth}
use module_core_loraraw.Rubix.Fields.{PositionData, parse_position, generate_field_name}
use module_core_loraraw.Rubix.Decoder.{can_decode, parse_meta_data}
use module_core_loraraw.Rubix.Decoder.Read.{read_bits_total}
use module_core_loraraw.Rubix.Points.{
  Pointer, Stored, decoded_of, target, callback, Decoded, Call, fixed_into, point_into,
  expected_pointer, decode_by_type, decode_data, decode_target, decode_point_rubix, decode_round,
  decode_loop, decode_rubix,
}

-- The key at the read position is there to read; the buffer stays as it is.
parse_meta_data_total :
    (sd : SerialData) (has_pos : Bool)
    → All IsByte sd.buffer
    → has_positional_data sd ≡ done has_pos
    → (key : ℕ) × (position : PositionData) × (read : ℕ) × (parse_meta_data sd
        ≡ done (key, position, record sd { read_bit_pos = read }))
      × (sd.read_bit_pos + 6 ≤ read)
unfolding parse_meta_data
parse_meta_data_total sd true hv hp =
    let (byte, e) = read_bits_total sd 8 hv (omega arith) (omega arith) in
    let (key, e') =
      read_bits_total (record sd { read_bit_pos = sd.read_bit_pos + 8 }) 6 hv (omega arith)
        (omega arith) in
    (key, parse_position (u8 byte), sd.read_bit_pos + 8 + 6, rw (hp, e) (rw e' refl), omega arith)
parse_meta_data_total sd false hv hp =
    let (key, e) = read_bits_total sd 6 hv (omega arith) (omega arith) in
    (key, record { id = 0; type = 0 }, sd.read_bit_pos + 6, rw hp (rw e refl), omega arith)

-- Reading leaves the settings alone.
pub same_settings :
    (sd : SerialData) (read : ℕ)
    → has_positional_data (record sd { read_bit_pos = read }) ≡ has_positional_data sd
unfolding has_positional_data
same_settings sd read = refl

module _ (fl : Floats) where
  decode_by_type_total :
      (t : DataType) (sd : SerialData) (key : ℕ) (m : MetaData) (pointer : Pointer)
      → All IsByte sd.buffer
      → IsWidth (width_by_type t m)
      → (stored : Option (Stored fl)) × (read : ℕ) × (decode_by_type fl t sd key m pointer
          ≡ done (record sd { read_bit_pos = read }, stored))
        × (sd.read_bit_pos ≤ read)
  unfolding decode_by_type
  decode_by_type_total no_type sd key m pointer hv hm = (none, sd.read_bit_pos, refl, omega arith)
  decode_by_type_total fixed_point sd key m pointer hv hm =
      let count : ℕ = get_bit_count m.low_value m.high_value m.decimal_point in
      let (x, e) = read_bits_total sd count hv hm.0 hm.1 in
      (fixed_into fl pointer x m, sd.read_bit_pos + count, rw e refl, omega arith)
  decode_by_type_total data_point sd key m pointer hv hm =
      let (x, e) = read_bits_total sd (m.byte_count * 8) hv hm.0 hm.1 in
      (
        point_into fl (expected_pointer key) pointer x,
        sd.read_bit_pos + m.byte_count * 8,
        rw e refl,
        omega arith,
      )

  decode_data_total :
      (sd : SerialData) (key : ℕ) (pointer : Pointer)
      → All IsByte sd.buffer
      → (stored : Option (Stored fl)) × (read : ℕ) × (decode_data fl sd key pointer
          ≡ done (record sd { read_bit_pos = read }, stored))
        × (sd.read_bit_pos ≤ read)
  unfolding decode_data
  decode_data_total sd key pointer hv = elim (Bool-cases (key == 0)) [
    | inl invalid ↦ (none, sd.read_bit_pos, rw invalid refl, omega arith)
    | inr valid ↦
        let m = get_meta_data key in
        let (stored, read, e, h) =
          decode_by_type_total m.data_type sd key m pointer hv (width-IsWidth key) in
        (stored, read, rw valid e, h)
  ]

  decode_target_total :
      (pointer : Option Pointer) (sd : SerialData) (key : ℕ) (position : PositionData)
      → All IsByte sd.buffer
      → (d : Decoded fl) × (read : ℕ) × (decode_target fl pointer sd key position
          ≡ done (d, record sd { read_bit_pos = read }))
        × (sd.read_bit_pos ≤ read)
  unfolding decode_target
  decode_target_total none sd key position hv = (
    record { name = generate_field_name key position; value = fl.of_uint 0; error = none },
    sd.read_bit_pos,
    refl,
    omega arith,
  )
  decode_target_total (some pointer) sd key position hv =
      let (stored, read, e, h) = decode_data_total sd key pointer hv in
      (decoded_of fl key position stored, read, rw e refl, h)

  -- A round moves the cursor on by a key at least.
  decode_round_total :
      (msg : Option ℕ) (has_pos : Bool) (position : PositionData) (sd : SerialData)
      → All IsByte sd.buffer
      → has_positional_data sd ≡ done has_pos
      → (call : Call fl) × (position' : PositionData) × (read : ℕ) × (decode_round fl msg has_pos
            position sd
          ≡ done (call, position', record sd { read_bit_pos = read }))
        × (sd.read_bit_pos + 6 ≤ read)
  unfolding decode_round decode_point_rubix
  decode_round_total msg has_pos position sd hv hp =
      let (key, fresh, read, e, h) = parse_meta_data_total sd has_pos hv hp in
      let at : PositionData = if has_pos then fresh else position in
      let (d, read', e', h') =
        decode_target_total (target key) (record sd { read_bit_pos = read }) key at hv in
      (
        callback fl msg d,
        record { id = at.id + 1; type = at.type },
        read',
        rw e (rw e' refl),
        omega arith,
      )

  -- Every round leaves less to read, so the loop ends before its fuel does.
  decode_loop_total :
      (fuel : ℕ) (msg : Option ℕ) (has_pos : Bool) (position : PositionData) (sd : SerialData)
      → All IsByte sd.buffer
      → has_positional_data sd ≡ done has_pos
      → length sd.buffer * 8 < fuel + sd.read_bit_pos
      → 0 < fuel
      → (calls : List (Call fl)) × (decode_loop fl fuel msg has_pos position sd ≡ done (some calls))
  unfolding decode_loop can_decode
  decode_loop_total zero msg has_pos position sd hv hp hf pos = absurd (omega arith)
  decode_loop_total (suc fuel) msg has_pos position sd hv hp hf pos =
      elim (Bool-cases (can_decode sd)) [
        | inl more ↦
            let (call, position', read, e, h) = decode_round_total msg has_pos position sd hv hp in
            let (calls, rest) =
              decode_loop_total fuel msg has_pos position' (record sd { read_bit_pos = read }) hv
                (same_settings sd read ∙ hp) (omega arith) (omega (arith, ltb→lt _ _ more)) in
            (call ∷ calls, rw (more, decode_loop) (rw e (rw rest refl)))
        | inr finished ↦ ([], rw (finished, decode_loop) refl)
      ]

  -- DecodeRubix returns on every payload with a settings byte: it neither panics nor runs out of fuel.
  pub decode_rubix_total :
      (msg : Option ℕ) (payload : List ℕ)
      → All IsByte payload
      → 0 < length payload
      → (calls : List (Call fl)) × (decode_rubix fl msg payload ≡ done (some calls))
  unfolding decode_rubix new_serial_data_with_buffer has_positional_data
  decode_rubix_total msg [] hv hn = absurd (omega arith)
  decode_rubix_total msg (b ∷ bs) hv hn =
      decode_loop_total (length (b ∷ bs) * 8) msg (b % 2 == 1) _ _ hv refl (omega arith)
        (omega arith)
