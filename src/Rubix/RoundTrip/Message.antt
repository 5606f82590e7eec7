-- ===== src/Rubix/RoundTrip/Message.antt =====
-- The loop of DecodeRubix on a stream that holds whole points and the zeros that fill its last byte.
use module_core_loraraw.Prelude.{
  ℕ, zero, suc, ◌+◌, ◌*◌, ◌^◌, ◌<◌, ◌≡◌, refl, sym, ap, ◌∙◌, arith, List, [], ◌∷◌, ◌++◌,
  append_assoc, All, length, length-append, length-replicate, Bool, true, false, if◌then◌else◌,
  ◌==◌, ltb, lt→ltb, le→ltb, Bool-cases, inl, inr, Option, none, some,
}
use module_core_loraraw.Prelude.Go.{done}
use module_core_loraraw.Bits.{to_bits, bits, IsByte, zeros}
use module_core_loraraw.Bits.Split.{length-to_bits}
use module_core_loraraw.Bits.Bytes.{length-bits}
use module_core_loraraw.Rubix.Serial.{SerialData, has_positional_data}
use module_core_loraraw.Rubix.MetaData.{get_meta_data}
use module_core_loraraw.Rubix.Floats.{Floats}
use module_core_loraraw.Rubix.Widths.{width, width-IsWidth}
use module_core_loraraw.Rubix.Fields.{PositionData, parse_position, generate_field_name}
use module_core_loraraw.Rubix.Decoder.{can_decode, parse_meta_data}
use module_core_loraraw.Rubix.Decoder.Read.{read_bits_lem, read_bits_past}
use module_core_loraraw.Rubix.Encoder.Point.{header_bits, point_bits}
use module_core_loraraw.Rubix.Points.{
  Pointer, Call, target, decode_target, decode_point_rubix, decoded_of, callback, decode_round,
  decode_loop,
}
use module_core_loraraw.Rubix.Points.Total.{same_settings}
use module_core_loraraw.Rubix.RoundTrip.{stored_value, decode_round_lem}

-- A point as the stream carries it: its key, its position byte, its data bits, and the variable
-- that decodePointRubix reads them into.
pub record Item : Type 0 where
  pub key : ℕ
  pub byte : ℕ
  pub field : ℕ
  pub pointer : Pointer

pub record IsItem (i : Item) : Type 0 where
  pub small_key : i.key < 64
  pub byte_position : IsByte i.byte
  pub readable : target i.key ≡ some i.pointer
  pub fits : i.field < 2 ^ width (get_meta_data i.key)

abbrev pub item_bits : Bool → Item → List ℕ
item_bits has_pos i = point_bits has_pos i.key i.byte (i.field, width (get_meta_data i.key))

unfoldable pub items_bits : Bool → List Item → List ℕ
items_bits has_pos [] = []
items_bits has_pos (i ∷ is) = item_bits has_pos i ++ items_bits has_pos is

abbrev first_place : PositionData
first_place = record { id = 0; type = 0 }

-- A key and at least one bit of data.
item_bits_least : (has_pos : Bool) (i : Item) → 6 < length (item_bits has_pos i)
item_bits_least true i =
    let n : ℕ = width (get_meta_data i.key) in
    let head : List ℕ = header_bits true i.key i.byte in
    omega (
      arith,
      length-append head (to_bits n i.field),
      length-append (to_bits 8 i.byte) (to_bits 6 i.key),
      length-to_bits 6 i.key,
      length-to_bits n i.field,
      width-IsWidth i.key,
    )
item_bits_least false i =
    let n : ℕ = width (get_meta_data i.key) in
    let head : List ℕ = header_bits false i.key i.byte in
    omega (
      arith,
      length-append head (to_bits n i.field),
      length-to_bits 6 i.key,
      length-to_bits n i.field,
      width-IsWidth i.key,
    )

can_decode-past :
    (sd : SerialData) → length sd.buffer * 8 < sd.read_bit_pos + 7 → can_decode sd ≡ false
unfolding can_decode
can_decode-past sd h = ground arith

can_decode-more :
    (sd : SerialData) → sd.read_bit_pos + 6 < length sd.buffer * 8 → can_decode sd ≡ true
unfolding can_decode
can_decode-more sd h = ground arith

-- With fewer than seven bits left there is no further round.
can_decode-length :
    (sd : SerialData) (z : ℕ) → length sd.buffer * 8 ≡ sd.read_bit_pos + z → can_decode sd ≡ ltb 6 z
unfolding can_decode
can_decode-length sd z h = ground arith

no_target : target 0 ≡ none
unfolding target
no_target = refl

seven_zeros : zeros 7 ≡ to_bits 6 0 ++ 0 ∷ []
unfolding to_bits
seven_zeros = refl

-- Seven zeros are read as the key 0, at the first place where the stream has positions.
parse_leftover :
    (sd : SerialData) (has_pos : Bool) (front : List ℕ)
    → All IsByte sd.buffer
    → has_positional_data sd ≡ done has_pos
    → bits sd.buffer ≡ front ++ zeros 7
    → length front ≡ sd.read_bit_pos
    → length sd.buffer * 8 ≡ sd.read_bit_pos + 7
    → (read : ℕ) × (parse_meta_data sd ≡ done (0, first_place, record sd { read_bit_pos = read }))
      × (length sd.buffer * 8 < read + 7)
unfolding parse_meta_data parse_position
parse_leftover sd true front hv hs e hp hl =
    let at : ℕ = sd.read_bit_pos in
    let one = read_bits_past sd 8 (omega arith) (omega arith) (omega arith) in
    let two =
      read_bits_past (record sd { read_bit_pos = at + 8 }) 6 (omega arith) (omega arith)
        (omega arith) in
    (at + 8 + 6, rw (hs, one) (rw two refl), omega arith)
parse_leftover sd false front hv hs e hp hl =
    let one =
      read_bits_lem sd 6 0 front (0 ∷ []) hv (e ∙ ap (◌++◌ front) seven_zeros) hp (omega arith)
        (omega arith) (omega arith) in
    (sd.read_bit_pos + 6, rw hs (rw one refl), omega arith)

module _ (fl : Floats) where
  -- The call for seven bits left over: a point of the key 0, of no such name, with the value 0.
  abbrev pub leftover_call : Option ℕ → PositionData → Call fl
  leftover_call msg position =
      callback fl msg
        (record { name = generate_field_name 0 position; value = fl.of_uint 0; error = none })

  unfoldable pub leftover : Option ℕ → Bool → ℕ → PositionData → List (Call fl)
  leftover msg has_pos z position =
      if z == 7 then leftover_call msg (if has_pos then first_place else position) ∷ [] else []

  -- The calls for points followed by `z` zeros.
  unfoldable pub calls_of : Option ℕ → Bool → ℕ → List Item → PositionData → List (Call fl)
  calls_of msg has_pos z [] position = leftover msg has_pos z position
  calls_of msg has_pos z (i ∷ is) position =
      let at = if has_pos then parse_position i.byte else position in
      callback fl msg (decoded_of fl i.key at (stored_value fl i.key i.pointer i.field))
      ∷ calls_of msg has_pos z is (record at { id = at.id + 1 })

  decode_loop_stop :
      (fuel : ℕ) (msg : Option ℕ) (has_pos : Bool) (position : PositionData) (sd : SerialData)
      → can_decode sd ≡ false
      → decode_loop fl (suc fuel) msg has_pos position sd ≡ done (some [])
  unfolding decode_loop
  decode_loop_stop fuel msg has_pos position sd stop = rw (stop, decode_loop) refl

  decode_loop_step :
      (fuel : ℕ) (msg : Option ℕ) (has_pos : Bool) (position position' : PositionData)
      (sd sd' : SerialData) (call : Call fl) (calls : List (Call fl))
      → can_decode sd ≡ true
      → decode_round fl msg has_pos position sd ≡ done (call, position', sd')
      → decode_loop fl fuel msg has_pos position' sd' ≡ done (some calls)
      → decode_loop fl (suc fuel) msg has_pos position sd ≡ done (some (call ∷ calls))
  unfolding decode_loop
  decode_loop_step fuel msg has_pos position position' sd sd' call calls more round rest =
      rw (more, decode_loop) (rw round (rw rest refl))

  -- The round for seven bits left over.
  leftover_round :
      (msg : Option ℕ) (has_pos : Bool) (position : PositionData) (sd : SerialData) (read : ℕ)
      → parse_meta_data sd ≡ done (0, first_place, record sd { read_bit_pos = read })
      → (next : PositionData) × (decode_round fl msg has_pos position sd
          ≡ done (
            leftover_call msg (if has_pos then first_place else position),
            next,
            record sd { read_bit_pos = read },
          ))
  unfolding decode_round decode_point_rubix decode_target
  leftover_round msg has_pos position sd read meta =
      let at : PositionData = if has_pos then first_place else position in
      (record at { id = at.id + 1 }, rw meta (rw no_target refl))

  decode_leftover :
      (fuel z : ℕ) (msg : Option ℕ) (has_pos : Bool) (position : PositionData) (sd : SerialData)
      (front : List ℕ)
      → All IsByte sd.buffer
      → has_positional_data sd ≡ done has_pos
      → bits sd.buffer ≡ front ++ zeros z
      → length front ≡ sd.read_bit_pos
      → length sd.buffer * 8 ≡ sd.read_bit_pos + z
      → z < 8
      → z < fuel
      → decode_loop fl fuel msg has_pos position sd ≡ done (some (leftover msg has_pos z position))
  unfolding leftover
  decode_leftover zero z msg has_pos position sd front hv hs e hp hl hz hf = absurd (omega arith)
  decode_leftover (suc zero) z msg has_pos position sd front hv hs e hp hl hz hf =
      let short : (z == 7) ≡ false = ground arith in
      rw short (
        decode_loop_stop 0 msg has_pos position sd
          (can_decode-length sd z hl ∙ le→ltb 6 z (omega arith)))
  decode_leftover (suc (suc fuel)) z msg has_pos position sd front hv hs e hp hl hz hf =
      elim (Bool-cases (z == 7)) [
        | inr short ↦ rw short (
            decode_loop_stop (suc fuel) msg has_pos position sd
              (can_decode-length sd z hl ∙ le→ltb 6 z (ground arith)))
        | inl full ↦
            let seven : z ≡ 7 = ground arith in
            let more : can_decode sd ≡ true =
              can_decode-length sd z hl ∙ lt→ltb 6 z (omega arith) in
            let (read, meta, past) =
              parse_leftover sd has_pos front hv hs (rw seven at e) hp (rw seven at hl) in
            let (next, round) = leftover_round msg has_pos position sd read meta in
            rw full (
              decode_loop_step (suc fuel) msg has_pos position next sd
                (record sd { read_bit_pos = read }) _ [] more round
                (decode_loop_stop fuel msg has_pos next (record sd { read_bit_pos = read })
                  (can_decode-past (record sd { read_bit_pos = read }) past)))
      ]

  -- The loop reads every point back, in order, and ends; fuel for every bit is enough.
  pub decode_items :
      (items : List Item) (fuel z : ℕ) (msg : Option ℕ) (has_pos : Bool) (position : PositionData)
      (sd : SerialData) (front : List ℕ)
      → All IsItem items
      → All IsByte sd.buffer
      → has_positional_data sd ≡ done has_pos
      → bits sd.buffer ≡ front ++ (items_bits has_pos items ++ zeros z)
      → length front ≡ sd.read_bit_pos
      → z < 8
      → length sd.buffer * 8 < fuel + sd.read_bit_pos
      → decode_loop fl fuel msg has_pos position sd
        ≡ done (some (calls_of msg has_pos z items position))
  unfolding items_bits calls_of
  decode_items [] fuel z msg has_pos position sd front hi hv hs e hp hz hf =
      let total : length sd.buffer * 8 ≡ sd.read_bit_pos + z = omega (
        arith,
        ap length e,
        length-bits sd.buffer,
        length-append front (zeros z),
        length-replicate {A = ℕ} z 0,
      ) in
      decode_leftover fuel z msg has_pos position sd front hv hs e hp total hz (omega arith)
  decode_items (i ∷ is) zero z msg has_pos position sd front hi hv hs e hp hz hf = absurd (
      omega (
        arith,
        ap length e,
        length-bits sd.buffer,
        length-append front (items_bits has_pos (i ∷ is) ++ zeros z),
      ))
  decode_items (i ∷ is) (suc fuel) z msg has_pos position sd front hi hv hs e hp hz hf =
      let own : List ℕ = item_bits has_pos i in
      let others : List ℕ = items_bits has_pos is ++ zeros z in
      let at : PositionData = if has_pos then parse_position i.byte else position in
      let after : SerialData = record sd { read_bit_pos = sd.read_bit_pos + length own } in
      let regroup : bits sd.buffer ≡ front ++ (own ++ others) =
        e ∙ ap (◌++◌ front) (append_assoc own (items_bits has_pos is) (zeros z)) in
      let round =
        decode_round_lem fl msg has_pos position sd i.key i.byte i.field i.pointer front others hv
          hs regroup hp hi.0.small_key hi.0.byte_position hi.0.readable hi.0.fits in
      let total : length sd.buffer * 8 ≡ sd.read_bit_pos + length own + length others = omega (
        arith,
        ap length regroup,
        length-bits sd.buffer,
        length-append front (own ++ others),
        length-append own others,
      ) in
      let rest =
        decode_items is fuel z msg has_pos (record at { id = at.id + 1 }) after (front ++ own) hi.1
          hv (same_settings sd _ ∙ hs) (regroup ∙ sym (append_assoc front own others))
          (omega (arith, length-append front own)) hz (omega (arith, item_bits_least has_pos i)) in
      decode_loop_step fuel msg has_pos position _ sd after _ _
        (can_decode-more sd (omega (arith, item_bits_least has_pos i))) round rest
