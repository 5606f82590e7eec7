-- ===== src/Rubix/RoundTrip/Request.antt =====
-- EncodeRequestMessage (encoder.go) and DecodeRubix (decoder.go) together.
use module_core_loraraw.Prelude.{
  ℕ, ◌-◌, ◌*◌, ◌%◌, ◌≡◌, refl, sym, ap, ◌∙◌, arith, List, [], ◌∷◌, ◌++◌, append_assoc, append-nil,
  All, length, length-append, length-replicate, true, Option, some, ◌==◌,
}
use module_core_loraraw.Prelude.Int.{ℤ}
use module_core_loraraw.Prelude.Go.{done}
use module_core_loraraw.Prelude.Decimal.{atoi}
use module_core_loraraw.Bits.{to_bits, bits, bor, zeros}
use module_core_loraraw.Bits.Split.{length-to_bits}
use module_core_loraraw.Bits.Bytes.{length-bits}
use module_core_loraraw.Rubix.Serial.{SerialData, new_serial_data_with_buffer}
use module_core_loraraw.Rubix.MetaData.{get_meta_data}
use module_core_loraraw.Rubix.Floats.{Floats}
use module_core_loraraw.Rubix.Widths.{width, width-IsWidth}
use module_core_loraraw.Rubix.Fields.{ok, get_position}
use module_core_loraraw.Rubix.Encoder.{encode_data, data_bits}
use module_core_loraraw.Rubix.Encoder.Append.{Holds, pad}
use module_core_loraraw.Rubix.Encoder.Point.{put_point-Appended, has_positional_data-bits}
use module_core_loraraw.Rubix.Request.{
  WritePoint, key_of, typed_value, encoded, put_request, encode_point, encode_points,
  encode_request_message,
}
use module_core_loraraw.Rubix.Points.{decode_rubix}
use module_core_loraraw.Rubix.RoundTrip.Message.{
  Item, IsItem, item_bits, items_bits, calls_of, decode_items,
}

-- The zeros that fill the last byte of so many bits.
abbrev pub padding : ℕ → ℕ
padding n = (8 - n % 8) % 8

module _ (fl : Floats) where
  -- The request's point, parsed and converted, is the stream's item.
  pub record Carries (point : WritePoint fl) (i : Item) : Type 0 where
    pub value : fl.F64
    pub number : ℤ
    pub has_value : point.write_value ≡ some value
    pub has_type : atoi point.data_type ≡ some number
    pub has_key : key_of number ≡ i.key
    pub has_position : get_position point.io_number ≡ ok i.byte
    pub accepted :
        data_bits fl (typed_value fl i.key value) (get_meta_data i.key)
        ≡ some (i.field, width (get_meta_data i.key))

  abbrev pub CarriesAll : List (WritePoint fl) → List Item → Type 0
  CarriesAll [] [] = Unit {0}
  CarriesAll (p ∷ ps) (i ∷ is) = Carries p i × CarriesAll ps is
  CarriesAll _ _ = ⊥

  encode_point-Appended :
      (point : WritePoint fl) (i : Item) (sd : SerialData) (s : ℕ) (u : List ℕ)
      → Carries point i
      → IsItem i
      → Holds sd (to_bits 8 s ++ u)
      → (after : SerialData) × (encode_point fl sd point ≡ done (encoded after))
        × Holds after (to_bits 8 s ++ (u ++ item_bits (s % 2 == 1) i))
  unfolding encode_point put_request encode_data
  encode_point-Appended point i sd s u c hi h =
      let (positive, narrow) = width-IsWidth i.key in
      let put =
        put_point-Appended sd s u i.key i.byte i.field (width (get_meta_data i.key)) h
          hi.byte_position positive narrow in
      let place : put_request fl sd c.value i.key (ok i.byte) ≡ done (encoded put.after) =
        rw (put_request, encode_data, c.accepted) (rw put.returns refl) in
      (
        put.after,
        rw (encode_point, c.has_value, c.has_type, c.has_position)
            (ap (λ (k : ℕ). put_request fl sd c.value k (ok i.byte)) c.has_key ∙ place),
        put.holds,
      )

  encode_points_lem :
      (points : List (WritePoint fl)) (items : List Item) (sd : SerialData) (s : ℕ) (u : List ℕ)
      → CarriesAll points items
      → All IsItem items
      → Holds sd (to_bits 8 s ++ u)
      → (after : SerialData) × (encode_points fl sd points ≡ done (encoded after.buffer))
        × Holds after (to_bits 8 s ++ (u ++ items_bits (s % 2 == 1) items))
  unfolding encode_points items_bits
  encode_points_lem [] [] sd s u hc hi h = (sd, refl, rw (sym (append-nil u)) at h)
  encode_points_lem [] (i ∷ is) sd s u hc hi h = absurd hc
  encode_points_lem (p ∷ ps) [] sd s u hc hi h = absurd hc
  encode_points_lem (p ∷ ps) (i ∷ is) sd s u hc hi h =
      let (mid, e, hm) = encode_point-Appended p i sd s u hc.0 hi.0 h in
      let (after, e', ha) =
        encode_points_lem ps is mid s (u ++ item_bits (s % 2 == 1) i) hc.1 hi.1 hm in
      (
        after,
        rw e e',
        rw (append_assoc u (item_bits (s % 2 == 1) i) (items_bits (s % 2 == 1) is)) at ha,
      )

  -- The settings byte with positions on.
  start-Holds :
      Holds (record { buffer = 1 ∷ []; read_bit_pos = 8; write_bit_pos = 8 }) (to_bits 8 1 ++ [])
  unfolding bits to_bits
  start-Holds = record {
    stream = refl;
    in_range = omega arith;
    bytes = (omega arith, tt);
    nonempty = omega arith;
  }

  decode_stream :
      (msg : Option ℕ) (items : List Item) (after : SerialData)
      → All IsItem items
      → Holds after (to_bits 8 1 ++ items_bits true items)
      → decode_rubix fl msg after.buffer
        ≡ done (
            some (
              calls_of fl msg true
                (padding (length (items_bits true items)))
                items
                (record { id = 0; type = 0 })))
  unfolding decode_rubix new_serial_data_with_buffer
  decode_stream msg items after hi h =
      let body : List ℕ = items_bits true items in
      let z : ℕ = pad after.write_bit_pos in
      let sd : SerialData = new_serial_data_with_buffer after.buffer in
      let stream : bits after.buffer ≡ to_bits 8 1 ++ (body ++ zeros z) =
        h.stream ∙ append_assoc (to_bits 8 1) body (zeros z) in
      let settings = has_positional_data-bits sd 1 (body ++ zeros z) h.nonempty stream in
      let filled : z ≡ padding (length body) = omega (
        arith,
        ap length stream,
        length-bits after.buffer,
        length-append (to_bits 8 1) (body ++ zeros z),
        length-append body (zeros z),
        length-to_bits 8 1,
        length-replicate {A = ℕ} z 0,
      ) in
      rw settings (
        decode_items fl items (length after.buffer * 8) z msg true _ sd (to_bits 8 1) hi h.bytes
          settings stream (length-to_bits 8 1) (omega arith) (omega arith)
        ∙ ap (λ (t : ℕ). done (some (calls_of fl msg true t items (record { id = 0; type = 0 }))))
            filled)

  -- A write request whose points carry readable items is encoded without a panic or an error, and
  -- DecodeRubix makes from it one call for each point, in order, with the position, the key and the
  -- data bits of that point; one call for the key 0 follows where seven bits of the last byte are left over.
  pub decode_rubix-encode_request_message :
      (msg : Option ℕ) (points : List (WritePoint fl)) (items : List Item)
      → CarriesAll points items
      → All IsItem items
      → (buffer : List ℕ) × (encode_request_message fl points ≡ done (encoded buffer))
        × (decode_rubix fl msg buffer
            ≡ done (
                some (
                  calls_of fl msg true
                    (padding (length (items_bits true items)))
                    items
                    (record { id = 0; type = 0 }))))
  unfolding encode_request_message bor
  decode_rubix-encode_request_message msg points items hc hi =
      let (after, e, h) = encode_points_lem points items _ 1 [] hc hi start-Holds in
      (after.buffer, e, decode_stream msg items after hi h)
