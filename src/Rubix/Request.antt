-- ===== src/Rubix/Request.antt =====
-- codecs/rubixDataEncoding/encoder.go: EncodeRequestMessage, the payload of a write request.
use module_core_loraraw.Prelude.{
  ℕ, ◌-◌, ◌^◌, true, List, [], ◌∷◌, Option, none, some, if◌then◌else◌, ◌==◌,
}
use module_core_loraraw.Prelude.Int.{ℤ, pos, negsuc}
use module_core_loraraw.Prelude.Go.{Go, done, ◌>>=◌}
use module_core_loraraw.Prelude.Decimal.{atoi}
use module_core_loraraw.Rubix.Serial.{SerialData, new_serial_data, set_positional_data}
use module_core_loraraw.Rubix.MetaData.{
  mdk_char, mdk_uint_8, mdk_int_8, mdk_uint_16, mdk_int_16, mdk_uint_32, mdk_int_32, mdk_uint_64,
  mdk_int_64, mdk_float,
}
use module_core_loraraw.Rubix.Floats.{Floats}
use module_core_loraraw.Rubix.Fields.{FieldError, Field, ok, err, get_position}
use module_core_loraraw.Rubix.Encoder.{GoValue, float64, float32, integer, encode_data}

pub data RequestError : Type 0 where
  nil_value bad_data_type : RequestError
  bad_position : FieldError → RequestError

pub data Request {ℓ} (A : Type ℓ) : Type ℓ where
  encoded : A → Request A
  refused : RequestError → Request A

-- MetaDataKey of an `int`, as its pattern.
abbrev pub key_of : ℤ → ℕ
key_of (pos n) = n
key_of (negsuc n) = 2 ^ 64 - 1 - n

module _ (fl : Floats) where
  open fl use {F64, narrow, to_uint, to_int}

  -- The fields of model.Point that a write request reads.
  pub record WritePoint : Type 0 where
    pub write_value : Option F64
    pub data_type : List ℕ
    pub io_number : List ℕ

  -- The conversion that the key's branch makes; MDK_DOUBLE and all other keys keep the float64.
  unfoldable pub typed_value : ℕ → F64 → GoValue fl
  typed_value key x =
      if key == mdk_uint_8
      then integer 1 (to_uint 8 x)
      else if key == mdk_uint_16
      then integer 2 (to_uint 16 x)
      else if key == mdk_uint_32
      then integer 4 (to_uint 32 x)
      else if key == mdk_uint_64
      then integer 8 (to_uint 64 x)
      else if key == mdk_int_8
      then integer 1 (to_int 8 x)
      else if key == mdk_int_16
      then integer 2 (to_int 16 x)
      else if key == mdk_int_32
      then integer 4 (to_int 32 x)
      else if key == mdk_int_64
      then integer 8 (to_int 64 x)
      else if key == mdk_char
      then integer 1 (to_uint 8 x)
      else if key == mdk_float
      then float32 (narrow x)
      else float64 x

  -- EncodeData for a parsed position; its Boolean result is dropped.
  unfoldable pub put_request : SerialData → F64 → ℕ → Field ℕ → Go (Request SerialData)
  put_request sd x key (err e) = done (refused (bad_position e))
  put_request sd x key (ok position) = do
    (sd', accepted) ← encode_data fl sd (typed_value key x) key position
    done (encoded sd')

  -- The body of the loop.
  unfoldable pub encode_point : SerialData → WritePoint → Go (Request SerialData)
  unfolding atoi get_position put_request
  encode_point sd point = elim point.write_value [
    | none ↦ done (refused nil_value)
    | some x ↦ elim (atoi point.data_type) [
      | none ↦ done (refused bad_data_type)
      | some n ↦ put_request sd x (key_of n) (get_position point.io_number)
    ]
  ]

  unfoldable pub encode_points : SerialData → List WritePoint → Go (Request (List ℕ))
  encode_points sd [] = done (encoded sd.buffer)
  encode_points sd (point ∷ points) = encode_point sd point >>= λ r. elim r [
    | refused e ↦ done (refused e)
    | encoded sd' ↦ encode_points sd' points
  ]

  unfoldable pub encode_request_message : List WritePoint → Go (Request (List ℕ))
  unfolding new_serial_data set_positional_data
  encode_request_message points = do
    sd ← set_positional_data new_serial_data true
    encode_points sd points
