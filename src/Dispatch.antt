-- ===== src/Dispatch.antt =====
-- pkg/app.go: from a frame in hex to the device's decoder; codec/codecDefinitions.go: the choice of the decoder.
-- A decoder and the radio are reached by a list of effects; their own work is not done here.
pub mod Table
pub mod Policy
pub mod Rubix
use module_core_loraraw.Prelude.{
  ℕ, zero, suc, ◌+◌, ◌-◌, Bool, true, false, not, ◌&&◌, List, [], ◌∷◌, ◌++◌, Option, none, some,
  length, leb, ltb, ◌==◌, if◌then◌else◌,
}
use module_core_loraraw.Prelude.Int.{ℤ}
use module_core_loraraw.Prelude.Go.{Go, done, panic, ◌>>=◌}
use module_core_loraraw.Prelude.Text.{text_eq}
use module_core_loraraw.Frame.Layout.{
  check_payload_length, strip_payload, byte_at, slice, nonce_position, header_len,
  opts_unconfirmed_uplink, opts_confirmed_uplink, opts_response,
}
use module_core_loraraw.Frame.Hex.{decode_string, encode_to_string, to_upper}
use module_core_loraraw.Frame.Trailer.{valid_payload, decode_address_hex, decode_rssi, decode_snr}
use module_core_loraraw.Frame.Cipher.{Crypto}
use module_core_loraraw.Frame.Packet.{
  is_unencrypted_loraraw, build_unencrypted_raw_frame, is_encryption_shaped, get_opts, get_nonce,
  try_decrypt_packet, try_legacy_decrypt, create_ack,
}

-- The fields of model.Device that are read here.
pub record Device : Type 0 where
  pub model : List ℕ
  -- the key in hex, where there is one
  pub manufacture : List ℕ

-- The functions of a description stand for themselves, except that DecodeResponse may be nil.
pub record LoRaDeviceDescription : Type 0 where
  pub device_name : List ℕ
  pub model : List ℕ
  pub check_length : List ℕ → Bool
  pub has_decode_response : Bool
  pub is_loraraw : Bool
  pub allow_unencrypted : Bool

-- `none` is NilLoRaDeviceDescription. strings.EqualFold on ASCII texts.
unfoldable pub get_device_description :
    Device → List LoRaDeviceDescription → Option LoRaDeviceDescription
get_device_description device [] = none
get_device_description device (d ∷ ds) =
    let later = get_device_description device ds in
    if text_eq (to_upper device.model) (to_upper d.model) then some d else later

pub data Effect : Type 0 where
  -- the frame in hex and the payload
  decode_uplink : List ℕ → List ℕ → Effect
  -- the frame in hex, the payload and the message id
  decode_response : List ℕ → List ℕ → ℕ → Effect
  write_to_loraraw : List ℕ → Effect

unfoldable pub handle_legacy_device : LoRaDeviceDescription → List ℕ → List ℕ → List Effect
handle_legacy_device desc hex bytes =
    if desc.check_length hex then decode_uplink hex bytes ∷ [] else []

unfoldable pub get_encryption_key : List ℕ → Device → Option (List ℕ)
get_encryption_key default_key device =
    let hex = if length device.manufacture == 0 then default_key else device.manufacture in
    let (key, decoded) = decode_string hex in if decoded then some key else none

pub record DispatchResult : Type 0 where
  pub address : List ℕ
  pub device : Device
  pub data_hex : List ℕ
  pub publish_raw_hex : List ℕ
  pub rssi : ℤ
  pub snr : ℤ
  pub legacy_device : Bool

-- What is known of a frame once its device was looked for.
pub record Received : Type 0 where
  pub address : List ℕ
  pub found : Option Device
  pub data_hex : List ℕ
  pub publish_raw_hex : List ℕ
  pub legacy : Bool

-- A nil DecodeResponse panics.
unfoldable pub respond : LoRaDeviceDescription → List ℕ → List ℕ → List ℕ → Go (List Effect)
respond desc hex bytes payload =
    if leb (length bytes) nonce_position
    then done []
    else (byte_at bytes nonce_position >>= λ id.
        if desc.has_decode_response then done (decode_response hex payload id ∷ []) else panic)

-- A frame taken as plaintext: the effects and the hex to publish, or `none` where it is dropped.
unfoldable pub plaintext :
    LoRaDeviceDescription → List ℕ → List ℕ → List ℕ → Go (Option (List Effect × List ℕ))
plaintext desc hex publish frame =
    if not (desc.allow_unencrypted && not (is_encryption_shaped frame))
    then done none
    else (is_unencrypted_loraraw frame >>= λ plain.
        if not plain
        then done none
        else (strip_payload frame >>= λ payload.
            done (some (decode_uplink hex payload ∷ [], publish))))

module _ (c : Crypto) where
  unfoldable pub handle_confirmed_opt : List ℕ → List ℕ → Go (List Effect)
  handle_confirmed_opt bytes key =
      if ltb (length bytes) header_len
      then done []
      else (slice bytes 0 header_len >>= λ address. get_nonce bytes >>= λ nonce.
          create_ack c address key nonce >>= λ ack. done (write_to_loraraw ack ∷ []))

  unfoldable pub handle_opts :
      LoRaDeviceDescription → List ℕ → List ℕ → List ℕ → List ℕ → ℕ → Go (List Effect)
  handle_opts desc hex bytes key payload opts =
      if opts == opts_unconfirmed_uplink
      then done (decode_uplink hex payload ∷ [])
      else if opts == opts_confirmed_uplink
      then (handle_confirmed_opt bytes key >>= λ acks.
          done (acks ++ decode_uplink hex payload ∷ []))
      else if opts == opts_response
      then respond desc hex bytes payload
      else done []

  unfoldable pub handle_loraraw_device :
      LoRaDeviceDescription → List ℕ → List ℕ → List ℕ → Go (List Effect)
  handle_loraraw_device desc hex bytes key = check_payload_length bytes >>= λ fits.
      if not fits
      then done []
      else (strip_payload bytes >>= λ payload.
          get_opts bytes >>= λ opts. handle_opts desc hex bytes key payload opts)

  -- The LoRaRAW branch: the effects and the hex to publish, or `none` where the frame is dropped.
  unfoldable pub deliver_loraraw :
      LoRaDeviceDescription → List ℕ → List ℕ → List ℕ → List ℕ → Go (Option (List Effect × List ℕ))
  deliver_loraraw desc hex publish frame key = try_decrypt_packet c frame key >>= λ decoded.
      elim decoded [
        | none ↦ plaintext desc hex publish frame
        | some bytes ↦
            (build_unencrypted_raw_frame bytes frame >>= λ rebuilt.
            handle_loraraw_device desc hex bytes key >>= λ effects. done (
              some (
                effects,
                elim rebuilt [
                  | none ↦ publish
                  | some pub_bytes ↦ to_upper (encode_to_string pub_bytes)
                ],
              )))
      ]

  unfoldable pub deliver :
      List ℕ
      → LoRaDeviceDescription
      → Device
      → Received
      → List ℕ
      → Go (Option (List Effect × List ℕ))
  deliver default_key desc device r original =
      if r.legacy
      then done (
          some
            (handle_legacy_device desc r.data_hex (decode_string r.data_hex).0, r.publish_raw_hex))
      else if desc.is_loraraw
      then elim (get_encryption_key default_key device) [
        | none ↦ done none
        | some key ↦ deliver_loraraw desc r.data_hex r.publish_raw_hex original key
      ]
      else done (some (handle_legacy_device desc r.data_hex original, r.publish_raw_hex))

  -- The lookup, with the default key where the address is unknown.
  unfoldable pub receive :
      List ℕ → (List ℕ → Option Device) → List ℕ → List ℕ → List ℕ → Go Received
  receive default_key get_device hex address original = elim (get_device address) [
    | some d ↦ done (record {
      address = address;
      found = some d;
      data_hex = hex;
      publish_raw_hex = to_upper hex;
      legacy = false;
    })
    | none ↦ try_legacy_decrypt c default_key address original >>= λ found. elim found [
      | none ↦ done (record {
        address = address;
        found = none;
        data_hex = hex;
        publish_raw_hex = to_upper hex;
        legacy = false;
      })
      | some (addr2, hex2) ↦ done (record {
        address = addr2;
        found = get_device addr2;
        data_hex = hex2;
        publish_raw_hex = to_upper hex2;
        legacy = true;
      })
    ]
  ]

  -- RSSI, SNR, device and description, each of which may be missing, and the delivery.
  unfoldable pub dispatch_received :
      List LoRaDeviceDescription
      → List ℕ
      → Received
      → List ℕ
      → Go (List Effect × Option DispatchResult)
  dispatch_received table default_key r original = elim (decode_rssi r.data_hex) [
    | none ↦ done ([], none)
    | some rssi ↦ elim (decode_snr r.data_hex) [
      | none ↦ done ([], none)
      | some snr ↦ elim r.found [
        | none ↦ done ([], none)
        | some device ↦ elim (get_device_description device table) [
          | none ↦ done ([], none)
          | some desc ↦ deliver default_key desc device r original >>= λ sent. elim sent [
            | none ↦ done ([], none)
            | some (effects, publish) ↦ done (
              effects,
              some (record {
                address = r.address;
                device = device;
                data_hex = r.data_hex;
                publish_raw_hex = publish;
                rssi = rssi;
                snr = snr;
                legacy_device = r.legacy;
              }),
            )
          ]
        ]
      ]
    ]
  ]

  -- dispatchFrame; `none` is a result that is not OK.
  unfoldable pub dispatch_frame :
      List LoRaDeviceDescription
      → List ℕ
      → (List ℕ → Option Device)
      → List ℕ
      → Go (List Effect × Option DispatchResult)
  dispatch_frame table default_key get_device hex =
      if not (valid_payload hex) then done ([], none) else elim (decode_address_hex hex) [
        | none ↦ done ([], none)
        | some address ↦
            let original = (decode_string hex).0 in
            receive default_key get_device hex address original >>= λ r.
            dispatch_received table default_key r original
      ]
