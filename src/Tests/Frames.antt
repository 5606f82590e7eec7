-- ===== src/Tests/Frames.antt =====
-- The theorems on frames and on the dispatch, applied.
use module_core_loraraw.Prelude.{
  ℕ, ◌-◌, ◌<◌, ◌≡◌, refl, arith, All, List, [], ◌∷◌, ◌++◌, none, some, true, take, drop, replicate,
  if◌then◌else◌,
}
use mathlib.Core.Logic.{◌↔◌}
use module_core_loraraw.Prelude.Go.{done, panic}
use module_core_loraraw.Bits.{IsByte}
use module_core_loraraw.Prelude.Text.{codes}
use module_core_loraraw.Frame.Layout.{check_payload_length, strip_payload}
use module_core_loraraw.Frame.Hex.{decode_string, hex_value}
use module_core_loraraw.Frame.Cipher.{encrypt}
use module_core_loraraw.Frame.Packet.{
  try_decrypt_packet, get_opts, get_nonce, build_unencrypted_raw_frame, is_encryption_shaped,
}
use module_core_loraraw.Frame.Safety.{probe, try_decrypt_packet-probe}
use module_core_loraraw.Frame.RoundTrip.{try_decrypt_packet-encrypt}
use module_core_loraraw.Dispatch.{LoRaDeviceDescription, decode_uplink, deliver_loraraw}
use module_core_loraraw.Dispatch.Policy.{taken_as_plaintext, inner, deliver_loraraw-undecryptable}
use module_core_loraraw.Tests.{shift_cipher, shift_cipher-Lawful, whole_floats}
use module_core_loraraw.Dispatch.Rubix.{deliver_rubix, deliver_rubix-panics, is_empty_for}

abbrev key : List ℕ
key = 1 ∷ 2 ∷ []

-- Address 00C0FFEE, options 3, number 7, two bytes of payload, RSSI 60, SNR 4, unencrypted.
abbrev plain_frame : List ℕ
plain_frame = 0 ∷ 192 ∷ 255 ∷ 238 ∷ 3 ∷ 7 ∷ 2 ∷ 50 ∷ 51 ∷ 60 ∷ 4 ∷ []

address_decoded : decode_string (codes "00C0FFEE") ≡ (0 ∷ 192 ∷ 255 ∷ 238 ∷ [], true)
unfolding decode_string hex_value
address_decoded = refl

try_decrypt_packet-encrypt_example :
    (frame : List ℕ) × (decoded : List ℕ) × (encrypt shift_cipher
        (codes "00C0FFEE")
        (50 ∷ 51 ∷ [])
        key
        3
        7
      ≡ done (some frame))
    × (try_decrypt_packet shift_cipher (frame ++ 60 ∷ 4 ∷ []) key ≡ done (some decoded))
    × (check_payload_length decoded ≡ done true)
    × (strip_payload decoded ≡ done (50 ∷ 51 ∷ []))
    × (get_opts decoded ≡ done 3)
    × (get_nonce decoded ≡ done 7)
    × (build_unencrypted_raw_frame decoded (frame ++ 60 ∷ 4 ∷ []) ≡ done (some plain_frame))
try_decrypt_packet-encrypt_example =
    try_decrypt_packet-encrypt shift_cipher shift_cipher-Lawful (codes "00C0FFEE") (50 ∷ 51 ∷ [])
      key 0 192 255 238 3 7 60 4 address_decoded refl (omega arith) (omega arith)

-- As long as a frame with one block.
abbrev block_frame : List ℕ
block_frame = replicate 26 9

try_decrypt_packet-probe_example :
    try_decrypt_packet shift_cipher block_frame key ≡ done (probe shift_cipher block_frame key)
try_decrypt_packet-probe_example =
    try_decrypt_packet-probe shift_cipher block_frame key shift_cipher-Lawful

abbrev open_model : LoRaDeviceDescription
open_model = record {
  device_name = codes "Rubix";
  model = codes "Rubix";
  check_length = λ hex. true;
  has_decode_response = true;
  is_loraraw = true;
  allow_unencrypted = true;
}

not_decrypted : probe shift_cipher plain_frame key ≡ none
unfolding is_encryption_shaped
not_decrypted = refl

deliver_loraraw-undecryptable_example :
    deliver_loraraw shift_cipher open_model [] [] plain_frame key
    ≡ done (
        if taken_as_plaintext open_model plain_frame
        then some (decode_uplink [] (take (inner plain_frame) (drop 7 plain_frame)) ∷ [], [])
        else none)
deliver_loraraw-undecryptable_example =
    deliver_loraraw-undecryptable shift_cipher open_model [] [] plain_frame key shift_cipher-Lawful
      not_decrypted

-- The same frame with no payload.
abbrev empty_frame : List ℕ
empty_frame = 0 ∷ 192 ∷ 255 ∷ 238 ∷ 0 ∷ 7 ∷ 0 ∷ 60 ∷ 4 ∷ []

shift_cipher-bytes :
    (k text : List ℕ) → All IsByte text → All IsByte (shift_cipher.cbc_decrypt k text)
shift_cipher-bytes k [] h = tt
shift_cipher-bytes k (b ∷ bs) h =
    let lower : b - 1 < 256 = omega (arith, h.0) in (lower, shift_cipher-bytes k bs h.1)

deliver_rubix-panics_example :
    (deliver_rubix whole_floats shift_cipher open_model [] [] empty_frame key ≡ panic)
    ↔ (is_empty_for whole_floats shift_cipher open_model empty_frame key ≡ true)
deliver_rubix-panics_example =
    deliver_rubix-panics whole_floats shift_cipher open_model [] [] empty_frame key
      shift_cipher-Lawful shift_cipher-bytes refl (omega arith)
