-- ===== src/Frame/Packet.antt =====
-- The frame functions of pkg/app.go.
use module_core_loraraw.Prelude.{
  ℕ, ◌+◌, ◌-◌, ◌%◌, Bool, false, not, ◌&&◌, List, [], ◌∷◌, ◌++◌, Option, none, some, length, take,
  drop, ltb, leb, ◌==◌, if◌then◌else◌,
}
use module_core_loraraw.Prelude.Go.{Go, done, ◌>>=◌}
use module_core_loraraw.Prelude.Text.{text_eq}
use module_core_loraraw.Bits.{u8}
use module_core_loraraw.Frame.Layout.{
  inner_payload_length, byte_at, opts_position, nonce_position, payload_start, header_len, opts_ack,
}
use module_core_loraraw.Frame.Hex.{decode_string, encode_to_string, to_upper}
use module_core_loraraw.Frame.Trailer.{decode_address_bytes}
use module_core_loraraw.Frame.Cipher.{
  Crypto, block_size, cmac_len, decrypt, decrypt_legacy, cmac_unencrypted,
}

unfoldable pub is_unencrypted_loraraw : List ℕ → Go Bool
unfolding inner_payload_length
is_unencrypted_loraraw bytes =
    if ltb (length bytes) (payload_start + 2)
    then done false
    else (inner_payload_length bytes >>= λ inner. done (length bytes == payload_start + inner + 2))

-- The last two bytes of the frame on the air, in place of the CMAC and the padding.
unfoldable pub build_unencrypted_raw_frame : List ℕ → List ℕ → Go (Option (List ℕ))
unfolding inner_payload_length
build_unencrypted_raw_frame decoded original =
    if ltb (length original) 2
    then done none
    else if ltb (length decoded) payload_start
    then done none
    else (inner_payload_length decoded >>= λ inner.
        if ltb (length decoded) (payload_start + inner)
        then done none
        else done
            (some (take (payload_start + inner) decoded ++ drop (length original - 2) original)))

-- `inner > 0 && inner % 16 == 0` for the integer `len - 10`.
unfoldable pub is_encryption_shaped : List ℕ → Bool
is_encryption_shaped bytes =
    ltb (2 + header_len + cmac_len) (length bytes)
    && (length bytes - (2 + header_len + cmac_len)) % block_size == 0

-- 0 where the frame is too short.
unfoldable pub get_opts : List ℕ → Go ℕ
get_opts bytes = if leb (length bytes) opts_position then done 0 else byte_at bytes opts_position

unfoldable pub get_nonce : List ℕ → Go ℕ
get_nonce bytes = if leb (length bytes) nonce_position then done 0 else byte_at bytes nonce_position

module _ (c : Crypto) where
  unfoldable pub decrypt_packet : List ℕ → List ℕ → Go (Option (List ℕ))
  decrypt_packet bytes key =
      if ltb (length bytes) 2
      then done none
      else (let n = length bytes - 2 in decrypt c (take n bytes) (drop n bytes) key)

  unfoldable pub try_decrypt_packet : List ℕ → List ℕ → Go (Option (List ℕ))
  try_decrypt_packet bytes key =
      if not (is_encryption_shaped bytes) then done none else decrypt_packet bytes key

  unfoldable pub decrypt_legacy_packet : List ℕ → List ℕ → Go (Option (List ℕ))
  decrypt_legacy_packet bytes key =
      if ltb (length bytes) 2
      then done none
      else decrypt_legacy c (take (length bytes - 2) bytes) key

  -- The address and the frame in hex, where the default key changes the address.
  unfoldable pub legacy_result : List ℕ → List ℕ → List ℕ → Option (List ℕ × List ℕ)
  legacy_result address original plain = elim (decode_address_bytes plain) [
    | none ↦ none
    | some found ↦
        let addr2 = to_upper found in
        if text_eq addr2 address
        then none
        else some (
          addr2,
          encode_to_string (
              plain
              ++ (if leb 2 (length original) then drop (length original - 2) original else [])),
        )
  ]

  unfoldable pub try_legacy_decrypt : List ℕ → List ℕ → List ℕ → Go (Option (List ℕ × List ℕ))
  try_legacy_decrypt default_key address original =
      let (key, decoded) = decode_string default_key in
      if not decoded
      then done none
      else (decrypt_legacy_packet original key >>= λ plain. elim plain [
        | none ↦ done none
        | some bytes ↦ done (legacy_result address original bytes)
      ])

  -- nil where the CMAC fails.
  unfoldable pub create_ack : List ℕ → List ℕ → ℕ → Go (List ℕ)
  create_ack address key nonce =
      let full = address ++ u8 opts_ack ∷ u8 nonce ∷ [] in
      cmac_unencrypted c full key >>= λ mac. elim mac [ none ↦ done [] | some m ↦ done (full ++ m) ]
