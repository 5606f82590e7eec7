-- ===== src/Dispatch/Policy.antt =====
-- The LoRaRAW branch of dispatchFrame in pkg/app.go: which frames it takes, and its guards against panics.
use module_core_loraraw.Prelude.{
  ℕ, zero, suc, ◌+◌, ◌-◌, ◌%◌, ◌^◌, ◌≤◌, ◌<◌, ◌≡◌, refl, ap, ◌∙◌, arith, Bool, true, false, not,
  ◌&&◌, ◌⊎◌, List, [], ◌∷◌, ◌++◌, none, some, Bool-cases, inl, inr, length, length-append,
  length-take, length-drop, take, drop, get_or, leb, ltb, ◌==◌, if◌then◌else◌, le→ltb, ltb→le,
}
use module_core_loraraw.Prelude.Go.{done, Returns}
use module_core_loraraw.Prelude.Text.{text_eq}
use module_core_loraraw.Frame.Layout.{
  inner_payload_length, check_payload_length, strip_payload, byte_at, slice,
}
use module_core_loraraw.Frame.Cipher.{Crypto, Lawful, cmac_unencrypted}
use module_core_loraraw.Frame.Packet.{
  is_unencrypted_loraraw, build_unencrypted_raw_frame, is_encryption_shaped, get_opts, get_nonce,
  create_ack,
}
use module_core_loraraw.Frame.Safety.{slice_lem, probe, opened, mac_of, try_decrypt_packet-probe}
use module_core_loraraw.Dispatch.{
  LoRaDeviceDescription, Effect, decode_uplink, decode_response, write_to_loraraw,
  handle_confirmed_opt, respond, handle_opts, handle_loraraw_device, plaintext, deliver_loraraw,
}

pub byte_at_lem :
    (bytes : List ℕ) (i : ℕ) → i < length bytes → byte_at bytes i ≡ done (get_or bytes i 0)
byte_at_lem [] i h = absurd (omega arith)
byte_at_lem (b ∷ bs) zero h = refl
byte_at_lem (b ∷ bs) (suc i) h = byte_at_lem bs i (omega arith)

-- The length byte of a frame, and the payload that it bounds.
abbrev pub inner : List ℕ → ℕ
inner frame = get_or frame 6 0

-- A model that takes plaintext gets it from a frame that is not shaped like a ciphertext and has
-- exactly the length of its layout.
abbrev pub taken_as_plaintext : LoRaDeviceDescription → List ℕ → Bool
taken_as_plaintext desc frame =
    desc.allow_unencrypted
    && not (is_encryption_shaped frame)
    && leb 9 (length frame)
    && length frame == 9 + inner frame

plaintext_lem :
    (desc : LoRaDeviceDescription) (hex publish frame : List ℕ)
    → plaintext desc hex publish frame
      ≡ done (
          if taken_as_plaintext desc frame
          then some (decode_uplink hex (take (inner frame) (drop 7 frame)) ∷ [], publish)
          else none)
unfolding plaintext is_unencrypted_loraraw strip_payload inner_payload_length
plaintext_lem desc hex publish frame =
    elim (Bool-cases (desc.allow_unencrypted && not (is_encryption_shaped frame))) [
      | inr refused ↦ rw refused refl
      | inl allowed ↦ elim (Bool-cases (ltb (length frame) 9)) [
        | inl short ↦
            let long : leb 9 (length frame) ≡ false = ground arith in rw (allowed, short, long) refl
        | inr enough ↦
            let long : leb 9 (length frame) ≡ true = ground arith in
            let at : byte_at frame 6 ≡ done (inner frame) =
              byte_at_lem frame 6 (omega (arith, ltb→le _ _ enough)) in
            let sum : 7 + inner frame + 2 ≡ 9 + inner frame = omega arith in
            elim (Bool-cases (length frame == 9 + inner frame)) [
              | inr other ↦ rw (allowed, enough, long, at, sum, other) refl
              | inl exact ↦
                  let e : length frame ≡ 9 + inner frame = ground arith in
                  let cut : slice frame 7 (7 + inner frame)
                      ≡ done (take (inner frame) (drop 7 frame)) =
                    slice_lem frame 7 (7 + inner frame) (omega arith) (omega arith)
                    ∙ ap (λ (k : ℕ). done (take k (drop 7 frame))) (omega arith) in
                  rw (allowed, enough, long, at, sum, exact) (rw cut refl)
            ]
      ]
    ]

-- The options for which a frame is decoded.
abbrev pub is_known_opts : ℕ → Bool
is_known_opts opts = if opts == 0 then true else if opts == 1 then true else opts == 4

-- One decoder gets the payload, after an ACK where one is asked for.
pub data Decodes (payload : List ℕ) : List Effect → Type 0 where
  uplink : (hex : List ℕ) → Decodes payload (decode_uplink hex payload ∷ [])
  acknowledged :
      (ack hex : List ℕ) → Decodes payload (write_to_loraraw ack ∷ decode_uplink hex payload ∷ [])
  answered : (hex : List ℕ) (id : ℕ) → Decodes payload (decode_response hex payload id ∷ [])

-- What the options of a frame ask for: one decoder, or nothing.
abbrev pub Handled : List ℕ → Bool → List Effect → Type 0
Handled payload asked effects =
    ((asked ≡ true) × Decodes payload effects) ⊎ ((asked ≡ false) × (effects ≡ []))

-- Whether a decrypted frame reaches a decoder.
abbrev pub reaches : List ℕ → Bool
reaches bytes = leb (inner bytes + 9) (length bytes) && is_known_opts (get_or bytes 4 0)

module _ (c : Crypto) where
  -- A LoRaRAW frame that does not decrypt with the device's key is decoded only as plaintext, and only
  -- where the model allows that, the frame is not shaped like a ciphertext and its length is the one
  -- that its length byte asks for: then its payload goes to the model's decoder, once, and the frame is
  -- published as it came. Any other such frame is dropped, so an encryption-only model drops them all.
  pub deliver_loraraw-undecryptable :
      (desc : LoRaDeviceDescription) (hex publish frame key : List ℕ)
      → Lawful c
      → probe c frame key ≡ none
      → deliver_loraraw c desc hex publish frame key
        ≡ done (
            if taken_as_plaintext desc frame
            then some (decode_uplink hex (take (inner frame) (drop 7 frame)) ∷ [], publish)
            else none)
  unfolding deliver_loraraw
  deliver_loraraw-undecryptable desc hex publish frame key l h =
      rw (try_decrypt_packet-probe c frame key l, h) (plaintext_lem desc hex publish frame)

  -- A decrypted frame is as long as the frame between address and RSSI was.
  pub probe-length :
      (frame key decoded : List ℕ)
      → Lawful c
      → probe c frame key ≡ some decoded
      → 24 ≤ length decoded
  unfolding is_encryption_shaped
  probe-length frame key decoded l h =
      let bytes : List ℕ = take (length frame - 2) frame in
      let n : ℕ = length bytes in
      let good : Bool =
        c.new_cipher key && text_eq (drop (n - 4) bytes) (mac_of c key (take (n - 4) bytes)) in
      elim (Bool-cases (is_encryption_shaped frame)) [
        | inr other ↦ let refused : none ≡ some decoded = rw other at h in cc
        | inl shaped ↦ elim (Bool-cases good) [
          | inr other ↦ let refused : none ≡ some decoded = rw (shaped, other) at h in cc
          | inl accepted ↦
              let same : some (opened c key bytes) ≡ some decoded = rw (shaped, accepted) at h in
              let e : opened c key bytes ≡ decoded = cc in
              let body : List ℕ = take (n - 8) (drop 4 bytes) in
              let size : n ≡ length frame - 2 =
                omega (arith, length-take (length frame - 2) frame) in
              let long : 10 < length frame = ground arith in
              let whole : (length frame - 10) % 16 ≡ 0 = ground arith in
              omega (
                arith,
                ap length e,
                length-append (take 4 bytes ++ c.cbc_decrypt key body) (drop (n - 4) bytes),
                length-append (take 4 bytes) (c.cbc_decrypt key body),
                l.length_decrypt key body,
                length-take (n - 8) (drop 4 bytes),
                length-drop 4 bytes,
                length-take 4 bytes,
                length-drop (n - 4) bytes,
              )
        ]
      ]

  create_ack-Returns :
      (address key : List ℕ) (nonce : ℕ) → Lawful c → Returns (create_ack c address key nonce)
  unfolding create_ack cmac_unencrypted
  create_ack-Returns address key nonce l = elim (Bool-cases (c.new_cipher key)) [
    | inr invalid ↦ ([], rw invalid refl)
    | inl valid ↦
        let full : List ℕ = address ++ 2 ∷ nonce % 2 ^ 8 ∷ [] in
        let cut =
          slice_lem (c.cmac_sum key full) 0 4 (omega arith)
            (omega (arith, l.length_sum key full)) in
        (full ++ take 4 (c.cmac_sum key full), rw (valid, cut) refl)
  ]

  pub handle_opts_lem :
      (desc : LoRaDeviceDescription) (hex bytes key payload : List ℕ) (opts : ℕ)
      → Lawful c
      → desc.has_decode_response ≡ true
      → 6 ≤ length bytes
      → (effects : List Effect) × (handle_opts c desc hex bytes key payload opts ≡ done effects)
        × Handled payload (is_known_opts opts) effects
  unfolding handle_opts handle_confirmed_opt respond get_nonce
  handle_opts_lem desc hex bytes key payload opts l able long =
      let nonce : byte_at bytes 5 ≡ done (get_or bytes 5 0) = byte_at_lem bytes 5 (omega arith) in
      let has_nonce : leb (length bytes) 5 ≡ false = ground arith in
      let has_address : ltb (length bytes) 4 ≡ false = le→ltb (length bytes) 4 (omega arith) in
      let (ack, acked) = create_ack-Returns (take 4 bytes) key (get_or bytes 5 0) l in
      elim (Bool-cases (opts == 0)) [
        | inl plain ↦
            (decode_uplink hex payload ∷ [], rw plain refl, inl (rw plain refl, uplink hex))
        | inr other ↦ elim (Bool-cases (opts == 1)) [
          | inl confirmed ↦ (
            write_to_loraraw ack ∷ decode_uplink hex payload ∷ [],
            rw (other, confirmed, has_address) (rw (has_nonce, nonce) (rw acked refl)),
            inl (rw (other, confirmed) refl, acknowledged ack hex),
          )
          | inr other' ↦ elim (Bool-cases (opts == 4)) [
            | inl answer ↦ (
              decode_response hex payload (get_or bytes 5 0) ∷ [],
              rw (other, other', answer, has_nonce, nonce, able) refl,
              inl (rw (other, other', answer) refl, answered hex (get_or bytes 5 0)),
            )
            | inr unknown ↦
                ([], rw (other, other', unknown) refl, inr (rw (other, other', unknown) refl, refl))
          ]
        ]
      ]

  pub handle_loraraw_device_lem :
      (desc : LoRaDeviceDescription) (hex bytes key : List ℕ)
      → Lawful c
      → desc.has_decode_response ≡ true
      → 7 ≤ length bytes
      → (effects : List Effect) × (handle_loraraw_device c desc hex bytes key ≡ done effects)
        × Handled (take (inner bytes) (drop 7 bytes)) (reaches bytes) effects
  unfolding handle_loraraw_device check_payload_length strip_payload inner_payload_length get_opts
  handle_loraraw_device_lem desc hex bytes key l able long =
      let at : byte_at bytes 6 ≡ done (inner bytes) = byte_at_lem bytes 6 (omega arith) in
      elim (Bool-cases (leb (inner bytes + 9) (length bytes))) [
        | inr other ↦ ([], rw (at, other) refl, inr (rw other refl, refl))
        | inl fits ↦
            let room : inner bytes + 9 ≤ length bytes = ground arith in
            let cut : slice bytes 7 (7 + inner bytes) ≡ done (take (inner bytes) (drop 7 bytes)) =
              slice_lem bytes 7 (7 + inner bytes) (omega arith) (omega arith)
              ∙ ap (λ (k : ℕ). done (take k (drop 7 bytes))) (omega arith) in
            let has_opts : leb (length bytes) 4 ≡ false = ground arith in
            let opts = byte_at_lem bytes 4 (omega arith) in
            let (effects, e, handled) =
              handle_opts_lem desc hex bytes key (take (inner bytes) (drop 7 bytes))
                (get_or bytes 4 0) l able (omega arith) in
            (effects, rw (at, fits) (rw cut (rw (has_opts, opts) e)), rw fits handled)
      ]

  pub build_unencrypted_raw_frame-Returns :
      (decoded original : List ℕ) → Returns (build_unencrypted_raw_frame decoded original)
  unfolding build_unencrypted_raw_frame inner_payload_length
  build_unencrypted_raw_frame-Returns decoded original =
      elim (Bool-cases (ltb (length original) 2)) [
        | inl short ↦ (none, rw short refl)
        | inr enough ↦ elim (Bool-cases (ltb (length decoded) 7)) [
          | inl short ↦ (none, rw (enough, short) refl)
          | inr header ↦
              let at : byte_at decoded 6 ≡ done (inner decoded) =
                byte_at_lem decoded 6 (omega (arith, ltb→le _ _ header)) in
              elim (Bool-cases (ltb (length decoded) (7 + inner decoded))) [
                | inl short ↦ (none, rw (enough, header, at, short) refl)
                | inr whole ↦ (
                  some (take (7 + inner decoded) decoded ++ drop (length original - 2) original),
                  rw (enough, header, at, whole) refl,
                )
              ]
        ]
      ]
