-- ===== src/Frame/RoundTrip.antt =====
-- Encrypt of aesutils/aesutils.go together with the reading of a received frame in pkg/app.go.
use mathlib.Core.Path.{ap₂}
use module_core_loraraw.Prelude.{
  ℕ, ◌+◌, ◌-◌, ◌%◌, ◌≤◌, ◌<◌, ◌≡◌, refl, sym, ap, ◌∙◌, arith, Bool, true, false, List, [], ◌∷◌,
  ◌++◌, append_assoc, append-nil, some, length, take, drop, length-append, length-take,
  length-replicate, take-append_exact, drop-append_exact, replicate, ltb, leb, ◌==◌, Bool-cases,
  inl, inr, le→ltb,
}
use module_core_loraraw.Prelude.Go.{done}
use module_core_loraraw.Prelude.Text.{text_eq, text_eq_refl}
use module_core_loraraw.Bits.{u8}
use module_core_loraraw.Frame.Layout.{check_payload_length, strip_payload, inner_payload_length}
use module_core_loraraw.Frame.Hex.{decode_string}
use module_core_loraraw.Frame.Cipher.{Crypto, Lawful, block_pad, seal, encrypt}
use module_core_loraraw.Frame.Packet.{
  is_encryption_shaped, try_decrypt_packet, get_opts, get_nonce, build_unencrypted_raw_frame,
}
use module_core_loraraw.Frame.Safety.{
  slice_lem, mac_of, probe, prepare_cmac_lem, try_decrypt_packet-probe,
}

-- The padding makes whole blocks.
block_pad_lem :
    (c : Crypto) (text : List ℕ)
    → 0 < length text
    → (k : ℕ) × (block_pad c text ≡ text ++ replicate k 0)
      × (length (block_pad c text) % 16 ≡ 0)
      × (16 ≤ length (block_pad c text))
block_pad_lem c text h = elim (Bool-cases (length text % 16 == 0)) [
  | inl whole ↦
      let even : length text % 16 ≡ 0 = ground arith in
      rw whole (0, sym (append-nil text), even, omega arith)
  | inr partial ↦
      let odd : 0 < length text % 16 = ground arith in
      let k : ℕ = 16 - length text % 16 in
      let size : length (text ++ replicate k 0) ≡ length text + k =
        omega (arith, length-append text (replicate k 0), length-replicate {A = ℕ} k 0) in
      rw partial (k, refl, rw size (omega arith), omega arith)
]

-- Reading a decrypted frame whose payload is followed by padding and a CMAC.
read_fields :
    (a0 a1 a2 a3 opts nonce rssi snr : ℕ) (payload tail frame : List ℕ)
    → 2 ≤ length tail
    → let decoded = a0 ∷ a1 ∷ a2 ∷ a3 ∷ opts ∷ nonce ∷ length payload ∷ (payload ++ tail) in
      (check_payload_length decoded ≡ done true)
      × (strip_payload decoded ≡ done payload)
      × (get_opts decoded ≡ done opts)
      × (get_nonce decoded ≡ done nonce)
      × (build_unencrypted_raw_frame decoded (frame ++ rssi ∷ snr ∷ [])
          ≡ done (
              some
                (a0 ∷ a1 ∷ a2 ∷ a3 ∷ opts ∷ nonce ∷ length payload ∷ (payload ++ rssi ∷ snr ∷ []))))
unfolding check_payload_length strip_payload inner_payload_length get_opts get_nonce
    build_unencrypted_raw_frame
read_fields a0 a1 a2 a3 opts nonce rssi snr payload tail frame long =
    let header : List ℕ = a0 ∷ a1 ∷ a2 ∷ a3 ∷ opts ∷ nonce ∷ length payload ∷ [] in
    let decoded : List ℕ = header ++ (payload ++ tail) in
    let air : List ℕ = frame ++ rssi ∷ snr ∷ [] in
    let n : ℕ = length payload in
    let size : length decoded ≡ 7 + n + length tail = omega (arith, length-append payload tail) in
    let air_size : length air ≡ length frame + 2 =
      omega (arith, length-append frame (rssi ∷ snr ∷ [])) in
    let fits : leb (n + 9) (length decoded) ≡ true = ground arith in
    let has_opts : leb (length decoded) 4 ≡ false = ground arith in
    let has_nonce : leb (length decoded) 5 ≡ false = ground arith in
    let front : take (7 + n) decoded ≡ header ++ payload =
      take-append_exact (header ++ payload) tail (7 + n) (omega arith) in
    let trailer : drop (length air - 2) air ≡ rssi ∷ snr ∷ [] =
      drop-append_exact frame (rssi ∷ snr ∷ []) (length air - 2) (omega arith) in
    let air_long : ltb (length air) 2 ≡ false = le→ltb (length air) 2 (omega arith) in
    let header_long : ltb (length decoded) 7 ≡ false = le→ltb (length decoded) 7 (omega arith) in
    let whole : ltb (length decoded) (7 + n) ≡ false =
      le→ltb (length decoded) (7 + n) (omega arith) in
    let exact : 7 + n - 7 ≡ n = omega arith in
    (
      ap done fits,
      slice_lem decoded 7 (7 + n) (omega arith) (omega arith)
          ∙ ap (λ (k : ℕ). done (take k (payload ++ tail))) exact
          ∙ ap done (take-append_exact payload tail n refl),
      rw has_opts refl,
      rw has_nonce refl,
      rw (air_long, header_long)
          (rw whole (ap₂ (λ (x y : List ℕ). done (some (x ++ y))) front trailer)),
    )

module _ (c : Crypto) (l : Lawful c) where
  seal_lem :
      (a encrypted key : List ℕ)
      → length a ≡ 4
      → 16 ≤ length encrypted
      → c.new_cipher key ≡ true
      → seal c a encrypted key ≡ done (some ((a ++ encrypted) ++ mac_of c key (a ++ encrypted)))
  unfolding seal
  seal_lem a encrypted key size long valid =
      rw
        (prepare_cmac_lem c (a ++ encrypted) [] key l valid
          (omega (arith, length-append a encrypted)))
        refl

  -- The frame that Encrypt makes from the bytes of the address.
  encrypt_lem :
      (address payload key a : List ℕ) (opts nonce : ℕ)
      → decode_string address ≡ (a, true)
      → length a ≡ 4
      → c.new_cipher key ≡ true
      → let body =
          a ++ c.cbc_encrypt key (block_pad c (u8 opts ∷ nonce ∷ u8 (length payload) ∷ payload)) in
        encrypt c address payload key opts nonce ≡ done (some (body ++ mac_of c key body))
  unfolding encrypt
  encrypt_lem address payload key a opts nonce ha size valid =
      let text : List ℕ = u8 opts ∷ nonce ∷ u8 (length payload) ∷ payload in
      let (k, shape, whole, long) = block_pad_lem c text (omega arith) in
      let encrypted : List ℕ = c.cbc_encrypt key (block_pad c text) in
      let blocks : (length (block_pad c text) % 16 == 0) ≡ true = rw whole refl in
      let bytes : (decode_string address).0 ≡ a = ap (λ (r : List ℕ × Bool). r.0) ha in
      let decoded : (decode_string address).1 ≡ true = ap (λ (r : List ℕ × Bool). r.1) ha in
      rw (valid, blocks, decoded, bytes)
        (seal_lem a encrypted key size (omega (arith, l.length_encrypt key (block_pad c text)))
          valid)

  -- What the probe makes of it.
  probe_lem :
      (a padded key : List ℕ) (rssi snr : ℕ)
      → length a ≡ 4
      → length padded % 16 ≡ 0
      → 16 ≤ length padded
      → c.new_cipher key ≡ true
      → let body = a ++ c.cbc_encrypt key padded in
        probe c ((body ++ mac_of c key body) ++ rssi ∷ snr ∷ []) key
        ≡ some ((a ++ padded) ++ mac_of c key body)
  unfolding is_encryption_shaped
  probe_lem a padded key rssi snr size whole long valid =
      let encrypted : List ℕ = c.cbc_encrypt key padded in
      let body : List ℕ = a ++ encrypted in
      let mac : List ℕ = mac_of c key body in
      let frame : List ℕ = body ++ mac in
      let air : List ℕ = frame ++ rssi ∷ snr ∷ [] in
      let mac_size : length mac ≡ 4 = omega (
        arith,
        length-take 4 (c.cmac_sum key (take 16 body ++ drop 4 body)),
        l.length_sum key (take 16 body ++ drop 4 body),
      ) in
      let body_size : length body ≡ 4 + length padded =
        omega (arith, length-append a encrypted, l.length_encrypt key padded) in
      let frame_size : length frame ≡ 8 + length padded = omega (arith, length-append body mac) in
      let air_size : length air ≡ 10 + length padded =
        omega (arith, length-append frame (rssi ∷ snr ∷ [])) in
      let shaped : is_encryption_shaped air ≡ true = rw air_size (ground arith) in
      let bytes : take (length air - 2) air ≡ frame =
        take-append_exact frame (rssi ∷ snr ∷ []) (length air - 2) (omega arith) in
      let front : take (length frame - 4) frame ≡ body =
        take-append_exact body mac (length frame - 4) (omega arith) in
      let back : drop (length frame - 4) frame ≡ mac =
        drop-append_exact body mac (length frame - 4) (omega arith) in
      let address : take 4 frame ≡ a =
        ap (take 4) (append_assoc a encrypted mac)
        ∙ take-append_exact a (encrypted ++ mac) 4 (omega arith) in
      let cipher : take (length frame - 8) (drop 4 frame) ≡ encrypted =
        ap (λ (t : List ℕ). take (length frame - 8) (drop 4 t)) (append_assoc a encrypted mac)
        ∙ ap (take (length frame - 8)) (drop-append_exact a (encrypted ++ mac) 4 (omega arith))
        ∙ take-append_exact encrypted mac (length frame - 8)
            (omega (arith, l.length_encrypt key padded)) in
      let plain : c.cbc_decrypt key encrypted ≡ padded = l.decrypt_encrypt key padded valid whole in
      let same : text_eq mac mac ≡ true = text_eq_refl mac in
      rw (shaped, valid)
        (rw bytes (rw front (rw back (rw (same, address) (rw cipher (rw plain refl))))))

  -- A frame that Encrypt makes for an address of four bytes, an accepted key and a payload shorter
  -- than 256, received with RSSI and SNR, is decrypted; the decrypted frame passes the length check
  -- and gives back the payload, the options and the nonce; and the frame republished without the
  -- key is the header, the payload and the received RSSI and SNR.
  pub try_decrypt_packet-encrypt :
      (address payload key : List ℕ) (a0 a1 a2 a3 opts nonce rssi snr : ℕ)
      → decode_string address ≡ (a0 ∷ a1 ∷ a2 ∷ a3 ∷ [], true)
      → c.new_cipher key ≡ true
      → length payload < 256
      → opts < 256
      → (frame : List ℕ) × (decoded : List ℕ) × (encrypt c address payload key opts nonce
          ≡ done (some frame))
        × (try_decrypt_packet c (frame ++ rssi ∷ snr ∷ []) key ≡ done (some decoded))
        × (check_payload_length decoded ≡ done true)
        × (strip_payload decoded ≡ done payload)
        × (get_opts decoded ≡ done opts)
        × (get_nonce decoded ≡ done nonce)
        × (build_unencrypted_raw_frame decoded (frame ++ rssi ∷ snr ∷ [])
            ≡ done (
                some (
                  a0
                  ∷ a1
                  ∷ a2
                  ∷ a3
                  ∷ opts
                  ∷ nonce
                  ∷ length payload
                  ∷ (payload ++ rssi ∷ snr ∷ []))))
  try_decrypt_packet-encrypt address payload key a0 a1 a2 a3 opts nonce rssi snr ha valid short ho =
      let a : List ℕ = a0 ∷ a1 ∷ a2 ∷ a3 ∷ [] in
      let text : List ℕ = u8 opts ∷ nonce ∷ u8 (length payload) ∷ payload in
      let (k, shape, whole, long) = block_pad_lem c text (omega arith) in
      let body : List ℕ = a ++ c.cbc_encrypt key (block_pad c text) in
      let frame : List ℕ = body ++ mac_of c key body in
      let tail : List ℕ = replicate k 0 ++ mac_of c key body in
      let decoded : List ℕ =
        a0 ∷ a1 ∷ a2 ∷ a3 ∷ opts ∷ nonce ∷ length payload ∷ (payload ++ tail) in
      let small : u8 (length payload) ≡ length payload = omega arith in
      let same : u8 opts ≡ opts = omega arith in
      let layout : (a ++ block_pad c text) ++ mac_of c key body ≡ decoded =
        append_assoc a (block_pad c text) (mac_of c key body)
        ∙ ap (λ (t : List ℕ). a ++ (t ++ mac_of c key body)) shape
        ∙ ap (◌++◌ a) (append_assoc text (replicate k 0) (mac_of c key body))
        ∙ ap₂ (λ (o n : ℕ). a0 ∷ a1 ∷ a2 ∷ a3 ∷ o ∷ nonce ∷ n ∷ (payload ++ tail)) same small in
      let mac_size : 2 ≤ length tail = omega (
        arith,
        length-append (replicate k 0) (mac_of c key body),
        length-take 4 (c.cmac_sum key (take 16 body ++ drop 4 body)),
        l.length_sum key (take 16 body ++ drop 4 body),
      ) in
      let (fits, stripped, options, number, rebuilt) =
        read_fields a0 a1 a2 a3 opts nonce rssi snr payload tail frame mac_size in
      (
        frame,
        decoded,
        encrypt_lem address payload key a opts nonce ha refl valid,
        try_decrypt_packet-probe c (frame ++ rssi ∷ snr ∷ []) key l
            ∙ ap done (
                probe_lem a (block_pad c text) key rssi snr refl whole long valid ∙ ap some layout),
        fits,
        stripped,
        options,
        number,
        rebuilt,
      )
