-- ===== src/Frame/Safety.antt =====
-- Decrypt of aesutils/aesutils.go behind the guards of tryDecryptLoRaRAWPkt in pkg/app.go.
use module_core_loraraw.Prelude.{
  ℕ, zero, suc, ◌-◌, ◌%◌, ◌≤◌, ◌<◌, ◌≡◌, refl, ap, ◌∙◌, arith, true, false, ◌&&◌, List, [], ◌∷◌,
  ◌++◌, Option, none, some, length, take, drop, length-append, length-take, length-drop, ltb, ◌==◌,
  if◌then◌else◌, Bool-cases, inl, inr, le→ltb,
}
use module_core_loraraw.Prelude.Go.{done}
use module_core_loraraw.Prelude.Text.{text_eq}
use module_core_loraraw.Frame.Layout.{slice}
use module_core_loraraw.Frame.Cipher.{Crypto, Lawful, prepare_cmac, open_frame, decrypt}
use module_core_loraraw.Frame.Packet.{is_encryption_shaped, decrypt_packet, try_decrypt_packet}

pub slice_lem :
    (bytes : List ℕ) (from to : ℕ)
    → from ≤ to
    → to ≤ length bytes
    → slice bytes from to ≡ done (take (to - from) (drop from bytes))
slice_lem bytes from to h h' = rw (le→ltb (length bytes) to h', le→ltb to from h) refl

pub take-append_short : (n : ℕ) (xs ys : List ℕ) → n ≤ length xs → take n (xs ++ ys) ≡ take n xs
take-append_short zero xs ys h = refl
take-append_short (suc n) [] ys h = absurd (omega arith)
take-append_short (suc n) (x ∷ xs) ys h = ap (◌∷◌ x) (take-append_short n xs ys (omega arith))

pub take_all : (n : ℕ) (xs : List ℕ) → length xs ≤ n → take n xs ≡ xs
take_all zero [] h = refl
take_all zero (x ∷ xs) h = absurd (omega arith)
take_all (suc n) [] h = refl
take_all (suc n) (x ∷ xs) h = ap (◌∷◌ x) (take_all n xs (omega arith))

module _ (c : Crypto) where
  -- The CMAC of a slice of at least a block: its first block goes in twice but for the address.
  abbrev pub mac_of : List ℕ → List ℕ → List ℕ
  mac_of key bytes = take 4 (c.cmac_sum key (take 16 bytes ++ drop 4 bytes))

  pub prepare_cmac_lem :
      (bytes following key : List ℕ)
      → Lawful c
      → c.new_cipher key ≡ true
      → 16 ≤ length bytes
      → prepare_cmac c bytes following key ≡ done (some (mac_of key bytes))
  unfolding prepare_cmac
  prepare_cmac_lem bytes following key l valid h =
      let front : slice (bytes ++ following) 0 16 ≡ done (take 16 bytes) =
        slice_lem (bytes ++ following) 0 16 (omega arith)
          (omega (arith, length-append bytes following))
        ∙ ap done (take-append_short 16 bytes following h) in
      let rest : slice bytes 4 (length bytes) ≡ done (drop 4 bytes) =
        slice_lem bytes 4 (length bytes) (omega arith) (omega arith)
        ∙ ap done
            (take_all (length bytes - 4) (drop 4 bytes) (omega (arith, length-drop 4 bytes))) in
      let sum : List ℕ = c.cmac_sum key (take 16 bytes ++ drop 4 bytes) in
      let mac =
        slice_lem sum 0 4 (omega arith)
          (omega (arith, l.length_sum key (take 16 bytes ++ drop 4 bytes))) in
      rw (valid, front) (rw rest (rw mac refl))

  -- The frame that Decrypt gives back.
  abbrev pub opened : List ℕ → List ℕ → List ℕ
  opened key bytes =
      (take 4 bytes ++ c.cbc_decrypt key (take (length bytes - 8) (drop 4 bytes)))
      ++ drop (length bytes - 4) bytes

  pub decrypt_lem :
      (bytes following key : List ℕ)
      → Lawful c
      → 24 ≤ length bytes
      → (length bytes - 8) % 16 ≡ 0
      → c.new_cipher key ≡ true
      → decrypt c bytes following key
        ≡ done (
            if text_eq (drop (length bytes - 4) bytes) (mac_of key (take (length bytes - 4) bytes))
            then some (opened key bytes)
            else none)
  unfolding decrypt open_frame
  decrypt_lem bytes following key l long whole valid =
      let n : ℕ = length bytes - 4 in
      let cm : List ℕ = drop n bytes in
      let mac : List ℕ = mac_of key (take n bytes) in
      let enough : ltb (length bytes) 4 ≡ false = le→ltb (length bytes) 4 (omega arith) in
      let expected =
        prepare_cmac_lem (take n bytes) (cm ++ following) key l valid
          (omega (arith, length-take n bytes)) in
      let body : slice bytes 4 n ≡ done (take (length bytes - 8) (drop 4 bytes)) =
        slice_lem bytes 4 n (omega arith) (omega arith)
        ∙ ap (λ (k : ℕ). done (take k (drop 4 bytes))) (omega arith) in
      let blocks : (length (take (length bytes - 8) (drop 4 bytes)) % 16 == 0) ≡ true =
        let size : length (take (length bytes - 8) (drop 4 bytes)) ≡ length bytes - 8 =
          omega (arith, length-take (length bytes - 8) (drop 4 bytes), length-drop 4 bytes) in
        rw (size, whole) refl in
      let address = slice_lem bytes 0 4 (omega arith) (omega arith) in
      rw enough (
        rw expected (elim (Bool-cases (text_eq cm mac)) [
          | inl same ↦ rw (same, valid) (rw body (rw blocks (rw address refl)))
          | inr other ↦ rw other refl
        ]))

  decrypt_invalid_key :
      (bytes following key : List ℕ)
      → 4 ≤ length bytes
      → c.new_cipher key ≡ false
      → decrypt c bytes following key ≡ done none
  unfolding decrypt open_frame prepare_cmac
  decrypt_invalid_key bytes following key h invalid =
      let enough : ltb (length bytes) 4 ≡ false = le→ltb (length bytes) 4 h in
      rw (enough, invalid) refl

  shaped_length :
      (frame : List ℕ)
      → is_encryption_shaped frame ≡ true
      → (26 ≤ length frame) × ((length frame - 10) % 16 ≡ 0)
  unfolding is_encryption_shaped
  shaped_length frame h =
      let long : 10 < length frame = ground arith in
      let whole : (length frame - 10) % 16 ≡ 0 = ground arith in (omega arith, whole)

  -- What tryDecryptLoRaRAWPkt does with a frame, as one equation.
  abbrev pub probe : List ℕ → List ℕ → Option (List ℕ)
  probe frame key =
      let bytes = take (length frame - 2) frame in
      if is_encryption_shaped frame
        && c.new_cipher key
        && text_eq (drop (length bytes - 4) bytes) (mac_of key (take (length bytes - 4) bytes))
      then some (opened key bytes)
      else none

  -- tryDecryptLoRaRAWPkt never panics, whatever the frame and the key: it gives an error, unless the
  -- frame less RSSI and SNR has whole blocks between address and CMAC, the key is accepted and the
  -- CMAC is that of the bytes before it; then it gives the address, the plaintext and the CMAC.
  pub try_decrypt_packet-probe :
      (frame key : List ℕ) → Lawful c → try_decrypt_packet c frame key ≡ done (probe frame key)
  unfolding try_decrypt_packet decrypt_packet
  try_decrypt_packet-probe frame key l = elim (Bool-cases (is_encryption_shaped frame)) [
    | inr other ↦ rw other refl
    | inl shaped ↦
        let (long, whole) = shaped_length frame shaped in
        let n : ℕ = length frame - 2 in
        let bytes : List ℕ = take n frame in
        let size : length bytes ≡ n = omega (arith, length-take n frame) in
        let enough : ltb (length frame) 2 ≡ false = le→ltb (length frame) 2 (omega arith) in
        elim (Bool-cases (c.new_cipher key)) [
          | inr invalid ↦
              rw (shaped, enough, invalid)
                (decrypt_invalid_key bytes (drop n frame) key (omega arith) invalid)
          | inl valid ↦
              rw (shaped, enough, valid)
                (decrypt_lem bytes (drop n frame) key l (omega arith) (rw size (omega arith)) valid)
        ]
  ]
