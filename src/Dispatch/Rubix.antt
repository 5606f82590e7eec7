-- ===== src/Dispatch/Rubix.antt =====
-- pkg/app.go: the dispatch of a frame to DecodeRubixUplink and DecodeRubixResponse of codecs/rubixDataEncoding/decoder.go.
use mathlib.Core.Logic.{◌↔◌}
use mathlib.Core.Path.{subst}
use module_core_loraraw.Prelude.{
  ℕ, zero, suc, ◌+◌, ◌-◌, ◌≤◌, ◌<◌, ◌≡◌, refl, sym, ap, ◌∙◌, arith, Bool, true, false, ◌&&◌, List,
  [], ◌∷◌, ◌++◌, All, Option, none, some, Option-cases, Bool-cases, inl, inr, length, length-take,
  length-drop, take, drop, leb, ◌==◌, if◌then◌else◌,
}
use module_core_loraraw.Prelude.Go.{Go, done, panic, ◌>>=◌, Returns}
use module_core_loraraw.Prelude.Text.{text_eq}
use module_core_loraraw.Bits.{IsByte}
use module_core_loraraw.Frame.Hex.{encode_to_string, to_upper}
use module_core_loraraw.Frame.Cipher.{Crypto, Lawful}
use module_core_loraraw.Frame.Packet.{is_encryption_shaped}
use module_core_loraraw.Frame.Safety.{probe, opened, mac_of, try_decrypt_packet-probe}
use module_core_loraraw.Rubix.Floats.{Floats}
use module_core_loraraw.Rubix.Points.{Call, decode_rubix}
use module_core_loraraw.Rubix.Points.Total.{decode_rubix_total}
use module_core_loraraw.Rubix.Settings.{decode_rubix_panics, panic≢done}
use module_core_loraraw.Rubix.Encoder.Append.{All-append}
use module_core_loraraw.Dispatch.{
  LoRaDeviceDescription, Effect, decode_uplink, decode_response, write_to_loraraw, deliver_loraraw,
}
use module_core_loraraw.Dispatch.Policy.{
  inner, taken_as_plaintext, deliver_loraraw-undecryptable, probe-length, Decodes, uplink,
  acknowledged, answered, Handled, reaches, handle_loraraw_device_lem,
  build_unencrypted_raw_frame-Returns,
}

All-take : (n : ℕ) (xs : List ℕ) → All IsByte xs → All IsByte (take n xs)
All-take zero xs h = tt
All-take (suc n) [] h = tt
All-take (suc n) (x ∷ xs) h = (h.0, All-take n xs h.1)

All-drop : (n : ℕ) (xs : List ℕ) → All IsByte xs → All IsByte (drop n xs)
All-drop zero xs h = h
All-drop (suc n) [] h = tt
All-drop (suc n) (x ∷ xs) h = All-drop n xs h.1

abbrev pub is_empty_in : LoRaDeviceDescription → List ℕ → Option (List ℕ) → Bool
is_empty_in desc frame none = taken_as_plaintext desc frame && inner frame == 0
is_empty_in desc frame (some decoded) = reaches decoded && inner decoded == 0

-- A panic exactly on the one side.
abbrev PanicsIf : {A : Type 0} → Bool → Go A → Type 0
PanicsIf on m = (on ≡ true → m ≡ panic) × (on ≡ false → Returns m)

PanicsIf-iff : {A : Type 0} (on : Bool) (m : Go A) → PanicsIf on m → (m ≡ panic) ↔ (on ≡ true)
PanicsIf-iff on m (yes_panic, no_panic) = (
  (λ e. elim (Bool-cases on) [
    | inl same ↦ same
    | inr other ↦ let (a, returns) = no_panic other in absurd (panic≢done a (sym returns ∙ e))
  ]),
  yes_panic,
)

payload_size :
    (bytes : List ℕ)
    → 9 + inner bytes ≤ length bytes
    → length (take (inner bytes) (drop 7 bytes)) ≡ inner bytes
payload_size bytes h = omega (arith, length-take (inner bytes) (drop 7 bytes), length-drop 7 bytes)

reaches_size :
    (bytes : List ℕ)
    → (reaches bytes && length (take (inner bytes) (drop 7 bytes)) == 0)
      ≡ (reaches bytes && inner bytes == 0)
reaches_size bytes = elim (Bool-cases (leb (inner bytes + 9) (length bytes))) [
  | inr short ↦ rw short refl
  | inl fits ↦
      let room : 9 + inner bytes ≤ length bytes = ground arith in
      ap (λ (n : ℕ). reaches bytes && n == 0) (payload_size bytes room)
]

module _ (fl : Floats) where
  -- The description's functions are DecodeRubixUplink and DecodeRubixResponse.
  unfoldable pub decode_effect : Effect → Go (Option (List (Call fl)))
  decode_effect (decode_uplink hex payload) = decode_rubix fl none payload
  decode_effect (decode_response hex payload id) = decode_rubix fl (some id) payload
  decode_effect (write_to_loraraw ack) = done (some [])

  unfoldable pub decode_effects : List Effect → Go (List (Option (List (Call fl))))
  decode_effects [] = done []
  decode_effects (e ∷ es) =
      decode_effect e >>= λ calls. decode_effects es >>= λ rest. done (calls ∷ rest)

  -- An empty payload makes the decoder panic, and no other does.
  Outcome : List ℕ → List Effect → Type 0
  Outcome payload effects =
      (payload ≡ [] → decode_effects effects ≡ panic)
      × (0 < length payload → Returns (decode_effects effects))

  decodes-Outcome :
      (payload : List ℕ) (effects : List Effect)
      → All IsByte payload
      → Decodes payload effects
      → Outcome payload effects
  unfolding Outcome decode_effects decode_effect
  decodes-Outcome payload effects h (uplink hex) = (
    (λ e. rw ((decode_rubix_panics fl none payload h).1 e) refl),
    λ n. let (calls, e) = decode_rubix_total fl none payload h n in (some calls ∷ [], rw e refl),
  )
  decodes-Outcome payload effects h (acknowledged ack hex) = (
    (λ e. rw ((decode_rubix_panics fl none payload h).1 e) refl),
    λ n.
        let (calls, e) = decode_rubix_total fl none payload h n in
        (some [] ∷ some calls ∷ [], rw e refl),
  )
  decodes-Outcome payload effects h (answered hex id) = (
    (λ e. rw ((decode_rubix_panics fl (some id) payload h).1 e) refl),
    λ n.
        let (calls, e) = decode_rubix_total fl (some id) payload h n in
        (some calls ∷ [], rw e refl),
  )

  module _ (c : Crypto) where
    -- dispatchFrame's LoRaRAW branch with its decoder: what the decoder calls and the hex to publish, or `none` where the
    -- frame is dropped.
    unfoldable pub deliver_rubix :
        LoRaDeviceDescription
        → List ℕ
        → List ℕ
        → List ℕ
        → List ℕ
        → Go (Option (List (Option (List (Call fl))) × List ℕ))
    deliver_rubix desc hex publish frame key =
        deliver_loraraw c desc hex publish frame key >>= λ sent. elim sent [
          | none ↦ done none
          | some (effects, raw) ↦ decode_effects effects >>= λ calls. done (some (calls, raw))
        ]

    -- The frame that is decoded, decrypted or as it came, has the length byte 0.
    abbrev pub is_empty_for : LoRaDeviceDescription → List ℕ → List ℕ → Bool
    is_empty_for desc frame key = is_empty_in desc frame (probe c frame key)

    probe-bytes :
        (frame key decoded : List ℕ)
        → ((k text : List ℕ) → All IsByte text → All IsByte (c.cbc_decrypt k text))
        → All IsByte frame
        → probe c frame key ≡ some decoded
        → All IsByte decoded
    unfolding is_encryption_shaped
    probe-bytes frame key decoded keeps hb h =
        let bytes : List ℕ = take (length frame - 2) frame in
        let n : ℕ = length bytes in
        let whole : All IsByte bytes = All-take (length frame - 2) frame hb in
        let body : All IsByte (take (n - 8) (drop 4 bytes)) =
          All-take (n - 8) (drop 4 bytes) (All-drop 4 bytes whole) in
        let all : All IsByte (opened c key bytes) =
          All-append IsByte (take 4 bytes ++ c.cbc_decrypt key (take (n - 8) (drop 4 bytes)))
            (drop (n - 4) bytes)
            (All-append IsByte (take 4 bytes) (c.cbc_decrypt key (take (n - 8) (drop 4 bytes)))
              (All-take 4 bytes whole) (keeps key (take (n - 8) (drop 4 bytes)) body))
            (All-drop (n - 4) bytes whole) in
        let good : Bool =
          c.new_cipher key && text_eq (drop (n - 4) bytes) (mac_of c key (take (n - 4) bytes)) in
        elim (Bool-cases (is_encryption_shaped frame)) [
          | inr other ↦ let refused : none ≡ some decoded = rw other at h in cc
          | inl shaped ↦ elim (Bool-cases good) [
            | inr other ↦ let refused : none ≡ some decoded = rw (shaped, other) at h in cc
            | inl accepted ↦
                let same : some (opened c key bytes) ≡ some decoded = rw (shaped, accepted) at h in
                let e : opened c key bytes ≡ decoded = cc in rw e at all
          ]
        ]

    -- What was sent to the decoder, where it is one payload.
    one_payload :
        (desc : LoRaDeviceDescription) (hex publish frame key payload raw : List ℕ) (asked : Bool)
        (effects : List Effect)
        → deliver_loraraw c desc hex publish frame key ≡ done (some (effects, raw))
        → All IsByte payload
        → Handled payload asked effects
        → PanicsIf (asked && length payload == 0) (deliver_rubix desc hex publish frame key)
    unfolding deliver_rubix Outcome decode_effects
    one_payload desc hex publish frame key payload raw asked effects sent hb
          (inr (no_one, nothing)) =
        (
          (λ e. let bad : false ≡ true = rw no_one at e in cc),
          λ e. (some ([], raw), rw (sent, nothing) refl),
        )
    one_payload desc hex publish frame key payload raw asked effects sent hb
          (inl (some_one, decodes)) =
        let (empty, other) = decodes-Outcome payload effects hb decodes in
        (
          (λ e.
              let zero_long : (length payload == 0) ≡ true = rw some_one at e in
              rw sent (rw (empty (nil payload zero_long)) refl)),
          λ e.
              let long : (length payload == 0) ≡ false = rw some_one at e in
              let (calls, returns) = other (ground arith) in
              (some (calls, raw), rw sent (rw returns refl)),
        )
      where
        nil : (xs : List ℕ) → (length xs == 0) ≡ true → xs ≡ []
        nil [] h = refl
        nil (x ∷ xs) h = absurd (ground arith)

    plaintext_panics :
        (desc : LoRaDeviceDescription) (hex publish frame key : List ℕ)
        → Lawful c
        → All IsByte frame
        → probe c frame key ≡ none
        → PanicsIf (is_empty_in desc frame none) (deliver_rubix desc hex publish frame key)
    unfolding deliver_rubix
    plaintext_panics desc hex publish frame key l hb undecryptable =
        let payload : List ℕ = take (inner frame) (drop 7 frame) in
        let sent = deliver_loraraw-undecryptable c desc hex publish frame key l undecryptable in
        elim (Bool-cases (taken_as_plaintext desc frame)) [
          | inr dropped ↦
              let gone : deliver_loraraw c desc hex publish frame key ≡ done none =
                sent
                ∙ ap
                    (λ (b : Bool).
                      done (if b then some (decode_uplink hex payload ∷ [], publish) else none))
                    dropped in
              subst
                (λ (b : Bool).
                  PanicsIf (b && inner frame == 0) (deliver_rubix desc hex publish frame key))
                (sym dropped) ((λ e. cc), λ e. (none, rw gone refl))
          | inl taken ↦
              let one : deliver_loraraw c desc hex publish frame key
                  ≡ done (some (decode_uplink hex payload ∷ [], publish)) =
                sent
                ∙ ap
                    (λ (b : Bool).
                      done (if b then some (decode_uplink hex payload ∷ [], publish) else none))
                    taken in
              let exact : (length frame == 9 + inner frame) ≡ true = ground arith in
              let room : length frame ≡ 9 + inner frame = ground arith in
              let panics =
                one_payload desc hex publish frame key payload publish true
                  (decode_uplink hex payload ∷ []) one
                  (All-take (inner frame) (drop 7 frame) (All-drop 7 frame hb))
                  (inl (refl, uplink hex)) in
              subst
                (λ (b : Bool).
                  PanicsIf (b && inner frame == 0) (deliver_rubix desc hex publish frame key))
                (sym taken)
                (subst (λ (n : ℕ). PanicsIf (n == 0) (deliver_rubix desc hex publish frame key))
                  (payload_size frame (omega (arith, room))) panics)
        ]

    decrypted_panics :
        (desc : LoRaDeviceDescription) (hex publish frame key decoded : List ℕ)
        → Lawful c
        → desc.has_decode_response ≡ true
        → All IsByte decoded
        → probe c frame key ≡ some decoded
        → PanicsIf
            (is_empty_in desc frame (some decoded))
            (deliver_rubix desc hex publish frame key)
    unfolding deliver_loraraw
    decrypted_panics desc hex publish frame key decoded l able hb decrypted =
        let payload : List ℕ = take (inner decoded) (drop 7 decoded) in
        let (rebuilt, e) = build_unencrypted_raw_frame-Returns c decoded frame in
        let (effects, e', handled) =
          handle_loraraw_device_lem c desc hex decoded key l able
            (omega (arith, probe-length c frame key decoded l decrypted)) in
        let raw : List ℕ = elim rebuilt [
          | none ↦ publish
          | some bytes ↦ to_upper (encode_to_string bytes)
        ] in
        let sent : deliver_loraraw c desc hex publish frame key ≡ done (some (effects, raw)) =
          rw (try_decrypt_packet-probe c frame key l, decrypted) (rw e (rw e' refl)) in
        subst (λ (b : Bool). PanicsIf b (deliver_rubix desc hex publish frame key))
          (reaches_size decoded)
          (one_payload desc hex publish frame key payload raw (reaches decoded) effects sent
            (All-take (inner decoded) (drop 7 decoded) (All-drop 7 decoded hb)) handled)

    -- A LoRaRAW frame of bytes for a model with the Rubix decoders makes the dispatch, the decoder's run included, panic exactly
    -- where the frame that is decoded has the length byte 0, whatever the key: a decrypted one with
    -- enough bytes and known options, or one that is taken as plaintext. This is for AES that decrypts bytes to bytes.
    pub deliver_rubix-panics :
        (desc : LoRaDeviceDescription) (hex publish frame key : List ℕ)
        → Lawful c
        → ((k text : List ℕ) → All IsByte text → All IsByte (c.cbc_decrypt k text))
        → desc.has_decode_response ≡ true
        → All IsByte frame
        → (deliver_rubix desc hex publish frame key ≡ panic) ↔ (is_empty_for desc frame key ≡ true)
    deliver_rubix-panics desc hex publish frame key l keeps able hb =
        PanicsIf-iff (is_empty_for desc frame key) (deliver_rubix desc hex publish frame key)
          (elim (Option-cases (probe c frame key)) [
            | inl undecryptable ↦
                subst
                  (λ (p : Option (List ℕ)).
                    PanicsIf (is_empty_in desc frame p) (deliver_rubix desc hex publish frame key))
                  (sym undecryptable)
                  (plaintext_panics desc hex publish frame key l hb undecryptable)
            | inr (decoded, decrypted) ↦
                subst
                  (λ (p : Option (List ℕ)).
                    PanicsIf (is_empty_in desc frame p) (deliver_rubix desc hex publish frame key))
                  (sym decrypted)
                  (decrypted_panics desc hex publish frame key decoded l able
                    (probe-bytes frame key decoded keeps hb decrypted) decrypted)
          ])
