-- ===== src/Legacy/ZipHydroTap/Decode/Total.antt =====
-- DecodeZHT on any payload.
use module_core_loraraw.Prelude.{
  ℕ, suc, ◌≡◌, refl, arith, List, [], ◌∷◌, length, ltb, ◌==◌, Bool-cases, inl, inr, false,
}
use module_core_loraraw.Prelude.Go.{done, Returns, >>=-Returns}
use module_core_loraraw.Rubix.Floats.{Floats}
use module_core_loraraw.Legacy.ZipHydroTap.Static.{MetaTag, static_payload_decoder}
use module_core_loraraw.Legacy.ZipHydroTap.Static.Layout.{static_payload_decoder-static_data}
use module_core_loraraw.Legacy.ZipHydroTap.Write.Layout.{
  write_calls, write_payload_decoder-write_calls,
}
use module_core_loraraw.Legacy.ZipHydroTap.Poll.Layout.{poll_calls, poll_payload_decoder-poll_calls}
use module_core_loraraw.Legacy.ZipHydroTap.Decode.{too_short, ignored, updated, tagged, decode_zht}

module _ (fl : Floats) (order : List MetaTag → List MetaTag) (address : List ℕ)
    (tags : List MetaTag) where
  -- No payload, of whatever type, version and length, and no device address make DecodeZHT panic.
  pub decode_zht-Returns : (payload : List ℕ) → Returns (decode_zht fl order address tags payload)
  unfolding decode_zht
  decode_zht-Returns [] = (too_short, refl)
  decode_zht-Returns (kind ∷ []) = (too_short, refl)
  decode_zht-Returns (kind ∷ b ∷ rest) =
      let long : ltb (suc (suc (length rest))) 2 ≡ false = ground arith in
      elim (Bool-cases (kind == 1)) [
        | inl static ↦
            let (modbus, e, e') =
              static_payload_decoder-static_data order address tags (b ∷ rest) in
            let (decoded, whole) =
              >>=-Returns (static_payload_decoder order address tags (b ∷ rest))
                (λ new. done (tagged new)) (_, e') (λ new. (tagged new, refl)) in
            (decoded, rw (long, static) whole)
        | inr other ↦ elim (Bool-cases (kind == 2)) [
          | inl write ↦ (
            updated (write_calls fl (b ∷ rest)),
            rw (long, other, write) (rw (write_payload_decoder-write_calls fl (b ∷ rest)) refl),
          )
          | inr other' ↦ elim (Bool-cases (kind == 3)) [
            | inl poll ↦ (
              updated (poll_calls fl (b ∷ rest)),
              rw (long, other, other', poll)
                  (rw (poll_payload_decoder-poll_calls fl (b ∷ rest)) refl),
            )
            | inr unknown ↦ (ignored, rw (long, other, other', unknown) refl)
          ]
        ]
      ]
