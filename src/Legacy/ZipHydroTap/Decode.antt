-- ===== src/Legacy/ZipHydroTap/Decode.antt =====
-- DecodeZHT and CheckPayloadLengthZHT of codecs/legacyDecoders/ziphydrotap.go.
pub mod Accepted
pub mod Total
use module_core_loraraw.Prelude.{
  ℕ, ◌-◌, ◌/◌, ◌%◌, Bool, true, false, ◌&&◌, ◌||◌, List, [], ◌∷◌, Option, none, some, length, drop,
  ltb, ◌==◌, if◌then◌else◌,
}
use module_core_loraraw.Prelude.Int.{ℤ, pos, negsuc}
use module_core_loraraw.Prelude.Go.{Go, done, ◌>>=◌}
use module_core_loraraw.Rubix.Floats.{Floats}
use module_core_loraraw.Frame.Layout.{byte_at, slice}
use module_core_loraraw.Frame.Hex.{decode_string}
use module_core_loraraw.Legacy.{Outcome}
use module_core_loraraw.Legacy.HexInt.{parse_slice}
use module_core_loraraw.Legacy.ZipHydroTap.Static.{MetaTag, static_payload_decoder, number_or_zero}
use module_core_loraraw.Legacy.ZipHydroTap.Write.{write_payload_decoder}
use module_core_loraraw.Legacy.ZipHydroTap.Poll.{poll_payload_decoder}

abbrev pub error_type : ℤ
error_type = pos 0

abbrev pub static_type : ℕ
static_type = 1

abbrev pub write_type : ℕ
write_type = 2

abbrev pub poll_type : ℕ
poll_type = 3

-- What DecodeZHT does: the error of a short payload, nothing for an unknown type, the points'
-- updates, or the tags that the device gets (`none` for the static decoder's error).
pub data ZhtResult (F : Type 0) : Type 0 where
  too_short ignored : ZhtResult F
  updated : Outcome F → ZhtResult F
  tagged : Option (List MetaTag) → ZhtResult F

-- The device is its address and its tags. `order` is the order in which a map is walked.
unfoldable pub decode_zht :
    (fl : Floats)
    → (List MetaTag → List MetaTag)
    → List ℕ
    → List MetaTag
    → List ℕ
    → Go (ZhtResult fl.F64)
decode_zht fl order address tags payload = if ltb (length payload) 2 then done too_short else do
  kind ← byte_at payload 0
  let field = drop 1 payload
  if kind == static_type
      then static_payload_decoder order address tags field >>= (λ new. done (tagged new))
      else if kind == write_type
      then write_payload_decoder fl field >>= (λ calls. done (updated calls))
      else if kind == poll_type
      then poll_payload_decoder fl field >>= (λ calls. done (updated calls))
      else done ignored

-- `none` is the error.
unfoldable pub get_payload_bytes : List ℕ → Option (List ℕ)
get_payload_bytes text =
    if ltb (length text) 2
    then none
    else let (bytes, whole) = decode_string (drop 2 text) in if whole then some bytes else none

-- A text without a number there has the type 0, as a text that is too short.
unfoldable pub get_payload_type : List ℕ → Go ℤ
get_payload_type text =
    if ltb (length text) 2
    then done error_type
    else do v ← parse_slice text 0 2; done (number_or_zero v)

-- uint8(v)
abbrev pub to_uint8 : ℤ → ℕ
to_uint8 (pos n) = n % 256
to_uint8 (negsuc n) = 255 - n % 256

unfoldable pub get_packet_version : List ℕ → Go ℕ
get_packet_version text =
    if ltb (length text) 4
    then done 0
    else do v ← parse_slice text 2 4; done (to_uint8 (number_or_zero v))

abbrev pub is_type : ℕ → ℤ → Bool
is_type k (pos n) = n == k
is_type k (negsuc n) = false

-- The payload type with the length of its version.
abbrev pub has_length : ℤ → ℕ → ℕ → ℕ → ℕ → Bool
has_length kind size static write poll =
    is_type static_type kind && size == static
    || is_type write_type kind && size == write
    || is_type poll_type kind && size == poll

unfoldable pub check_payload_length_zht : List ℕ → Go Bool
check_payload_length_zht text = do
  kind ← get_payload_type text
  version ← get_packet_version text
  let size = length text / 2
  if version == 1
      then done (has_length kind size 97 51 40)
      else if version == 2
      then done (has_length kind size 102 66 47)
      else done false
