-- ===== src/Tests/Legacy.antt =====
-- The theorems on the legacy decoders, applied.
use module_core_loraraw.Prelude.{
  ℕ, ◌≡◌, refl, arith, Bool, true, false, List, [], ◌∷◌, none, some, length, replicate,
  if◌then◌else◌,
}
use module_core_loraraw.Prelude.Int.{ℤ}
use module_core_loraraw.Prelude.Go.{done, Returns}
use module_core_loraraw.Prelude.Text.{codes, text_eq}
use module_core_loraraw.Frame.Hex.{encode_to_string, decode_string, hex_value}
use module_core_loraraw.Legacy.{update_point}
use module_core_loraraw.Legacy.HexInt.{IsHexOf, parse_slice, parse_int, parse_digits}
use module_core_loraraw.Legacy.Droplet.{decode_droplet_thlm}
use module_core_loraraw.Legacy.Droplet.Layout.{decode_droplet_thlm-IsHexOf}
use module_core_loraraw.Legacy.MicroEdge.{decode_me}
use module_core_loraraw.Legacy.MicroEdge.Layout.{decode_me-IsHexOf}
use module_core_loraraw.Legacy.Safety.{decode_droplet_thlm-Returns}
use module_core_loraraw.Legacy.ZipHydroTap.Static.{
  MetaTag, merge_tags, modbus_address, static_payload_decoder, static_tags,
}
use module_core_loraraw.Legacy.ZipHydroTap.Static.Merge.{merge_tags-refresh}
use module_core_loraraw.Legacy.ZipHydroTap.Static.Layout.{
  static_payload_decoder-static_data, has_static_length, static_data, static_extra_data,
}
use module_core_loraraw.Legacy.ZipHydroTap.Write.{write_payload_decoder}
use module_core_loraraw.Legacy.ZipHydroTap.Write.Layout.{
  write_calls, write_payload_decoder-write_calls,
}
use module_core_loraraw.Legacy.ZipHydroTap.Poll.{poll_payload_decoder}
use module_core_loraraw.Legacy.ZipHydroTap.Poll.Layout.{poll_calls, poll_payload_decoder-poll_calls}
use module_core_loraraw.Legacy.ZipHydroTap.Decode.{
  ZhtResult, decode_zht, check_payload_length_zht, get_payload_type, get_packet_version,
}
use module_core_loraraw.Legacy.ZipHydroTap.Decode.Accepted.{
  is_accepted, decode_zht-check_payload_length_zht,
}
use module_core_loraraw.Legacy.ZipHydroTap.Decode.Total.{decode_zht-Returns}
use module_core_loraraw.Tests.{whole_floats}

abbrev rejects_all : List ℕ → Bool
rejects_all name = true

-- A droplet at 21.5 degrees and 1013 hPa.
abbrev droplet_bytes : List ℕ
droplet_bytes = 0 ∷ 178 ∷ 1 ∷ 2 ∷ 102 ∷ 8 ∷ 146 ∷ 39 ∷ 180 ∷ 16 ∷ 1 ∷ 200 ∷ 0 ∷ 0 ∷ 60 ∷ 4 ∷ []

droplet_hex : IsHexOf (encode_to_string droplet_bytes) droplet_bytes
unfolding decode_string encode_to_string hex_value
droplet_hex = refl

decode_droplet_thlm-IsHexOf_example :
    decode_droplet_thlm whole_floats rejects_all (encode_to_string droplet_bytes)
    ≡ done (
      update_point (codes "temperature") 21
          ∷ update_point (codes "pressure") 1013
          ∷ update_point (codes "humidity") 52
          ∷ update_point (codes "voltage") 4
          ∷ update_point (codes "light") 272
          ∷ update_point (codes "motion") 1
          ∷ [],
      false,
    )
decode_droplet_thlm-IsHexOf_example =
    decode_droplet_thlm-IsHexOf whole_floats rejects_all (encode_to_string droplet_bytes)
      droplet_bytes droplet_hex (omega arith)

decode_me-IsHexOf_example :
    decode_me whole_floats rejects_all (encode_to_string droplet_bytes)
    ≡ done (
      update_point (codes "pulse") 1711837735
          ∷ update_point (codes "voltage") 3
          ∷ update_point (codes "ai_1") 4097
          ∷ update_point (codes "ai_2") 51200
          ∷ update_point (codes "ai_3") 60
          ∷ [],
      false,
    )
decode_me-IsHexOf_example =
    decode_me-IsHexOf whole_floats rejects_all (encode_to_string droplet_bytes) droplet_bytes
      droplet_hex (omega arith)

decode_droplet_thlm-Returns_example :
    Returns (decode_droplet_thlm whole_floats rejects_all (codes "-1 no hex"))
decode_droplet_thlm-Returns_example =
    decode_droplet_thlm-Returns whole_floats rejects_all (codes "-1 no hex")

-- A poll payload of the second version, without its type.
abbrev poll_bytes : List ℕ
poll_bytes = 2 ∷ 33 ∷ replicate 44 7

poll_payload_decoder-poll_calls_example :
    poll_payload_decoder whole_floats poll_bytes ≡ done (poll_calls whole_floats poll_bytes)
poll_payload_decoder-poll_calls_example = poll_payload_decoder-poll_calls whole_floats poll_bytes

-- A write payload of the second version that lacks its fields.
abbrev write_bytes : List ℕ
write_bytes = 2 ∷ replicate 60 40

write_payload_decoder-write_calls_example :
    write_payload_decoder whole_floats write_bytes ≡ done (write_calls whole_floats write_bytes)
write_payload_decoder-write_calls_example =
    write_payload_decoder-write_calls whole_floats write_bytes

write_partly : (length (write_calls whole_floats write_bytes).0 ≡ 28)
write_partly = refl

abbrev tag : List ℕ → List ℕ → MetaTag
tag key value = record { key = key; value = value }

abbrev old_tags : List MetaTag
old_tags = tag (codes "serial_number") (codes "1") ∷ tag (codes "room") (codes "7") ∷ []

abbrev new_tags : List MetaTag
new_tags = tag (codes "serial_number") (codes "2") ∷ tag (codes "model_number") (codes "B") ∷ []

merge_tags-refresh_example :
    merge_tags old_tags new_tags
    ≡ tag (codes "serial_number") (codes "2")
      ∷ tag (codes "room") (codes "7")
      ∷ tag (codes "serial_number") (codes "2")
      ∷ tag (codes "model_number") (codes "B")
      ∷ []
unfolding text_eq
merge_tags-refresh_example = merge_tags-refresh old_tags new_tags ((refl, tt), (tt, tt))

abbrev static_bytes : List ℕ
static_bytes = 1 ∷ replicate 95 48

abbrev same_order : List MetaTag → List MetaTag
same_order entries = entries

static_payload_decoder-static_data_example :
    (modbus : ℤ) × (modbus_address (codes "00C0FF") ≡ done modbus)
    × (static_payload_decoder same_order (codes "00C0FF") old_tags static_bytes
        ≡ done (
            if has_static_length static_bytes
            then some (
                merge_tags old_tags
                  (static_tags (static_data static_bytes) (static_extra_data static_bytes) modbus))
            else none))
static_payload_decoder-static_data_example =
    static_payload_decoder-static_data same_order (codes "00C0FF") old_tags static_bytes

-- A whole payload of the type poll.
abbrev poll_payload : List ℕ
poll_payload = 3 ∷ 2 ∷ replicate 45 7

poll_hex : IsHexOf (encode_to_string poll_payload) poll_payload
unfolding decode_string encode_to_string hex_value
poll_hex = refl

poll_checked : check_payload_length_zht (encode_to_string poll_payload) ≡ done true
unfolding check_payload_length_zht get_payload_type get_packet_version parse_slice parse_int
    parse_digits encode_to_string hex_value
poll_checked = refl

decode_zht-check_payload_length_zht_example :
    (r : ZhtResult ℕ) × (decode_zht whole_floats same_order (codes "00C0FF") old_tags poll_payload
      ≡ done r)
    × (is_accepted r ≡ true)
decode_zht-check_payload_length_zht_example =
    decode_zht-check_payload_length_zht whole_floats same_order (codes "00C0FF") old_tags
      (encode_to_string poll_payload) poll_payload poll_hex (omega arith) poll_checked

decode_zht-Returns_example :
    Returns (decode_zht whole_floats same_order (codes "00C0FF") old_tags (2 ∷ 2 ∷ 40 ∷ []))
decode_zht-Returns_example =
    decode_zht-Returns whole_floats same_order (codes "00C0FF") old_tags (2 ∷ 2 ∷ 40 ∷ [])
