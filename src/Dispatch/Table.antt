-- ===== src/Dispatch/Table.antt =====
-- codecs/codecs.go: the models that the module knows. The length checks of the legacy decoders are arguments.
use module_core_loraraw.Prelude.{ℕ, Bool, true, false, List, [], ◌∷◌}
use module_core_loraraw.Prelude.Text.{codes}
use module_core_loraraw.Dispatch.{LoRaDeviceDescription}

-- CheckPayloadLengthRubix
abbrev pub check_payload_length_rubix : List ℕ → Bool
check_payload_length_rubix hex = true

module _ (check_me check_droplet check_zht : List ℕ → Bool) where
  abbrev legacy : List ℕ → List ℕ → (List ℕ → Bool) → LoRaDeviceDescription
  legacy name model check = record {
    device_name = name;
    model = model;
    check_length = check;
    has_decode_response = false;
    is_loraraw = false;
    allow_unencrypted = false;
  }

  abbrev rubix : List ℕ → Bool → LoRaDeviceDescription
  rubix model plain = record {
    device_name = model;
    model = model;
    check_length = check_payload_length_rubix;
    has_decode_response = true;
    is_loraraw = true;
    allow_unencrypted = plain;
  }

  unfoldable pub lora_device_descriptions : List LoRaDeviceDescription
  lora_device_descriptions =
      legacy (codes "MicroEdge") (codes "MicroEdgeV1") check_me
      ∷ legacy (codes "MicroEdge") (codes "MicroEdgeV2") check_me
      ∷ legacy (codes "Droplet") (codes "THLM") check_droplet
      ∷ legacy (codes "Droplet") (codes "THL") check_droplet
      ∷ legacy (codes "Droplet") (codes "TH") check_droplet
      ∷ record {
        device_name = codes "ZipHydroTap";
        model = codes "ZipHydroTap";
        check_length = check_zht;
        has_decode_response = false;
        is_loraraw = true;
        allow_unencrypted = true;
      }
      ∷ rubix (codes "Rubix") true
      ∷ rubix (codes "UART") false
      ∷ rubix (codes "RubixEncrypted") false
      ∷ []
