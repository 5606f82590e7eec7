-- ===== src/Config.antt =====
-- pkg/config.go: the configuration and its check. The YAML library and the log levels are arguments.
pub mod Valid
use module_core_loraraw.Prelude.{
  ℕ, ◌*◌, ◌^◌, Bool, true, false, not, List, [], ◌∷◌, Option, none, some, length, ltb, ◌==◌,
  if◌then◌else◌,
}
use module_core_loraraw.Prelude.Int.{ℤ, pos, negsuc}
use module_core_loraraw.Prelude.Text.{codes}
use module_core_loraraw.Frame.Hex.{decode_string, to_upper}

-- A duration is in nanoseconds.
pub record Config : Type 0 where
  pub re_iteration_time : ℤ
  pub log_level : List ℕ
  pub default_key : List ℕ
  pub write_queue_max_retries : ℤ
  pub mqtt_enable : Bool
  pub mqtt_broker : List ℕ
  pub mqtt_client_id : List ℕ
  pub mqtt_username : List ℕ
  pub mqtt_password : List ℕ
  pub mqtt_topic_prefix : List ℕ
  pub write_response_timeout : ℤ

abbrev pub default_device_key : List ℕ
default_device_key = codes "0301021604050f07e6095a0b0c12630f"

abbrev pub seconds : ℕ → ℤ
seconds n = pos (n * 10 ^ 9)

abbrev pub default_config : Config
default_config = record {
  re_iteration_time = seconds 5;
  log_level = codes "ERROR";
  default_key = default_device_key;
  write_queue_max_retries = pos 5;
  mqtt_enable = true;
  mqtt_broker = codes "tcp://127.0.0.1:1883";
  mqtt_client_id = codes "module-core-loraraw";
  mqtt_username = [];
  mqtt_password = [];
  mqtt_topic_prefix = codes "module-core-loraraw";
  write_response_timeout = seconds 5;
}

-- `n <= 0`
abbrev pub not_positive : ℤ → Bool
not_positive (pos n) = n == 0
not_positive (negsuc n) = true

abbrev pub with_level : (List ℕ → Option (List ℕ)) → Config → Config
with_level parse_level config = record config {
  log_level = elim (parse_level config.log_level) [
    | none ↦ codes "ERROR"
    | some level ↦ to_upper level
  ];
}

abbrev pub with_bounds : Config → Config
with_bounds config = record config {
  write_response_timeout =
      if not_positive config.write_response_timeout
      then seconds 5
      else config.write_response_timeout;
  write_queue_max_retries =
      if not_positive config.write_queue_max_retries then pos 1 else config.write_queue_max_retries;
}

-- The default key where there is none, and an error where it has another length than 16 bytes.
unfoldable pub with_key : Config → Option Config
with_key config =
    let (key, whole) = decode_string config.default_key in
    if not whole
    then none
    else if length key == 0
    then some (record config { default_key = default_device_key })
    else if not (length key == 16)
    then none
    else some config

-- `unmarshal` reads a text into a configuration as far as it can: its error is dropped. `parse_level`
-- gives the name of a known level, in lower case. The configuration that is set, with its text.
unfoldable pub validate_and_set_config :
    (List ℕ → Config → Config)
    → (List ℕ → Option (List ℕ))
    → (Config → Option (List ℕ))
    → List ℕ
    → Option (Config × List ℕ)
validate_and_set_config unmarshal parse_level marshal text =
    elim (with_key (with_bounds (with_level parse_level (unmarshal text default_config)))) [
      | none ↦ none
      | some config ↦ elim (marshal config) [ none ↦ none | some valid ↦ some (config, valid) ]
    ]
