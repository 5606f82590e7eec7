-- ===== src/Tests/Config.antt =====
-- The theorem on configurations, applied to one without a key and with bounds that are not positive.
use module_core_loraraw.Prelude.{ℕ, ◌≡◌, refl, List, [], Option, none, some}
use module_core_loraraw.Prelude.Int.{pos, negsuc}
use module_core_loraraw.Frame.Hex.{decode_string}
use module_core_loraraw.Config.{
  Config, default_config, with_level, with_bounds, with_key, default_device_key,
  validate_and_set_config,
}
use module_core_loraraw.Config.Valid.{IsValid, validate_and_set_config-IsValid}

abbrev careless : List ℕ → Config → Config
careless text config = record config {
  default_key = [];
  write_queue_max_retries = pos 0;
  write_response_timeout = negsuc 4;
}

abbrev no_level : List ℕ → Option (List ℕ)
no_level text = none

abbrev no_text : Config → Option (List ℕ)
no_text config = some []

abbrev set_config : Config
set_config = record (with_bounds (with_level no_level (careless [] default_config))) {
  default_key = default_device_key;
}

config_set : validate_and_set_config careless no_level no_text [] ≡ some (set_config, [])
unfolding validate_and_set_config with_key decode_string
config_set = refl

validate_and_set_config-IsValid_example : IsValid set_config
validate_and_set_config-IsValid_example =
    validate_and_set_config-IsValid careless no_level no_text [] [] set_config config_set
