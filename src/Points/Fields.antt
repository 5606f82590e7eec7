-- ===== src/Points/Fields.antt =====
-- The fields of a new point: setNewPointFields, setNewPointFieldsUART and their callers' settings, and
-- utils.ResetWriteableProperties.
use module_core_loraraw.Prelude.{
  ℕ, Bool, true, false, ◌||◌, List, [], ◌∷◌, none, some, if◌then◌else◌,
}
use module_core_loraraw.Prelude.Text.{codes, text_eq}
use module_core_loraraw.Prelude.Decimal.{atoi, split}
use module_core_loraraw.Frame.Layout.{read_only, is_writeable}
use module_core_loraraw.Rubix.Fields.{get_meta_data_key}
use module_core_loraraw.Points.Store.{Point, StoredDevice, history_type_interval}
use module_core_loraraw.Points.Uart.{UartPointConfig, get_uart_point_config}

module _ {F : Type 0} where
  unfoldable pub reset_writeable_properties : Point F → Point F
  reset_writeable_properties point = record point {
    write_value_original = none;
    write_value = none;
    write_priority = none;
    current_priority = none;
    enable_writeable = some false;
    write_poll_required = some false;
  }

  -- setUARTCommonHistory
  unfoldable pub set_uart_common_history : Point F → Point F
  set_uart_common_history point = record point {
    history_enable = some true;
    history_type = history_type_interval;
    history_interval = some 15;
  }

-- The second of two parts, and the whole text where there are not two.
abbrev pub config_key : List ℕ → List (List ℕ) → List ℕ
config_key id (first ∷ second ∷ []) = second
config_key id parts = id

abbrev pub is_common_value : List ℕ → Bool
is_common_value id = text_eq id (codes "rssi") || text_eq id (codes "snr")

-- `title` is cases.Title(language.English).
module _ (title : List ℕ → List ℕ) {F : Type 0} where
  unfoldable pub set_new_point_fields : StoredDevice F → Point F → List ℕ → Point F
  set_new_point_fields device point id = record point {
    enable = some true;
    device_uuid = device.uuid;
    address_uuid = device.address_uuid;
    is_output = some false;
    name = title id;
    io_number = id;
    thing_type = codes "point";
    write_mode = read_only;
    data_type = (get_meta_data_key id).0;
  }

  abbrev configured : StoredDevice F → Point F → List ℕ → List ℕ → UartPointConfig → Point F
  configured device point id key found = record point {
    enable = some true;
    name = found.name;
    io_number = id;
    address_id = elim (atoi key) [ none ↦ point.address_id | some n ↦ some n ];
    data_type = found.data_type;
    write_mode = found.write_mode;
    enable_writeable = some (is_writeable found.write_mode);
    history_enable = some found.history_enable;
    history_type = found.history_type;
    history_interval = some found.history_interval;
    history_cov_threshold = some found.history_cov_threshold;
    device_uuid = device.uuid;
    address_uuid = device.address_uuid;
    is_output = some false;
    thing_type = codes "point";
  }

  unfoldable pub set_new_point_fields_uart : StoredDevice F → Point F → List ℕ → Point F
  set_new_point_fields_uart device point id =
      let key = config_key id (split b'-' id) in
      elim (get_uart_point_config key) [
        | none ↦
            if is_common_value id
            then set_uart_common_history (set_new_point_fields device point id)
            else set_new_point_fields device point id
        | some found ↦ configured device point id key found
      ]
