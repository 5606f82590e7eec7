-- ===== src/Points/Writer.antt =====
-- pkg/dbWriter.go, and addPoint, updatePoint and writePoint of pkg/app.go: what reaches the database.
use module_core_loraraw.Prelude.{
  ℕ, Bool, true, false, List, [], ◌∷◌, ◌++◌, Option, none, some, length, ◌==◌, if◌then◌else◌,
}
use module_core_loraraw.Prelude.Text.{codes, text_eq}
use module_core_loraraw.Prelude.Decimal.{itoa}
use module_core_loraraw.Frame.Layout.{is_writeable}
use module_core_loraraw.Frame.Hex.{to_lower}
use module_core_loraraw.Rubix.Floats.{Floats}
use module_core_loraraw.Legacy.{int_float}
use module_core_loraraw.Legacy.MicroEdge.{IoType, raw, micro_edge_point_type}
use module_core_loraraw.Points.Store.{
  Point, PointWriter, StoredDevice, Marshaller, Db, ◌>>=◌, new_point, no_state, write_ok,
  api_write_failed, api_write_pending,
}
use module_core_loraraw.Points.Fields.{
  reset_writeable_properties, set_new_point_fields, set_new_point_fields_uart,
}

unfoldable pub select_point_by_io_number : {F : Type 0} → List ℕ → List (Point F) → Option (Point F)
select_point_by_io_number io_number [] = none
select_point_by_io_number io_number (point ∷ points) =
    let later = select_point_by_io_number io_number points in
    if text_eq point.io_number io_number then some point else later

-- What addPoint sets first.
abbrev pub analog_input : {F : Type 0} → Point F → Point F
analog_input body = record body {
  object_type = codes "analog_input";
  io_type = some raw;
  name = to_lower body.name;
}

-- The part that addPoint, updatePoint and updateDevicePointsAddress share.
abbrev pub settle : {F : Type 0} → Option (List ℕ) → Point F → Point F
settle address point = record point {
  address_uuid = address;
  enable_writeable = some true;
  write_poll_required = some true;
}

abbrev pub empty_writer : {F : Type 0} → PointWriter F
empty_writer = record {
  original_value = none;
  priority_16 = none;
  message = [];
  fault = false;
  poll_state = no_state;
  ignore_present_value_update = false;
}

module _ {F : Type 0} (db : Marshaller F) where
  unfoldable pub add_point : Point F → Db db.S (Point F)
  add_point body =
      if is_writeable body.write_mode
      then (db.get_device body.device_uuid >>= λ device.
          db.create_point (settle device.address_uuid (analog_input body)))
      else db.create_point (reset_writeable_properties (analog_input body))

  unfoldable pub update_stored_point : List ℕ → Point F → Db db.S (Point F)
  update_stored_point uuid body =
      if is_writeable body.write_mode
      then (db.get_device body.device_uuid >>= λ device.
          db.update_point uuid (settle device.address_uuid body))
      else db.update_point uuid (reset_writeable_properties body)

  unfoldable pub write_point : List ℕ → PointWriter F → Db db.S (Point F)
  write_point uuid body =
      db.point_write uuid
        (record body { ignore_present_value_update = true; poll_state = api_write_pending })

  unfoldable pub save_point : Point F → Db db.S (Point F)
  save_point point = add_point (record point { enable_writeable = some false })

  module _ (title : List ℕ → List ℕ) where
    -- `uart` says that there is a description and that its model is UART.
    unfoldable pub add_point_from_name : StoredDevice F → List ℕ → Bool → Db db.S (Point F)
    add_point_from_name device id uart =
        let point =
          if uart
          then set_new_point_fields_uart title device new_point id
          else set_new_point_fields title device new_point id in
        save_point (record point { enable_writeable = some false })

  unfoldable pub update_point_value_error : Point F → List ℕ → Db db.S (Point F)
  update_point_value_error point message =
      db.point_write point.uuid (record empty_writer { message = message; fault = true })

  unfoldable pub update_written_point_success : Point F → Db db.S (Point F)
  update_written_point_success point =
      db.point_write point.uuid
        (record empty_writer { original_value = point.write_value; poll_state = write_ok })

  unfoldable pub update_written_point_error : Point F → List ℕ → Db db.S (Point F)
  update_written_point_error point message = db.point_write point.uuid (record empty_writer {
    original_value = point.original_value;
    message = message;
    fault = true;
    poll_state = api_write_failed;
  })

  -- Points that are not stored, such as the ping of a UART, have no UUID. The result is dropped.
  unfoldable pub on_write_exhausted : ℕ → Point F → db.S → db.S
  on_write_exhausted max_retries point s =
      if length point.uuid == 0
      then s
      else (update_written_point_error point
          (codes "no response from device after " ++ itoa max_retries ++ codes " write attempts")
          s).1

  -- updateDeviceWrittenPoint behind the queue, with the point that this gave and the error's text, if
  -- there is an error. The result is dropped.
  unfoldable pub update_device_written_point : Option (Point F) → Option (List ℕ) → db.S → db.S
  update_device_written_point none error s = s
  update_device_written_point (some point) none s = (update_written_point_success point s).1
  update_device_written_point (some point) (some message) s =
      (update_written_point_error point message s).1

-- The value of a point with a type other than RAW is that of a micro edge. `to_temperature` is the thermistor's.
module _ (fl : Floats) (db : Marshaller fl.F64) (to_temperature : fl.F64 → fl.F64) where
  abbrev pub scaled : Option IoType → fl.F64 → List ℕ → fl.F64
  scaled none value model = value
  scaled (some raw) value model = value
  scaled (some other) value model = micro_edge_point_type fl to_temperature other value model

  unfoldable pub update_point_value_success :
      Point fl.F64 → fl.F64 → List ℕ → Db db.S (Point fl.F64)
  update_point_value_success point value model =
      let shown = scaled point.io_type value model in
      db.point_write point.uuid
        (record empty_writer { original_value = some shown; priority_16 = some shown })

  module _ (title : List ℕ → List ℕ) where
    -- The error's text, if there is an error, stands in place of the value.
    abbrev pub write_value_or_error :
        Point fl.F64 → fl.F64 → Option (List ℕ) → List ℕ → Db db.S (Point fl.F64)
    write_value_or_error point value none model = update_point_value_success point value model
    write_value_or_error point value (some message) model =
        update_point_value_error db point message

    -- The device was found by its address, so that the messages' *device.AddressUUID is no nil read.
    unfoldable pub update_device_point :
        List ℕ → fl.F64 → Option (List ℕ) → StoredDevice fl.F64 → Bool → Db db.S (Point fl.F64)
    update_device_point id value error device uart =
        elim (select_point_by_io_number id device.points) [
          | some point ↦ write_value_or_error point value error device.model
          | none ↦ add_point_from_name db title device id uart >>= λ point.
              write_value_or_error point value error device.model
        ]

    unfoldable pub update_device_point_success :
        List ℕ → fl.F64 → StoredDevice fl.F64 → Bool → Db db.S (Point fl.F64)
    update_device_point_success id value device uart = update_device_point id value none device uart

    unfoldable pub update_device_point_error :
        List ℕ → List ℕ → StoredDevice fl.F64 → Bool → Db db.S (Point fl.F64)
    update_device_point_error id message device uart =
        update_device_point id (int_float fl 0) (some message) device uart
