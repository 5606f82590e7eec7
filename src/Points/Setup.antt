-- ===== src/Points/Setup.antt =====
-- pkg/app.go: networks, devices and the points that a device gets when it is added or edited.
use module_core_loraraw.Prelude.{
  ℕ, Bool, true, false, not, ◌&&◌, List, [], ◌∷◌, Option, none, some, map, if◌then◌else◌,
}
use module_core_loraraw.Prelude.Go.{Go, done, panic}
use module_core_loraraw.Prelude.Text.{codes, text_eq}
use module_core_loraraw.Frame.Layout.{is_writeable}
use module_core_loraraw.Frame.Hex.{to_upper}
use module_core_loraraw.Legacy.{common_value_names}
use module_core_loraraw.Legacy.Droplet.{
  get_th_point_names, get_thl_point_names, get_thlm_point_names,
}
use module_core_loraraw.Legacy.MicroEdge.{get_me_point_names}
use module_core_loraraw.Legacy.ZipHydroTap.Names.{get_zht_point_names}
use module_core_loraraw.Points.Store.{
  Point, StoredDevice, Network, Marshaller, Db, ◌>>=◌, return, fail, new_point,
}
use module_core_loraraw.Points.Fields.{
  reset_writeable_properties, set_uart_common_history, set_new_point_fields, is_common_value,
}
use module_core_loraraw.Points.Writer.{settle, add_point}

-- The names of the table of models, in its order. Those of the Rubix models are the common ones.
abbrev pub point_names : List (List ℕ × List (List ℕ))
point_names =
    (codes "MicroEdgeV1", get_me_point_names)
    ∷ (codes "MicroEdgeV2", get_me_point_names)
    ∷ (codes "THLM", get_thlm_point_names)
    ∷ (codes "THL", get_thl_point_names)
    ∷ (codes "TH", get_th_point_names)
    ∷ (codes "ZipHydroTap", get_zht_point_names)
    ∷ (codes "Rubix", common_value_names)
    ∷ (codes "UART", common_value_names)
    ∷ (codes "RubixEncrypted", common_value_names)
    ∷ []

unfoldable pub names_of_model : List ℕ → List (List ℕ × List (List ℕ)) → List (List ℕ)
names_of_model model [] = []
names_of_model model ((known, names) ∷ table) =
    let later = names_of_model model table in
    if text_eq (to_upper model) (to_upper known) then names else later

-- An unknown model has no points.
unfoldable pub get_device_point_names : List ℕ → List (List ℕ)
get_device_point_names model = names_of_model model point_names

abbrev pub is_empty : {A : Type 0} → List A → Bool
is_empty [] = true
is_empty (x ∷ xs) = false

abbrev pub is_found : {A : Type 0} → Option A → Bool
is_found none = false
is_found (some a) = true

abbrev pub any_network : List (Option Network) → Bool
any_network [] = false
any_network (none ∷ nets) = any_network nets
any_network (some net ∷ nets) = true

-- `*body.AddressUUID = strings.ToUpper(*body.AddressUUID)`, unless it is nil.
abbrev pub upper_address : Option (List ℕ) → Option (List ℕ)
upper_address none = none
upper_address (some address) = some (to_upper address)

module _ {F : Type 0} (db : Marshaller F) where
  -- Only one network, which then runs.
  unfoldable pub add_network : Network → Db db.S Network
  add_network body = db.get_networks_by_plugin_name body.plugin_name >>= λ nets.
      if any_network nets
      then fail
      else db.create_network (record body {
        transport_type = codes "serial";
        serial_baud_rate = elim body.serial_baud_rate [ none ↦ some 38400 | some rate ↦ some rate ];
      })

  unfoldable pub get_device_by_lora_address : List ℕ → Db db.S (StoredDevice F)
  get_device_by_lora_address address = db.get_one_device_by_address (some address)

  -- The goroutines' calls in the order in which they run; their errors are logged only.
  unfoldable pub save_points : List (Point F) → db.S → db.S
  save_points [] s = s
  save_points (point ∷ points) s =
      save_points points (add_point db (record point { enable_writeable = some false }) s).1

  -- The loop of updateDevicePointsAddress, which the first error ends.
  unfoldable pub update_addresses : Option (List ℕ) → List (Point F) → Db db.S (Unit {0})
  update_addresses address [] = return tt
  update_addresses address (point ∷ points) =
      let moved = record point { address_uuid = address } in
      let kept =
        if is_writeable point.write_mode
        then settle address moved
        else reset_writeable_properties moved in
      db.update_point point.uuid kept >>= λ updated. update_addresses address points

  unfoldable pub update_device_points_address : StoredDevice F → Db db.S (Unit {0})
  update_device_points_address body =
      db.get_device body.uuid >>= λ device. update_addresses body.address_uuid device.points

  -- `title` is cases.Title(language.English), `order` the order in which the goroutines run.
  module _ (title : List ℕ → List ℕ) (order : List (Point F) → List (Point F)) where
    abbrev pub named_point : StoredDevice F → List ℕ → Point F
    named_point device name =
        let point = set_new_point_fields title device new_point name in
        record (if text_eq device.model (codes "UART") && is_common_value name
          then set_uart_common_history point
          else point) { enable_writeable = some false }

    unfoldable pub add_points_from_name : StoredDevice F → List (List ℕ) → db.S → db.S
    add_points_from_name device names s = save_points (order (map (named_point device) names)) s

    unfoldable pub add_device_points : List ℕ → StoredDevice F → Db db.S (Unit {0})
    add_device_points module_name device = db.get_network device.network_uuid >>= λ network.
        let names = get_device_point_names device.model in
        if not (text_eq network.plugin_name module_name)
        then fail
        else if is_empty names
        then fail
        else (λ s. (some tt, add_points_from_name device names s))

    -- The device whose points fail is deleted again.
    abbrev pub delete_on_error :
        StoredDevice F → Option (Unit {0}) × db.S → Option (StoredDevice F) × db.S
    delete_on_error device (none, s) = (none, db.delete_device device.uuid s)
    delete_on_error device (some added, s) = (some device, s)

    -- The message on a device of the same address reads the address, which may be nil.
    abbrev pub refuse : Option (List ℕ) → db.S → Go (Option (StoredDevice F) × db.S)
    refuse none s = panic
    refuse (some address) s = done (none, s)

    abbrev pub create_device_with :
        List ℕ → StoredDevice F → Bool → db.S → Option (StoredDevice F) × db.S
    create_device_with module_name body with_points = db.create_device body >>= λ device.
        if with_points
        then (λ s. delete_on_error device (add_device_points module_name device s))
        else return device

    unfoldable pub add_device :
        List ℕ → StoredDevice F → Bool → db.S → Go (Option (StoredDevice F) × db.S)
    add_device module_name body with_points s =
        let address = upper_address body.address_uuid in
        let (found, s1) = db.get_one_device_by_address address s in
        if is_found found
        then refuse address s1
        else done
            (create_device_with module_name (record body { address_uuid = address }) with_points s1)
