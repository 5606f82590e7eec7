-- ===== src/Points/Store.antt =====
-- The models of points, devices and networks that pkg/app.go and pkg/dbWriter.go fill in, and the gRPC
-- marshaller, whose calls read and change a database.
use module_core_loraraw.Prelude.{ℕ, Bool, List, Option, none, some}
use module_core_loraraw.Prelude.Int.{ℤ}
use module_core_loraraw.Frame.Layout.{WriteMode, other_mode}
use module_core_loraraw.Legacy.MicroEdge.{IoType}

-- datatype.HistoryType; `no_history` is the empty one.
pub data HistoryType : Type 0 where
  no_history history_type_interval history_type_cov_and_interval : HistoryType

-- datatype.PointState; `no_state` is the empty one.
pub data PointState : Type 0 where
  no_state write_ok api_write_failed api_write_pending : PointState

module _ (F : Type 0) where
  -- model.Point. A nil pointer, and the empty IoType, are `none`.
  pub record Point : Type 0 where
    pub uuid : List ℕ
    pub name : List ℕ
    pub device_uuid : List ℕ
    pub address_uuid : Option (List ℕ)
    pub address_id : Option ℤ
    pub io_number : List ℕ
    pub io_type : Option IoType
    pub object_type : List ℕ
    pub thing_type : List ℕ
    pub data_type : List ℕ
    pub write_mode : WriteMode
    pub point_state : PointState
    pub enable : Option Bool
    pub is_output : Option Bool
    pub enable_writeable : Option Bool
    pub write_poll_required : Option Bool
    pub original_value : Option F
    pub write_value_original : Option F
    pub write_value : Option F
    pub write_priority : Option ℕ
    pub current_priority : Option ℕ
    pub history_enable : Option Bool
    pub history_type : HistoryType
    pub history_interval : Option ℕ
    -- in hundredths
    pub history_cov_threshold : Option ℕ

  -- dto.PointWriter. The only priority that is set is the sixteenth.
  pub record PointWriter : Type 0 where
    pub original_value : Option F
    pub priority_16 : Option F
    pub message : List ℕ
    pub fault : Bool
    pub poll_state : PointState
    pub ignore_present_value_update : Bool

  -- model.Device, with the points that a call may ask for.
  pub record StoredDevice : Type 0 where
    pub uuid : List ℕ
    pub network_uuid : List ℕ
    pub model : List ℕ
    pub address_uuid : Option (List ℕ)
    pub points : List Point

-- new(model.Point)
abbrev pub new_point : {F : Type 0} → Point F
new_point = record {
  uuid = List.[];
  name = List.[];
  device_uuid = List.[];
  address_uuid = none;
  address_id = none;
  io_number = List.[];
  io_type = none;
  object_type = List.[];
  thing_type = List.[];
  data_type = List.[];
  write_mode = other_mode;
  point_state = no_state;
  enable = none;
  is_output = none;
  enable_writeable = none;
  write_poll_required = none;
  original_value = none;
  write_value_original = none;
  write_value = none;
  write_priority = none;
  current_priority = none;
  history_enable = none;
  history_type = no_history;
  history_interval = none;
  history_cov_threshold = none;
}

-- model.Network
pub record Network : Type 0 where
  pub uuid : List ℕ
  pub plugin_name : List ℕ
  pub transport_type : List ℕ
  pub serial_baud_rate : Option ℕ

-- A call of the database: its result, or `none` for the error, and the database after it.
abbrev pub Db : Type 0 → Type 0 → Type 0
Db S A = S → Option A × S

abbrev pub go_on_with : {S A B : Type 0} → (A → Db S B) → Option A × S → Option B × S
go_on_with rest (none, s) = (none, s)
go_on_with rest (some a, s) = rest a s

infixl 5 ◌>>=◌
abbrev pub ◌>>=◌ : {S A B : Type 0} → Db S A → (A → Db S B) → Db S B
(m >>= k) s = go_on_with k (m s)

abbrev pub return : {S A : Type 0} → A → Db S A
return a s = (some a, s)

abbrev pub fail : {S A : Type 0} → Db S A
fail s = (none, s)

-- The calls of nmodule.Marshaller that the module makes.
pub record Marshaller (F : Type 0) : Type 1 where
  pub S : Type 0
  -- an entry may be nil
  pub get_networks_by_plugin_name : List ℕ → Db S (List (Option Network))
  pub create_network : Network → Db S Network
  pub get_network : List ℕ → Db S Network
  pub get_one_device_by_address : Option (List ℕ) → Db S (StoredDevice F)
  pub get_device : List ℕ → Db S (StoredDevice F)
  pub create_device : StoredDevice F → Db S (StoredDevice F)
  pub delete_device : List ℕ → S → S
  pub create_point : Point F → Db S (Point F)
  pub update_point : List ℕ → Point F → Db S (Point F)
  pub point_write : List ℕ → PointWriter F → Db S (Point F)
  pub update_device_fault : List ℕ → S → S
