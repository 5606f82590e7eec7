-- ===== src/Tests/Points.antt =====
-- The theorems on points, applied to a database that is the list of the points it was given.
use module_core_loraraw.Prelude.{ℕ, true, List, [], ◌∷◌, none, some, All}
use module_core_loraraw.Prelude.Text.{codes}
use module_core_loraraw.Points.Store.{Point, StoredDevice, Marshaller, new_point}
use module_core_loraraw.Points.Invariant.{IsSettled, Keeps}
use module_core_loraraw.Points.Operations.{
  PointOperation, add, device_point, perform_all, perform_all-Inv,
}
use module_core_loraraw.Tests.{whole_floats}

abbrev pub uart_device : StoredDevice ℕ
uart_device = record {
  uuid = codes "dev";
  network_uuid = codes "net";
  model = codes "UART";
  address_uuid = some (codes "00C0FFEE");
  points = [];
}

-- Updates are kept beside what they replace.
abbrev pub log_db : Marshaller ℕ
log_db = record {
  S = List (Point ℕ);
  get_networks_by_plugin_name = λ name s. (some [], s);
  create_network = λ network s. (some network, s);
  get_network = λ uuid s. (none, s);
  get_one_device_by_address = λ address s. (none, s);
  get_device = λ uuid s. (some uart_device, s);
  create_device = λ device s. (some device, s);
  delete_device = λ uuid s. s;
  create_point = λ point s. (some point, point ∷ s);
  update_point = λ uuid point s. (some point, point ∷ s);
  point_write = λ uuid writer s. (none, s);
  update_device_fault = λ uuid s. s;
}

abbrev AllSettled : List (Point ℕ) → Type 0
AllSettled points = All IsSettled points

log_db-Keeps : Keeps log_db AllSettled
log_db-Keeps = record {
  on_get_device = λ uuid s h. h;
  on_create_point = λ point s settled h. (settled, h);
  on_update_point = λ uuid point s settled h. (settled, h);
  on_point_write = λ uuid writer s h. h;
}

abbrev same_text : List ℕ → List ℕ
same_text text = text

abbrev operations : List (PointOperation ℕ)
operations =
    device_point (codes "uvp-42") 21 none uart_device true
    ∷ device_point (codes "rssi") 60 none uart_device true
    ∷ add (record new_point { write_value = some 5 })
    ∷ []

perform_all-Inv_example :
    AllSettled (perform_all whole_floats log_db (λ x. x) same_text operations [])
perform_all-Inv_example =
    perform_all-Inv whole_floats log_db (λ x. x) same_text AllSettled log_db-Keeps operations [] tt
