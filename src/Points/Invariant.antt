-- ===== src/Points/Invariant.antt =====
-- What holds of the points that reach the database.
use module_core_loraraw.Prelude.{
  ℕ, ◌≡◌, refl, Bool, true, false, List, [], ◌∷◌, Option, none, some, length, ◌==◌, Bool-cases, inl,
  inr,
}
use module_core_loraraw.Frame.Layout.{is_writeable}
use module_core_loraraw.Points.Store.{Point, PointWriter, StoredDevice, Marshaller, Db, go_on_with}
use module_core_loraraw.Points.Fields.{reset_writeable_properties}
use module_core_loraraw.Points.Writer.{
  analog_input, settle, add_point, update_stored_point, update_written_point_success,
  update_written_point_error, on_write_exhausted, update_device_written_point,
}
use module_core_loraraw.Points.Setup.{save_points, update_addresses, update_device_points_address}

-- A point that is not writeable has nothing to write.
abbrev pub HasNothingToWrite : {F : Type 0} → Bool → Point F → Type 0
HasNothingToWrite true point = Unit
HasNothingToWrite false point =
    (point.write_value_original ≡ none)
    × (point.write_value ≡ none)
    × (point.write_priority ≡ none)
    × (point.current_priority ≡ none)

-- The flags of a point are those of its write mode.
abbrev pub IsSettled : {F : Type 0} → Point F → Type 0
IsSettled point =
    (point.enable_writeable ≡ some (is_writeable point.write_mode))
    × (point.write_poll_required ≡ some (is_writeable point.write_mode))
    × HasNothingToWrite (is_writeable point.write_mode) point

-- An invariant of the database that settled points keep.
pub record Keeps {F : Type 0} (db : Marshaller F) (Inv : db.S → Type 0) : Type 0 where
  pub on_get_device : (uuid : List ℕ) (s : db.S) → Inv s → Inv (db.get_device uuid s).1
  pub on_create_point :
      (point : Point F) (s : db.S) → IsSettled point → Inv s → Inv (db.create_point point s).1
  pub on_update_point :
      (uuid : List ℕ) (point : Point F) (s : db.S)
      → IsSettled point
      → Inv s
      → Inv (db.update_point uuid point s).1
  pub on_point_write :
      (uuid : List ℕ) (writer : PointWriter F) (s : db.S)
      → Inv s
      → Inv (db.point_write uuid writer s).1

settle-IsSettled :
    {F : Type 0} (address : Option (List ℕ)) (point : Point F)
    → is_writeable point.write_mode ≡ true
    → IsSettled (settle address point)
settle-IsSettled address point h = rw h (refl, refl, tt)

reset-IsSettled :
    {F : Type 0} (point : Point F)
    → is_writeable point.write_mode ≡ false
    → IsSettled (reset_writeable_properties point)
unfolding reset_writeable_properties
reset-IsSettled point h = rw h (refl, refl, (refl, refl, refl, refl))

module _ {F : Type 0} (db : Marshaller F) (Inv : db.S → Type 0) (keeps : Keeps db Inv) where
  pub go_on_with-Inv :
      {A B : Type 0} (rest : A → Db db.S B) (found : Option A × db.S)
      → Inv found.1
      → ((a : A) (s : db.S) → Inv s → Inv (rest a s).1)
      → Inv (go_on_with rest found).1
  go_on_with-Inv rest (none, s) h k = h
  go_on_with-Inv rest (some a, s) h k = k a s h

  pub add_point-Inv : (body : Point F) (s : db.S) → Inv s → Inv (add_point db body s).1
  unfolding add_point
  add_point-Inv body s h = elim (Bool-cases (is_writeable body.write_mode)) [
    | inl writeable ↦ rw writeable (
        go_on_with-Inv _ (db.get_device body.device_uuid s)
          (keeps.on_get_device body.device_uuid s h)
          (λ device s' h'.
            keeps.on_create_point (settle device.address_uuid (analog_input body)) s'
              (settle-IsSettled device.address_uuid (analog_input body) writeable) h'))
    | inr other ↦ rw other (
        keeps.on_create_point (reset_writeable_properties (analog_input body)) s
          (reset-IsSettled (analog_input body) other) h)
  ]

  pub update_stored_point-Inv :
      (uuid : List ℕ) (body : Point F) (s : db.S)
      → Inv s
      → Inv (update_stored_point db uuid body s).1
  unfolding update_stored_point
  update_stored_point-Inv uuid body s h = elim (Bool-cases (is_writeable body.write_mode)) [
    | inl writeable ↦ rw writeable (
        go_on_with-Inv _ (db.get_device body.device_uuid s)
          (keeps.on_get_device body.device_uuid s h)
          (λ device s' h'.
            keeps.on_update_point uuid (settle device.address_uuid body) s'
              (settle-IsSettled device.address_uuid body writeable) h'))
    | inr other ↦ rw other (
        keeps.on_update_point uuid (reset_writeable_properties body) s (reset-IsSettled body other)
          h)
  ]

  pub save_points-Inv : (points : List (Point F)) (s : db.S) → Inv s → Inv (save_points db points s)
  unfolding save_points
  save_points-Inv [] s h = h
  save_points-Inv (point ∷ points) s h =
      save_points-Inv points (add_point db (record point { enable_writeable = some false }) s).1
        (add_point-Inv (record point { enable_writeable = some false }) s h)

  update_addresses-Inv :
      (address : Option (List ℕ)) (points : List (Point F)) (s : db.S)
      → Inv s
      → Inv (update_addresses db address points s).1
  unfolding update_addresses
  update_addresses-Inv address [] s h = h
  update_addresses-Inv address (point ∷ points) s h =
      let moved : Point F = record point { address_uuid = address } in
      elim (Bool-cases (is_writeable point.write_mode)) [
        | inl writeable ↦ rw writeable (
            go_on_with-Inv _ (db.update_point point.uuid (settle address moved) s)
              (keeps.on_update_point point.uuid (settle address moved) s
                (settle-IsSettled address moved writeable) h)
              (λ updated. update_addresses-Inv address points))
        | inr other ↦ rw other (
            go_on_with-Inv _ (db.update_point point.uuid (reset_writeable_properties moved) s)
              (keeps.on_update_point point.uuid (reset_writeable_properties moved) s
                (reset-IsSettled moved other) h)
              (λ updated. update_addresses-Inv address points))
      ]

  pub update_device_points_address-Inv :
      (body : StoredDevice F) (s : db.S) → Inv s → Inv (update_device_points_address db body s).1
  unfolding update_device_points_address
  update_device_points_address-Inv body s h =
      go_on_with-Inv _ (db.get_device body.uuid s) (keeps.on_get_device body.uuid s h)
        (λ device. update_addresses-Inv body.address_uuid device.points)

  pub update_written_point_error-Inv :
      (point : Point F) (message : List ℕ) (s : db.S)
      → Inv s
      → Inv (update_written_point_error db point message s).1
  unfolding update_written_point_error
  update_written_point_error-Inv point message s h = keeps.on_point_write point.uuid _ s h

  pub on_write_exhausted-Inv :
      (max_retries : ℕ) (point : Point F) (s : db.S)
      → Inv s
      → Inv (on_write_exhausted db max_retries point s)
  unfolding on_write_exhausted
  on_write_exhausted-Inv max_retries point s h = elim (Bool-cases (length point.uuid == 0)) [
    | inl synthetic ↦ rw synthetic h
    | inr stored ↦ rw stored (update_written_point_error-Inv point _ s h)
  ]

  pub update_device_written_point-Inv :
      (found : Option (Point F)) (error : Option (List ℕ)) (s : db.S)
      → Inv s
      → Inv (update_device_written_point db found error s)
  unfolding update_device_written_point update_written_point_success
  update_device_written_point-Inv none error s h = h
  update_device_written_point-Inv (some point) none s h = keeps.on_point_write point.uuid _ s h
  update_device_written_point-Inv (some point) (some message) s h =
      update_written_point_error-Inv point message s h
