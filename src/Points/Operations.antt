-- ===== src/Points/Operations.antt =====
-- Any sequence of the module's calls that change the points of the database.
use module_core_loraraw.Prelude.{ℕ, Bool, List, [], ◌∷◌, Option, none, some, inl, inr, Option-cases}
use module_core_loraraw.Rubix.Floats.{Floats}
use module_core_loraraw.Points.Store.{Point, PointWriter, StoredDevice, Marshaller}
use module_core_loraraw.Points.Writer.{
  add_point, update_stored_point, write_point, save_point, add_point_from_name,
  select_point_by_io_number, update_point_value_error, on_write_exhausted,
  update_device_written_point, update_point_value_success, write_value_or_error,
  update_device_point,
}
use module_core_loraraw.Points.Setup.{update_device_points_address, add_points_from_name}
use module_core_loraraw.Points.Invariant.{
  Keeps, go_on_with-Inv, add_point-Inv, update_stored_point-Inv, save_points-Inv,
  update_device_points_address-Inv, on_write_exhausted-Inv, update_device_written_point-Inv,
}

-- A call, with the arguments that its caller gives it.
pub data PointOperation (F : Type 0) : Type 0 where
  add : Point F → PointOperation F
  update : List ℕ → Point F → PointOperation F
  write : List ℕ → PointWriter F → PointOperation F
  add_names : (List (Point F) → List (Point F)) → StoredDevice F → List (List ℕ) → PointOperation F
  move_address : StoredDevice F → PointOperation F
  device_point : List ℕ → F → Option (List ℕ) → StoredDevice F → Bool → PointOperation F
  written : Option (Point F) → Option (List ℕ) → PointOperation F
  exhausted : ℕ → Point F → PointOperation F

module _ (fl : Floats) (db : Marshaller fl.F64) (to_temperature : fl.F64 → fl.F64)
    (title : List ℕ → List ℕ) where
  -- The database after a call, whatever its result.
  unfoldable pub perform : PointOperation fl.F64 → db.S → db.S
  perform (add body) s = (add_point db body s).1
  perform (update uuid body) s = (update_stored_point db uuid body s).1
  perform (write uuid body) s = (write_point db uuid body s).1
  perform (add_names order device names) s = add_points_from_name db title order device names s
  perform (move_address body) s = (update_device_points_address db body s).1
  perform (device_point id value error device uart) s =
      (update_device_point fl db to_temperature title id value error device uart s).1
  perform (written found error) s = update_device_written_point db found error s
  perform (exhausted max_retries point) s = on_write_exhausted db max_retries point s

  unfoldable pub perform_all : List (PointOperation fl.F64) → db.S → db.S
  perform_all [] s = s
  perform_all (operation ∷ operations) s = perform_all operations (perform operation s)

  module _ (Inv : db.S → Type 0) (keeps : Keeps db Inv) where
    write_value_or_error-Inv :
        (point : Point fl.F64) (value : fl.F64) (error : Option (List ℕ)) (model : List ℕ)
        (s : db.S)
        → Inv s
        → Inv (write_value_or_error fl db to_temperature title point value error model s).1
    unfolding update_point_value_success update_point_value_error
    write_value_or_error-Inv point value none model s h = keeps.on_point_write point.uuid _ s h
    write_value_or_error-Inv point value (some message) model s h =
        keeps.on_point_write point.uuid _ s h

    add_point_from_name-Inv :
        (device : StoredDevice fl.F64) (id : List ℕ) (uart : Bool) (s : db.S)
        → Inv s
        → Inv (add_point_from_name db title device id uart s).1
    unfolding add_point_from_name save_point
    add_point_from_name-Inv device id uart s h = add_point-Inv db Inv keeps _ s h

    update_device_point-Inv :
        (id : List ℕ) (value : fl.F64) (error : Option (List ℕ)) (device : StoredDevice fl.F64)
        (uart : Bool) (s : db.S)
        → Inv s
        → Inv (update_device_point fl db to_temperature title id value error device uart s).1
    unfolding update_device_point
    update_device_point-Inv id value error device uart s h =
        elim (Option-cases (select_point_by_io_number id device.points)) [
          | inr (point, known) ↦
              rw (known, update_device_point)
                (write_value_or_error-Inv point value error device.model s h)
          | inl unknown ↦
              rw (unknown, update_device_point)
                (go_on_with-Inv db Inv keeps _ (add_point_from_name db title device id uart s)
                  (add_point_from_name-Inv device id uart s h)
                  (λ point. write_value_or_error-Inv point value error device.model))
        ]

    perform-Inv : (operation : PointOperation fl.F64) (s : db.S) → Inv s → Inv (perform operation s)
    unfolding perform add_points_from_name write_point
    perform-Inv (add body) s h = add_point-Inv db Inv keeps body s h
    perform-Inv (update uuid body) s h = update_stored_point-Inv db Inv keeps uuid body s h
    perform-Inv (write uuid body) s h = keeps.on_point_write uuid _ s h
    perform-Inv (add_names order device names) s h = save_points-Inv db Inv keeps _ s h
    perform-Inv (move_address body) s h = update_device_points_address-Inv db Inv keeps body s h
    perform-Inv (device_point id value error device uart) s h =
        update_device_point-Inv id value error device uart s h
    perform-Inv (written found error) s h =
        update_device_written_point-Inv db Inv keeps found error s h
    perform-Inv (exhausted max_retries point) s h =
        on_write_exhausted-Inv db Inv keeps max_retries point s h

    -- Whatever calls add, edit, move, update and write points, in whatever order, an invariant of the
    -- database that settled points keep is kept: each point that reaches it by a creation or an update is enabled for
    -- writing and for polling of writes exactly if its write mode is writeable, and has no value to
    -- write otherwise.
    pub perform_all-Inv :
        (operations : List (PointOperation fl.F64)) (s : db.S)
        → Inv s
        → Inv (perform_all operations s)
    unfolding perform_all
    perform_all-Inv [] s h = h
    perform_all-Inv (operation ∷ operations) s h =
        perform_all-Inv operations (perform operation s) (perform-Inv operation s h)
