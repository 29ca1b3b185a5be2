-- ===== src/Process/Tests.antt =====
-- Runs of the process manager with the driver that does nothing and with one that refuses.
use habitat_new.Prelude.{
  ℕ, str, str_eq, true, false, some, List, [], ◌∷◌, inl, inr, ◌≡◌, refl, ok, err,
}
use habitat_new.Prelude.Dict.{find, insert}
use habitat_new.App.{Installation, noop, docker}
use habitat_new.Process.Defs.{
  Driver, Manager, noop_driver, new_process_manager, new_id, driver_from_id, is_running,
  stop_process, start_process, restore_from_state, already_running, driver_not_found,
  restore_failed,
}
use habitat_new.Process.Ids.{driver_from_id-round_trip}
use habitat_new.Process.Routing.{one_driver}
use habitat_new.Process.Restore.{Restored, restore_from_state-Restored}

abbrev app : Installation
app = record {
  id = str "a1";
  user_id = str "u1";
  name = str "pear";
  version = str "1";
  state = str "installed";
  pkg = record {
    driver = noop;
    driver_config = some [];
    registry_url_base = str "reg";
    registry_package_id = str "pear";
    registry_package_tag = str "1";
  };
}

-- The world counts nothing.
abbrev drivers : List (Driver ℕ)
drivers = noop_driver ℕ noop ∷ []

abbrev pm : Manager ℕ
pm = (noop, noop_driver ℕ noop) ∷ []

managed : new_process_manager drivers ≡ pm
unfolding new_process_manager insert noop_driver
managed = refl

-- The second app has no driver: the restore stops there.
restoring :
    restore_from_state pm
      ((str "noop:1", app)
        ∷ (str "docker:2", record app { pkg = record app.pkg { driver = docker } })
        ∷ [])
      7
    ≡ (err (restore_failed (str "docker:2") (driver_not_found docker)), 7)
unfolding restore_from_state find str_eq noop_driver
restoring = refl

driver_from_id-round_trip_example : driver_from_id (new_id docker (str "7f:1")) ≡ ok docker
driver_from_id-round_trip_example =
    driver_from_id-round_trip docker (str "7f:1") (inr (inr (inl refl)))

found : find noop pm ≡ some (noop_driver ℕ noop)
unfolding find str_eq
found = refl

one_driver_example :
    let d = noop_driver ℕ noop in
    let id = new_id noop (str "9") in
    (is_running pm id 7 ≡ d.is_running id 7)
    × (stop_process pm id 7 ≡ d.stop id 7)
    × (start_process pm id app 7 ≡ (elim (d.is_running id 7).0 [
      | ok true ↦ (err (already_running id), (d.is_running id 7).1)
      | ok false ↦ d.start id app (d.is_running id 7).1
      | err e ↦ (err e, (d.is_running id 7).1)
    ]))
one_driver_example = one_driver pm (str "9") app (noop_driver ℕ noop) 7 (inr (inl refl)) found

restore_from_state-Restored_example :
    Restored pm ((str "noop:1", app) ∷ []) 7 (restore_from_state pm ((str "noop:1", app) ∷ []) 7)
restore_from_state-Restored_example = restore_from_state-Restored pm ((str "noop:1", app) ∷ []) 7
