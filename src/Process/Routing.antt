-- ===== src/Process/Routing.antt =====
-- The process manager finds the driver of a process: the one that is registered last for its type,
-- and the same one to start, to ask and to stop.
use habitat_new.Prelude.{
  Str, str_eq, true, false, Option, none, some, List, [], ◌∷◌, ◌≡◌, refl, ◌∙◌, ap, ok, err, or_err,
  arith, if◌then◌else◌,
}
use habitat_new.Prelude.Dict.{find, insert, find-insert}
use habitat_new.App.{Installation}
use habitat_new.Process.Defs.{
  Driver, Manager, register, new_process_manager, new_id, driver_of_id, is_running, stop_process,
  start_process, driver_not_found, already_running,
}
use habitat_new.Process.Ids.{IsDriverType, driver_from_id-round_trip}

module _ {World : Type 0} where
  -- The last driver of a type in a list, or else the one given.
  abbrev pub last_of_type :
      Str → Option (Driver World) → List (Driver World) → Option (Driver World)
  last_of_type t found [] = found
  last_of_type t found (d ∷ ds) = last_of_type t (if str_eq d.type t then some d else found) ds

  find-register :
      (t : Str) (pm : Manager World) (ds : List (Driver World))
      → find t (register pm ds) ≡ last_of_type t (find t pm) ds
  unfolding register
  find-register t pm [] = refl
  find-register t pm (d ∷ ds) =
      find-register t (insert d.type d pm) ds
      ∙ ap (λ (o : Option (Driver World)). last_of_type t o ds) (find-insert d.type t d pm)

  -- NewProcessManager holds, for each driver type, the last of the given drivers that has it.
  pub find-new_process_manager :
      (t : Str) (ds : List (Driver World))
      → find t (new_process_manager ds) ≡ last_of_type t none ds
  unfolding new_process_manager find
  find-new_process_manager t ds = find-register t [] ds

  driver_of_id-new_id :
      (pm : Manager World) (t uuid : Str)
      → IsDriverType t
      → driver_of_id pm (new_id t uuid) ≡ or_err (find t pm) (driver_not_found t)
  unfolding driver_of_id
  driver_of_id-new_id pm t uuid h = rw (driver_from_id-round_trip t uuid h, driver_of_id)

  -- For an app with one of the program's driver types, whose driver d is registered, and an ID that
  -- NewID made for it: IsRunning and StopProcess are d's, and StartProcess is d's start unless d
  -- says that the process runs (an error) or fails to say.
  pub one_driver :
      (pm : Manager World) (uuid : Str) (app : Installation) (d : Driver World) (w : World)
      → IsDriverType app.driver
      → find app.driver pm ≡ some d
      → let id = new_id app.driver uuid in
        (is_running pm id w ≡ d.is_running id w)
        × (stop_process pm id w ≡ d.stop id w)
        × (start_process pm id app w ≡ (elim (d.is_running id w).0 [
          | ok true ↦ (err (already_running id), (d.is_running id w).1)
          | ok false ↦ d.start id app (d.is_running id w).1
          | err e ↦ (err e, (d.is_running id w).1)
        ]))
  unfolding is_running stop_process start_process
  one_driver pm uuid app d w h f =
      let same : driver_of_id pm (new_id app.driver uuid) ≡ ok d =
        driver_of_id-new_id pm app.driver uuid h
        ∙ ap (λ (o : Option (Driver World)). or_err o (driver_not_found app.driver)) f in
      (rw (same, is_running), rw (same, stop_process), ground arith)
