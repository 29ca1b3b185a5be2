-- ===== src/Process/Defs.antt =====
-- Process IDs, the driver interface, and the process manager. A driver acts on a world, the
-- containers and servers outside the program, and returns what it did to it.
use habitat_new.Prelude.{
  Str, split, Bool, true, false, none, some, List, [], ◌∷◌, ◌++◌, Result, ok, err, or_err,
}
use habitat_new.Prelude.Dict.{find, insert}
use habitat_new.App.{Installation, noop, driver_type_from_string}

pub record Process : Type 0 where
  pub id : Str
  pub app_id : Str
  pub user_id : Str
  pub created : Str

-- The errors of the package, and those of a driver's own.
pub data ProcessError : Type 0 where
  no_proc_found : ProcessError
  already_running : Str → ProcessError
  driver_not_found : Str → ProcessError
  malformed_id : Str → ProcessError
  -- `unable to extract driver from process ID`, around its cause
  no_driver_in_id : Str → ProcessError → ProcessError
  -- `error starting process`, with the cause as text (`%s`)
  restore_failed : Str → ProcessError → ProcessError
  driver_error : Str → ProcessError

-- process.NewID, the UUID given.
unfoldable pub new_id : Str → Str → Str
new_id driver uuid = driver ++ b':' ∷ uuid

-- driverFromID
unfoldable pub driver_from_id : Str → Result ProcessError Str
unfolding split
driver_from_id id = elim (split b':' id) [
  | [] ↦ err (malformed_id id)
  | part ∷ [] ↦ err (malformed_id id)
  | part ∷ _ ∷ _ ↦ ok (driver_type_from_string part)
]

module _ (World : Type 0) where
  -- What a call returns, with the world that it leaves.
  abbrev pub Call : Type 0 → Type 0
  Call A = World → Result ProcessError A × World

  -- The interface Driver.
  pub record Driver : Type 0 where
    pub type : Str
    pub start : Str → Installation → Call (Unit {0})
    pub stop : Str → Call (Unit {0})
    pub is_running : Str → Call Bool
    pub list_running : Call (List Str)

  -- noopDriver; its Type is noop whatever NewNoopDriver was given.
  unfoldable pub noop_driver : Str → Driver
  noop_driver driver_type = record {
    type = noop;
    start = λ id app w. (ok tt, w);
    stop = λ id w. (ok tt, w);
    is_running = λ id w. (ok false, w);
    list_running = λ w. (ok [], w);
  }

-- baseProcessManager.drivers
abbrev pub Manager : Type 0 → Type 0
Manager World = List (Str × Driver World)

module _ {World : Type 0} where
  -- The loop of NewProcessManager: a later driver of a type takes the place of an earlier one.
  unfoldable pub register : Manager World → List (Driver World) → Manager World
  register pm [] = pm
  register pm (d ∷ ds) = register (insert d.type d pm) ds

  unfoldable pub new_process_manager : List (Driver World) → Manager World
  unfolding register
  new_process_manager drivers = register [] drivers

  list_from : Manager World → List Str → Call World (List Str)
  list_from [] all w = (ok all, w)
  list_from ((_, d) ∷ ds) all w =
      let (r, w') = d.list_running w in
      elim r [ err e ↦ (err e, w') | ok procs ↦ list_from ds (all ++ procs) w' ]

  -- ListRunningProcesses
  unfoldable pub list_running_processes : Manager World → Call World (List Str)
  unfolding list_from
  list_running_processes pm = list_from pm []

  -- The driver that the ID names, as IsRunning and StopProcess look it up.
  unfoldable pub driver_of_id : Manager World → Str → Result ProcessError (Driver World)
  driver_of_id pm id = elim (driver_from_id id) [
    | err e ↦ err (no_driver_in_id id e)
    | ok t ↦ or_err (find t pm) (driver_not_found t)
  ]

  -- baseProcessManager.IsRunning
  unfoldable pub is_running : Manager World → Str → Call World Bool
  unfolding driver_of_id
  is_running pm id w = elim (driver_of_id pm id) [ err e ↦ (err e, w) | ok d ↦ d.is_running id w ]

  -- baseProcessManager.StopProcess
  unfoldable pub stop_process : Manager World → Str → Call World (Unit {0})
  unfolding driver_of_id
  stop_process pm id w = elim (driver_of_id pm id) [ err e ↦ (err e, w) | ok d ↦ d.stop id w ]

  start_unless_running :
      Driver World → Str → Installation → Result ProcessError Bool → Call World (Unit {0})
  start_unless_running d id app (ok true) w = (err (already_running id), w)
  start_unless_running d id app (ok false) w = d.start id app w
  start_unless_running d id app (err e) w = (err e, w)

  -- baseProcessManager.StartProcess
  unfoldable pub start_process : Manager World → Str → Installation → Call World (Unit {0})
  unfolding start_unless_running
  start_process pm id app w = elim (find app.driver pm) [
    | none ↦ (err (driver_not_found app.driver), w)
    | some d ↦ let (r, w') = d.is_running id w in start_unless_running d id app r w'
  ]

  -- baseProcessManager.RestoreFromState
  unfoldable pub restore_from_state :
      Manager World → List (Str × Installation) → Call World (Unit {0})
  unfolding start_process
  restore_from_state pm [] w = (ok tt, w)
  restore_from_state pm ((id, app) ∷ state) w =
      let (r, w') = start_process pm id app w in
      elim r [ err e ↦ (err (restore_failed id e), w') | ok _ ↦ restore_from_state pm state w' ]
