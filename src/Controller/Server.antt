-- ===== src/Controller/Server.antt =====
-- CtrlServer: the HTTP handlers. A request body is none where it does not decode; an answer is its
-- status code, with the state or list that the handler writes.
use habitat_new.Prelude.{ℕ, Str, Bool, Option, none, some, List, ok, err}
use habitat_new.App.{Package}
use habitat_new.Process.{list_running_processes}
use habitat_new.Proxy.{Rule}
use habitat_new.State.Types.{NodeState}
use habitat_new.State.Codec.{Codec}
use habitat_new.State.Db.{Writing, state_of}
use habitat_new.Controller.Defs.{Node, Outcome, Parts, start, stop}
use habitat_new.Controller.Apps.{install_app, uninstall_app, add_user, migrate_db, restore}

-- The app_installation of an InstallAppRequest, with the fields that InstallApp reads.
pub record RequestedApp : Type 0 where
  pub pkg : Option Package
  pub version : Str
  pub name : Str

-- InstallAppRequest, with no null among its rules.
pub record InstallAppRequest : Type 0 where
  pub app_installation : Option RequestedApp
  pub rules : List Rule
  pub start_after_install : Bool

-- AddUserRequest
pub record AddUserRequest : Type 0 where
  pub did : Str
  pub handle : Str

module _ {c : Codec} {World : Type 0} where
  -- The end of a handler: 500 for an error, else the handler's own status.
  abbrev answer : ℕ → Outcome c World → ℕ × Node c World
  answer status (ok _, n) = (status, n)
  answer status (err _, n) = (500, n)

  -- CtrlServer.StartProcess
  unfoldable pub start_process_handler :
      Parts c World
      → (uuid now : Str) → (w w' : Writing c) → Option Str
      → Node c World
      → ℕ × Node c World
  unfolding start
  start_process_handler parts uuid now w w' none n = (400, n)
  start_process_handler parts uuid now w w' (some app_id) n =
      answer 201 (start parts uuid now w w' app_id n)

  -- CtrlServer.StopProcess
  unfoldable pub stop_process_handler :
      Parts c World → Writing c → Option Str → Node c World → ℕ × Node c World
  unfolding stop
  stop_process_handler parts w none n = (400, n)
  stop_process_handler parts w (some id) n = answer 200 (stop parts w id n)

  -- CtrlServer.ListProcesses
  unfoldable pub list_processes_handler :
      Parts c World → Node c World → (ℕ × Option (List Str)) × Node c World
  unfolding list_running_processes
  list_processes_handler parts n =
      let (r, world') = list_running_processes parts.processes n.world in
      let n' : Node c World = record n { world = world' } in
      elim r [ err e ↦ ((500, none), n') | ok procs ↦ ((200, some procs), n') ]

  -- CtrlServer.InstallApp. It panics, and answers nothing, where the body has no app_installation,
  -- and where that has no package, which is the first thing that installApp reads.
  unfoldable pub install_app_handler :
      Parts c World
      → (app_id uuid now : Str) → (w w₁ w₂ w₃ : Writing c) → (user_id : Str)
      → Option InstallAppRequest
      → Node c World
      → Option ℕ × Node c World
  unfolding install_app
  install_app_handler parts app_id uuid now w w₁ w₂ w₃ user_id none n = (some 400, n)
  install_app_handler parts app_id uuid now w w₁ w₂ w₃ user_id (some r) n =
      elim r.app_installation [
        | none ↦ (none, n)
        | some a ↦ elim a.pkg [
          | none ↦ (none, n)
          | some pkg ↦
              let (status, n') = answer 201 (
                install_app parts app_id uuid now w w₁ w₂ w₃ user_id pkg a.version a.name r.rules
                  r.start_after_install n) in
              (some status, n')
        ]
      ]

  -- CtrlServer.UninstallApp
  unfoldable pub uninstall_app_handler : Writing c → Option Str → Node c World → ℕ × Node c World
  unfolding uninstall_app
  uninstall_app_handler w none n = (400, n)
  uninstall_app_handler w (some app_id) n = answer 200 (uninstall_app w app_id n)

  -- CtrlServer.GetNodeState
  unfoldable pub get_node_state_handler : Node c World → ℕ × Option NodeState
  unfolding state_of
  get_node_state_handler n = elim (state_of c n.db) [ err e ↦ (500, none) | ok s ↦ (200, some s) ]

  -- CtrlServer.AddUser
  unfoldable pub add_user_handler :
      Writing c → Str → Option AddUserRequest → Node c World → ℕ × Node c World
  unfolding add_user
  add_user_handler w uuid none n = (400, n)
  add_user_handler w uuid (some r) n = answer 200 (add_user w uuid r.handle r.did n)

  -- CtrlServer.MigrateDB
  unfoldable pub migrate_db_handler : Writing c → Option Str → Node c World → ℕ × Node c World
  unfolding migrate_db
  migrate_db_handler w none n = (400, n)
  migrate_db_handler w (some target) n = answer 200 (migrate_db w target n)

  -- NewCtrlServer: whether a server comes back, with the node after the restore.
  unfoldable pub new_ctrl_server : Parts c World → NodeState → Node c World → Outcome c World
  unfolding restore
  new_ctrl_server = restore
