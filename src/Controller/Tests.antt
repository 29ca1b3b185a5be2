-- ===== src/Controller/Tests.antt =====
-- Runs of the controller on a node whose drivers and states are concrete.
use habitat_new.Prelude.{
  ℕ, ◌+◌, str, str_eq, any, cut_prefix, has_prefix, false, none, some, [], ◌∷◌, In, inl, ◌≡◌, ◌≢◌,
  ◌↔◌, subst, sym, is_some, true, refl, arith, ok, err, is_ok,
}
use habitat_new.Prelude.Dict.{find, insert, erase, get, values, entries}
use habitat_new.App.{driver_type_from_string, Installation, noop, installed}
use habitat_new.Process.{
  Process, ProcessError, Driver, driver_from_id, driver_error, no_proc_found, start_process,
  stop_process,
}
use habitat_new.State.Types.{NodeState, User, zero_state}
use habitat_new.State.Effects.{put_process, erase_process}
use habitat_new.State.Transitions.{
  validate_process_start, validate_process_stop, create_process_start_transition,
}
use habitat_new.State.Schema.{validate_state}
use habitat_new.State.Db.{done, propose, state_of}
use habitat_new.State.Sample.{sample, sample_laws, sample_encodes, sample_decodes, apply_all}
use habitat_new.Controller.Defs.{Node, Parts, of_process, is_no_proc_found, start, stop}
use habitat_new.Controller.Apps.{restore, uninstall_app}
use habitat_new.Controller.Server.{start_process_handler}
use habitat_new.Controller.Starting.{start-unreported, StartsNothing, RolledBack}
use habitat_new.Controller.Stopping.{stop-removes}
use habitat_new.Controller.Restoring.{restore-after_uninstall, IsAccepted, without}

abbrev app : Installation
app = record {
  id = str "a1";
  user_id = str "u1";
  name = str "pear";
  version = str "1";
  state = installed;
  pkg = record {
    driver = noop;
    driver_config = some [];
    registry_url_base = str "reg";
    registry_package_id = str "pear";
    registry_package_tag = str "1";
  };
}

abbrev ann : User
ann = record { id = str "u1"; username = str "ann"; did = [] }

abbrev idle : NodeState
idle = record zero_state {
  schema_version = str "v0.0.8";
  users = some ((ann.id, ann) ∷ []);
  processes = some [];
  app_installations = some ((app.id, app) ∷ []);
  reverse_proxy_rules = some [];
}

abbrev pear : Process
pear = record { id = str "noop:7"; app_id = app.id; user_id = ann.id; created = str "now" }

abbrev running : NodeState
running = record idle { processes = some ((pear.id, pear) ∷ []) }

-- A driver that can neither start nor, for one reason or another, stop a process.
abbrev broken : ProcessError → Driver ℕ
broken e = record {
  type = noop;
  start = λ id a w. (err (driver_error (str "no")), w + 1);
  stop = λ id w. (err e, w + 1);
  is_running = λ id w. (ok false, w);
  list_running = λ w. (ok [], w);
}

abbrev parts : ProcessError → Parts sample ℕ
parts e = record { processes = (noop, broken e) ∷ []; packages = [] }

abbrev node : NodeState → Node sample ℕ
node s = record { db = record { state = s; file = some s }; rules = []; world = 0 }

starts_nothing : (e : ProcessError) → StartsNothing (parts e)
unfolding start_process find
starts_nothing e id a w = ground arith

start-unreported_example :
    let n = node idle in
    ((start (parts no_proc_found) (str "7") (str "now") done done (str "a1") n).0
      ≢ err (of_process (driver_error (str "no"))))
    × ((start (parts no_proc_found) (str "7") (str "now") done done (str "a1") n).1.rules ≡ [])
    × (((start_process_handler
            (parts no_proc_found)
            (str "7")
            (str "now")
            done
            done
            (some (str "a1"))
            n).0
          ≡ 201)
        ↔ RolledBack (str "7") (str "now") done done (str "a1") n)
start-unreported_example =
    start-unreported (parts no_proc_found) (str "7") (str "now") done done (str "a1") (node idle)
      (driver_error (str "no")) (starts_nothing no_proc_found)

-- The process did not start, and the answer is 201.
rolled_back :
    (start_process_handler
      (parts no_proc_found)
      (str "7")
      (str "now")
      done
      done
      (some (str "a1"))
      (node idle)).0
    ≡ 201
unfolding start_process_handler start_process propose create_process_start_transition
    validate_process_start put_process apply_all str_eq cut_prefix find insert any values get
    has_prefix validate_process_stop erase_process erase
rolled_back = refl

stop_fails :
    (stop_process (parts (driver_error (str "x"))).processes (str "noop:7") 0).0
    ≡ err (driver_error (str "x"))
unfolding stop_process find str_eq driver_from_id driver_type_from_string
stop_fails = refl

other_error : is_no_proc_found (driver_error (str "x")) ≡ false
unfolding is_no_proc_found
other_error = refl

-- The driver does not know the process, and the state lets it go.
stopped : (stop (parts no_proc_found) done (str "noop:7") (node running)).0 ≡ ok tt
unfolding stop stop_process validate_process_stop erase_process apply_all str_eq cut_prefix find
    erase any values get has_prefix driver_from_id driver_type_from_string
stopped = refl

stop-removes_example :
    (s' : NodeState) × sample_laws.Encodes
      (stop (parts no_proc_found) done (str "noop:7") (node running)).1.db.state
      s'
    × (get (str "noop:7") s'.processes ≡ none)
stop-removes_example =
    stop-removes sample_laws (parts no_proc_found) (str "noop:7") (node running) running
      (sample_encodes running) (omega arith) stopped

installed_a1 : is_some (get (str "a1") running.app_installations) ≡ true
unfolding get find str_eq
installed_a1 = refl

stands : In pear (values (entries running.processes))
unfolding values
stands = inl refl

good : validate_state sample (without (str "a1") running) ≡ ok tt
unfolding validate_state str_eq
good = refl

-- The schema of the sample takes every document of this version.
accepted : IsAccepted sample_laws (without (str "a1") running)
accepted d e =
    subst (λ (x : NodeState). validate_state sample x ≡ ok tt)
      (sym (sample_decodes d (without (str "a1") running) e)) good

restore-after_uninstall_example :
    ((uninstall_app done (str "a1") (node running)).0 ≡ ok tt)
    × (state_of sample (uninstall_app done (str "a1") (node running)).1.db
        ≡ ok (without (str "a1") running))
    × (is_ok (restore (parts no_proc_found) (without (str "a1") running) (node idle)).0 ≡ false)
restore-after_uninstall_example =
    restore-after_uninstall sample_laws (parts no_proc_found) (str "a1") running pear (node running)
      (node idle) (sample_encodes running) (omega arith) installed_a1 accepted stands refl
