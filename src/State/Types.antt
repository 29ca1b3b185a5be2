-- ===== src/State/Types.antt =====
-- The node state with its queries, and the errors of the package (state.go). A nil map is none.
use habitat_new.Prelude.{
  Str, str, str_eq, none, some, List, [], filter, Result, ok, err, or_err, ◌>>=◌,
}
use habitat_new.Prelude.Dict.{Dict, entries, get, insert, values}
use habitat_new.App.{Installation}
use habitat_new.Process.{Process}
use habitat_new.Proxy.{Rule}

pub record User : Type 0 where
  pub id : Str
  pub username : Str
  pub did : Str

pub record NodeState : Type 0 where
  pub node_id : Str
  pub name : Str
  pub certificate : Str
  pub schema_version : Str
  pub test_field : Str
  pub users : Dict User
  pub processes : Dict Process
  pub app_installations : Dict Installation
  pub reverse_proxy_rules : Dict Rule

-- &NodeState{}
abbrev pub zero_state : NodeState
zero_state = record {
  node_id = [];
  name = [];
  certificate = [];
  schema_version = [];
  test_field = [];
  users = none;
  processes = none;
  app_installations = none;
  reverse_proxy_rules = none;
}

-- The errors, one constructor for each message; nil_dereference is Go's panic.
pub data StateError : Type 0 where
  nil_dereference : StateError
  bad_document : StateError
  bad_patch : StateError
  no_diff : StateError
  bad_migration_file : StateError
  bad_schema : StateError
  target_version_not_found : Str → StateError
  schema_violation : Str → StateError
  same_version : StateError
  no_migrations_found : StateError
  partial_migration_range : StateError
  nil_init_state : StateError
  user_id_exists : Str → StateError
  username_exists : Str → StateError
  user_not_found : Str → StateError
  app_version_found : Str → StateError
  app_other_version_found : Str → StateError
  package_found : Str → StateError
  no_driver_config : StateError
  app_not_found : Str → StateError
  app_not_installing : Str → StateError
  no_process : StateError
  app_not_installed : Str → StateError
  process_exists : Str → StateError
  app_has_process : Str → StateError
  process_not_found : Str → StateError
  rule_id_exists : Str → StateError
  matcher_exists : Str → StateError
  -- `transition validation failed` and `error validating updated state`, around their causes
  validation_failed : StateError → StateError
  schema_rejected : StateError → StateError
  read_failed : StateError

-- GetAppByID
unfoldable pub get_app_by_id : NodeState → Str → Result StateError Installation
unfolding get
get_app_by_id s app_id = or_err (get app_id s.app_installations) (app_not_found app_id)

-- GetAppsForUser
unfoldable pub get_apps_for_user : NodeState → Str → List Installation
unfolding values
get_apps_for_user s user_id =
    filter (λ (a : Installation). str_eq a.user_id user_id) (values (entries s.app_installations))

-- GetProcessesForUser
unfoldable pub get_processes_for_user : NodeState → Str → List Process
unfolding values
get_processes_for_user s user_id =
    filter (λ (p : Process). str_eq p.user_id user_id) (values (entries s.processes))

-- GetReverseProxyRulesForProcess
unfoldable pub get_reverse_proxy_rules_for_process : NodeState → Str → Result StateError (List Rule)
unfolding get values
get_reverse_proxy_rules_for_process s process_id = do
  process ← or_err (get process_id s.processes) (process_not_found process_id)
  app ← or_err (get process.app_id s.app_installations) (app_not_found process.app_id)
  ok (filter (λ (r : Rule). str_eq r.app_id app.id) (values (entries s.reverse_proxy_rules)))

abbrev pub root_user_id : Str
root_user_id = str "0"

abbrev pub root_username : Str
root_username = str "root"

-- SetRootUserCert; a write to a nil map panics.
unfoldable pub set_root_user_cert : NodeState → Str → Result StateError NodeState
set_root_user_cert s cert = elim s.users [
  | none ↦ err nil_dereference
  | some m ↦ ok (record s {
    users =
        some (
          insert root_user_id (record { id = root_user_id; username = root_username; did = [] }) m);
  })
]
