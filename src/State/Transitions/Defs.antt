-- ===== src/State/Transitions/Defs.antt =====
-- The implementations of the interface Transition: Type, Validate and Patch. Both methods begin by
-- unmarshalling the old state where the source does.
use habitat_new.Prelude.{
  Str, str, str_eq, any, Bool, not, ◌&&◌, Option, none, some, is_some, List, [], ◌∷◌, ◌++◌, map,
  Result, ok, err, or_err, fail_if, ◌>>=◌, ◌>>◌, if◌then◌else◌,
}
use habitat_new.Prelude.Dict.{Dict, entries, get, values}
use habitat_new.App.{Installation, installing, installed}
use habitat_new.Process.{Process}
use habitat_new.Proxy.{Rule}
use habitat_new.State.Types.{
  NodeState, User, StateError, nil_dereference, bad_document, nil_init_state, user_id_exists,
  username_exists, user_not_found, app_version_found, app_other_version_found, package_found,
  no_driver_config, app_not_found, app_not_installing, no_process, app_not_installed,
  process_exists, app_has_process, process_not_found, rule_id_exists, matcher_exists, get_app_by_id,
}
use habitat_new.State.Codec.{
  Codec, Patch, Operation, Value, add, replace, remove, users_path, installations_path,
  processes_path, rules_path,
}
use habitat_new.State.Schema.{validate_node}
use habitat_new.State.Migrations.{get_migration_patch, node_data_migrations, apply_patch_to_state}

-- One constructor for each implementing struct.
pub data Transition : Type 0 where
  initialization : Option NodeState → Transition
  migration : Str → Transition
  add_user : User → Transition
  start_installation : Installation → List Rule → Transition
  finish_installation : Str → Transition
  uninstall : Str → Transition
  process_start : Option Process → Transition
  process_stop : Str → Transition
  add_reverse_proxy_rule : Rule → Transition

-- Type()
unfoldable pub transition_type : Transition → Str
transition_type (initialization _) = str "initialize"
transition_type (migration _) = str "migration_up"
transition_type (add_user _) = str "add_user"
transition_type (start_installation _ _) = str "start_installation"
transition_type (finish_installation _) = str "finish_installation"
transition_type (uninstall _) = str "start_uninstallation"
transition_type (process_start _) = str "process_start"
transition_type (process_stop _) = str "process_stop"
transition_type (add_reverse_proxy_rule _) = str "add_reverse_proxy_rule"

-- The error of the rule loop in addReverseProxyRuleTransition.Validate: that of the first rule
-- that clashes.
unfoldable pub rule_clash : Rule → List Rule → Option StateError
rule_clash rule [] = none
rule_clash rule (old ∷ olds) =
    if str_eq old.id rule.id
    then some (rule_id_exists rule.id)
    else if str_eq old.matcher rule.matcher
    then some (matcher_exists rule.matcher)
    else rule_clash rule olds

-- `if e != nil { return e }`
abbrev pub fail_with : Option StateError → Result StateError (Unit {0})
fail_with none = ok tt
fail_with (some e) = err e

abbrev pub same_package : Installation → Installation → Bool
same_package a b =
    str_eq a.registry_url_base b.registry_url_base
    && str_eq a.registry_package_id b.registry_package_id

-- An installation under the new ID, of the same or of another version.
abbrev pub installation_clash : Installation → Option Installation → Option StateError
installation_clash a none = none
installation_clash a (some old) =
    if str_eq old.version a.version
    then some (app_version_found a.name)
    else some (app_other_version_found a.name)

-- The methods Validate, on the state that the document unmarshals to.
unfoldable pub validate_add_user : User → NodeState → Result StateError (Unit {0})
unfolding get any values
validate_add_user user s = do
  fail_if (is_some (get user.id s.users)) (user_id_exists user.id)
  fail_if (any (λ (u : User). str_eq u.username user.username) (values (entries s.users)))
      (username_exists user.username)

unfoldable pub validate_start_installation : Installation → NodeState → Result StateError (Unit {0})
unfolding get any values
validate_start_installation a s = do
  fail_if (not (is_some (get a.user_id s.users))) (user_not_found a.user_id)
  fail_with (installation_clash a (get a.id s.app_installations))
  fail_if (any (λ (old : Installation). same_package old a) (values (entries s.app_installations)))
      (package_found a.user_id)
  fail_if (not (is_some a.driver_config)) no_driver_config

unfoldable pub validate_finish_installation : Str → NodeState → Result StateError (Unit {0})
unfolding get
validate_finish_installation app_id s = do
  a ← or_err (get app_id s.app_installations) (app_not_found app_id)
  fail_if (not (str_eq a.state installing)) (app_not_installing a.name)

unfoldable pub validate_uninstall : Str → NodeState → Result StateError (Unit {0})
unfolding get
validate_uninstall app_id s =
    fail_if (not (is_some (get app_id s.app_installations))) (app_not_found app_id)

unfoldable pub validate_process_start : Process → NodeState → Result StateError (Unit {0})
unfolding get any values get_app_by_id
validate_process_start p s = do
  a ← get_app_by_id s p.app_id
  fail_if (not (str_eq a.state installed)) (app_not_installed p.app_id)
  fail_if (not (is_some (get p.user_id s.users))) (user_not_found p.user_id)
  fail_if (is_some (get p.id s.processes)) (process_exists p.id)
  fail_if (any (λ (q : Process). str_eq q.app_id p.app_id) (values (entries s.processes)))
      (app_has_process p.app_id)

unfoldable pub validate_process_stop : Str → NodeState → Result StateError (Unit {0})
unfolding get
validate_process_stop id s = fail_if (not (is_some (get id s.processes))) (process_not_found id)

unfoldable pub validate_add_rule : Rule → NodeState → Result StateError (Unit {0})
unfolding rule_clash values
validate_add_rule rule s = fail_with (rule_clash rule (values (entries s.reverse_proxy_rules)))

-- The normalisation in initalizationTransition.Patch: nil maps become empty ones.
abbrev or_empty {ℓ} : {V : Type ℓ} → Dict V → Dict V
or_empty none = some []
or_empty (some m) = some m

unfoldable pub fill_maps : NodeState → NodeState
fill_maps s = record s {
  users = or_empty s.users;
  app_installations = or_empty s.app_installations;
  processes = or_empty s.processes;
  reverse_proxy_rules = or_empty s.reverse_proxy_rules;
}

abbrev pub rule_operation : Rule → Operation
rule_operation r = record { op = add; path = rules_path r.id; value = Value.rule r }

-- The methods Patch, on the state that the document unmarshals to.
abbrev pub patch_initialization : NodeState → Patch
patch_initialization s = record { op = add; path = []; value = Value.state (fill_maps s) } ∷ []

abbrev pub patch_add_user : User → Patch
patch_add_user user = record { op = add; path = users_path user.id; value = Value.user user } ∷ []

abbrev pub patch_start_installation : Installation → List Rule → NodeState → Result StateError Patch
patch_start_installation a rules s = do
  fail_if (not (is_some (get a.user_id s.users))) (user_not_found a.user_id)
  ok (
      record { op = add; path = installations_path a.id; value = Value.installation a }
      ∷ map rule_operation rules)

abbrev pub patch_finish_installation : Str → Patch
patch_finish_installation app_id =
    record {
      op = replace;
      path = installations_path app_id ++ str "/state";
      value = Value.text installed;
    }
    ∷ []

abbrev pub patch_uninstall : Str → Patch
patch_uninstall app_id =
    record { op = remove; path = installations_path app_id; value = Value.missing } ∷ []

abbrev pub patch_process_start : Process → Patch
patch_process_start p =
    record { op = add; path = processes_path p.id; value = Value.process p } ∷ []

abbrev pub patch_process_stop : Str → NodeState → Result StateError Patch
patch_process_stop id s = do
  fail_if (not (is_some (get id s.processes))) (process_not_found id)
  ok (record { op = remove; path = processes_path id; value = Value.missing } ∷ [])

module _ (c : Codec) where
  -- migrationTransition.Validate
  unfoldable pub validate_migration : Str → NodeState → Result StateError (Unit {0})
  unfolding get_migration_patch apply_patch_to_state validate_node
  validate_migration target s = do
    patch ← get_migration_patch c (node_data_migrations c) s.schema_version target s
    s' ← apply_patch_to_state c patch s
    validate_node c s'

  abbrev read : c.Document → Result StateError NodeState
  read d = or_err (c.unmarshal d) bad_document

  -- Validate(oldState)
  unfoldable pub validate : Transition → c.Document → Result StateError (Unit {0})
  validate (initialization none) d = err nil_init_state
  validate (initialization (some s)) d = ok tt
  validate (migration target) d = do s ← read d; validate_migration target s
  validate (add_user user) d = do s ← read d; validate_add_user user s
  validate (start_installation a rules) d = do s ← read d; validate_start_installation a s
  validate (finish_installation app_id) d = do s ← read d; validate_finish_installation app_id s
  validate (uninstall app_id) d = do s ← read d; validate_uninstall app_id s
  validate (process_start none) d = do s ← read d; err no_process
  validate (process_start (some p)) d = do s ← read d; validate_process_start p s
  validate (process_stop id) d = do s ← read d; validate_process_stop id s
  validate (add_reverse_proxy_rule rule) d = do s ← read d; validate_add_rule rule s

  -- Patch(oldState)
  unfoldable pub patch : Transition → c.Document → Result StateError Patch
  unfolding fill_maps get
  patch (initialization none) d = err nil_dereference
  patch (initialization (some s)) d = ok (patch_initialization s)
  patch (migration target) d = do
    s ← read d
    get_migration_patch c (node_data_migrations c) s.schema_version target s
  patch (add_user user) d = ok (patch_add_user user)
  patch (start_installation a rules) d = do s ← read d; patch_start_installation a rules s
  patch (finish_installation app_id) d = do s ← read d; ok (patch_finish_installation app_id)
  patch (uninstall app_id) d = ok (patch_uninstall app_id)
  patch (process_start none) d = do s ← read d; err nil_dereference
  patch (process_start (some p)) d = do s ← read d; ok (patch_process_start p)
  patch (process_stop id) d = do s ← read d; patch_process_stop id s
  patch (add_reverse_proxy_rule rule) d = ok (rule_operation rule ∷ [])
