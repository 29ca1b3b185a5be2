-- ===== src/State/Transitions/Step.antt =====
-- The specification of a transition on the typed state: what it checks and what it changes, with no
-- JSON in between.
use habitat_new.Prelude.{
  Str, Option, none, some, List, [], ◌∷◌, All, Result, ok, err, or_err, ◌>>=◌, ◌>>◌,
}
use habitat_new.App.{Installation, installed}
use habitat_new.Proxy.{Rule}
use habitat_new.State.Types.{NodeState, StateError, bad_patch, no_diff, nil_init_state, no_process}
use habitat_new.State.Codec.{Codec, IsToken}
use habitat_new.State.Effects.{
  put_user, put_installation, put_process, put_rule, put_rules, set_installation_state,
  erase_installation, erase_process,
}
use habitat_new.State.Schema.{validate_node}
use habitat_new.State.Migrations.{migrated, node_data_migrations}
use habitat_new.State.Transitions.Defs.{
  Transition, initialization, migration, add_user, start_installation, finish_installation,
  uninstall, process_start, process_stop, add_reverse_proxy_rule, validate_add_user,
  validate_start_installation, validate_finish_installation, validate_uninstall,
  validate_process_start, validate_process_stop, validate_add_rule, fill_maps,
}

-- The installation, and its rules one after another.
unfoldable pub install : Installation → List Rule → NodeState → Option NodeState
unfolding put_installation put_rules
install a rules s = elim (put_installation a.id a s) [ none ↦ none | some s' ↦ put_rules rules s' ]

-- The IDs that the transition writes into the paths of its patch need no escaping.
abbrev pub HasTokens : Transition → Type 0
HasTokens (initialization _) = Unit
HasTokens (migration _) = Unit
HasTokens (add_user u) = IsToken u.id
HasTokens (start_installation a rules) = IsToken a.id × All (λ (r : Rule). IsToken r.id) rules
HasTokens (finish_installation id) = IsToken id
HasTokens (uninstall id) = IsToken id
HasTokens (process_start none) = Unit
HasTokens (process_start (some p)) = IsToken p.id
HasTokens (process_stop id) = IsToken id
HasTokens (add_reverse_proxy_rule r) = IsToken r.id

module _ (c : Codec) where
  unfoldable pub migrate : Str → NodeState → Result StateError NodeState
  unfolding migrated node_data_migrations validate_node
  migrate target s = do
    s' ← migrated c (node_data_migrations c) s.schema_version target s
    _ ← or_err (c.diff s s') no_diff
    validate_node c s'
    ok s'

  unfoldable pub step : Transition → NodeState → Result StateError NodeState
  unfolding migrate
  step (initialization none) s = err nil_init_state
  step (initialization (some t)) s = ok (fill_maps t)
  step (migration target) s = migrate target s
  step (add_user u) s = do validate_add_user u s; or_err (put_user u.id u s) bad_patch
  step (start_installation a rules) s = do
    validate_start_installation a s
    or_err (install a rules s) bad_patch
  step (finish_installation id) s = do
    validate_finish_installation id s
    or_err (set_installation_state id installed s) bad_patch
  step (uninstall id) s = do validate_uninstall id s; or_err (erase_installation id s) bad_patch
  step (process_start none) s = err no_process
  step (process_start (some p)) s = do
    validate_process_start p s
    or_err (put_process p.id p s) bad_patch
  step (process_stop id) s = do validate_process_stop id s; or_err (erase_process id s) bad_patch
  step (add_reverse_proxy_rule r) s = do validate_add_rule r s; or_err (put_rule r.id r s) bad_patch

  -- A list of transitions, up to the first that fails.
  unfoldable pub run : List Transition → NodeState → Result StateError NodeState
  unfolding step
  run [] s = ok s
  run (t ∷ ts) s = do s' ← step t s; run ts s'
