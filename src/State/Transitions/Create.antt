-- ===== src/State/Transitions/Create.antt =====
-- The functions that create transitions. A new UUID and the time come in as arguments.
use habitat_new.Prelude.{Str, some, List, Result, ok, ◌>>=◌}
use habitat_new.App.{Package, installing}
use habitat_new.Process.{new_id}
use habitat_new.Proxy.{Rule}
use habitat_new.State.Types.{NodeState, StateError, get_app_by_id}
use habitat_new.State.Transitions.Defs.{
  Transition, add_user, start_installation, process_start, add_reverse_proxy_rule,
}

-- CreateAddUserTransition
unfoldable pub create_add_user_transition : Str → Str → Str → Transition
create_add_user_transition uuid username did =
    add_user (record { id = uuid; username = username; did = did })

-- CreateStartInstallationTransition, with the new installation's ID
unfoldable pub create_start_installation_transition :
    (uuid user_id : Str) → Package → (version name : Str) → List Rule → Transition × Str
create_start_installation_transition uuid user_id pkg version name rules = (
  start_installation
      (record {
        id = uuid;
        user_id = user_id;
        name = name;
        version = version;
        state = installing;
        pkg = pkg;
      })
      rules,
  uuid,
)

-- CreateProcessStartTransition, with the new process's ID
unfoldable pub create_process_start_transition :
    (uuid now app_id : Str) → NodeState → Result StateError (Transition × Str)
unfolding new_id get_app_by_id
create_process_start_transition uuid now app_id s = do
  app ← get_app_by_id s app_id
  let id = new_id app.driver uuid
  ok (
    process_start
        (some (record { id = id; app_id = app.id; user_id = app.user_id; created = now })),
    id,
  )

-- CreateAddReverseProxyRuleTransition
unfoldable pub create_add_reverse_proxy_rule_transition :
    (uuid type matcher target app_id : Str) → Transition
create_add_reverse_proxy_rule_transition uuid type matcher target app_id =
    add_reverse_proxy_rule
      (record { id = uuid; type = type; matcher = matcher; target = target; app_id = app_id })
