-- ===== src/Controller/Apps.antt =====
-- The controller's methods on apps, users and the schema version, and the restore at startup.
use habitat_new.Prelude.{Str, Bool, none, some, List, [], ◌∷◌, Result, ok, err, if◌then◌else◌}
use habitat_new.Prelude.Dict.{Dict, entries, find, get, insert, values}
use habitat_new.App.{Installation, Package}
use habitat_new.Process.{Process, restore_from_state, ProcessError}
use habitat_new.Proxy.{Rule, RuleSet, add_rule}
use habitat_new.State.Types.{NodeState}
use habitat_new.State.Codec.{Codec}
use habitat_new.State.Schema.{is_eq}
use habitat_new.State.Transitions.{
  migration, finish_installation, uninstall, create_add_user_transition,
  create_start_installation_transition,
}
use habitat_new.State.Db.{Writing, state_of}
use habitat_new.Controller.Defs.{
  ControllerError, of_state, of_process, of_package, no_driver, app_of_process_missing,
  PackageManager, Node, Outcome, Parts, propose_only, start,
}

-- The map of the processes to restore, from what was put in it before.
unfoldable pub restore_info :
    Dict Installation
    → List Process
    → List (Str × Installation)
    → Result ControllerError (List (Str × Installation))
restore_info apps [] info = ok info
restore_info apps (p ∷ ps) info = elim (get p.app_id apps) [
  | none ↦ err (app_of_process_missing p.id p.app_id)
  | some app ↦ restore_info apps ps (insert p.id app info)
]

-- The loop of restore over the rules, which logs what AddRule refuses.
unfoldable pub restore_rules : List Rule → RuleSet → RuleSet
unfolding add_rule
restore_rules [] rs = rs
restore_rules (rule ∷ rules) rs = let (_, rs') = add_rule rule rs in restore_rules rules rs'

-- The loop of restore over the package managers.
restore_packages :
    {World : Type 0}
    → List (PackageManager World)
    → Dict Installation
    → World
    → Result ControllerError (Unit {0}) × World
restore_packages [] apps w = (ok tt, w)
restore_packages (m ∷ ms) apps w =
    let (r, w') = m.restore apps w in
    elim r [ err e ↦ (err (of_package e), w') | ok _ ↦ restore_packages ms apps w' ]

of_restore : Result ProcessError (Unit {0}) → Result ControllerError (Unit {0})
of_restore (ok _) = ok tt
of_restore (err e) = err (of_process e)

module _ {c : Codec} {World : Type 0} where
  -- The end of installApp, once the package is installed.
  finish_install :
      Parts c World
      → (app_id uuid now : Str) → (w w' w'' : Writing c) → Bool
      → Node c World
      → Outcome c World
  unfolding propose_only start
  finish_install parts app_id uuid now w w' w'' starts n =
      let (r, n') = propose_only w (finish_installation app_id ∷ []) n in
      elim r [
        | err e ↦ (err e, n')
        | ok _ ↦ if starts then start parts uuid now w' w'' app_id n' else (ok tt, n')
      ]

  -- installApp after the first transition.
  install_package :
      Parts c World
      → PackageManager World
      → Package
      → (version app_id uuid now : Str) → (w w' w'' : Writing c) → Bool
      → Node c World
      → Outcome c World
  unfolding finish_install
  install_package parts installer pkg version app_id uuid now w w' w'' starts n =
      let (r, world') = installer.install_package pkg version n.world in
      let n' : Node c World = record n { world = world' } in
      elim r [
        | err e ↦ (err (of_package e), n')
        | ok _ ↦ finish_install parts app_id uuid now w w' w'' starts n'
      ]

  -- Controller.installApp; app_id and uuid are the new UUIDs, w to w₃ the writes in their order.
  unfoldable pub install_app :
      Parts c World
      → (app_id uuid now : Str) → (w w₁ w₂ w₃ : Writing c) → (user_id : Str) → Package
      → (version name : Str) → List Rule
      → Bool
      → Node c World
      → Outcome c World
  unfolding install_package propose_only create_start_installation_transition
  install_app parts app_id uuid now w w₁ w₂ w₃ user_id pkg version name rules starts n =
      elim (find pkg.driver parts.packages) [
        | none ↦ (err (no_driver pkg.driver), n)
        | some installer ↦
            let (t, id) =
              create_start_installation_transition app_id user_id pkg version name rules in
            let (r, n') = propose_only w (t ∷ []) n in
            elim r [
              | err e ↦ (err e, n')
              | ok _ ↦ install_package parts installer pkg version id uuid now w₁ w₂ w₃ starts n'
            ]
      ]

  -- Controller.uninstallApp
  unfoldable pub uninstall_app : Writing c → Str → Node c World → Outcome c World
  unfolding propose_only
  uninstall_app w app_id = propose_only w (uninstall app_id ∷ [])

  -- Controller.addUser
  unfoldable pub add_user : Writing c → (uuid handle did : Str) → Node c World → Outcome c World
  unfolding propose_only create_add_user_transition
  add_user w uuid handle did = propose_only w (create_add_user_transition uuid handle did ∷ [])

  -- Controller.migrateDB
  unfoldable pub migrate_db : Writing c → Str → Node c World → Outcome c World
  unfolding propose_only state_of
  migrate_db w target n = elim (state_of c n.db) [
    | err e ↦ (err (of_state e), n)
    | ok s ↦
        if is_eq (c.compare_versions s.schema_version target)
        then (ok tt, n)
        else propose_only w (migration target ∷ []) n
  ]

  -- The end of restore: the processes.
  restore_processes : Parts c World → NodeState → Node c World → Outcome c World
  unfolding restore_info restore_from_state of_restore values
  restore_processes parts s n =
      elim (restore_info s.app_installations (values (entries s.processes)) []) [
        | err e ↦ (err e, n)
        | ok info ↦
            let (r, world') = restore_from_state parts.processes info n.world in
            (of_restore r, record n { world = world' })
      ]

  -- Controller.restore
  unfoldable pub restore : Parts c World → NodeState → Node c World → Outcome c World
  unfolding restore_packages restore_rules restore_processes values
  restore parts s n =
      let (r, world') = restore_packages (values parts.packages) s.app_installations n.world in
      elim r [
        | err e ↦ (err e, record n { world = world' })
        | ok _ ↦ restore_processes parts s (record n {
          world = world';
          rules = restore_rules (values (entries s.reverse_proxy_rules)) n.rules;
        })
      ]
