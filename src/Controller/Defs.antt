-- ===== src/Controller/Defs.antt =====
-- Controller: each method acts on the node, which is the database, the proxy's rules and the world
-- of the drivers and package managers. New UUIDs, the time and how writes end are arguments.
use habitat_new.Prelude.{
  Str, str_eq, Bool, true, false, none, some, List, [], ◌∷◌, Result, ok, err, if◌then◌else◌,
}
use habitat_new.Prelude.Dict.{Dict, entries, get, values}
use habitat_new.App.{Installation, Package}
use habitat_new.Process.{ProcessError, no_proc_found, Manager, start_process, stop_process}
use habitat_new.Proxy.{Rule, RuleSet, add_rule}
use habitat_new.State.Types.{NodeState, StateError}
use habitat_new.State.Codec.{Codec}
use habitat_new.State.Transitions.{Transition, process_stop, create_process_start_transition}
use habitat_new.State.Db.{FileDb, Writing, propose, state_of}

pub data ControllerError : Type 0 where
  of_state : StateError → ControllerError
  of_process : ProcessError → ControllerError
  of_package : Str → ControllerError
  app_missing : Str → ControllerError
  no_driver : Str → ControllerError
  -- `no app installation found for desired process`
  app_of_process_missing : (process_id app_id : Str) → ControllerError

-- The interface app.PackageManager, as far as the controller calls it.
pub record PackageManager (World : Type 0) : Type 0 where
  pub install_package : Package → Str → World → Result Str (Unit {0}) × World
  pub restore : Dict Installation → World → Result Str (Unit {0}) × World

module _ (c : Codec) (World : Type 0) where
  pub record Node : Type 0 where
    pub db : FileDb c
    pub rules : RuleSet
    pub world : World

  -- What a method returns, with the node that it leaves.
  abbrev pub Outcome : Type 0
  Outcome = Result ControllerError (Unit {0}) × Node

  -- The parts of the controller that do not change.
  pub record Parts : Type 0 where
    pub processes : Manager World
    pub packages : List (Str × PackageManager World)

abbrev of_propose : {A : Type 0} → Result StateError A → Result ControllerError (Unit {0})
of_propose (ok _) = ok tt
of_propose (err e) = err (of_state e)

-- The registration loop of startProcess. errors.Wrap returns nil for a nil error, so a rule that
-- is refused ends the loop without an error.
unfoldable pub register_rules : Str → List Rule → RuleSet → RuleSet
unfolding add_rule
register_rules app_id [] rs = rs
register_rules app_id (rule ∷ rules) rs =
    let (r, rs') = add_rule rule rs in
    let rest = register_rules app_id rules rs' in
    let others = register_rules app_id rules rs in
    if str_eq rule.app_id app_id then (elim r [ err e ↦ rs' | ok _ ↦ rest ]) else others

-- errors.Is(e, process.ErrNoProcFound)
unfoldable pub is_no_proc_found : ProcessError → Bool
is_no_proc_found no_proc_found = true
is_no_proc_found _ = false

module _ {c : Codec} {World : Type 0} where
  -- `_, err = c.db.ProposeTransitions(ts); return err`
  unfoldable pub propose_only : Writing c → List Transition → Node c World → Outcome c World
  unfolding propose
  propose_only w ts n = let (r, db') = propose c w ts n.db in (of_propose r, record n { db = db' })

  -- startProcess once the process runs.
  publish_rules : Installation → Node c World → Outcome c World
  unfolding register_rules state_of values
  publish_rules app n = elim (state_of c n.db) [
    | err e ↦ (err (of_state e), n)
    | ok s ↦ (
      ok tt,
      record n { rules = register_rules app.id (values (entries s.reverse_proxy_rules)) n.rules },
    )
  ]

  -- startProcess once the transition is written: run the process, or take the transition back.
  -- The error of a process that did not start gives way to that of the rollback.
  unfoldable pub run_process :
      Parts c World → Writing c → Str → Installation → Node c World → Outcome c World
  unfolding start_process propose_only publish_rules
  run_process parts w id app n =
      let (r, world') = start_process parts.processes id app n.world in
      let n' : Node c World = record n { world = world' } in
      elim r [ err e ↦ propose_only w (process_stop id ∷ []) n' | ok _ ↦ publish_rules app n' ]

  -- startProcess with the state that it has read.
  unfoldable pub start_in :
      Parts c World
      → (uuid now : Str) → (w w' : Writing c) → Str
      → NodeState
      → Node c World
      → Outcome c World
  unfolding run_process propose get create_process_start_transition
  start_in parts uuid now w w' app_id s n = elim (get app_id s.app_installations) [
    | none ↦ (err (app_missing app_id), n)
    | some app ↦ elim (create_process_start_transition uuid now app_id s) [
      | err e ↦ (err (of_state e), n)
      | ok (t, id) ↦
          let (r, db') = propose c w (t ∷ []) n.db in
          let n' : Node c World = record n { db = db' } in
          elim r [ err e ↦ (err (of_state e), n') | ok _ ↦ run_process parts w' id app n' ]
    ]
  ]

  -- Controller.startProcess; w and w' are the writes of the start and of its rollback.
  unfoldable pub start :
      Parts c World → (uuid now : Str) → (w w' : Writing c) → Str → Node c World → Outcome c World
  unfolding start_in state_of
  start parts uuid now w w' app_id n = elim (state_of c n.db) [
    | err e ↦ (err (of_state e), n)
    | ok s ↦ start_in parts uuid now w w' app_id s n
  ]

  -- Controller.stopProcess
  unfoldable pub stop : Parts c World → Writing c → Str → Node c World → Outcome c World
  unfolding stop_process propose_only is_no_proc_found
  stop parts w process_id n =
      let (r, world') = stop_process parts.processes process_id n.world in
      let n' : Node c World = record n { world = world' } in
      elim r [
        | ok _ ↦ propose_only w (process_stop process_id ∷ []) n'
        | err e ↦
            if is_no_proc_found e
            then propose_only w (process_stop process_id ∷ []) n'
            else (err (of_process e), n')
      ]
