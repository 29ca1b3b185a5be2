-- ===== src/State/Propose/Defs.antt =====
-- ProposeTransitions, applyPatch and applyImpl (json.go), WrapTransition (types.go).
use habitat_new.Prelude.{
  Str, Option, some, List, [], ◌∷◌, ◌++◌, Result, ok, err, or_err, ◌>>=◌, ◌>>◌,
}
use habitat_new.Process.{Process}
use habitat_new.Proxy.{Rule}
use habitat_new.State.Types.{
  NodeState, User, StateError, bad_patch, validation_failed, schema_rejected,
}
use habitat_new.State.Codec.{Codec, Patch}
use habitat_new.State.Schema.{validate_state}
use habitat_new.State.Transitions.{
  Transition, initialization, migration, add_user, start_installation, finish_installation,
  uninstall, process_start, process_stop, add_reverse_proxy_rule, fill_maps, transition_type,
  validate, patch,
}

-- The JSON of a transition, by its members. A member that is not exported is left out: this is the
-- app_installation of a start_installation.
pub data TransitionJson : Type 0 where
  of_init_state : Option NodeState → TransitionJson
  of_target_version : Str → TransitionJson
  of_user : User → TransitionJson
  of_new_proxy_rules : List Rule → TransitionJson
  of_app_id : Str → TransitionJson
  of_process : Option Process → TransitionJson
  of_process_id : Str → TransitionJson
  of_rule : Rule → TransitionJson

-- json.Marshal of a transition
unfoldable pub marshal_transition : Transition → TransitionJson
marshal_transition (initialization s) = of_init_state s
marshal_transition (migration target) = of_target_version target
marshal_transition (add_user u) = of_user u
marshal_transition (start_installation a rules) = of_new_proxy_rules rules
marshal_transition (finish_installation id) = of_app_id id
marshal_transition (uninstall id) = of_app_id id
marshal_transition (process_start p) = of_process p
marshal_transition (process_stop id) = of_process_id id
marshal_transition (add_reverse_proxy_rule r) = of_rule r

-- A transition after a call of its method Patch, which fills the maps of an initial state in place.
unfoldable pub after_patch : Transition → Transition
unfolding fill_maps
after_patch (initialization (some s)) = initialization (some (fill_maps s))
after_patch t = t

-- TransitionWrapper
pub record TransitionWrapper : Type 0 where
  pub type : Str
  pub patch : Patch
  pub transition : TransitionJson

-- WrapTransition
unfoldable pub wrap_transition : Transition → Patch → TransitionWrapper
unfolding transition_type marshal_transition
wrap_transition t p = record {
  type = transition_type t;
  patch = p;
  transition = marshal_transition t;
}

-- fmt.Errorf around an error.
abbrev pub wrapped :
    (StateError → StateError) → Result StateError (Unit {0}) → Result StateError (Unit {0})
wrapped around (ok _) = ok tt
wrapped around (err e) = err (around e)

module _ (c : Codec) where
  -- applyPatch and applyImpl: apply, then check the schema.
  unfoldable pub apply_patch : c.Document → Patch → Result StateError c.Document
  unfolding validate_state
  apply_patch d p = do
    updated ← or_err (c.apply p d) bad_patch
    wrapped schema_rejected (validate_state c updated)
    ok updated

  -- One round of the loop.
  unfoldable pub propose_one :
      Transition → c.Document → Result StateError (c.Document × TransitionWrapper)
  unfolding apply_patch validate patch wrap_transition after_patch
  propose_one t d = do
    wrapped validation_failed (validate c t d)
    p ← patch c t d
    d' ← apply_patch d p
    ok (d', wrap_transition (after_patch t) p)

  -- The loop, with the wrappers so far.
  unfoldable pub propose_from :
      c.Document
      → List TransitionWrapper
      → List Transition
      → Result StateError (c.Document × List TransitionWrapper)
  unfolding propose_one
  propose_from d wrappers [] = ok (d, wrappers)
  propose_from d wrappers (t ∷ ts) = do
    (d', w) ← propose_one t d
    propose_from d' (wrappers ++ w ∷ []) ts

  -- ProposeTransitions
  unfoldable pub propose_transitions :
      c.Document → List Transition → Result StateError (c.Document × List TransitionWrapper)
  unfolding propose_from
  propose_transitions d ts = propose_from d [] ts
