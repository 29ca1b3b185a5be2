-- ===== src/State/Propose/Refines.antt =====
-- A proposed transition on the serialized state does what the specification does on the typed one.
use habitat_new.Prelude.{Str, true, none, some, is_some, List, ◌≡◌, refl, arith, ok}
use habitat_new.Prelude.Dict.{get}
use habitat_new.App.{Installation, installed}
use habitat_new.Process.{Process}
use habitat_new.Proxy.{Rule}
use habitat_new.State.Types.{NodeState, User, validation_failed, nil_init_state, no_process}
use habitat_new.State.Codec.{Codec}
use habitat_new.State.CodecLaws.{CodecLaws}
use habitat_new.State.Transitions.{
  Transition, initialization, migration, add_user, start_installation, finish_installation,
  uninstall, process_start, process_stop, add_reverse_proxy_rule, validate, patch,
  validate_start_installation, validate_process_stop, fill_maps,
}
use habitat_new.State.Transitions.Step.{HasTokens, step}
use habitat_new.State.Propose.Defs.{propose_one}
use habitat_new.State.Propose.Apply.{apply-install}
use habitat_new.State.Propose.Parts.{Refines, Refines-of_parts, propose_one-invalid}
use habitat_new.State.Propose.Migrating.{Refines-migration}

module _ (c : Codec) (laws : CodecLaws c) where
  open laws use {Encodes, unmarshal_encodes}

  Refines-add_user :
      (u : User) (d : c.Document) (s : NodeState)
      → Encodes d s
      → HasTokens (add_user u)
      → Refines c laws (step c (add_user u) s) (propose_one c (add_user u) d)
  unfolding step patch validate
  Refines-add_user u d s enc token =
      Refines-of_parts c laws (add_user u) d _ _ _ (rw (unmarshal_encodes d s enc)) (λ _. refl)
        (laws.add_user u.id u d s enc token)

  Refines-finish_installation :
      (id : Str) (d : c.Document) (s : NodeState)
      → Encodes d s
      → HasTokens (finish_installation id)
      → Refines c laws
          (step c (finish_installation id) s)
          (propose_one c (finish_installation id) d)
  unfolding step patch validate
  Refines-finish_installation id d s enc token =
      Refines-of_parts c laws (finish_installation id) d _ _ _ (rw (unmarshal_encodes d s enc))
        (λ _. rw (unmarshal_encodes d s enc))
        (laws.replace_installation_state id installed d s enc token)

  user_of_valid :
      (a : Installation) (s : NodeState)
      → validate_start_installation a s ≡ ok tt
      → is_some (get a.user_id s.users) ≡ true
  unfolding validate_start_installation
  user_of_valid a s h = ground arith

  Refines-start_installation :
      (a : Installation) (rules : List Rule) (d : c.Document) (s : NodeState)
      → Encodes d s
      → HasTokens (start_installation a rules)
      → Refines c laws
          (step c (start_installation a rules) s)
          (propose_one c (start_installation a rules) d)
  unfolding step patch validate
  Refines-start_installation a rules d s enc (token, tokens) =
      Refines-of_parts c laws (start_installation a rules) d _ _ _ (rw (unmarshal_encodes d s enc))
        (λ h. rw (unmarshal_encodes d s enc) (ground (arith, user_of_valid a s h)))
        (apply-install c laws a rules d s enc token tokens)

  Refines-uninstall :
      (id : Str) (d : c.Document) (s : NodeState)
      → Encodes d s
      → HasTokens (uninstall id)
      → Refines c laws (step c (uninstall id) s) (propose_one c (uninstall id) d)
  unfolding step patch validate
  Refines-uninstall id d s enc token =
      Refines-of_parts c laws (uninstall id) d _ _ _ (rw (unmarshal_encodes d s enc)) (λ _. refl)
        (laws.remove_installation id d s enc token)

  Refines-process_start :
      (p : Process) (d : c.Document) (s : NodeState)
      → Encodes d s
      → HasTokens (process_start (some p))
      → Refines c laws
          (step c (process_start (some p)) s)
          (propose_one c (process_start (some p)) d)
  unfolding step patch validate
  Refines-process_start p d s enc token =
      Refines-of_parts c laws (process_start (some p)) d _ _ _ (rw (unmarshal_encodes d s enc))
        (λ _. rw (unmarshal_encodes d s enc)) (laws.add_process p.id p d s enc token)

  process_of_valid :
      (id : Str) (s : NodeState)
      → validate_process_stop id s ≡ ok tt
      → is_some (get id s.processes) ≡ true
  unfolding validate_process_stop
  process_of_valid id s h = ground arith

  Refines-process_stop :
      (id : Str) (d : c.Document) (s : NodeState)
      → Encodes d s
      → HasTokens (process_stop id)
      → Refines c laws (step c (process_stop id) s) (propose_one c (process_stop id) d)
  unfolding step patch validate
  Refines-process_stop id d s enc token =
      Refines-of_parts c laws (process_stop id) d _ _ _ (rw (unmarshal_encodes d s enc))
        (λ h. rw (unmarshal_encodes d s enc) (ground (arith, process_of_valid id s h)))
        (laws.remove_process id d s enc token)

  Refines-add_rule :
      (r : Rule) (d : c.Document) (s : NodeState)
      → Encodes d s
      → HasTokens (add_reverse_proxy_rule r)
      → Refines c laws
          (step c (add_reverse_proxy_rule r) s)
          (propose_one c (add_reverse_proxy_rule r) d)
  unfolding step patch validate
  Refines-add_rule r d s enc token =
      Refines-of_parts c laws (add_reverse_proxy_rule r) d _ _ _ (rw (unmarshal_encodes d s enc))
        (λ _. refl) (laws.add_rule r.id r d s enc token)

  Refines-initialization :
      (t : NodeState) (d : c.Document) (s : NodeState)
      → Refines c laws
          (step c (initialization (some t)) s)
          (propose_one c (initialization (some t)) d)
  unfolding step patch validate
  Refines-initialization t d s =
      Refines-of_parts c laws (initialization (some t)) d (ok tt) (some (fill_maps t)) _ refl
        (λ _. refl) (laws.add_root (fill_maps t) d)

  -- For every transition whose IDs need no escaping, on a document that encodes a state s, Validate,
  -- Patch and the application of the patch together do what the specification does on s: where that
  -- is an error they fail; else there is a document that encodes the new state, which is returned
  -- if the schema accepts it and refused if it does not.
  pub propose_one-Refines :
      (t : Transition) (d : c.Document) (s : NodeState)
      → Encodes d s
      → HasTokens t
      → Refines c laws (step c t s) (propose_one c t d)
  unfolding step
  propose_one-Refines (initialization none) d s enc h =
      (validation_failed nil_init_state, unfold propose_one validate in refl)
  propose_one-Refines (initialization (some t)) d s enc h = Refines-initialization t d s
  propose_one-Refines (migration target) d s enc h = Refines-migration c laws target d s enc
  propose_one-Refines (add_user u) d s enc h = Refines-add_user u d s enc h
  propose_one-Refines (start_installation a rules) d s enc h =
      Refines-start_installation a rules d s enc h
  propose_one-Refines (finish_installation id) d s enc h = Refines-finish_installation id d s enc h
  propose_one-Refines (uninstall id) d s enc h = Refines-uninstall id d s enc h
  propose_one-Refines (process_start none) d s enc h = (
    validation_failed no_process,
    propose_one-invalid c laws (process_start none) d
        (unfold validate in rw (unmarshal_encodes d s enc)),
  )
  propose_one-Refines (process_start (some p)) d s enc h = Refines-process_start p d s enc h
  propose_one-Refines (process_stop id) d s enc h = Refines-process_stop id d s enc h
  propose_one-Refines (add_reverse_proxy_rule r) d s enc h = Refines-add_rule r d s enc h
