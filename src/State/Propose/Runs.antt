-- ===== src/State/Propose/Runs.antt =====
-- ProposeTransitions on a list of transitions against the specification's run of the list.
use habitat_new.Prelude.{
  Str, some, none, List, [], ◌∷◌, ◌++◌, map, All, ◌≡◌, refl, sym, ◌∙◌, ap, subst, arith,
  Result-cases, inl, inr, Result, ok, err, >>=-eq-ok,
}
use mathlib.Core.List.{append-nil}
use habitat_new.State.Types.{NodeState, StateError, validation_failed}
use habitat_new.State.Codec.{Codec}
use habitat_new.State.CodecLaws.{CodecLaws}
use habitat_new.State.Schema.{validate_state}
use habitat_new.State.Transitions.{
  Transition, initialization, migration, add_user, start_installation, finish_installation,
  uninstall, process_start, process_stop, add_reverse_proxy_rule, transition_type, validate, patch,
}
use habitat_new.State.Transitions.Step.{HasTokens, step, run}
use habitat_new.State.Propose.Defs.{
  TransitionWrapper, TransitionJson, marshal_transition, after_patch, propose_one, propose_from,
  propose_transitions, wrap_transition, wrapped, apply_patch,
}
use habitat_new.State.Propose.Parts.{Refines}
use habitat_new.State.Propose.Refines.{propose_one-Refines}

-- What a wrapper says of its transition, and what is written of a transition.
abbrev pub Written : Type 0
Written = Str × TransitionJson

abbrev pub written_of : List TransitionWrapper → List Written
written_of = map (λ (w : TransitionWrapper). (w.type, w.transition))

abbrev pub written : Transition → Written
written t = (transition_type t, marshal_transition (after_patch t))

transition_type-after_patch : (t : Transition) → transition_type (after_patch t) ≡ transition_type t
unfolding transition_type after_patch
transition_type-after_patch (initialization none) = refl
transition_type-after_patch (initialization (some s)) = refl
transition_type-after_patch (migration target) = refl
transition_type-after_patch (add_user u) = refl
transition_type-after_patch (start_installation a rules) = refl
transition_type-after_patch (finish_installation id) = refl
transition_type-after_patch (uninstall id) = refl
transition_type-after_patch (process_start p) = refl
transition_type-after_patch (process_stop id) = refl
transition_type-after_patch (add_reverse_proxy_rule r) = refl

module _ (c : Codec) (laws : CodecLaws c) where
  open laws use {Encodes}

  document_of_ok :
      {A : Type 0} {d d' : c.Document} {a a' : A}
      → ◌≡◌ {A = Result StateError (c.Document × A)} (ok (d, a)) (ok (d', a'))
      → d ≡ d'
  document_of_ok h = cc

  wrappers_of_ok :
      {A : Type 0} {d d' : c.Document} {a a' : A}
      → ◌≡◌ {A = Result StateError (c.Document × A)} (ok (d, a)) (ok (d', a'))
      → a ≡ a'
  wrappers_of_ok h = cc

  -- A round that succeeds: the specification's step succeeds, and the document encodes its state.
  step_of_ok :
      (r : Result StateError NodeState) (q : Result StateError (c.Document × TransitionWrapper))
      {d' : c.Document} {w : TransitionWrapper}
      → Refines c laws r q
      → q ≡ ok (d', w)
      → (s' : NodeState) × (r ≡ ok s') × Encodes d' s'
  step_of_ok (err e) q (e', h) eq = cc
  step_of_ok (ok s') q {d'} (d, enc, w, good, bad) eq = elim (Result-cases (validate_state c d)) [
    | inl (u, v) ↦ (s', refl, subst (λ x. Encodes x s') (document_of_ok (sym (good v) ∙ eq)) enc)
    | inr (e, v) ↦ cc (bad e v)
  ]

  run-cons :
      (t : Transition) (ts : List Transition) (s : NodeState) {s₁ s' : NodeState}
      → step c t s ≡ ok s₁
      → run c ts s₁ ≡ ok s'
      → run c (t ∷ ts) s ≡ ok s'
  unfolding run
  run-cons t ts s h k = ground arith

  propose_from-run :
      (ts : List Transition) (d : c.Document) (s : NodeState) (ws ws' : List TransitionWrapper)
      (d' : c.Document)
      → Encodes d s
      → All HasTokens ts
      → propose_from c d ws ts ≡ ok (d', ws')
      → (s' : NodeState) × (run c ts s ≡ ok s') × Encodes d' s'
  unfolding propose_from run
  propose_from-run [] d s ws ws' d' enc tokens h =
      (s, refl, subst (λ x. Encodes x s) (document_of_ok h) enc)
  propose_from-run (t ∷ ts) d s ws ws' d' enc (token, tokens) h =
      let ((e, w), one, rest) = >>=-eq-ok (propose_one c t d) _ h in
      let (s₁, stepped, enc₁) =
        step_of_ok (step c t s) (propose_one c t d) (propose_one-Refines c laws t d s enc token)
          one in
      let (s', ran, enc') = propose_from-run ts e s₁ _ ws' d' enc₁ tokens rest in
      (s', run-cons t ts s stepped ran, enc')

  written-propose_one :
      (t : Transition) (d d' : c.Document) (w : TransitionWrapper)
      → propose_one c t d ≡ ok (d', w)
      → (w.type, w.transition) ≡ written t
  unfolding propose_one wrap_transition
  written-propose_one t d d' w h =
      let (u, valid, h₁) = >>=-eq-ok (wrapped validation_failed (validate c t d)) _ h in
      let (p, patched, h₂) = >>=-eq-ok (patch c t d) _ h₁ in
      let (e, applied, h₃) = >>=-eq-ok (apply_patch c d p) _ h₂ in
      let same : wrap_transition (after_patch t) p ≡ w = cc h₃ in
      ap (λ (x : TransitionWrapper). (x.type, x.transition)) (sym same)
      ∙ ap (λ (x : Str). (x, marshal_transition (after_patch t))) (transition_type-after_patch t)

  written-snoc :
      (ws : List TransitionWrapper) (w : TransitionWrapper) (x : Written) (xs : List Written)
      → (w.type, w.transition) ≡ x
      → written_of (ws ++ w ∷ []) ++ xs ≡ written_of ws ++ x ∷ xs
  written-snoc [] w x xs e = rw e
  written-snoc (v ∷ ws) w x xs e =
      ap (λ (l : List Written). (v.type, v.transition) ∷ l) (written-snoc ws w x xs e)

  written-propose_from :
      (ts : List Transition) (d d' : c.Document) (ws ws' : List TransitionWrapper)
      → propose_from c d ws ts ≡ ok (d', ws')
      → written_of ws' ≡ written_of ws ++ map written ts
  unfolding propose_from
  written-propose_from [] d d' ws ws' h =
      ap written_of (wrappers_of_ok (sym h)) ∙ sym (append-nil (written_of ws))
  written-propose_from (t ∷ ts) d d' ws ws' h =
      let ((e, w), one, rest) = >>=-eq-ok (propose_one c t d) _ h in
      written-propose_from ts e d' (ws ++ w ∷ []) ws' rest
      ∙ written-snoc ws w (written t) (map written ts) (written-propose_one t d e w one)

  -- Where ProposeTransitions succeeds on a document that encodes s, and the IDs that the transitions
  -- write into paths need no escaping: the specification's run of the list from s succeeds, the
  -- document that comes back encodes the state it ends in, and the wrappers have, in the order of
  -- the list, the type and the JSON of each transition after its Patch.
  pub propose_transitions-run :
      (ts : List Transition) (d d' : c.Document) (s : NodeState) (ws : List TransitionWrapper)
      → Encodes d s
      → All HasTokens ts
      → propose_transitions c d ts ≡ ok (d', ws)
      → (s' : NodeState) × (run c ts s ≡ ok s') × Encodes d' s' × (written_of ws ≡ map written ts)
  unfolding propose_transitions
  propose_transitions-run ts d d' s ws enc tokens h =
      let (s', ran, enc') = propose_from-run ts d s [] ws d' enc tokens h in
      (s', ran, enc', written-propose_from ts d d' [] ws h)
