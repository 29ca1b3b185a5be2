-- ===== src/State/Propose/Apply.antt =====
-- Patches of several operations, by the laws of single ones.
use habitat_new.Prelude.{Option, none, some, List, [], ◌∷◌, All, map, ◌≡◌, ◌∙◌, arith}
use habitat_new.App.{Installation}
use habitat_new.Proxy.{Rule}
use habitat_new.State.Types.{NodeState}
use habitat_new.State.Codec.{Codec, Operation, Patch, Value, add, IsToken, installations_path}
use habitat_new.State.CodecLaws.{CodecLaws, Gives}
use habitat_new.State.Effects.{put_rule, put_rules, put_installation}
use habitat_new.State.Transitions.{rule_operation}
use habitat_new.State.Transitions.Step.{install}

module _ (c : Codec) (laws : CodecLaws c) where
  open laws use {Encodes, apply_nil, apply_cons, add_rule, add_installation}

  -- Two effects after one another.
  abbrev then_effect : Option NodeState → (NodeState → Option NodeState) → Option NodeState
  then_effect o f = elim o [ none ↦ none | some s ↦ f s ]

  -- An operation in front of a patch: the effects come one after the other.
  Gives-cons :
      (o : Operation) (os : Patch) (d : c.Document) (first : Option NodeState)
      (f : NodeState → Option NodeState)
      → Gives Encodes first (c.apply (o ∷ []) d)
      → ((e : c.Document) (s : NodeState) → Encodes e s → Gives Encodes (f s) (c.apply os e))
      → Gives Encodes (then_effect first f) (c.apply (o ∷ os) d)
  Gives-cons o os d none f g h = apply_cons o os d ∙ ground arith
  Gives-cons o os d (some s) f (e, applied, enc) h =
      let same : c.apply (o ∷ os) d ≡ c.apply os e = apply_cons o os d ∙ ground arith in
      rw same (h e s enc)

  apply-put_rules :
      (rules : List Rule) (d : c.Document) (s : NodeState)
      → Encodes d s
      → All (λ (r : Rule). IsToken r.id) rules
      → Gives Encodes (put_rules rules s) (c.apply (map rule_operation rules) d)
  unfolding put_rules
  apply-put_rules [] d s enc tokens = (d, apply_nil d, enc)
  apply-put_rules (r ∷ rules) d s enc (token, tokens) =
      Gives-cons (rule_operation r) (map rule_operation rules) d (put_rule r.id r s)
        (put_rules rules) (add_rule r.id r d s enc token)
        λ e s' enc'. apply-put_rules rules e s' enc' tokens

  pub apply-install :
      (a : Installation) (rules : List Rule) (d : c.Document) (s : NodeState)
      → Encodes d s
      → IsToken a.id
      → All (λ (r : Rule). IsToken r.id) rules
      → Gives Encodes (install a rules s) (
          c.apply
            (record { op = add; path = installations_path a.id; value = Value.installation a }
              ∷ map rule_operation rules)
            d)
  unfolding install
  apply-install a rules d s enc token tokens =
      Gives-cons _ (map rule_operation rules) d (put_installation a.id a s) (put_rules rules)
        (add_installation a.id a d s enc token) λ e s' enc'. apply-put_rules rules e s' enc' tokens
