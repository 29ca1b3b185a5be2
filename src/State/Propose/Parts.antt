-- ===== src/State/Propose/Parts.antt =====
-- What it is for a proposed transition to refine the specification, and a proof of it from the parts
-- of one round of ProposeTransitions.
use habitat_new.Prelude.{Option, none, some, ◌≡◌, refl, arith, Result, ok, err, or_err, ◌>>=◌}
use habitat_new.State.Types.{NodeState, StateError, bad_patch, schema_rejected, validation_failed}
use habitat_new.State.Codec.{Codec, Patch}
use habitat_new.State.CodecLaws.{CodecLaws, Gives}
use habitat_new.State.Schema.{validate_state}
use habitat_new.State.Transitions.{Transition, validate, patch}
use habitat_new.State.Propose.Defs.{
  TransitionWrapper, apply_patch, propose_one, wrap_transition, after_patch,
}

module _ (c : Codec) (laws : CodecLaws c) where
  open laws use {Encodes}

  -- The outcome of a proposal against that of the specification: an error for an error; else a
  -- document that encodes the new state, returned if the schema takes it and refused if not.
  abbrev pub Refines :
      Result StateError NodeState → Result StateError (c.Document × TransitionWrapper) → Type 0
  Refines (err _) r = (e : StateError) × (r ≡ err e)
  Refines (ok s) r =
      (d : c.Document) × Encodes d s
      × (w : TransitionWrapper) × (validate_state c d ≡ ok tt → r ≡ ok (d, w))
      × ((e : StateError) → validate_state c d ≡ err e → r ≡ err (schema_rejected e))

  -- From the parts of a round: what Validate returns, the patch, and what the patch does.
  pub Refines-of_parts :
      (t : Transition) (d : c.Document) (v : Result StateError (Unit {0})) (o : Option NodeState)
      (p : Patch)
      → validate c t d ≡ v
      → (v ≡ ok tt → patch c t d ≡ ok p)
      → Gives Encodes o (c.apply p d)
      → Refines (v >>= λ _. or_err o bad_patch) (propose_one c t d)
  unfolding propose_one apply_patch
  Refines-of_parts t d (err e) o p hv hp g = (validation_failed e, ground arith)
  Refines-of_parts t d (ok u) none p hv hp g = (bad_patch, ground (arith, hp refl))
  Refines-of_parts t d (ok u) (some s) p hv hp (d', applied, enc) = (
    d',
    enc,
    wrap_transition (after_patch t) p,
    λ good. ground (arith, hp refl),
    λ e bad. ground (arith, hp refl),
  )

  pub propose_one-invalid :
      (t : Transition) (d : c.Document) {e : StateError}
      → validate c t d ≡ err e
      → propose_one c t d ≡ err (validation_failed e)
  unfolding propose_one
  propose_one-invalid t d h = ground arith
