-- ===== src/State/Invariant/Runs.antt =====
-- The invariant along a list of transitions, and along proposals to the database.
use habitat_new.Prelude.{
  List, [], ◌∷◌, All, ◌≡◌, sym, subst, arith, Result-cases, inl, inr, Result, ok, >>=-eq-ok,
}
use habitat_new.State.Types.{NodeState, StateError}
use habitat_new.State.Codec.{Codec}
use habitat_new.State.CodecLaws.{CodecLaws}
use habitat_new.State.Transitions.{Transition}
use habitat_new.State.Transitions.Step.{HasTokens, step, run}
use habitat_new.State.Propose.{propose_transitions}
use habitat_new.State.Propose.Runs.{propose_transitions-run}
use habitat_new.State.Db.{FileDb, Writing, done, failed, propose, state_after}
use habitat_new.State.Db.Atomic.{propose-refused, propose-taken}
use habitat_new.State.Invariant.Defs.{IsConsistent}
use habitat_new.State.Invariant.Steps.{IsSound, step-IsConsistent}

module _ (c : Codec) (laws : CodecLaws c) where
  open laws use {Encodes}

  run-IsConsistent :
      (ts : List Transition) (s s' : NodeState)
      → All IsSound ts
      → run c ts s ≡ ok s'
      → IsConsistent s
      → IsConsistent s'
  unfolding run
  run-IsConsistent [] s s' sound e h = subst IsConsistent (ground arith) h
  run-IsConsistent (t ∷ ts) s s' (sound, sounds) e h =
      let (s₁, stepped, rest) = >>=-eq-ok (step c t s) _ e in
      run-IsConsistent ts s₁ s' sounds rest (step-IsConsistent c laws t s s₁ sound stepped h)

  -- The document encodes a consistent state.
  abbrev pub Holds : c.Document → Type 0
  Holds d = (s : NodeState) × Encodes d s × IsConsistent s

  state_after-Holds :
      (w : Writing c) (new old : c.Document)
      → Holds new
      → Holds old
      → Holds (state_after c w new old)
  unfolding state_after
  state_after-Holds done new old h k = h
  state_after-Holds (failed left) new old h k = k

  -- Whatever the transitions, and however the write ends: if the state in memory encodes a
  -- consistent node state, it does so after a call of ProposeTransitions, where the IDs in the
  -- patches need no escaping and an initialization brings a consistent state.
  pub propose-Holds :
      (w : Writing c) (ts : List Transition) (db : FileDb c)
      → Holds db.state
      → All HasTokens ts
      → All IsSound ts
      → Holds (propose c w ts db).1.state
  propose-Holds w ts db (s, enc, h) tokens sounds =
      elim (Result-cases (propose_transitions c db.state ts)) [
        | inr (e, refused) ↦
            subst (λ (x : Result StateError c.Document × FileDb c). Holds x.1.state)
              (sym (propose-refused c w ts db refused)) (s, enc, h)
        | inl ((d, ws), taken) ↦
            let (s', ran, enc', order) =
              propose_transitions-run c laws ts db.state d s ws enc tokens taken in
            subst (λ (x : Result StateError c.Document × FileDb c). Holds x.1.state)
              (sym (propose-taken c w ts db taken))
              (state_after-Holds w d db.state (s', enc', run-IsConsistent ts s s' sounds ran h)
                (s, enc, h))
      ]
