-- ===== src/State/Db/Outcome.antt =====
-- What a call of ProposeTransitions returns and leaves, against the specification.
use habitat_new.Prelude.{
  some, List, All, ◌≡◌, refl, subst, sym, Result-cases, inl, inr, Result, ok, err, ap,
}
use habitat_new.State.Types.{NodeState, StateError}
use habitat_new.State.Codec.{Codec}
use habitat_new.State.CodecLaws.{CodecLaws}
use habitat_new.State.Transitions.{Transition}
use habitat_new.State.Transitions.Step.{HasTokens, run}
use habitat_new.State.Propose.{propose_transitions, TransitionWrapper}
use habitat_new.State.Propose.Runs.{propose_transitions-run}
use habitat_new.State.Db.Defs.{FileDb, Writing, done, failed, propose, state_after, write_state}
use habitat_new.State.Db.Atomic.{propose-refused, propose-taken}

module _ (c : Codec) (laws : CodecLaws c) where
  -- A result without its wrappers.
  abbrev pub document_of :
      Result StateError (c.Document × List TransitionWrapper) → Result StateError c.Document
  document_of (ok (d, _)) = ok d
  document_of (err e) = err e

  -- What is kept of a new document, by how its write ends.
  abbrev pub Keeps : Writing c → c.Document → (old new : FileDb c) → Type 0
  Keeps done d old new = (new.state ≡ d) × (new.file ≡ some d)
  Keeps (failed left) d old new = (new.state ≡ old.state) × (new.file ≡ left)

  -- What a call leaves, by its result: nothing is changed, or the document encodes the state in which
  -- the specification ends.
  abbrev pub Leaves :
      Writing c
      → List Transition
      → NodeState
      → FileDb c
      → Result StateError c.Document × FileDb c
      → Type 0
  Leaves w ts s db (err _, db') = db' ≡ db
  Leaves w ts s db (ok d, db') =
      (s' : NodeState) × (run c ts s ≡ ok s') × laws.Encodes d s' × Keeps w d db db'

  taken-Keeps :
      (w : Writing c) (d : c.Document) (db : FileDb c)
      → Keeps w d db (record { state = state_after c w d db.state; file = write_state c w d })
  unfolding state_after write_state
  taken-Keeps done d db = (refl, refl)
  taken-Keeps (failed left) d db = (refl, refl)

  -- What a call should be: the result of the proposal whatever comes of the write, and what it leaves.
  abbrev IsRight :
      Writing c
      → List Transition
      → NodeState
      → FileDb c
      → Result StateError c.Document × FileDb c
      → Type 0
  IsRight w ts s db r = (r.0 ≡ document_of (propose_transitions c db.state ts)) × Leaves w ts s db r

  -- On a database whose document encodes s, where the IDs that the transitions write into paths need
  -- no escaping, and however the write ends, ProposeTransitions of the database returns what the
  -- proposal on the document returns: a failed write makes no error, a refused transition does. With
  -- an error, neither the state nor the file is changed. With a document, it encodes the state in
  -- which the specification's run from s ends; if the write succeeds, memory and file both hold it,
  -- and if the write fails, the state in memory stays the old one.
  pub propose-Leaves :
      (w : Writing c) (ts : List Transition) (db : FileDb c) (s : NodeState)
      → laws.Encodes db.state s
      → All HasTokens ts
      → ((propose c w ts db).0 ≡ document_of (propose_transitions c db.state ts))
        × Leaves w ts s db (propose c w ts db)
  propose-Leaves w ts db s enc tokens = elim (Result-cases (propose_transitions c db.state ts)) [
    | inr (e, h) ↦
        subst (IsRight w ts s db) (sym (propose-refused c w ts db h)) (sym (ap document_of h), refl)
    | inl ((d, ws), h) ↦
        let (s', ran, enc', order) =
          propose_transitions-run c laws ts db.state d s ws enc tokens h in
        subst (IsRight w ts s db) (sym (propose-taken c w ts db h))
          (sym (ap document_of h), (s', ran, enc', taken-Keeps w d db))
  ]
