-- ===== src/State/Db/Atomic.antt =====
-- The database: what a proposal writes, and what opening the file gives back.
use habitat_new.Prelude.{
  some, List, [], ◌∷◌, ◌≡◌, refl, subst, sym, arith, Result-cases, inl, inr, Result, ok, err,
  or_err, >>=-eq-ok,
}
use habitat_new.State.Types.{StateError, bad_patch, schema_rejected, validation_failed}
use habitat_new.State.Codec.{Codec, Patch}
use habitat_new.State.Schema.{validate_state}
use habitat_new.State.Transitions.{Transition, validate, patch}
use habitat_new.State.Propose.{
  propose_transitions, propose_from, propose_one, apply_patch, wrapped, TransitionWrapper,
}
use habitat_new.State.Db.Defs.{
  FileDb, Writing, done, propose, state_after, write_state, new_habitat_db, present,
}

module _ (c : Codec) where
  pub propose-refused :
      (w : Writing c) (ts : List Transition) (db : FileDb c) {e : StateError}
      → propose_transitions c db.state ts ≡ err e
      → propose c w ts db ≡ (err e, db)
  unfolding propose
  propose-refused w ts db h = ground arith

  pub propose-taken :
      (w : Writing c) (ts : List Transition) (db : FileDb c) {d : c.Document}
      {ws : List TransitionWrapper}
      → propose_transitions c db.state ts ≡ ok (d, ws)
      → propose c w ts db
        ≡ (ok d, record { state = state_after c w d db.state; file = write_state c w d })
  unfolding propose
  propose-taken w ts db h = ground arith

  -- A document that the schema of its version accepts.
  abbrev pub IsAccepted : c.Document → Type 0
  IsAccepted d = validate_state c d ≡ ok tt

  apply_patch-IsAccepted :
      (d d' : c.Document) (p : Patch) → apply_patch c d p ≡ ok d' → IsAccepted d'
  unfolding apply_patch
  apply_patch-IsAccepted d d' p e =
      let (x, applied, e₁) = >>=-eq-ok (or_err (c.apply p d) bad_patch) _ e in
      let (u, accepted, e₂) = >>=-eq-ok (wrapped schema_rejected (validate_state c x)) _ e₁ in
      let same : x ≡ d' = cc e₂ in subst IsAccepted same (ground arith)

  propose_one-IsAccepted :
      (t : Transition) (d d' : c.Document) (w : TransitionWrapper)
      → propose_one c t d ≡ ok (d', w)
      → IsAccepted d'
  unfolding propose_one
  propose_one-IsAccepted t d d' w e =
      let (u, valid, e₁) = >>=-eq-ok (wrapped validation_failed (validate c t d)) _ e in
      let (p, patched, e₂) = >>=-eq-ok (patch c t d) _ e₁ in
      let (x, applied, e₃) = >>=-eq-ok (apply_patch c d p) _ e₂ in
      let same : x ≡ d' = cc e₃ in subst IsAccepted same (apply_patch-IsAccepted d x p applied)

  propose_from-IsAccepted :
      (ts : List Transition) (d d' : c.Document) (ws ws' : List TransitionWrapper)
      → IsAccepted d
      → propose_from c d ws ts ≡ ok (d', ws')
      → IsAccepted d'
  unfolding propose_from
  propose_from-IsAccepted [] d d' ws ws' h e = let same : d ≡ d' = cc e in subst IsAccepted same h
  propose_from-IsAccepted (t ∷ ts) d d' ws ws' h e =
      let ((x, w), one, rest) = >>=-eq-ok (propose_one c t d) _ e in
      propose_from-IsAccepted ts x d' _ ws' (propose_one-IsAccepted t d x w one) rest

  propose_transitions-IsAccepted :
      (ts : List Transition) (d d' : c.Document) (ws : List TransitionWrapper)
      → IsAccepted d
      → propose_transitions c d ts ≡ ok (d', ws)
      → IsAccepted d'
  unfolding propose_transitions
  propose_transitions-IsAccepted ts d d' ws h e = propose_from-IsAccepted ts d d' [] ws h e

  -- Memory and file hold the same document, and the schema accepts it.
  pub record IsSaved (db : FileDb c) : Type 0 where
    pub accepted : IsAccepted db.state
    pub on_disk : db.file ≡ some db.state

  -- If every transition is taken and the write succeeds, or if one is refused, a saved database is
  -- saved afterwards.
  pub propose-IsSaved :
      (ts : List Transition) (db : FileDb c) → IsSaved db → IsSaved (propose c done ts db).1
  unfolding state_after write_state
  propose-IsSaved ts db h = elim (Result-cases (propose_transitions c db.state ts)) [
    | inr (e, refused) ↦
        subst (λ (x : Result StateError c.Document × FileDb c). IsSaved x.1)
          (sym (propose-refused done ts db refused)) h
    | inl ((d, ws), taken) ↦
        subst (λ (x : Result StateError c.Document × FileDb c). IsSaved x.1)
          (sym (propose-taken done ts db taken))
          (record {
            accepted = propose_transitions-IsAccepted ts db.state d ws h.accepted taken;
            on_disk = refl;
          })
  ]

  -- Proposals one after another, each with a write that succeeds.
  abbrev pub propose_all : List (List Transition) → FileDb c → FileDb c
  propose_all [] db = db
  propose_all (ts ∷ batches) db = propose_all batches (propose c done ts db).1

  propose_all-IsSaved :
      (batches : List (List Transition)) (db : FileDb c)
      → IsSaved db
      → IsSaved (propose_all batches db)
  propose_all-IsSaved [] db h = h
  propose_all-IsSaved (ts ∷ batches) db h =
      propose_all-IsSaved batches (propose c done ts db).1 (propose-IsSaved ts db h)

  reopen-saved :
      (initial : List Transition) (w : Writing c) (db : FileDb c)
      → IsSaved db
      → new_habitat_db c w (present db.state) initial ≡ ok (some db)
  unfolding new_habitat_db
  reopen-saved initial w db h = rw (h.accepted) (ground (arith, h.on_disk))

  -- Whatever was proposed with writes that succeed to a saved database, NewHabitatDB on the file
  -- that it leaves gives back the same database, whatever its own initial transitions are.
  pub reopen :
      (batches : List (List Transition)) (initial : List Transition) (w : Writing c) (db : FileDb c)
      → IsSaved db
      → let db' = propose_all batches db in
        (db'.file ≡ some db'.state)
        × (new_habitat_db c w (present db'.state) initial ≡ ok (some db'))
  reopen batches initial w db h =
      let saved = propose_all-IsSaved batches db h in
      (saved.on_disk, reopen-saved initial w (propose_all batches db) saved)
