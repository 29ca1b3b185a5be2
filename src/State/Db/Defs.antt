-- ===== src/State/Db/Defs.antt =====
-- fileDB and NewHabitatDB. The file is what the disk holds at the path, none where there is no
-- file; how a write ends is an argument. The lock makes each call one step.
use habitat_new.Prelude.{Option, none, some, List, Result, ok, err, or_err, ◌>>=◌, ◌>>◌, str}
use habitat_new.State.Types.{NodeState, StateError, bad_document, read_failed}
use habitat_new.State.Codec.{Codec}
use habitat_new.State.Schema.{validate_state}
use habitat_new.State.Migrations.{get_empty_state_for_version}
use habitat_new.State.Transitions.{Transition}
use habitat_new.State.Propose.{propose_transitions}

module _ (c : Codec) where
  -- The database in memory, and its file.
  pub record FileDb : Type 0 where
    pub state : c.Document
    pub file : Option c.Document

  -- How os.WriteFile ends: done, or failed with what it leaves on the disk.
  pub data Writing : Type 0 where
    done : Writing
    failed : Option c.Document → Writing

  -- writeState: the file afterwards.
  unfoldable pub write_state : Writing → c.Document → Option c.Document
  write_state done d = some d
  write_state (failed left) d = left

  -- The state in memory after fileDB.ProposeTransitions has written.
  unfoldable pub state_after : Writing → (new old : c.Document) → c.Document
  state_after done new old = new
  state_after (failed left) new old = old

  -- fileDB.ProposeTransitions: a failed write is not reported.
  unfoldable pub propose :
      Writing → List Transition → FileDb → Result StateError c.Document × FileDb
  unfolding propose_transitions write_state state_after
  propose w ts db = elim (propose_transitions c db.state ts) [
    | err e ↦ (err e, db)
    | ok (d, _) ↦ (ok d, record { state = state_after w d db.state; file = write_state w d })
  ]

  -- fileDB.State
  unfoldable pub state_of : FileDb → Result StateError NodeState
  state_of db = or_err (c.unmarshal db.state) bad_document

  -- What the disk answers to os.Stat and os.ReadFile: the file's bytes, or a failure of either.
  pub data Disk : Type 0 where
    absent : Disk
    present : c.Document → Disk
    unreadable : Disk

  -- What NewHabitatDB returns after its write: a nil client with a nil error where that failed.
  unfoldable pub client_after : Writing → c.Document → Option FileDb
  client_after done d = some (record { state = d; file = some d })
  client_after (failed left) d = none

  -- The branch of NewHabitatDB without a file.
  unfoldable pub create_db : Writing → List Transition → Result StateError (Option FileDb)
  unfolding get_empty_state_for_version propose_transitions validate_state client_after
  create_db w initial = do
    empty ← get_empty_state_for_version c (str "v0.0.8")
    (d, _) ← propose_transitions c (c.marshal empty) initial
    validate_state c d
    ok (client_after w d)

  -- NewHabitatDB
  unfoldable pub new_habitat_db :
      Writing → Disk → List Transition → Result StateError (Option FileDb)
  unfolding create_db validate_state
  new_habitat_db w unreadable initial = err read_failed
  new_habitat_db w (present d) initial = do
    validate_state c d
    ok (some (record { state = d; file = some d }))
  new_habitat_db w absent initial = create_db w initial
