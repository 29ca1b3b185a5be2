-- ===== src/Controller/Stopping.antt =====
-- stopProcess: when the state changes, and what it holds afterwards.
use habitat_new.Prelude.{
  Str, str_eq_refl, false, none, List, [], ◌∷◌, ◌≡◌, sym, subst, arith, ok, err, Result-cases, inl,
  inr,
}
use habitat_new.Prelude.Dict.{get, find-erase, entries}
use habitat_new.Process.{ProcessError, stop_process}
use habitat_new.State.Types.{NodeState}
use habitat_new.State.Codec.{Codec, IsToken}
use habitat_new.State.CodecLaws.{CodecLaws}
use habitat_new.State.Effects.{erase_process}
use habitat_new.State.Transitions.{Transition, process_stop}
use habitat_new.State.Transitions.Step.{step, run}
use habitat_new.State.Propose.{propose_transitions, TransitionWrapper}
use habitat_new.State.Propose.Runs.{propose_transitions-run}
use habitat_new.State.Db.{Writing, done, propose, state_after}
use habitat_new.Controller.Defs.{Node, Parts, of_process, stop, propose_only, is_no_proc_found}

-- What the specification's process_stop leaves at the ID.
step-process_stop :
    (c : Codec) (id : Str) (s s' : NodeState)
    → step c (process_stop id) s ≡ ok s'
    → get id s'.processes ≡ none
unfolding step erase_process get
step-process_stop c id s s' h =
    ground (arith, find-erase id id (entries s.processes), str_eq_refl id)

run-one :
    (c : Codec) (t : Transition) (s : NodeState) {s' : NodeState}
    → run c (t ∷ []) s ≡ ok s'
    → step c t s ≡ ok s'
unfolding run
run-one c t s h = elim (Result-cases (step c t s)) [
  | inr (e, failed) ↦ absurd (ground arith)
  | inl (x, stepped) ↦ ground arith
]

module _ {c : Codec} {World : Type 0} where
  -- If the driver fails to stop a process for another reason than not knowing it, stopProcess
  -- returns that error and changes neither the database nor the rules.
  pub stop-driver_error :
      (parts : Parts c World) (w : Writing c) (id : Str) (n : Node c World) (e : ProcessError)
      → (stop_process parts.processes id n.world).0 ≡ err e
      → is_no_proc_found e ≡ false
      → ((stop parts w id n).0 ≡ err (of_process e))
        × ((stop parts w id n).1.db ≡ n.db)
        × ((stop parts w id n).1.rules ≡ n.rules)
  unfolding stop
  stop-driver_error parts w id n e h k = ground arith

  -- A success comes from a proposal that was taken.
  stop-taken :
      (parts : Parts c World) (id : Str) (n : Node c World)
      → (stop parts done id n).0 ≡ ok tt
      → (d : c.Document) × (ws : List TransitionWrapper) × (propose_transitions c n.db.state
            (process_stop id ∷ [])
          ≡ ok (d, ws))
        × ((stop parts done id n).1.db.state ≡ d)
  unfolding stop propose_only propose state_after
  stop-taken parts id n h =
      elim (Result-cases (propose_transitions c n.db.state (process_stop id ∷ []))) [
        | inr (e, refused) ↦ absurd (ground arith)
        | inl ((d, ws), taken) ↦ (d, ws, taken, ground arith)
      ]

  -- For an ID that needs no escaping: if stopProcess succeeds with a write that succeeds, on a
  -- database whose document encodes a state, the document afterwards encodes a state in which no
  -- process has the ID.
  pub stop-removes :
      (laws : CodecLaws c) (parts : Parts c World) (id : Str) (n : Node c World) (s : NodeState)
      → laws.Encodes n.db.state s
      → IsToken id
      → (stop parts done id n).0 ≡ ok tt
      → (s' : NodeState) × laws.Encodes (stop parts done id n).1.db.state s'
        × (get id s'.processes ≡ none)
  stop-removes laws parts id n s enc token h =
      let (d, ws, taken, left) = stop-taken parts id n h in
      let (s', ran, enc', order) =
        propose_transitions-run c laws (process_stop id ∷ []) n.db.state d s ws enc (token, tt)
          taken in
      (
        s',
        subst (λ x. laws.Encodes x s') (sym left) enc',
        step-process_stop c id s s' (run-one c (process_stop id) s ran),
      )
