-- ===== src/Controller/Starting.antt =====
-- startProcess with drivers that start nothing.
use habitat_new.Prelude.{
  Str, ◌&&◌, true, false, [], ◌∷◌, ◌≡◌, refl, ◌∙◌, ◌≢◌, ◌↔◌, arith, ok, err, is_ok, some,
  Result-cases, Option-cases, inl, inr,
}
use habitat_new.Prelude.Dict.{get}
use habitat_new.App.{Installation}
use habitat_new.Process.{ProcessError, start_process}
use habitat_new.State.Types.{NodeState}
use habitat_new.State.Codec.{Codec}
use habitat_new.State.Transitions.{Transition, process_stop, create_process_start_transition}
use habitat_new.State.Db.{Writing, propose, state_of}
use habitat_new.Controller.Defs.{
  Node, Parts, of_process, start, start_in, run_process, propose_only,
}
use habitat_new.Controller.Server.{start_process_handler}

module _ {c : Codec} {World : Type 0} where
  -- The drivers refuse to start every process.
  abbrev pub StartsNothing : Parts c World → Type 0
  StartsNothing parts =
      (id : Str) (app : Installation) (world : World)
      → is_ok (start_process parts.processes id app world).0 ≡ false

  start-no_process_error :
      (parts : Parts c World) (uuid now : Str) (w w' : Writing c) (app_id : Str) (n : Node c World)
      (e : ProcessError)
      → (start parts uuid now w w' app_id n).0 ≢ err (of_process e)
  unfolding start
  start-no_process_error parts uuid now w w' app_id n e = λ h. ground arith

  -- With such drivers, what follows the start is its rollback.
  run_process-refused :
      (parts : Parts c World) (w : Writing c) (id : Str) (app : Installation) (n : Node c World)
      → StartsNothing parts
      → (world' : World) × (run_process parts w id app n
          ≡ propose_only w (process_stop id ∷ []) (record n { world = world' }))
  unfolding run_process
  run_process-refused parts w id app n refuses =
      elim (Result-cases (start_process parts.processes id app n.world).0) [
        | inl (u, e) ↦ absurd (ground (arith, refuses id app n.world))
        | inr (f, e) ↦ ((start_process parts.processes id app n.world).1, rw (e, run_process) refl)
      ]

  -- The database can be read and holds the app, the start's transition is taken on it, and so is the
  -- rollback on what that leaves.
  abbrev pub RolledBack : (uuid now : Str) → (w w' : Writing c) → Str → Node c World → Type 0
  RolledBack uuid now w w' app_id n =
      (s : NodeState) × (state_of c n.db ≡ ok s)
      × (app : Installation) × (get app_id s.app_installations ≡ some app)
      × (t : Transition) × (id : Str) × (create_process_start_transition uuid now app_id s
          ≡ ok (t, id))
      × (is_ok (propose c w (t ∷ []) n.db).0 ≡ true)
      × (is_ok (propose c w' (process_stop id ∷ []) (propose c w (t ∷ []) n.db).1).0 ≡ true)

  run-taken :
      (parts : Parts c World) (w : Writing c) (id : Str) (app : Installation) (n : Node c World)
      → StartsNothing parts
      → (is_ok (run_process parts w id app n).0 ≡ is_ok (propose c w (process_stop id ∷ []) n.db).0)
        × ((run_process parts w id app n).1.rules ≡ n.rules)
  unfolding propose_only
  run-taken parts w id app n refuses =
      let (world', e) = run_process-refused parts w id app n refuses in
      elim (Result-cases (propose c w (process_stop id ∷ []) n.db).0) [
        | inl (d, h) ↦ (rw (e, h) refl, rw e refl)
        | inr (f, h) ↦ (rw (e, h) refl, rw e refl)
      ]

  -- Once the database is read, the app found and the transition made.
  start_in-made :
      (parts : Parts c World) (uuid now : Str) (w w' : Writing c) (app_id id : Str) (s : NodeState)
      (n : Node c World) (app : Installation) (t : Transition)
      → StartsNothing parts
      → get app_id s.app_installations ≡ some app
      → create_process_start_transition uuid now app_id s ≡ ok (t, id)
      → (is_ok (start_in parts uuid now w w' app_id s n).0 ≡ (
          is_ok (propose c w (t ∷ []) n.db).0
          && is_ok (propose c w' (process_stop id ∷ []) (propose c w (t ∷ []) n.db).1).0))
        × ((start_in parts uuid now w w' app_id s n).1.rules ≡ n.rules)
  unfolding start_in
  start_in-made parts uuid now w w' app_id id s n app t refuses he ht =
      let (same, rules) =
        run-taken parts w' id app (record n { db = (propose c w (t ∷ []) n.db).1 }) refuses in
      elim (Result-cases (propose c w (t ∷ []) n.db).0) [
        | inl (d, h) ↦ (rw (he, ht, h, start_in) same, rw (he, ht, h, start_in) rules)
        | inr (e, h) ↦ (rw (he, ht, h, start_in) refl, rw (he, ht, h, start_in) refl)
      ]

  start-made :
      (parts : Parts c World) (uuid now : Str) (w w' : Writing c) (app_id : Str) (n : Node c World)
      → StartsNothing parts
      → RolledBack uuid now w w' app_id n
      → is_ok (start parts uuid now w w' app_id n).0 ≡ true
  unfolding start
  start-made parts uuid now w w' app_id n refuses (s, hs, app, he, t, id, ht, h, h') =
      let (same, rules) = start_in-made parts uuid now w w' app_id id s n app t refuses he ht in
      rw (hs, start) (same ∙ rw (h, h') refl)

  in-made :
      (parts : Parts c World) (uuid now : Str) (w w' : Writing c) (app_id : Str) (n : Node c World)
      (s : NodeState)
      → StartsNothing parts
      → state_of c n.db ≡ ok s
      → (is_ok (start_in parts uuid now w w' app_id s n).0 ≡ true
          → RolledBack uuid now w w' app_id n)
        × ((start_in parts uuid now w w' app_id s n).1.rules ≡ n.rules)
  unfolding start_in
  in-made parts uuid now w w' app_id n s refuses hs =
      elim (Option-cases (get app_id s.app_installations)) [
        | inl e ↦ (λ h. absurd (ground arith), rw (e, start_in) refl)
        | inr (app, he) ↦ elim (Result-cases (create_process_start_transition uuid now app_id s)) [
          | inr (e, ht) ↦ (λ h. absurd (ground arith), rw (he, ht, start_in) refl)
          | inl ((t, id), ht) ↦
              let (same, rules) =
                start_in-made parts uuid now w w' app_id id s n app t refuses he ht in
              (λ h. (s, hs, app, he, t, id, ht, ground arith, ground arith), rules)
        ]
      ]

  start-rules :
      (parts : Parts c World) (uuid now : Str) (w w' : Writing c) (app_id : Str) (n : Node c World)
      → StartsNothing parts
      → (start parts uuid now w w' app_id n).1.rules ≡ n.rules
  unfolding start
  start-rules parts uuid now w w' app_id n refuses = elim (Result-cases (state_of c n.db)) [
    | inr (e, h) ↦ rw (h, start) refl
    | inl (s, h) ↦ rw (h, start) (in-made parts uuid now w w' app_id n s refuses h).1
  ]

  start-needs :
      (parts : Parts c World) (uuid now : Str) (w w' : Writing c) (app_id : Str) (n : Node c World)
      → StartsNothing parts
      → is_ok (start parts uuid now w w' app_id n).0 ≡ true
      → RolledBack uuid now w w' app_id n
  unfolding start
  start-needs parts uuid now w w' app_id n refuses k = elim (Result-cases (state_of c n.db)) [
    | inr (e, h) ↦ absurd (ground arith)
    | inl (s, h) ↦ (in-made parts uuid now w w' app_id n s refuses h).0 (ground arith)
  ]

  start_handler-created :
      (parts : Parts c World) (uuid now : Str) (w w' : Writing c) (app_id : Str) (n : Node c World)
      → ((start_process_handler parts uuid now w w' (some app_id) n).0 ≡ 201)
        ↔ (is_ok (start parts uuid now w w' app_id n).0 ≡ true)
  unfolding start_process_handler
  start_handler-created parts uuid now w w' app_id n =
      elim (Result-cases (start parts uuid now w w' app_id n).0) [
        | inl (u, e) ↦ ground arith
        | inr (f, e) ↦ ground arith
      ]

  -- With drivers that start nothing, startProcess reports no error of a process and leaves the
  -- proxy's rules as they were, on every node and however its writes end. The handler answers 201
  -- exactly where the database holds the app, the transition of the start is taken and its rollback
  -- is taken too.
  pub start-unreported :
      (parts : Parts c World) (uuid now : Str) (w w' : Writing c) (app_id : Str) (n : Node c World)
      (e : ProcessError)
      → StartsNothing parts
      → ((start parts uuid now w w' app_id n).0 ≢ err (of_process e))
        × ((start parts uuid now w w' app_id n).1.rules ≡ n.rules)
        × (((start_process_handler parts uuid now w w' (some app_id) n).0 ≡ 201)
            ↔ RolledBack uuid now w w' app_id n)
  start-unreported parts uuid now w w' app_id n e refuses = (
    start-no_process_error parts uuid now w w' app_id n e,
    start-rules parts uuid now w w' app_id n refuses,
    (
      λ h.
          start-needs parts uuid now w w' app_id n refuses
            ((start_handler-created parts uuid now w w' app_id n).0 h),
      λ h.
          (start_handler-created parts uuid now w w' app_id n).1
            (start-made parts uuid now w w' app_id n refuses h),
    ),
  )
