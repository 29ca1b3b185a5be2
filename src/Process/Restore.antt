-- ===== src/Process/Restore.antt =====
-- RestoreFromState starts the processes in their order, up to the first that fails.
use habitat_new.Prelude.{
  Str, List, [], ◌∷◌, ◌++◌, ◌≡◌, refl, subst, ap, sym, Result, ok, err, arith,
}
use habitat_new.App.{Installation}
use habitat_new.Process.Defs.{
  Manager, ProcessError, restore_failed, start_process, restore_from_state,
}

module _ {World : Type 0} (pm : Manager World) where
  -- The processes are started one after another, each with success, from one world to another.
  pub data Starts : List (Str × Installation) → World → World → Type 0 where
    done : (w : World) → Starts [] w w
    next :
        (id : Str) (app : Installation) (rest : List (Str × Installation)) (w w' w'' : World)
        → start_process pm id app w ≡ (ok tt, w')
        → Starts rest w' w''
        → Starts ((id, app) ∷ rest) w w''

  -- A process before which all start, and which fails.
  pub record FailsAt (state : List (Str × Installation)) (w w' : World) (e : ProcessError)
      : Type 0 where
    pub before : List (Str × Installation)
    pub after : List (Str × Installation)
    pub id : Str
    pub app : Installation
    pub cause : ProcessError
    pub reached : World
    pub parts : state ≡ before ++ (id, app) ∷ after
    pub started : Starts before w reached
    pub fails : start_process pm id app reached ≡ (err cause, w')
    pub reported : e ≡ restore_failed id cause

  abbrev pub Restored :
      List (Str × Installation) → World → Result ProcessError (Unit {0}) × World → Type 0
  Restored state w (ok _, w') = Starts state w w'
  Restored state w (err e, w') = FailsAt state w w' e

  -- One more process in front, which has started.
  cons-Restored :
      (id : Str) (app : Installation) (state : List (Str × Installation)) (w w' : World)
      (r : Result ProcessError (Unit {0}) × World)
      → start_process pm id app w ≡ (ok tt, w')
      → Restored state w' r
      → Restored ((id, app) ∷ state) w r
  cons-Restored id app state w w' (ok _, w'') e h = next id app state w w' w'' e h
  cons-Restored id app state w w' (err c, w'') e h = record {
    before = (id, app) ∷ h.before;
    after = h.after;
    id = h.id;
    app = h.app;
    cause = h.cause;
    reached = h.reached;
    parts = ap (λ (l : List (Str × Installation)). (id, app) ∷ l) h.parts;
    started = next id app h.before w w' h.reached e h.started;
    fails = h.fails;
    reported = h.reported;
  }

  restore_from_state-step :
      (id : Str) (app : Installation) (state : List (Str × Installation)) (w w' : World)
      (r : Result ProcessError (Unit {0}))
      → start_process pm id app w ≡ (r, w')
      → Restored state w' (restore_from_state pm state w')
      → Restored ((id, app) ∷ state) w (restore_from_state pm ((id, app) ∷ state) w)
  unfolding restore_from_state
  restore_from_state-step id app state w w' (ok u) e ih =
      let started : restore_from_state pm ((id, app) ∷ state) w ≡ restore_from_state pm state w' =
        ground arith in
      subst (Restored ((id, app) ∷ state) w) (sym started)
        (cons-Restored id app state w w' (restore_from_state pm state w') e ih)
  restore_from_state-step id app state w w' (err c) e ih =
      let failed : restore_from_state pm ((id, app) ∷ state) w ≡ (err (restore_failed id c), w') =
        ground arith in
      subst (Restored ((id, app) ∷ state) w) (sym failed) (record {
        before = [];
        after = state;
        id = id;
        app = app;
        cause = c;
        reached = w;
        parts = refl;
        started = done w;
        fails = e;
        reported = refl;
      })

  -- RestoreFromState succeeds after it has started every process in turn; otherwise it stops at the
  -- first process that does not start, reports that one, and starts none after it.
  pub restore_from_state-Restored :
      (state : List (Str × Installation)) (w : World)
      → Restored state w (restore_from_state pm state w)
  unfolding restore_from_state
  restore_from_state-Restored [] w = done w
  restore_from_state-Restored ((id, app) ∷ state) w =
      restore_from_state-step id app state w (start_process pm id app w).1
        (start_process pm id app w).0 refl
        (restore_from_state-Restored state (start_process pm id app w).1)
