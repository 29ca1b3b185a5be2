-- ===== src/State/Invariant/Processes.antt =====
-- Starting and stopping a process keep the invariant.
use habitat_new.Prelude.{
  Str, str_eq, str_eq_iff, any, true, false, none, some, is_some, List, ◌≡◌, arith, subst,
  Option-cases, inl, inr, ok,
}
use habitat_new.Prelude.Dict.{
  get, find, insert, erase, entries, values, find-insert, find-erase, any-values,
}
use habitat_new.Process.{Process}
use habitat_new.State.Types.{NodeState}
use habitat_new.State.Effects.{put_process, erase_process}
use habitat_new.State.Transitions.{validate_process_start}
use habitat_new.State.Invariant.Defs.{IsConsistent}

-- What Validate has checked.
process_start-valid :
    (p : Process) (s : NodeState)
    → validate_process_start p s ≡ ok tt
    → (is_some (get p.user_id s.users) ≡ true)
      × (get p.id s.processes ≡ none)
      × (any (λ (q : Process). str_eq q.app_id p.app_id) (values (entries s.processes)) ≡ false)
unfolding validate_process_start
process_start-valid p s h = ground arith

module _ (p : Process) (s : NodeState) (m : List (Str × Process)) (h : s.processes ≡ some m)
    (valid : validate_process_start p s ≡ ok tt) (c : IsConsistent s) where
  other_app : (k : Str) (q : Process) → find k m ≡ some q → str_eq q.app_id p.app_id ≡ false
  other_app k q e =
      any-values (λ (x : Process). str_eq x.app_id p.app_id) k q m
        (ground (arith, process_start-valid p s valid)) e

  put_process-IsConsistent : IsConsistent (record s { processes = some (insert p.id p m) })
  unfolding get
  put_process-IsConsistent = record {
    user_key = c.user_key;
    one_username = c.one_username;
    app_key = c.app_key;
    app_user = c.app_user;
    one_installation = c.one_installation;
    process_key =
        λ k q e. ground (arith, find-insert p.id k p m, str_eq_iff p.id k, c.process_key k q);
    process_user = λ k q e.
        ground (arith, find-insert p.id k p m, process_start-valid p s valid, c.process_user k q);
    one_process = λ i j x y e f g. ground (
      arith,
      find-insert p.id i p m,
      find-insert p.id j p m,
      str_eq_iff p.id i,
      str_eq_iff p.id j,
      str_eq_iff x.app_id p.app_id,
      str_eq_iff y.app_id p.app_id,
      other_app i x,
      other_app j y,
      c.one_process i j x y,
    );
  }

pub process_start-IsConsistent :
    (p : Process) (s s' : NodeState)
    → validate_process_start p s ≡ ok tt
    → put_process p.id p s ≡ some s'
    → IsConsistent s
    → IsConsistent s'
unfolding put_process
process_start-IsConsistent p s s' valid e c = elim (Option-cases s.processes) [
  | inl nil_map ↦ absurd (ground arith)
  | inr (m, h) ↦
      let same : record s { processes = some (insert p.id p m) } ≡ s' = ground arith in
      subst IsConsistent same (put_process-IsConsistent p s m h valid c)
]

erase_process_at :
    (id : Str) (s : NodeState)
    → IsConsistent s
    → IsConsistent (record s { processes = some (erase id (entries s.processes)) })
unfolding get
erase_process_at id s c =
    let law = λ (k : Str). find-erase id k (entries s.processes) in
    record {
      user_key = c.user_key;
      one_username = c.one_username;
      app_key = c.app_key;
      app_user = c.app_user;
      one_installation = c.one_installation;
      process_key = λ k q e. ground (arith, law k, c.process_key k q);
      process_user = λ k q e. ground (arith, law k, c.process_user k q);
      one_process = λ i j x y e f g. ground (arith, law i, law j, c.one_process i j x y);
    }

pub erase_process-IsConsistent :
    (id : Str) (s s' : NodeState) → erase_process id s ≡ some s' → IsConsistent s → IsConsistent s'
unfolding erase_process
erase_process-IsConsistent id s s' e c = elim (Option-cases (get id s.processes)) [
  | inl missing ↦ absurd (ground arith)
  | inr (a, h) ↦
      let same : record s { processes = some (erase id (entries s.processes)) } ≡ s' =
        ground arith in
      subst IsConsistent same (erase_process_at id s c)
]
