-- ===== src/State/Invariant/Users.antt =====
-- Adding a user keeps the invariant.
use habitat_new.Prelude.{
  Str, str_eq, str_eq_iff, any, false, none, some, List, ◌≡◌, arith, subst, Option-cases, inl, inr,
  ok,
}
use habitat_new.Prelude.Dict.{get, find, insert, entries, values, find-insert, any-values}
use habitat_new.State.Types.{NodeState, User}
use habitat_new.State.Effects.{put_user}
use habitat_new.State.Transitions.{validate_add_user}
use habitat_new.State.Invariant.Defs.{IsConsistent}

-- What Validate has checked.
add_user-valid :
    (u : User) (s : NodeState)
    → validate_add_user u s ≡ ok tt
    → (get u.id s.users ≡ none)
      × (any (λ (v : User). str_eq v.username u.username) (values (entries s.users)) ≡ false)
unfolding validate_add_user
add_user-valid u s h = ground arith

module _ (u : User) (s : NodeState) (m : List (Str × User)) (h : s.users ≡ some m)
    (valid : validate_add_user u s ≡ ok tt) (c : IsConsistent s) where
  fresh_username : (k : Str) (v : User) → find k m ≡ some v → str_eq v.username u.username ≡ false
  fresh_username k v e =
      any-values (λ (w : User). str_eq w.username u.username) k v m
        (ground (arith, add_user-valid u s valid)) e

  put_user-IsConsistent : IsConsistent (record s { users = some (insert u.id u m) })
  unfolding get
  put_user-IsConsistent = record {
    user_key = λ k v e. ground (arith, find-insert u.id k u m, str_eq_iff u.id k, c.user_key k v);
    one_username = λ i j v w e f g. ground (
      arith,
      find-insert u.id i u m,
      find-insert u.id j u m,
      str_eq_iff u.id i,
      str_eq_iff u.id j,
      str_eq_iff v.username u.username,
      str_eq_iff w.username u.username,
      fresh_username i v,
      fresh_username j w,
      c.one_username i j v w,
    );
    app_key = c.app_key;
    app_user = λ k a e. ground (arith, find-insert u.id a.user_id u m, c.app_user k a e);
    one_installation = c.one_installation;
    process_key = c.process_key;
    process_user = λ k p e. ground (arith, find-insert u.id p.user_id u m, c.process_user k p e);
    one_process = c.one_process;
  }

-- The user that Validate accepts is put into the users, and the invariant holds.
pub add_user-IsConsistent :
    (u : User) (s s' : NodeState)
    → validate_add_user u s ≡ ok tt
    → put_user u.id u s ≡ some s'
    → IsConsistent s
    → IsConsistent s'
unfolding put_user
add_user-IsConsistent u s s' valid e c = elim (Option-cases s.users) [
  | inl nil_map ↦ absurd (ground arith)
  | inr (m, h) ↦
      let same : record s { users = some (insert u.id u m) } ≡ s' = ground arith in
      subst IsConsistent same (put_user-IsConsistent u s m h valid c)
]
