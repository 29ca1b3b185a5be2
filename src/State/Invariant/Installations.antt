-- ===== src/State/Invariant/Installations.antt =====
-- Installing, finishing an installation and uninstalling keep the invariant.
use habitat_new.Prelude.{
  Str, str_eq_iff, any, true, false, none, some, is_some, List, ◌≡◌, arith, subst, Option-cases,
  inl, inr, ok,
}
use habitat_new.Prelude.Dict.{
  get, find, insert, erase, entries, values, find-insert, find-erase, any-values,
}
use habitat_new.App.{Installation}
use habitat_new.State.Types.{NodeState}
use habitat_new.State.Effects.{put_installation, set_installation_state, erase_installation}
use habitat_new.State.Transitions.{validate_start_installation, same_package}
use habitat_new.State.Invariant.Defs.{IsConsistent}

-- What Validate has checked.
start_installation-valid :
    (a : Installation) (s : NodeState)
    → validate_start_installation a s ≡ ok tt
    → (is_some (get a.user_id s.users) ≡ true)
      × (get a.id s.app_installations ≡ none)
      × (any (λ (b : Installation). same_package b a) (values (entries s.app_installations))
          ≡ false)
unfolding validate_start_installation
start_installation-valid a s h = ground arith

module _ (a : Installation) (s : NodeState) (m : List (Str × Installation))
    (h : s.app_installations ≡ some m) (valid : validate_start_installation a s ≡ ok tt)
    (c : IsConsistent s) where
  other_package : (k : Str) (b : Installation) → find k m ≡ some b → same_package b a ≡ false
  other_package k b e =
      any-values (λ (x : Installation). same_package x a) k b m
        (ground (arith, start_installation-valid a s valid)) e

  put_installation-IsConsistent :
      IsConsistent (record s { app_installations = some (insert a.id a m) })
  unfolding get
  put_installation-IsConsistent = record {
    user_key = c.user_key;
    one_username = c.one_username;
    app_key = λ k b e. ground (arith, find-insert a.id k a m, str_eq_iff a.id k, c.app_key k b);
    app_user = λ k b e.
        ground (arith, find-insert a.id k a m, start_installation-valid a s valid, c.app_user k b);
    one_installation = λ i j x y e f g g'. ground (
      arith,
      find-insert a.id i a m,
      find-insert a.id j a m,
      str_eq_iff a.id i,
      str_eq_iff a.id j,
      str_eq_iff x.registry_url_base a.registry_url_base,
      str_eq_iff y.registry_url_base a.registry_url_base,
      str_eq_iff x.registry_package_id a.registry_package_id,
      str_eq_iff y.registry_package_id a.registry_package_id,
      other_package i x,
      other_package j y,
      c.one_installation i j x y,
    );
    process_key = c.process_key;
    process_user = c.process_user;
    one_process = c.one_process;
  }

pub start_installation-IsConsistent :
    (a : Installation) (s s' : NodeState)
    → validate_start_installation a s ≡ ok tt
    → put_installation a.id a s ≡ some s'
    → IsConsistent s
    → IsConsistent s'
unfolding put_installation
start_installation-IsConsistent a s s' valid e c = elim (Option-cases s.app_installations) [
  | inl nil_map ↦ absurd (ground arith)
  | inr (m, h) ↦
      let same : record s { app_installations = some (insert a.id a m) } ≡ s' = ground arith in
      subst IsConsistent same (put_installation-IsConsistent a s m h valid c)
]

module _ (id st : Str) (a : Installation) (s : NodeState) (c : IsConsistent s)
    (h : get id s.app_installations ≡ some a) where
  abbrev changed : List (Str × Installation)
  changed = insert id (record a { state = st }) (entries s.app_installations)

  change-IsConsistent : IsConsistent (record s { app_installations = some changed })
  unfolding get
  change-IsConsistent =
      let law =
        λ (k : Str). find-insert id k (record a { state = st }) (entries s.app_installations) in
      record {
        user_key = c.user_key;
        one_username = c.one_username;
        app_key = λ k b e. ground (arith, law k, str_eq_iff id k, c.app_key k b, c.app_key id a h);
        app_user = λ k b e. ground (arith, law k, c.app_user k b, c.app_user id a h);
        one_installation = λ i j x y e f g g'. ground (
          arith,
          law i,
          law j,
          str_eq_iff id i,
          str_eq_iff id j,
          c.one_installation i j x y,
          c.one_installation id j a y h,
          c.one_installation i id x a,
        );
        process_key = c.process_key;
        process_user = c.process_user;
        one_process = c.one_process;
      }

  erase_installation_at :
      IsConsistent (record s { app_installations = some (erase id (entries s.app_installations)) })
  unfolding get
  erase_installation_at =
      let law = λ (k : Str). find-erase id k (entries s.app_installations) in
      record {
        user_key = c.user_key;
        one_username = c.one_username;
        app_key = λ k b e. ground (arith, law k, c.app_key k b);
        app_user = λ k b e. ground (arith, law k, c.app_user k b);
        one_installation =
            λ i j x y e f g g'. ground (arith, law i, law j, c.one_installation i j x y);
        process_key = c.process_key;
        process_user = c.process_user;
        one_process = c.one_process;
      }

pub set_installation_state-IsConsistent :
    (id st : Str) (s s' : NodeState)
    → set_installation_state id st s ≡ some s'
    → IsConsistent s
    → IsConsistent s'
unfolding set_installation_state
set_installation_state-IsConsistent id st s s' e c =
    elim (Option-cases (get id s.app_installations)) [
      | inl missing ↦ absurd (ground arith)
      | inr (a, h) ↦
          let same : record s {
            app_installations =
                some (insert id (record a { state = st }) (entries s.app_installations));
          }
              ≡ s' =
            ground arith in
          subst IsConsistent same (change-IsConsistent id st a s c h)
    ]

pub erase_installation-IsConsistent :
    (id : Str) (s s' : NodeState)
    → erase_installation id s ≡ some s'
    → IsConsistent s
    → IsConsistent s'
unfolding erase_installation
erase_installation-IsConsistent id s s' e c = elim (Option-cases (get id s.app_installations)) [
  | inl missing ↦ absurd (ground arith)
  | inr (a, h) ↦
      let same : record s { app_installations = some (erase id (entries s.app_installations)) }
          ≡ s' =
        ground arith in
      subst IsConsistent same (erase_installation_at id id a s c h)
]
