-- ===== src/State/Invariant/Steps.antt =====
-- The specification's step keeps the invariant, for every transition.
use habitat_new.Prelude.{
  Str, Option, none, some, List, [], ◌∷◌, ◌≡◌, refl, arith, subst, Option-cases, inl, inr, Result,
  ok, err, or_err, ◌>>=◌,
}
use habitat_new.Prelude.Dict.{Dict, get, find, insert}
use habitat_new.App.{Installation, installed}
use habitat_new.Proxy.{Rule}
use habitat_new.State.Types.{NodeState, StateError, bad_patch}
use habitat_new.State.Codec.{Codec}
use habitat_new.State.CodecLaws.{CodecLaws}
use habitat_new.State.Effects.{put_rule, put_rules, put_installation}
use habitat_new.State.Transitions.{
  Transition, initialization, migration, add_user, start_installation, finish_installation,
  uninstall, process_start, process_stop, add_reverse_proxy_rule, fill_maps, validate_add_user,
  validate_start_installation, validate_finish_installation, validate_uninstall,
  validate_process_start, validate_process_stop, validate_add_rule,
}
use habitat_new.State.Transitions.Step.{step, install}
use habitat_new.State.Invariant.Defs.{IsConsistent}
use habitat_new.State.Invariant.Users.{add_user-IsConsistent}
use habitat_new.State.Invariant.Installations.{
  start_installation-IsConsistent, set_installation_state-IsConsistent,
  erase_installation-IsConsistent,
}
use habitat_new.State.Invariant.Processes.{process_start-IsConsistent, erase_process-IsConsistent}
use habitat_new.State.Invariant.Migrating.{migrate-IsConsistent}

-- The rules are no part of the invariant.
with_rules-IsConsistent :
    (s : NodeState) (rules : Dict Rule)
    → IsConsistent s
    → IsConsistent (record s { reverse_proxy_rules = rules })
with_rules-IsConsistent s rules c = record {
  user_key = c.user_key;
  one_username = c.one_username;
  app_key = c.app_key;
  app_user = c.app_user;
  one_installation = c.one_installation;
  process_key = c.process_key;
  process_user = c.process_user;
  one_process = c.one_process;
}

put_rule-IsConsistent :
    (id : Str) (r : Rule) (s s' : NodeState)
    → put_rule id r s ≡ some s'
    → IsConsistent s
    → IsConsistent s'
unfolding put_rule
put_rule-IsConsistent id r s s' e c = elim (Option-cases s.reverse_proxy_rules) [
  | inl nil_map ↦ absurd (ground arith)
  | inr (m, h) ↦
      let same : record s { reverse_proxy_rules = some (insert id r m) } ≡ s' = ground arith in
      subst IsConsistent same (with_rules-IsConsistent s (some (insert id r m)) c)
]

put_rules-IsConsistent :
    (rules : List Rule) (s s' : NodeState)
    → put_rules rules s ≡ some s'
    → IsConsistent s
    → IsConsistent s'
unfolding put_rules
put_rules-IsConsistent [] s s' e c = subst IsConsistent (ground arith) c
put_rules-IsConsistent (r ∷ rules) s s' e c = elim (Option-cases (put_rule r.id r s)) [
  | inl failed ↦ absurd (ground arith)
  | inr (s₁, h) ↦
      put_rules-IsConsistent rules s₁ s' (ground arith) (put_rule-IsConsistent r.id r s s₁ h c)
]

fill_maps-IsConsistent : (s : NodeState) → IsConsistent s → IsConsistent (fill_maps s)
unfolding fill_maps get find
fill_maps-IsConsistent s c = record {
  user_key = λ k u e. ground (arith, c.user_key k u);
  one_username = λ i j u v e f g. ground (arith, c.one_username i j u v);
  app_key = λ k a e. ground (arith, c.app_key k a);
  app_user = λ k a e. ground (arith, c.app_user k a);
  one_installation = λ i j a b e f g g'. ground (arith, c.one_installation i j a b);
  process_key = λ k p e. ground (arith, c.process_key k p);
  process_user = λ k p e. ground (arith, c.process_user k p);
  one_process = λ i j p q e f g. ground (arith, c.one_process i j p q);
}

-- An initialization brings a consistent state.
abbrev pub IsSound : Transition → Type 0
IsSound (initialization none) = Unit
IsSound (initialization (some s)) = IsConsistent s
IsSound (migration _) = Unit
IsSound _ = Unit

-- After `v >> or_err o e`, the check has passed and the effect is there.
checked :
    (v : Result StateError (Unit {0})) (o : Option NodeState) {s' : NodeState}
    → (v >>= λ _. or_err o bad_patch) ≡ ok s'
    → (v ≡ ok tt) × (o ≡ some s')
checked (ok _) (some s) h = (refl, ground arith)
checked (ok _) none h = cc
checked (err e) o h = cc

install-IsConsistent :
    (a : Installation) (rules : List Rule) (s s' : NodeState)
    → validate_start_installation a s ≡ ok tt
    → install a rules s ≡ some s'
    → IsConsistent s
    → IsConsistent s'
unfolding install
install-IsConsistent a rules s s' valid e c = elim (Option-cases (put_installation a.id a s)) [
  | inl failed ↦ absurd (ground arith)
  | inr (s₁, h) ↦
      put_rules-IsConsistent rules s₁ s' (ground arith)
        (start_installation-IsConsistent a s s₁ valid h c)
]

module _ (c : Codec) (laws : CodecLaws c) where
  -- For every transition, an initialization with a consistent state included, the state after a
  -- step of the specification is consistent if the one before it is.
  pub step-IsConsistent :
      (t : Transition) (s s' : NodeState)
      → IsSound t
      → step c t s ≡ ok s'
      → IsConsistent s
      → IsConsistent s'
  unfolding step
  step-IsConsistent (initialization none) s s' sound e h = cc
  step-IsConsistent (initialization (some t)) s s' sound e h =
      subst IsConsistent (ground arith) (fill_maps-IsConsistent t sound)
  step-IsConsistent (migration target) s s' sound e h = migrate-IsConsistent c laws target s s' e h
  step-IsConsistent (add_user u) s s' sound e h =
      let (valid, effect) = checked (validate_add_user u s) _ e in
      add_user-IsConsistent u s s' valid effect h
  step-IsConsistent (start_installation a rules) s s' sound e h =
      let (valid, effect) = checked (validate_start_installation a s) _ e in
      install-IsConsistent a rules s s' valid effect h
  step-IsConsistent (finish_installation id) s s' sound e h =
      let (valid, effect) = checked (validate_finish_installation id s) _ e in
      set_installation_state-IsConsistent id installed s s' effect h
  step-IsConsistent (uninstall id) s s' sound e h =
      let (valid, effect) = checked (validate_uninstall id s) _ e in
      erase_installation-IsConsistent id s s' effect h
  step-IsConsistent (process_start none) s s' sound e h = cc
  step-IsConsistent (process_start (some p)) s s' sound e h =
      let (valid, effect) = checked (validate_process_start p s) _ e in
      process_start-IsConsistent p s s' valid effect h
  step-IsConsistent (process_stop id) s s' sound e h =
      let (valid, effect) = checked (validate_process_stop id s) _ e in
      erase_process-IsConsistent id s s' effect h
  step-IsConsistent (add_reverse_proxy_rule r) s s' sound e h =
      let (valid, effect) = checked (validate_add_rule r s) _ e in
      put_rule-IsConsistent r.id r s s' effect h
