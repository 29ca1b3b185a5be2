-- ===== src/State/Invariant/Migrating.antt =====
-- Every data migration, up or down, keeps the invariant.
use mathlib.Core.List.{reverse-cons}
use habitat_new.Prelude.{
  if◌then◌else◌, Str, str_eq, Bool, true, false, Option, none, some, List, [], str, ◌∷◌, ◌++◌,
  reverse, All, ◌≡◌, refl, arith, subst, Result-cases, Bool-cases, inl, inr, Result, ok, or_err,
  ◌>>=◌, >>=-eq-ok,
}
use habitat_new.State.Types.{NodeState, StateError, nil_dereference}
use habitat_new.State.Codec.{Codec}
use habitat_new.State.CodecLaws.{CodecLaws}
use habitat_new.State.Schema.{is_lt, is_gt, copy}
use habitat_new.State.Migrations.{
  set_test_field, add_proxy_rules, drop_proxy_rules, drop_dids, initial_up, in_order, run_one,
  DataMigration, visit, copied, plain_migration, collect, get_needed_migrations, run_migrations,
  migrated, node_data_migrations,
}
use habitat_new.State.Transitions.Step.{migrate}
use habitat_new.State.Invariant.Defs.{IsConsistent}
use habitat_new.State.Invariant.Changes.{
  no_entries-IsConsistent, with_version-IsConsistent, set_test_field-IsConsistent,
  add_proxy_rules-IsConsistent, drop_proxy_rules-IsConsistent, drop_dids-IsConsistent,
}

-- Both functions of a migration keep the invariant, where they return a state.
abbrev KeepsState : (NodeState → Result StateError (Option NodeState)) → Type 0
KeepsState f = (s s' : NodeState) → f s ≡ ok (some s') → IsConsistent s → IsConsistent s'

abbrev Keeps : DataMigration → Type 0
Keeps m = KeepsState m.up × KeepsState m.down

All-append : (xs ys : List DataMigration) → All Keeps xs → All Keeps ys → All Keeps (xs ++ ys)
All-append [] ys h k = k
All-append (x ∷ xs) ys h k = (h.0, All-append xs ys h.1 k)

All-collect :
    (current target : Str) (ms : List DataMigration) (inside : Bool) (found : List DataMigration)
    → All Keeps ms
    → All Keeps found
    → All Keeps (collect current target ms inside found).1
unfolding collect
All-collect current target [] inside found h k = k
All-collect current target (m ∷ ms) inside found h k =
    let v = visit current target m inside in
    let kept : All Keeps (if v.taken then found ++ m ∷ [] else found) = elim (Bool-cases v.taken) [
      | inl e ↦ rw e (All-append found (m ∷ []) k (h.0, tt))
      | inr e ↦ rw e k
    ] in
    elim (Bool-cases v.stop) [
      | inl e ↦ rw e kept
      | inr e ↦ rw e (All-collect current target ms v.in_migration _ h.1 kept)
    ]

All-reverse : (xs : List DataMigration) → All Keeps xs → All Keeps (reverse xs)
All-reverse [] h = tt
All-reverse (x ∷ xs) h =
    rw reverse-cons (All-append (reverse xs) (x ∷ []) (All-reverse xs h.1) (h.0, tt))

-- A change of the copy that keeps the invariant.
module _ (c : Codec) (laws : CodecLaws c) where
  copy-eq-ok : (s : NodeState) → copy c s ≡ ok s
  unfolding copy
  copy-eq-ok s = rw (laws.unmarshal_encodes (c.marshal s) s (laws.marshal_encodes s)) refl

  copied-KeepsState :
      (f : NodeState → NodeState)
      → ((s : NodeState) → IsConsistent s → IsConsistent (f s))
      → KeepsState (copied c f)
  unfolding copied
  copied-KeepsState f keep s s' e h = subst IsConsistent (ground (arith, copy-eq-ok s)) (keep s h)

  plain-Keeps : (up down : Str) → Keeps (plain_migration c up down)
  unfolding plain_migration
  plain-Keeps up down =
      (copied-KeepsState (λ s. s) (λ s h. h), copied-KeepsState (λ s. s) (λ s h. h))

  -- The tails of the list, so that each lemma speaks of one migration.
  All-node_data_migrations : All Keeps (node_data_migrations c)
  unfolding node_data_migrations initial_up
  All-node_data_migrations =
      let test =
        λ (v : Str). copied-KeepsState (set_test_field c v) (set_test_field-IsConsistent c v) in
      (
        (
          λ s s' e h. subst IsConsistent (ground arith) (no_entries-IsConsistent (str "v0.0.1")),
          λ s s' e h. cc,
        ),
        (
          (test (str "test"), test []),
          (
            (test [], test (str "test")),
            (
              (
                copied-KeepsState (add_proxy_rules c) (add_proxy_rules-IsConsistent c),
                copied-KeepsState (drop_proxy_rules c) (drop_proxy_rules-IsConsistent c),
              ),
              (
                (
                  λ s s' e h. subst IsConsistent (ground arith) h,
                  copied-KeepsState (drop_dids c) (drop_dids-IsConsistent c),
                ),
                (
                  plain-Keeps (str "v0.0.6") (str "v0.0.5"),
                  (
                    plain-Keeps (str "v0.0.7") (str "v0.0.6"),
                    (
                      plain-Keeps (str "v0.0.8") (str "v0.0.7"),
                      (plain-Keeps (str "v0.0.9") (str "v0.0.8"), tt),
                    ),
                  ),
                ),
              ),
            ),
          ),
        ),
      )

  run_one-IsConsistent :
      (current target : Str) (m : DataMigration) (s s' : NodeState)
      → Keeps m
      → run_one c current target m s ≡ ok (some s')
      → IsConsistent s
      → IsConsistent s'
  unfolding run_one
  run_one-IsConsistent current target m s s' k e h =
      elim (Bool-cases (is_lt (c.compare_versions current target))) [
        | inl up ↦ k.0 s s' (ground arith) h
        | inr not_up ↦ elim (Bool-cases (is_gt (c.compare_versions current target))) [
          | inl down ↦ k.1 s s' (ground arith) h
          | inr same ↦ absurd (ground arith)
        ]
      ]

  -- A state that is there is consistent.
  abbrev Sound : Option NodeState → Type 0
  Sound none = Unit
  Sound (some s) = IsConsistent s

  Sound-run_one :
      (current target : Str) (m : DataMigration) (s : NodeState) (o : Option NodeState)
      → Keeps m
      → run_one c current target m s ≡ ok o
      → IsConsistent s
      → Sound o
  Sound-run_one current target m s none k e h = tt
  Sound-run_one current target m s (some s') k e h =
      run_one-IsConsistent current target m s s' k e h

  Sound-run_migrations :
      (current target : Str) (ms : List DataMigration) (o o' : Option NodeState)
      → All Keeps ms
      → run_migrations c current target ms o ≡ ok o'
      → Sound o
      → Sound o'
  unfolding run_migrations
  Sound-run_migrations current target [] o o' k e h = subst Sound (ground arith) h
  Sound-run_migrations current target (m ∷ ms) none o' k e h = cc
  Sound-run_migrations current target (m ∷ ms) (some s) o' k e h =
      elim (Result-cases (run_one c current target m s)) [
        | inr (x, failed) ↦ absurd (ground arith)
        | inl (o₁, one) ↦
            let sound = Sound-run_one current target m s o₁ k.0 one h in
            elim (Bool-cases (str_eq m.up_version target)) [
              | inl last ↦ subst Sound (ground arith) sound
              | inr more ↦ Sound-run_migrations current target ms o₁ o' k.1 (ground arith) sound
            ]
      ]

  All-in_order :
      (current target : Str) (p : Bool × List DataMigration) (ms : List DataMigration)
      → All Keeps p.1
      → in_order c current target p ≡ ok ms
      → All Keeps ms
  unfolding in_order
  All-in_order current target (inside, []) ms k e = cc
  All-in_order current target (true, x ∷ xs) ms k e = cc
  All-in_order current target (false, x ∷ xs) ms k e =
      elim (Bool-cases (is_gt (c.compare_versions current target))) [
        | inl down ↦
            let same : reverse (x ∷ xs) ≡ ms = ground arith in
            subst (All Keeps) same (All-reverse (x ∷ xs) k)
        | inr up ↦ let same : x ∷ xs ≡ ms = ground arith in subst (All Keeps) same k
      ]

  All-get_needed_migrations :
      (all ms : List DataMigration) (current target : Str)
      → All Keeps all
      → get_needed_migrations c all current target ≡ ok ms
      → All Keeps ms
  unfolding get_needed_migrations
  All-get_needed_migrations all ms current target k e =
      All-in_order current target (collect current target all false []) ms
        (All-collect current target all false [] k tt) (ground arith)

  versioned :
      (target : Str) (o : Option NodeState) (s' : NodeState)
      → Sound o
      → (do s ← or_err o nil_dereference; ok (record s { schema_version = target })) ≡ ok s'
      → IsConsistent s'
  versioned target none s' h e = cc
  versioned target (some s) s' h e =
      subst IsConsistent (ground arith) (with_version-IsConsistent target s h)

  migrated-IsConsistent :
      (target : Str) (s s' : NodeState)
      → migrated c (node_data_migrations c) s.schema_version target s ≡ ok s'
      → IsConsistent s
      → IsConsistent s'
  unfolding migrated
  migrated-IsConsistent target s s' e h =
      let (ms, needed, e₁) =
        >>=-eq-ok (get_needed_migrations c (node_data_migrations c) s.schema_version target) _ e in
      let (s₁, copied_to, e₂) = >>=-eq-ok (copy c s) _ e₁ in
      let (o, ran, e₃) = >>=-eq-ok (run_migrations c s.schema_version target ms (some s₁)) _ e₂ in
      let keeps =
        All-get_needed_migrations (node_data_migrations c) ms s.schema_version target
          All-node_data_migrations needed in
      let start : IsConsistent s₁ = subst IsConsistent (ground (arith, copy-eq-ok s)) h in
      versioned target o s'
        (Sound-run_migrations s.schema_version target ms (some s₁) o keeps ran start) e₃

  pub migrate-IsConsistent :
      (target : Str) (s s' : NodeState)
      → migrate c target s ≡ ok s'
      → IsConsistent s
      → IsConsistent s'
  unfolding migrate
  migrate-IsConsistent target s s' e h =
      let (t, migrated_to, rest) =
        >>=-eq-ok (migrated c (node_data_migrations c) s.schema_version target s) _ e in
      let same : t ≡ s' = ground arith in
      subst IsConsistent same (migrated-IsConsistent target s t migrated_to h)
