-- ===== src/State/Migrations/Range.antt =====
-- GetNeededMigrations returns the migrations between the two versions, in the order they run.
use habitat_new.Prelude.{
  Str, str_eq_iff, reverse, true, false, List, [], ◌∷◌, ◌++◌, All, ◌≡◌, ◌≢◌, refl, ◌∙◌, ap, arith,
  ok, if◌then◌else◌, ◌⊎◌,
}
use mathlib.Core.List.{append_assoc}
use habitat_new.State.Codec.{Codec}
use habitat_new.State.Schema.{is_gt, is_eq}
use habitat_new.State.Migrations.Defs.{
  DataMigration, visit, collect, in_order, get_needed_migrations,
}

module _ (current target : Str) where
  -- A migration that touches neither of the two versions from below or above.
  abbrev pub IsApart : DataMigration → Type 0
  IsApart m = (m.down_version ≢ current) × (m.up_version ≢ current) × (m.up_version ≢ target)

  -- A migration that does not end at one of the two versions.
  abbrev pub IsInner : DataMigration → Type 0
  IsInner m = (m.up_version ≢ current) × (m.up_version ≢ target)

  abbrev pub EndsRange : DataMigration → Type 0
  EndsRange m = (m.up_version ≡ current) ⊎ (m.up_version ≡ target)

  visit-apart :
      (m : DataMigration)
      → IsApart m
      → visit current target m false ≡ record { in_migration = false; taken = false; stop = false }
  unfolding visit
  visit-apart m h = ground (
    arith,
    str_eq_iff m.down_version current,
    str_eq_iff m.up_version current,
    str_eq_iff m.up_version target,
  )

  visit-inner :
      (m : DataMigration)
      → IsInner m
      → visit current target m true ≡ record { in_migration = true; taken = true; stop = false }
  unfolding visit
  visit-inner m h = ground (arith, str_eq_iff m.up_version current, str_eq_iff m.up_version target)

  visit-last :
      (m : DataMigration)
      → EndsRange m
      → visit current target m true ≡ record { in_migration = false; taken = true; stop = true }
  unfolding visit
  visit-last m h = ground (arith, str_eq_iff m.up_version current, str_eq_iff m.up_version target)

  -- Going up from the version below the whole list.
  visit-first :
      (m : DataMigration)
      → m.down_version ≡ current
      → IsInner m
      → visit current target m false ≡ record { in_migration = true; taken = true; stop = false }
  unfolding visit
  visit-first m d h = ground (
    arith,
    str_eq_iff m.down_version current,
    str_eq_iff m.up_version current,
    str_eq_iff m.up_version target,
  )

  -- The version that starts the range is reached by a migration before it, which is not taken.
  visit-entry :
      (m : DataMigration)
      → m.down_version ≢ current
      → EndsRange m
      → visit current target m false ≡ record { in_migration = true; taken = false; stop = false }
  unfolding visit
  visit-entry m h k = ground (
    arith,
    str_eq_iff m.down_version current,
    str_eq_iff m.up_version current,
    str_eq_iff m.up_version target,
  )

  collect-apart :
      (pre ms found : List DataMigration)
      → All IsApart pre
      → collect current target (pre ++ ms) false found ≡ collect current target ms false found
  unfolding collect
  collect-apart [] ms found h = refl
  collect-apart (m ∷ pre) ms found h = rw (visit-apart m h.0) (collect-apart pre ms found h.1)

  collect-inner :
      (seg : List DataMigration) (last : DataMigration) (post found : List DataMigration)
      → All IsInner seg
      → EndsRange last
      → collect current target (seg ++ last ∷ post) true found
        ≡ (false, found ++ (seg ++ last ∷ []))
  unfolding collect
  collect-inner [] last post found h e = rw (visit-last last e) refl
  collect-inner (m ∷ seg) last post found h e = rw (visit-inner m h.0) (
      collect-inner seg last post (found ++ m ∷ []) h.1 e
      ∙ ap (λ (l : List DataMigration). (false, l))
          (append_assoc found (m ∷ []) (seg ++ last ∷ [])))

  -- Where the list is `pre`, then the migration that reaches the lower version, then the range,
  -- then the rest.
  collect-range :
      (pre : List DataMigration) (entry : DataMigration) (seg : List DataMigration)
      (last : DataMigration) (post : List DataMigration)
      → All IsApart pre
      → entry.down_version ≢ current
      → EndsRange entry
      → All IsInner seg
      → EndsRange last
      → collect current target (pre ++ (entry ∷ (seg ++ last ∷ post))) false []
        ≡ (false, seg ++ last ∷ [])
  unfolding collect
  collect-range pre entry seg last post h n e k f =
      collect-apart pre (entry ∷ (seg ++ last ∷ post)) [] h
      ∙ rw (visit-entry entry n e) (collect-inner seg last post [] k f)

  -- Where the current version is the one below the whole list, so that no migration reaches it.
  collect-from_start :
      (first : DataMigration) (seg : List DataMigration) (last : DataMigration)
      (post : List DataMigration)
      → first.down_version ≡ current
      → IsInner first
      → All IsInner seg
      → EndsRange last
      → collect current target (first ∷ (seg ++ last ∷ post)) false []
        ≡ (false, first ∷ (seg ++ last ∷ []))
  unfolding collect
  collect-from_start first seg last post d i k f =
      rw (visit-first first d i) (collect-inner seg last post (first ∷ []) k f)

module _ (c : Codec) (current target : Str) where
  -- The order in which a range runs: reversed if the target is below.
  abbrev pub ordered : List DataMigration → List DataMigration
  ordered ms = if is_gt (c.compare_versions current target) then reverse ms else ms

  in_order-ordered :
      (seg : List DataMigration) (last : DataMigration)
      → in_order c current target (false, seg ++ last ∷ []) ≡ ok (ordered (seg ++ last ∷ []))
  unfolding in_order
  in_order-ordered [] last = ground arith
  in_order-ordered (m ∷ seg) last = ground arith

  get_needed_migrations-collect :
      (all seg : List DataMigration) (last : DataMigration)
      → is_eq (c.compare_versions current target) ≡ false
      → collect current target all false [] ≡ (false, seg ++ last ∷ [])
      → get_needed_migrations c all current target ≡ ok (ordered (seg ++ last ∷ []))
  unfolding get_needed_migrations
  get_needed_migrations-collect all seg last ne h =
      ground (arith, in_order-ordered seg last, ap (in_order c current target) h)

  -- For a list of migrations in which `entry` reaches the lower of two versions, `seg` and then
  -- `last` lead on to the upper one, and nothing else reaches either: GetNeededMigrations returns
  -- `seg` and `last` in their order going up, and reversed going down.
  pub get_needed_migrations-range :
      (pre : List DataMigration) (entry : DataMigration) (seg : List DataMigration)
      (last : DataMigration) (post : List DataMigration)
      → is_eq (c.compare_versions current target) ≡ false
      → All (IsApart current target) pre
      → entry.down_version ≢ current
      → EndsRange current target entry
      → All (IsInner current target) seg
      → EndsRange current target last
      → get_needed_migrations c (pre ++ (entry ∷ (seg ++ last ∷ post))) current target
        ≡ ok (ordered (seg ++ last ∷ []))
  get_needed_migrations-range pre entry seg last post ne h n e k f =
      get_needed_migrations-collect _ seg last ne
        (collect-range current target pre entry seg last post h n e k f)
