-- ===== src/State/Propose/Migrating.antt =====
-- The migration transition refines the specification.
use habitat_new.Prelude.{
  Str, some, ◌≡◌, ◌∙◌, arith, Option-cases, Result-cases, inl, inr, Result, ok, err, or_err, ◌>>=◌,
}
use habitat_new.State.Types.{NodeState, StateError, bad_patch, validation_failed, no_diff}
use habitat_new.State.Codec.{Codec, Patch}
use habitat_new.State.CodecLaws.{CodecLaws}
use habitat_new.State.Schema.{validate_node}
use habitat_new.State.Transitions.{migration, validate, patch, validate_migration}
use habitat_new.State.Migrations.{
  migrated, node_data_migrations, get_migration_patch, apply_patch_to_state,
}
use habitat_new.State.Transitions.Step.{migrate}
use habitat_new.State.Propose.Defs.{propose_one}
use habitat_new.State.Propose.Parts.{Refines, Refines-of_parts, propose_one-invalid}

module _ (c : Codec) (laws : CodecLaws c) where
  open laws use {Encodes, unmarshal_encodes}

  validate-migration :
      (target : Str) (d : c.Document) (s : NodeState)
      → Encodes d s
      → validate c (migration target) d ≡ validate_migration c target s
  unfolding validate
  validate-migration target d s enc = rw (unmarshal_encodes d s enc)

  abbrev migrated_to : Str → NodeState → Result StateError NodeState
  migrated_to target s = migrated c (node_data_migrations c) s.schema_version target s

  -- Where the run of the migrations fails, and where there is no diff.
  migration_fails :
      (target : Str) (s : NodeState) {e : StateError}
      → get_migration_patch c (node_data_migrations c) s.schema_version target s ≡ err e
      → validate_migration c target s ≡ err e
  unfolding validate_migration
  migration_fails target s h = ground arith

  migration_patch :
      (target : Str) (s s' : NodeState) (p : Patch)
      → migrated_to target s ≡ ok s'
      → c.diff s s' ≡ some p
      → get_migration_patch c (node_data_migrations c) s.schema_version target s ≡ ok p
  unfolding get_migration_patch
  migration_patch target s s' p h g = ground arith

  -- The diff takes the copy that applyPatchToState patches to the migrated state.
  apply_patch_to_state-diff :
      (s s' : NodeState) (p : Patch) → c.diff s s' ≡ some p → apply_patch_to_state c p s ≡ ok s'
  unfolding apply_patch_to_state
  apply_patch_to_state-diff s s' p h =
      let (e, applied, enc) = laws.apply_diff s s' p (c.marshal s) h (laws.marshal_encodes s) in
      rw (applied) (ground (arith, unmarshal_encodes e s' enc))

  validate_migration-migrated :
      (target : Str) (s s' : NodeState) (p : Patch)
      → migrated_to target s ≡ ok s'
      → c.diff s s' ≡ some p
      → validate_migration c target s ≡ validate_node c s'
  unfolding validate_migration
  validate_migration-migrated target s s' p h g =
      ground (arith, migration_patch target s s' p h g, apply_patch_to_state-diff s s' p g)

  Refines-migrated :
      (target : Str) (d : c.Document) (s s' : NodeState) (p : Patch)
      → Encodes d s
      → migrated_to target s ≡ ok s'
      → c.diff s s' ≡ some p
      → Refines c laws
          (validate_node c s' >>= λ _. or_err (some s') bad_patch)
          (propose_one c (migration target) d)
  unfolding patch
  Refines-migrated target d s s' p enc h g =
      Refines-of_parts c laws (migration target) d (validate_node c s') (some s') p
        (validate-migration target d s enc ∙ validate_migration-migrated target s s' p h g)
        (λ _. rw (unmarshal_encodes d s enc) (migration_patch target s s' p h g))
        (laws.apply_diff s s' p d g enc)

  migrate-migrated :
      (target : Str) (s s' : NodeState) (p : Patch)
      → migrated_to target s ≡ ok s'
      → c.diff s s' ≡ some p
      → migrate c target s ≡ (validate_node c s' >>= λ _. or_err (some s') bad_patch)
  unfolding migrate
  migrate-migrated target s s' p h g = ground arith

  Refines-no_migration :
      (target : Str) (d : c.Document) (s : NodeState) {e : StateError}
      → Encodes d s
      → get_migration_patch c (node_data_migrations c) s.schema_version target s ≡ err e
      → migrate c target s ≡ err e
      → Refines c laws (migrate c target s) (propose_one c (migration target) d)
  Refines-no_migration target d s {e} enc h m = rw m (
    validation_failed e,
    propose_one-invalid c laws (migration target) d
        (validate-migration target d s enc ∙ migration_fails target s h),
  )

  pub Refines-migration :
      (target : Str) (d : c.Document) (s : NodeState)
      → Encodes d s
      → Refines c laws (migrate c target s) (propose_one c (migration target) d)
  unfolding get_migration_patch migrate
  Refines-migration target d s enc = elim (Result-cases (migrated_to target s)) [
    | inr (e, h) ↦ Refines-no_migration target d s {e = e} enc (ground arith) (ground arith)
    | inl (s', h) ↦ elim (Option-cases (c.diff s s')) [
      | inl g ↦ Refines-no_migration target d s {e = no_diff} enc (ground arith) (ground arith)
      | inr (p, g) ↦
          rw (migrate-migrated target s s' p h g) (Refines-migrated target d s s' p enc h g)
    ]
  ]
