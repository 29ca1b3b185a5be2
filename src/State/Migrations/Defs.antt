-- ===== src/State/Migrations/Defs.antt =====
-- The choice of migrations and their run (GetNeededMigrations, GetMigrationPatch).
use habitat_new.Prelude.{
  Str, str_eq, reverse, Bool, not, true, false, ◌&&◌, ◌||◌, Option, none, some, List, [], ◌∷◌, ◌++◌,
  Result, ok, err, or_err, ◌>>=◌, if◌then◌else◌,
}
use habitat_new.State.Types.{
  NodeState, StateError, nil_dereference, no_diff, same_version, no_migrations_found,
  partial_migration_range,
}
use habitat_new.State.Codec.{Codec, Patch}
use habitat_new.State.Schema.{is_gt, is_lt, is_eq, copy}

-- basicDataMigration. A result of none is the nil *NodeState.
pub record DataMigration : Type 0 where
  pub up_version : Str
  pub down_version : Str
  pub up : NodeState → Result StateError (Option NodeState)
  pub down : NodeState → Result StateError (Option NodeState)

-- What one round of the loop of GetNeededMigrations does: the flag, whether the migration is
-- appended, and whether the loop breaks.
pub record Visit : Type 0 where
  pub in_migration : Bool
  pub taken : Bool
  pub stop : Bool

-- The test below the if-chain, which `continue` skips.
after_visit : Str → Str → DataMigration → Bool → Bool → Visit
after_visit current target m in_migration taken =
    let stop = (str_eq m.up_version target || str_eq m.up_version current) && in_migration in
    record { in_migration = in_migration && not stop; taken = taken; stop = stop }

unfoldable pub visit : Str → Str → DataMigration → Bool → Visit
unfolding after_visit
visit current target m in_migration =
    if str_eq m.down_version current && not in_migration
    then after_visit current target m true true
    else if (str_eq m.up_version current || str_eq m.up_version target) && not in_migration
    then record { in_migration = true; taken = false; stop = false }
    else if in_migration
    then after_visit current target m true true
    else after_visit current target m false false

-- The loop, with the flag and the list so far.
unfoldable pub collect :
    Str → Str → List DataMigration → Bool → List DataMigration → Bool × List DataMigration
collect current target [] in_migration found = (in_migration, found)
collect current target (m ∷ ms) in_migration found =
    let v = visit current target m in_migration in
    let found' = if v.taken then found ++ m ∷ [] else found in
    let rest = collect current target ms v.in_migration found' in
    if v.stop then (v.in_migration, found') else rest

module _ (c : Codec) where
  -- The tests after the loop, and the reversal for a downward run.
  unfoldable pub in_order :
      Str → Str → Bool × List DataMigration → Result StateError (List DataMigration)
  in_order current target (in_migration, []) = err no_migrations_found
  in_order current target (true, m ∷ ms) = err partial_migration_range
  in_order current target (false, m ∷ ms) =
      if is_gt (c.compare_versions current target) then ok (reverse (m ∷ ms)) else ok (m ∷ ms)

  -- GetNeededMigrations; its loop runs over NodeDataMigrations whatever the receiver is.
  unfoldable pub get_needed_migrations :
      List DataMigration → Str → Str → Result StateError (List DataMigration)
  unfolding in_order
  get_needed_migrations all current target =
      if is_eq (c.compare_versions current target)
      then err same_version
      else in_order current target (collect current target all false [])

  -- The up or the down migration, by the direction.
  unfoldable pub run_one :
      Str → Str → DataMigration → NodeState → Result StateError (Option NodeState)
  run_one current target m s =
      if is_lt (c.compare_versions current target)
      then m.up s
      else if is_gt (c.compare_versions current target)
      then m.down s
      else err same_version

  -- The loop of GetMigrationPatch. A nil state is not survived by the next use of it.
  unfoldable pub run_migrations :
      Str → Str → List DataMigration → Option NodeState → Result StateError (Option NodeState)
  unfolding run_one
  run_migrations current target [] s = ok s
  run_migrations current target (m ∷ ms) none = err nil_dereference
  run_migrations current target (m ∷ ms) (some s) = elim (run_one current target m s) [
    | err e ↦ err e
    | ok s' ↦
        let rest = run_migrations current target ms s' in
        if str_eq m.up_version target then ok s' else rest
  ]

  -- The state that GetMigrationPatch compares with the start.
  unfoldable pub migrated : List DataMigration → Str → Str → NodeState → Result StateError NodeState
  unfolding get_needed_migrations run_migrations copy
  migrated all current target start = do
    migrations ← get_needed_migrations all current target
    cur ← copy c start
    last ← run_migrations current target migrations (some cur)
    s ← or_err last nil_dereference
    ok (record s { schema_version = target })

  -- GetMigrationPatch
  unfoldable pub get_migration_patch :
      List DataMigration → Str → Str → NodeState → Result StateError Patch
  unfolding migrated
  get_migration_patch all current target start = do
    s ← migrated all current target start
    or_err (c.diff start s) no_diff
