-- ===== src/State/Schema.antt =====
-- Schema versions and validation (schema.go, the schema part of migrations.go, Validate of
-- state.go).
use habitat_new.Prelude.{
  Str, str, str_eq, reverse, has_prefix, Bool, not, true, false, Option, none, some, List, [], ◌∷◌,
  ◌++◌, Ordering, Result, ok, err, or_err, ◌>>=◌, if◌then◌else◌,
}
use habitat_new.State.Types.{
  NodeState, StateError, bad_document, bad_migration_file, bad_schema, target_version_not_found,
  schema_violation,
}
use habitat_new.State.Codec.{Codec, Migration, File}

abbrev pub is_gt : Ordering → Bool
is_gt Ordering.gt = true
is_gt _ = false

abbrev pub is_lt : Ordering → Bool
is_lt Ordering.lt = true
is_lt _ = false

abbrev pub is_eq : Ordering → Bool
is_eq Ordering.eq = true
is_eq _ = false

-- strings.HasSuffix
unfoldable pub has_suffix : Str → Str → Bool
unfolding has_prefix
has_suffix s suffix = has_prefix (reverse s) (reverse suffix)

module _ (c : Codec) where
  -- One round of readSchemaMigrationFiles: skip the file, or take its migration.
  read_file : File c.Schema → Result StateError (List (Migration c.Schema))
  unfolding has_suffix
  read_file file =
      if file.is_dir
      then ok []
      else if not (has_suffix file.name (str ".json"))
      then ok []
      else elim file.contents [ none ↦ err bad_migration_file | some mig ↦ ok (mig ∷ []) ]

  unfoldable pub read_files : List (File c.Schema) → Result StateError (List (Migration c.Schema))
  unfolding read_file
  read_files [] = ok []
  read_files (file ∷ files) = do migs ← read_file file; rest ← read_files files; ok (migs ++ rest)

  -- readSchemaMigrationFiles
  unfoldable pub read_schema_migration_files : Result StateError (List (Migration c.Schema))
  unfolding read_files
  read_schema_migration_files = read_files c.files

  -- getSchemaVersion, from the schema that the migrations before have made.
  unfoldable pub schema_version_from :
      c.Schema → List (Migration c.Schema) → Str → Result StateError c.Schema
  schema_version_from cur [] target = err (target_version_not_found target)
  schema_version_from cur (mig ∷ migs) target = elim (mig.up cur) [
    | none ↦ err bad_schema
    | some updated ↦
        let rest = schema_version_from updated migs target in
        if str_eq mig.new_version target
        then ok updated
        else if is_gt (c.compare_versions mig.new_version target)
        then err (target_version_not_found target)
        else rest
  ]

  unfoldable pub get_schema_version : List (Migration c.Schema) → Str → Result StateError c.Schema
  unfolding schema_version_from
  get_schema_version = schema_version_from c.empty_schema

  -- JSONSchemaForVersion
  unfoldable pub json_schema_for_version : Str → Result StateError c.Schema
  unfolding read_schema_migration_files get_schema_version
  json_schema_for_version version = do
    migrations ← read_schema_migration_files
    get_schema_version migrations version

  -- The first of the key errors, if there is one.
  check_keys : Option (List Str) → Result StateError (Unit {0})
  check_keys none = err bad_schema
  check_keys (some []) = ok tt
  check_keys (some (e ∷ _)) = err (schema_violation e)

  -- nodeSchema.ValidateState
  unfoldable pub validate_state : c.Document → Result StateError (Unit {0})
  unfolding json_schema_for_version check_keys
  validate_state d = do
    s ← or_err (c.unmarshal d) bad_document
    schema ← json_schema_for_version s.schema_version
    check_keys (c.validate_bytes schema d)

  -- NodeState.Validate
  unfoldable pub validate_node : NodeState → Result StateError (Unit {0})
  unfolding json_schema_for_version check_keys
  validate_node s = do
    schema ← json_schema_for_version s.schema_version
    check_keys (c.validate_bytes schema (c.marshal s))

  -- NodeState.Copy
  unfoldable pub copy : NodeState → Result StateError NodeState
  copy s = or_err (c.unmarshal (c.marshal s)) bad_document
