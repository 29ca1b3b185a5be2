-- ===== src/State/Tests.antt =====
-- Runs of the node state's operations on concrete states.
use habitat_new.Prelude.{
  Str, str, str_eq, any, cut_prefix, none, some, inl, inr, false, [], ◌∷◌, ◌≡◌, refl, arith, ok,
  err, has_prefix,
}
use habitat_new.Prelude.Dict.{find, insert, get, values}
use habitat_new.State.Types.{NodeState, User, no_diff, zero_state}
use habitat_new.State.Codec.{Value, add, users_path}
use habitat_new.State.Schema.{is_eq, validate_state}
use habitat_new.State.Effects.{put_user}
use habitat_new.State.Migrations.{
  DataMigration, collect, visit, get_needed_migrations, get_empty_state_for_version,
}
use habitat_new.State.Migrations.Range.{ordered, get_needed_migrations-range}
use habitat_new.State.Transitions.{add_user, start_installation, validate_add_user}
use habitat_new.State.Transitions.Step.{step, run}
use habitat_new.State.Propose.{
  TransitionWrapper, of_user, marshal_transition, propose_one, propose_transitions,
}
use habitat_new.State.Propose.Parts.{Refines}
use habitat_new.State.Propose.Refines.{propose_one-Refines}
use habitat_new.State.Propose.Runs.{written_of, written, propose_transitions-run}
use habitat_new.State.Db.{FileDb, done, failed, propose, new_habitat_db, create_db, present}
use habitat_new.App.{Installation}
use habitat_new.State.Db.Outcome.{document_of, Leaves, propose-Leaves}
use habitat_new.State.Db.Atomic.{IsAccepted, IsSaved, propose_all, reopen}
use habitat_new.State.Invariant.{IsConsistent}
use habitat_new.State.Invariant.Runs.{Holds, propose-Holds}
use habitat_new.State.Sample.{sample, sample_laws, sample_encodes, apply_all, compare_digits}

abbrev ann : User
ann = record { id = str "u1"; username = str "ann"; did = str "did:plc:a" }

abbrev start : NodeState
start = record zero_state {
  schema_version = str "v0.0.8";
  users = some [];
  processes = some [];
  app_installations = some [];
  reverse_proxy_rules = some [];
}

abbrev with_ann : NodeState
with_ann = record start { users = some ((ann.id, ann) ∷ []) }

abbrev app : Str → Installation
app id = record {
  id = id;
  user_id = str "u1";
  name = [];
  version = [];
  state = [];
  pkg = record {
    driver = [];
    driver_config = none;
    registry_url_base = [];
    registry_package_id = [];
    registry_package_tag = [];
  };
}

abbrev wrapper : TransitionWrapper
wrapper = record {
  type = str "add_user";
  patch = record { op = add; path = users_path ann.id; value = Value.user ann } ∷ [];
  transition = of_user ann;
}

abbrev db : FileDb sample
db = record { state = start; file = some start }

adding : propose_transitions sample start (add_user ann ∷ []) ≡ ok (with_ann, wrapper ∷ [])
unfolding propose_transitions apply_all str_eq cut_prefix find insert any values has_prefix get
    validate_add_user put_user
adding = refl

empty_state : get_empty_state_for_version sample (str "v0.0.8") ≡ ok start
unfolding get_empty_state_for_version apply_all compare_digits str_eq cut_prefix collect visit
empty_state = refl

start-IsConsistent : IsConsistent start
unfolding get find
start-IsConsistent = record {
  user_key = λ k u e. cc;
  one_username = λ i j u w e f g. cc;
  app_key = λ k a e. cc;
  app_user = λ k a e. cc;
  one_installation = λ i j a b e f g g'. cc;
  process_key = λ k p e. cc;
  process_user = λ k p e. cc;
  one_process = λ i j p q e f g. cc;
}

propose_one-Refines_example :
    Refines sample sample_laws
      (step sample (add_user ann) start)
      (propose_one sample (add_user ann) start)
propose_one-Refines_example =
    propose_one-Refines sample sample_laws (add_user ann) start start (sample_encodes start)
      (omega arith)

propose_transitions-run_example :
    (s' : NodeState) × (run sample (add_user ann ∷ []) start ≡ ok s')
    × sample_laws.Encodes with_ann s'
    × (written_of (wrapper ∷ []) ≡ written (add_user ann) ∷ [])
propose_transitions-run_example =
    propose_transitions-run sample sample_laws (add_user ann ∷ []) start with_ann start
      (wrapper ∷ []) (sample_encodes start) (omega arith) adding

propose-Holds_example :
    Holds sample sample_laws (propose sample done (add_user ann ∷ []) db).1.state
propose-Holds_example =
    propose-Holds sample sample_laws done (add_user ann ∷ []) db
      (start, sample_encodes start, start-IsConsistent) (omega arith) (omega arith)

propose-Leaves_example :
    let r = propose sample (failed none) (add_user ann ∷ []) db in
    (r.0 ≡ document_of sample sample_laws (propose_transitions sample start (add_user ann ∷ [])))
    × Leaves sample sample_laws (failed none) (add_user ann ∷ []) start db r
propose-Leaves_example =
    propose-Leaves sample sample_laws (failed none) (add_user ann ∷ []) db start
      (sample_encodes start) (omega arith)

-- The wrapper of an installation has no app.
no_app :
    marshal_transition (start_installation (app (str "a")) [])
    ≡ marshal_transition (start_installation (app (str "b")) [])
unfolding marshal_transition
no_app = refl

start-IsAccepted : IsAccepted sample start
unfolding validate_state str_eq has_prefix cut_prefix compare_digits
start-IsAccepted = refl

db-IsSaved : IsSaved sample db
db-IsSaved = record { accepted = start-IsAccepted; on_disk = refl }

reopen_example :
    let db' = propose_all sample ((add_user ann ∷ []) ∷ []) db in
    (db'.file ≡ some db'.state)
    × (new_habitat_db sample done (present db'.state) [] ≡ ok (some db'))
reopen_example = reopen sample ((add_user ann ∷ []) ∷ []) [] done db db-IsSaved

creating :
    create_db sample done (add_user ann ∷ [])
    ≡ ok (some (record { state = with_ann; file = some with_ann }))
unfolding create_db apply_all compare_digits str_eq cut_prefix find insert any values has_prefix get
    validate_add_user put_user collect visit
creating = refl

-- The migrations v0.0.1 to v0.0.4, with functions that fail.
abbrev migration_to : (below above : Str) → DataMigration
migration_to below above = record {
  up_version = above;
  down_version = below;
  up = λ s. err no_diff;
  down = λ s. err no_diff;
}

abbrev to_1 : DataMigration
to_1 = migration_to (str "v0.0.0") (str "v0.0.1")

abbrev to_2 : DataMigration
to_2 = migration_to (str "v0.0.1") (str "v0.0.2")

abbrev to_3 : DataMigration
to_3 = migration_to (str "v0.0.2") (str "v0.0.3")

abbrev to_4 : DataMigration
to_4 = migration_to (str "v0.0.3") (str "v0.0.4")

versions_differ : is_eq (compare_digits (str "v0.0.3") (str "v0.0.1")) ≡ false
unfolding compare_digits
versions_differ = refl

-- Down from v0.0.3 to v0.0.1.
get_needed_migrations-range_example :
    get_needed_migrations sample (to_1 ∷ to_2 ∷ to_3 ∷ to_4 ∷ []) (str "v0.0.3") (str "v0.0.1")
    ≡ ok (ordered sample (str "v0.0.3") (str "v0.0.1") (to_2 ∷ to_3 ∷ []))
get_needed_migrations-range_example =
    get_needed_migrations-range sample (str "v0.0.3") (str "v0.0.1") [] to_1 (to_2 ∷ []) to_3
      (to_4 ∷ []) versions_differ tt (ground arith) (inr refl) (ground arith) (inl refl)
