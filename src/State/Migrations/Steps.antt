-- ===== src/State/Migrations/Steps.antt =====
-- NodeDataMigrations, and the empty state of a version (applyPatchToState,
-- GetEmptyStateForVersion).
use habitat_new.Prelude.{Str, str, Option, none, some, List, [], ◌∷◌, Result, ok, or_err, ◌>>=◌}
use habitat_new.Prelude.Dict.{Dict, map_values}
use habitat_new.Prelude.Json.{Json}
use habitat_new.App.{Installation}
use habitat_new.State.Types.{NodeState, User, StateError, zero_state, bad_document, bad_patch}
use habitat_new.State.Codec.{Codec, Patch}
use habitat_new.State.Schema.{copy}
use habitat_new.State.Migrations.Defs.{DataMigration, get_migration_patch}

-- Each value of a map that is there.
abbrev pub each {ℓ} : {V : Type ℓ} → (V → V) → Dict V → Dict V
each f none = none
each f (some m) = some (map_values f m)

abbrev pub with_driver_config : Dict Json → Installation → Installation
with_driver_config config a = record a { pkg = record a.pkg { driver_config = config } }

abbrev pub without_did : User → User
without_did u = record u { did = [] }

module _ (c : Codec) where
  -- A migration step that copies the state and changes the copy.
  unfoldable pub copied : (NodeState → NodeState) → NodeState → Result StateError (Option NodeState)
  copied f s = do s' ← copy c s; ok (some (f s'))

  unfoldable pub initial_up : NodeState → Result StateError (Option NodeState)
  initial_up s = ok (
      some (record zero_state {
        schema_version = str "v0.0.1";
        users = some [];
        processes = some [];
        app_installations = some [];
      }))

  unfoldable pub add_proxy_rules : NodeState → NodeState
  add_proxy_rules s = record s {
    app_installations = each (with_driver_config (some [])) s.app_installations;
    reverse_proxy_rules = some [];
  }

  unfoldable pub drop_proxy_rules : NodeState → NodeState
  drop_proxy_rules s = record s {
    app_installations = each (with_driver_config none) s.app_installations;
    reverse_proxy_rules = none;
  }

  abbrev pub set_test_field : Str → NodeState → NodeState
  set_test_field v s = record s { test_field = v }

  unfoldable pub drop_dids : NodeState → NodeState
  drop_dids s = record s { users = each without_did s.users }

  -- The entries whose functions change nothing but the copy.
  unfoldable pub plain_migration : (up_version down_version : Str) → DataMigration
  unfolding copied
  plain_migration up_version down_version = record {
    up_version = up_version;
    down_version = down_version;
    up = copied (λ s. s);
    down = copied (λ s. s);
  }

  unfoldable pub node_data_migrations : List DataMigration
  unfolding copied initial_up add_proxy_rules drop_proxy_rules drop_dids plain_migration map_values
  node_data_migrations =
      record {
        up_version = str "v0.0.1";
        down_version = str "v0.0.0";
        up = initial_up;
        down = λ s. ok none;
      }
      ∷ record {
        up_version = str "v0.0.2";
        down_version = str "v0.0.1";
        up = copied (set_test_field (str "test"));
        down = copied (set_test_field []);
      }
      ∷ record {
        up_version = str "v0.0.3";
        down_version = str "v0.0.2";
        up = copied (set_test_field []);
        down = copied (set_test_field (str "test"));
      }
      ∷ record {
        up_version = str "v0.0.4";
        down_version = str "v0.0.3";
        up = copied add_proxy_rules;
        down = copied drop_proxy_rules;
      }
      ∷ record {
        up_version = str "v0.0.5";
        down_version = str "v0.0.4";
        up = λ s. ok (some s);
        down = copied drop_dids;
      }
      ∷ plain_migration (str "v0.0.6") (str "v0.0.5")
      ∷ plain_migration (str "v0.0.7") (str "v0.0.6")
      ∷ plain_migration (str "v0.0.8") (str "v0.0.7")
      ∷ plain_migration (str "v0.0.9") (str "v0.0.8")
      ∷ []

  -- applyPatchToState
  unfoldable pub apply_patch_to_state : Patch → NodeState → Result StateError NodeState
  apply_patch_to_state patch s = do
    updated ← or_err (c.apply patch (c.marshal s)) bad_patch
    or_err (c.unmarshal updated) bad_document

  -- GetEmptyStateForVersion
  unfoldable pub get_empty_state_for_version : Str → Result StateError NodeState
  unfolding node_data_migrations get_migration_patch apply_patch_to_state
  get_empty_state_for_version version = do
    patch ← get_migration_patch c node_data_migrations (str "v0.0.0") version zero_state
    apply_patch_to_state patch zero_state
