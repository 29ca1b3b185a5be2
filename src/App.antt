-- ===== src/App.antt =====
-- internal/app: packages, installations and driver types (app.go, package.go).
use habitat_new.Prelude.{Str, str, none, some, List, ◌∷◌, []}
use habitat_new.Prelude.Dict.{Dict, find}
use habitat_new.Prelude.Json.{Json}

abbrev pub unknown : Str
unknown = str "unknown"

abbrev pub noop : Str
noop = str "noop"

abbrev pub docker : Str
docker = str "docker"

abbrev pub web : Str
web = str "web"

abbrev driver_types : List (Str × Str)
driver_types = (unknown, unknown) ∷ (noop, noop) ∷ (docker, docker) ∷ (web, web) ∷ []

-- DriverTypeFromString
unfoldable pub driver_type_from_string : Str → Str
unfolding find
driver_type_from_string s = elim (find s driver_types) [ none ↦ unknown | some t ↦ t ]

abbrev pub installing : Str
installing = str "installing"

abbrev pub installed : Str
installed = str "installed"

-- A nil DriverConfig is none.
pub record Package : Type 0 where
  pub driver : Str
  pub driver_config : Dict Json
  pub registry_url_base : Str
  pub registry_package_id : Str
  pub registry_package_tag : Str

-- The embedded *Package is a field; its pointer is not nil.
pub record Installation : Type 0 where
  pub id : Str
  pub user_id : Str
  pub name : Str
  pub version : Str
  pub state : Str
  pub pkg : Package
  pub open pkg use *
