-- ===== src/State/Codec.antt =====
-- What the package takes from others: encoding/json, evanphx/json-patch, wI2L/jsondiff,
-- qri-io/jsonschema, golang.org/x/mod/semver and the embedded migration files. CodecLaws says what
-- their documentation promises.
use habitat_new.Prelude.{ℕ, ◌<◌, ◌≢◌, Str, str, Bool, Option, List, ◌++◌, All, Ordering}
use habitat_new.Prelude.Json.{Json}
use habitat_new.App.{Installation}
use habitat_new.Process.{Process}
use habitat_new.Proxy.{Rule}
use habitat_new.State.Types.{User, NodeState}

pub data OpKind : Type 0 where
  add replace remove : OpKind

-- The value of an operation, by what the program marshals there.
pub data Value : Type 0 where
  state : NodeState → Value
  user : User → Value
  installation : Installation → Value
  process : Process → Value
  rule : Rule → Value
  text : Str → Value
  other : Json → Value
  missing : Value

-- One operation of a JSON patch, its path as the text that the program prints.
pub record Operation : Type 0 where
  pub op : OpKind
  pub path : Str
  pub value : Value

abbrev pub Patch : Type 0
Patch = List Operation

-- An embedded migration file: its name, whether it is a directory, and what it unmarshals to.
-- `up` decodes the up patch and applies it to a schema.
pub record Migration (Schema : Type 0) : Type 0 where
  pub old_version : Str
  pub new_version : Str
  pub up : Schema → Option Schema

pub record File (Schema : Type 0) : Type 0 where
  pub name : Str
  pub is_dir : Bool
  pub contents : Option (Migration Schema)

pub record Codec : Type 1 where
  -- A serialized state, []byte.
  pub Document : Type 0
  pub marshal : NodeState → Document
  pub unmarshal : Document → Option NodeState
  -- jsonpatch: Patch.Apply
  pub apply : Patch → Document → Option Document
  -- jsondiff.Compare
  pub diff : NodeState → NodeState → Option Patch
  -- semver.Compare
  pub compare_versions : Str → Str → Ordering
  pub Schema : Type 0
  pub empty_schema : Schema
  pub files : List (File Schema)
  -- Schema.ValidateBytes: none if it fails, else the key errors.
  pub validate_bytes : Schema → Document → Option (List Str)

-- A byte that JSON text and JSON pointers take as it is: printable ASCII (RFC 8259 wants control
-- bytes escaped) without '/', '~', '"' and '\'.
abbrev pub IsTokenByte : ℕ → Type 0
IsTokenByte c = (31 < c) × (c < 127) × (c ≢ b'/') × (c ≢ b'~') × (c ≢ 34) × (c ≢ 92)

abbrev pub IsToken : Str → Type 0
IsToken = All IsTokenByte

abbrev pub users_path : Str → Str
users_path id = str "/users/" ++ id

abbrev pub installations_path : Str → Str
installations_path id = str "/app_installations/" ++ id

abbrev pub processes_path : Str → Str
processes_path id = str "/processes/" ++ id

abbrev pub rules_path : Str → Str
rules_path id = str "/reverse_proxy_rules/" ++ id
