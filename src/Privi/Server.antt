-- ===== src/Privi/Server.antt =====
-- The HTTP handlers of the private records (server.go). A body or a query is none where it does not
-- decode.
use habitat_new.Prelude.{
  ℕ, zero, suc, length, Str, str, str_eq, has_prefix, split, reverse, Bool, true, not, Option, none,
  some, List, [], ◌∷◌, ◌++◌, Result, ok, err, fail_if, or_err, ◌>>=◌, ◌>>◌, if◌then◌else◌,
}
use habitat_new.Permissions.{
  Sqlite, Table, StoreError, add_lexicon_read_permission, remove_lexicon_read_permission,
  list_read_permissions_by_lexicon,
}
use habitat_new.Privi.Defs.{
  Rows, PriviError, ListRecordsParams, put_record, get_record, list_records,
}

-- strings.Split for a separator of any length, as the first part and the others. `skip` bytes still
-- belong to a separator.
unfoldable pub split_on_from : (sep : Str) → (skip : ℕ) → Str → Str × List Str
unfolding has_prefix
split_on_from sep skip [] = ([], [])
split_on_from sep (suc skip) (a ∷ s) = split_on_from sep skip s
split_on_from sep zero (a ∷ s) =
    let (within, others) = split_on_from sep (before_last sep) s in
    let (part, parts) = split_on_from sep zero s in
    if has_prefix (a ∷ s) sep then ([], within ∷ others) else (a ∷ part, parts)
  where
    -- What is left of the separator behind its first byte.
    before_last : Str → ℕ
    before_last [] = 0
    before_last (_ ∷ rest) = length rest

-- strings.Split(header, "Bearer ")[1], none where there is no such part.
unfoldable pub bearer : (header : Str) → Option Str
unfolding split_on_from
bearer header = elim (split_on_from (str "Bearer ") 0 header).1 [ [] ↦ none | part ∷ _ ↦ some part ]

-- What the handlers take from the identity directory, jwt, encoding/json and the OAuth server.
pub record Outside : Type 1 where
  pub PublicKey : Type 0
  -- A decoded value of a record, and its JSON.
  pub Json : Type 0
  -- syntax.ParseAtIdentifier
  pub parse_at_identifier : Str → Option Str
  -- Directory.Lookup: the DID
  pub lookup : Str → Option Str
  -- Directory.LookupDID with the identity's public key
  pub lookup_key : (did : Str) → Option PublicKey
  -- jwt.Parse with a key for each issuer: the issuer of the token where its signature is right.
  pub parse_token : (token : Str) → (Str → Option PublicKey) → Option Str
  -- OAuthServer.Validate: the subject, or the status that is sent.
  pub validate : Result ℕ Str
  pub unmarshal : Str → Option Json
  pub marshal : Json → Option Str
  -- atdata.Validate
  pub is_valid : Json → Bool

-- What a request tells of its caller: two headers.
pub record Caller : Type 0 where
  pub auth_method : Str
  pub authorization : Str

-- An answer without a body of its own: an error's status, or none where the handler panics.
pub data Failure : Type 0 where
  http_error : ℕ → Failure
  panicked : Failure

-- "habitat://%s/%s/%s"
unfoldable pub uri_of : (did collection rkey : Str) → Str
uri_of did collection rkey =
    str "habitat://" ++ (did ++ (str "/" ++ (collection ++ (str "/" ++ rkey))))

-- rkeyParts[len(rkeyParts)-1] of strings.Split(key, ".")
unfoldable pub last_part : (key : Str) → Str
unfolding split
last_part key = elim (reverse (split b'.' key)) [ [] ↦ [] | part ∷ _ ↦ part ]

-- NetworkHabitatRepoPutRecordInput
pub record PutRecordInput (o : Outside) : Type 0 where
  pub repo : Str
  pub collection : Str
  pub rkey : Str
  pub record_value : o.Json

-- NetworkHabitatRepoGetRecordParams
pub record GetRecordParams : Type 0 where
  pub repo : Str
  pub collection : Str
  pub rkey : Str

-- editPermissionRequest
pub record EditPermissionRequest : Type 0 where
  pub did : Str
  pub lexicon : Str

-- A store's error, as the status of the answer.
abbrev pub or_500 : {E : Type 0} {A : Type 0} → Result E A → Result Failure A
or_500 (ok a) = ok a
or_500 (err _) = err (http_error 500)

module _ (o : Outside) (sql : Sqlite) (up : Bool) where
  -- getCaller
  unfoldable pub get_caller : Caller → Result Failure Str
  unfolding bearer
  get_caller caller = do
    token ← or_err (bearer caller.authorization) panicked
    or_err (o.parse_token token o.lookup_key) (http_error 403)

  -- getAuthedUser
  unfoldable pub get_authed_user : Caller → Result Failure Str
  unfolding get_caller str_eq
  get_authed_user caller =
      if str_eq caller.auth_method (str "oauth")
      then (elim o.validate [ ok did ↦ ok did | err status ↦ err (http_error status) ])
      else get_caller caller

  -- The DID of a repository that is named by a handle or a DID.
  unfoldable pub find_repo : (repo : Str) → Result Failure Str
  find_repo repo = do
    at ← or_err (o.parse_at_identifier repo) (http_error 400)
    or_err (o.lookup at) (http_error 400)

  -- PutRecord up to the store: the owner, the input and the record's key.
  unfoldable pub put_record_inputs :
      Caller
      → (uuid : Str) → Option (PutRecordInput o)
      → Result Failure (Str × (PutRecordInput o × Str))
  unfolding get_authed_user find_repo str_eq
  put_record_inputs caller uuid body = do
    did ← get_authed_user caller
    req ← or_err body (http_error 400)
    owner ← find_repo req.repo
    fail_if (not (str_eq owner did)) (http_error 405)
    ok (owner, (req, if str_eq req.rkey [] then uuid else req.rkey))

  -- The answer of PutRecord after the store's.
  abbrev pub put_answer :
      (uri : Str) → Result PriviError (Unit {0}) × Rows → Result Failure Str × Rows
  put_answer uri (ok _, rows) = (ok uri, rows)
  put_answer uri (err _, rows) = (err (http_error 500), rows)

  -- PutRecord
  unfoldable pub put_record_handler :
      Caller → (uuid : Str) → Option (PutRecordInput o) → Rows → Result Failure Str × Rows
  unfolding put_record_inputs put_record uri_of
  put_record_handler caller uuid body rows = elim (put_record_inputs caller uuid body) [
    | err e ↦ (err e, rows)
    | ok (owner, (req, rkey)) ↦ put_answer (uri_of owner req.collection rkey) (
        put_record up (o.is_valid req.record_value) owner req.collection rkey
          (o.marshal req.record_value) (some true) rows)
  ]

  -- GetRecord: the URI and the value.
  unfoldable pub get_record_handler :
      Caller → Option GetRecordParams → Table → Rows → Result Failure (Str × o.Json)
  unfolding get_authed_user find_repo get_record uri_of
  get_record_handler caller query table rows = do
    did ← get_authed_user caller
    params ← or_err query (http_error 400)
    target ← find_repo params.repo
    r ← or_500 (get_record sql up params.collection params.rkey target did table rows)
    value ← or_err (o.unmarshal r.rec) (http_error 500)
    ok (uri_of target params.collection params.rkey, value)

  -- The loop of ListRecords
  unfoldable pub list_output : (repo collection : Str) → Rows → Result Failure (List (Str × o.Json))
  unfolding uri_of last_part
  list_output repo collection [] = ok []
  list_output repo collection (r ∷ rs) =
      let rest = list_output repo collection rs in
      do
        value ← or_err (o.unmarshal r.rec) (http_error 500)
        others ← rest
        ok ((uri_of repo collection (last_part r.rkey), value) ∷ others)

  -- ListRecords
  unfoldable pub list_records_handler :
      Caller → Option ListRecordsParams → Table → Rows → Result Failure (List (Str × o.Json))
  unfolding get_authed_user find_repo list_records list_output
  list_records_handler caller query table rows = do
    did ← get_authed_user caller
    params ← or_err query (http_error 400)
    repo ← find_repo params.repo
    records ← or_500 (list_records sql up (record params { repo = repo }) did table rows)
    list_output repo params.collection records

  -- ListPermissions
  unfoldable pub list_permissions_handler : Caller → Table → Result Failure (List (Str × List Str))
  unfolding get_caller list_read_permissions_by_lexicon
  list_permissions_handler caller table = do
    did ← get_caller caller
    or_500 (list_read_permissions_by_lexicon up did table)

  -- The request and the caller of AddPermission and RemovePermission.
  unfoldable pub edit_inputs :
      Caller → Option EditPermissionRequest → Result Failure (Str × EditPermissionRequest)
  unfolding get_caller
  edit_inputs caller body = do
    req ← or_err body (http_error 400)
    did ← get_caller caller
    ok (did, req)

  -- The answer of the two after the store's.
  abbrev pub edit_answer : Result StoreError (Unit {0}) × Table → Result Failure (Unit {0}) × Table
  edit_answer (r, table) = (or_500 r, table)

  -- AddPermission
  unfoldable pub add_permission_handler :
      Caller → Option EditPermissionRequest → Table → Result Failure (Unit {0}) × Table
  unfolding edit_inputs add_lexicon_read_permission
  add_permission_handler caller body table = elim (edit_inputs caller body) [
    | err e ↦ (err e, table)
    | ok (did, req) ↦ edit_answer (add_lexicon_read_permission up req.did did req.lexicon table)
  ]

  -- RemovePermission
  unfoldable pub remove_permission_handler :
      Caller → Option EditPermissionRequest → Table → Result Failure (Unit {0}) × Table
  unfolding edit_inputs remove_lexicon_read_permission
  remove_permission_handler caller body table = elim (edit_inputs caller body) [
    | err e ↦ (err e, table)
    | ok (did, req) ↦ edit_answer (remove_lexicon_read_permission up req.did did req.lexicon table)
  ]
