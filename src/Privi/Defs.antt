-- ===== src/Privi/Defs.antt =====
-- The repository of records behind gorm and the store that checks permissions. The table of
-- records is the list of its rows, at most one for each (did, rkey).
use habitat_new.Prelude.{
  ℕ, zero, suc, ◌==◌, Str, str, str_eq, any, filter, if◌then◌else◌, Bool, false, not, ◌&&◌, ◌||◌,
  Option, none, some, List, [], ◌∷◌, ◌++◌, reverse, Result, ok, err, fail_if, or_err, ◌>>=◌, ◌>>◌,
}
use habitat_new.Permissions.{
  Sqlite, Table, StoreError, has_permission, list_read_permissions_by_user,
}

-- Record
pub record Record : Type 0 where
  pub did : Str
  pub rkey : Str
  pub rec : Str

pub data PriviError : Type 0 where
  invalid_record bad_record put_failed get_failed list_failed record_not_found unauthorized :
      PriviError
  permission_failed : StoreError → PriviError

abbrev pub Rows : Type 0
Rows = List Record

-- The primary key.
unfoldable pub is_at : Str → Str → Record → Bool
is_at did rkey r = str_eq r.did did && str_eq r.rkey rkey

-- Create with OnConflict{UpdateAll: true}
unfoldable pub upsert : Record → Rows → Rows
unfolding is_at
upsert new [] = new ∷ []
upsert new (r ∷ rs) =
    let rest = upsert new rs in if is_at new.did new.rkey r then new ∷ rs else r ∷ rest

-- The first row of a query, none for gorm.ErrRecordNotFound.
unfoldable pub find_first : (Record → Bool) → Rows → Option Record
find_first p [] = none
find_first p (r ∷ rs) = let rest = find_first p rs in if p r then some r else rest

-- sqliteRepo.putRecord. A record is what json.Marshal makes of it, none where it fails;
-- `is_valid` is what atdata.Validate says of it, and `validate` is none for a nil pointer.
unfoldable pub repo_put_record :
    (up is_valid : Bool)
    → (did rkey : Str) → (marshalled : Option Str) → (validate : Option Bool) → Rows
    → Result PriviError (Unit {0}) × Rows
unfolding upsert
repo_put_record up is_valid did rkey marshalled validate rows =
    if elim validate [ none ↦ false | some wanted ↦ wanted && not is_valid ]
    then (err invalid_record, rows)
    else (elim marshalled [
      | none ↦ (err bad_record, rows)
      | some bytes ↦
          if up
          then (ok tt, upsert (record { did = did; rkey = rkey; rec = bytes }) rows)
          else (err put_failed, rows)
    ])

-- sqliteRepo.getRecord
unfoldable pub repo_get_record : Bool → (did rkey : Str) → Rows → Result PriviError Record
unfolding find_first is_at
repo_get_record up did rkey rows =
    if up then or_err (find_first (is_at did rkey) rows) record_not_found else err get_failed

-- strings.TrimSuffix(s, "*"), none where strings.HasSuffix(s, "*") does not hold.
unfoldable pub cut_star : Str → Option Str
cut_star s = elim (reverse s) [
  | [] ↦ none
  | last ∷ rest ↦ if last == b'*' then some (reverse rest) else none
]

-- A key under an entry of the allow or the deny list.
unfoldable pub falls_under : Sqlite → (entry rkey : Str) → Bool
unfolding cut_star
falls_under sql entry rkey = elim (cut_star entry) [
  | none ↦ str_eq rkey entry
  | some prefix ↦ sql.like rkey (prefix ++ str "%")
]

-- NetworkHabitatRepoListRecordsParams without Reverse, which nothing reads. A limit below 0, which
-- gorm leaves out, is 0 here.
pub record ListRecordsParams : Type 0 where
  pub repo : Str
  pub collection : Str
  pub cursor : Str
  pub limit : ℕ

-- The WHERE of listRecords
unfoldable pub is_listed : Sqlite → ListRecordsParams → (allow deny : List Str) → Record → Bool
unfolding falls_under any
is_listed sql params allow deny r =
    str_eq r.did params.repo
    && (any (λ entry. falls_under sql entry r.rkey) allow
        && (not (any (λ entry. falls_under sql entry r.rkey) deny)
            && (str_eq params.cursor [] || sql.follows r.rkey params.cursor)))

-- ORDER BY rkey ASC
unfoldable pub insert_by_rkey : Sqlite → Record → Rows → Rows
insert_by_rkey sql new [] = new ∷ []
insert_by_rkey sql new (r ∷ rs) =
    let rest = insert_by_rkey sql new rs in
    if sql.follows new.rkey r.rkey then r ∷ rest else new ∷ r ∷ rs

unfoldable pub sort_by_rkey : Sqlite → Rows → Rows
unfolding insert_by_rkey
sort_by_rkey sql [] = []
sort_by_rkey sql (r ∷ rs) = insert_by_rkey sql r (sort_by_rkey sql rs)

unfoldable pub take_rows : ℕ → Rows → Rows
take_rows zero rs = []
take_rows (suc n) [] = []
take_rows (suc n) (r ∷ rs) = r ∷ take_rows n rs

-- sqliteRepo.listRecords
unfoldable pub repo_list_records :
    Sqlite → Bool → ListRecordsParams → (allow deny : List Str) → Rows → Result PriviError Rows
unfolding is_listed sort_by_rkey take_rows filter
repo_list_records sql up params [] deny rows = ok []
repo_list_records sql up params (entry ∷ allow) deny rows =
    if up
    then (let sorted = sort_by_rkey sql (filter (is_listed sql params (entry ∷ allow) deny) rows) in
        ok (if params.limit == 0 then sorted else take_rows params.limit sorted))
    else err list_failed

-- "%s.%s"
unfoldable pub key_of : (collection rkey : Str) → Str
key_of collection rkey = collection ++ (str "." ++ rkey)

-- store.putRecord
unfoldable pub put_record :
    (up is_valid : Bool)
    → (did collection rkey : Str) → (marshalled : Option Str) → (validate : Option Bool) → Rows
    → Result PriviError (Unit {0}) × Rows
unfolding repo_put_record key_of
put_record up is_valid did collection rkey marshalled validate rows =
    repo_put_record up is_valid did (key_of collection rkey) marshalled validate rows

-- An error of the permission store, returned as it is.
abbrev pub of_store : {A : Type 0} → Result StoreError A → Result PriviError A
of_store (ok a) = ok a
of_store (err e) = err (permission_failed e)

-- store.getRecord
unfoldable pub get_record :
    Sqlite
    → Bool
    → (collection rkey target_did caller_did : Str) → Table
    → Rows
    → Result PriviError Record
unfolding has_permission repo_get_record key_of
get_record sql up collection rkey target_did caller_did table rows = do
  authz ← of_store (has_permission sql up caller_did target_did collection rkey table)
  fail_if (not authz) unauthorized
  repo_get_record up target_did (key_of collection rkey) rows

-- store.listRecords
unfoldable pub list_records :
    Sqlite → Bool → ListRecordsParams → Str → Table → Rows → Result PriviError Rows
unfolding list_read_permissions_by_user repo_list_records
list_records sql up params caller_did table rows = do
  (allow, deny) ←
      of_store (list_read_permissions_by_user sql up params.repo caller_did params.collection table)
  repo_list_records sql up params allow deny rows
