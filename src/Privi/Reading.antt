-- ===== src/Privi/Reading.antt =====
-- Reading records: what a put leaves for a reader, who is refused, and what a grant on a lexicon
-- gives in a listing.
use habitat_new.Prelude.{
  ℕ, zero, suc, Str, str_eq, str_eq_iff, str_eq_refl, any, filter, Bool, true, false, Option, none,
  some, List, [], ◌∷◌, ◌++◌, ◌≡◌, ◌≢◌, ◌↔◌, ◌∙◌, refl, ok, err, arith,
}
use habitat_new.Permissions.{
  Sqlite, SqliteLaws, Permission, Table, allow, deny, applies, is_live, covers, object_of,
  has_permission, objects, add_lexicon_read_permission, list_read_permissions_by_user,
}
use habitat_new.Permissions.Access.{AllowOnly, add-grants, has_permission-AllowOnly, live-applies}
use habitat_new.Privi.Defs.{
  Record, Rows, unauthorized, is_at, upsert, find_first, repo_put_record, repo_get_record, cut_star,
  falls_under, ListRecordsParams, is_listed, sort_by_rkey, take_rows, repo_list_records, put_record,
  get_record, list_records, key_of,
}

find_first-upsert :
    (new : Record) (rows : Rows) → find_first (is_at new.did new.rkey) (upsert new rows) ≡ some new
unfolding find_first upsert is_at
find_first-upsert new [] = ground (arith, str_eq_refl new.did, str_eq_refl new.rkey)
find_first-upsert new (r ∷ rs) =
    ground (arith, str_eq_refl new.did, str_eq_refl new.rkey, find_first-upsert new rs)

put_record-rows :
    (up is_valid : Bool) (did collection rkey bytes : Str) (validate : Option Bool) (rows : Rows)
    → (put_record up is_valid did collection rkey (some bytes) validate rows).0 ≡ ok tt
    → (put_record up is_valid did collection rkey (some bytes) validate rows).1
      ≡ upsert (record { did = did; rkey = key_of collection rkey; rec = bytes }) rows
unfolding put_record repo_put_record
put_record-rows up is_valid did collection rkey bytes validate rows h = ground arith

get_record-found :
    (sql : Sqlite) (collection rkey did caller : Str) (table : Table) (rows : Rows) (r : Record)
    → has_permission sql true caller did collection rkey table ≡ ok true
    → find_first (is_at did (key_of collection rkey)) rows ≡ some r
    → get_record sql true collection rkey did caller table rows ≡ ok r
unfolding get_record repo_get_record
get_record-found sql collection rkey did caller table rows r p f = ground (arith, p, f)

-- Where store.putRecord succeeds, every caller that HasPermission lets read the record gets it from
-- store.getRecord, with the bytes that were put.
pub get_record-put_record :
    (sql : Sqlite) (up is_valid : Bool) (did collection rkey bytes caller : Str)
    (validate : Option Bool) (table : Table) (rows : Rows)
    → (put_record up is_valid did collection rkey (some bytes) validate rows).0 ≡ ok tt
    → has_permission sql true caller did collection rkey table ≡ ok true
    → get_record sql true collection rkey did caller table
        (put_record up is_valid did collection rkey (some bytes) validate rows).1
      ≡ ok (record { did = did; rkey = key_of collection rkey; rec = bytes })
get_record-put_record sql up is_valid did collection rkey bytes caller validate table rows h p =
    let new : Record = record { did = did; rkey = key_of collection rkey; rec = bytes } in
    get_record-found sql collection rkey did caller table _ new p (
      rw (put_record-rows up is_valid did collection rkey bytes validate rows h)
        (find_first-upsert new rows))

-- On a table with no denials, and for a caller that is not the owner, store.getRecord answers that
-- the request is unauthorized exactly where no row applies to the record, whether it exists or not.
pub get_record-unauthorized_iff :
    (sql : Sqlite) (collection rkey did caller : Str) (table : Table) (rows : Rows)
    → AllowOnly table
    → caller ≢ did
    → (get_record sql true collection rkey did caller table rows ≡ err unauthorized)
      ↔ (any (applies sql caller did (object_of collection rkey)) table ≡ false)
unfolding get_record repo_get_record
get_record-unauthorized_iff sql collection rkey did caller table rows a ne =
    ground (arith, has_permission-AllowOnly sql caller did collection rkey table a ne)

filter-append :
    (f : Permission → Bool) (t : Table) (p : Permission)
    → any f t ≡ false
    → f p ≡ true
    → filter f (t ++ p ∷ []) ≡ p ∷ []
unfolding any filter
filter-append f [] p n h = ground arith
filter-append f (q ∷ t) p n h = ground (arith, filter-append f t p)

filter-none : (f : Record → Bool) (rows : Rows) → any f rows ≡ false → filter f rows ≡ []
unfolding any filter
filter-none f [] h = refl
filter-none f (r ∷ rs) h = ground (arith, filter-none f rs)

-- Before the grant, no row applies to the lexicon.
not_live :
    (sql : Sqlite) (laws : SqliteLaws sql) (g o n : Str) (t : Table)
    → any (applies sql g o n) t ≡ false
    → any (is_live g o n) t ≡ false
unfolding any object_of
not_live sql laws g o n [] h = refl
not_live sql laws g o n (p ∷ ps) h =
    ground (arith, live-applies sql laws g o n [] p, not_live sql laws g o n ps)

new-applies :
    (sql : Sqlite) (laws : SqliteLaws sql) (g o n : Str)
    → applies sql g o n
        (record { grantee = g; owner = o; object = n; effect = allow; is_deleted = false })
      ≡ true
unfolding applies covers
new-applies sql laws g o n = ground (arith, str_eq_refl g, str_eq_refl o, str_eq_refl n)

sole_grant :
    (sql : Sqlite) (laws : SqliteLaws sql) (up : Bool) (g o n : Str) (t : Table)
    → any (applies sql g o n) t ≡ false
    → (add_lexicon_read_permission up g o n t).0 ≡ ok tt
    → filter (applies sql g o n) (add_lexicon_read_permission up g o n t).1
      ≡ record { grantee = g; owner = o; object = n; effect = allow; is_deleted = false } ∷ []
unfolding add_lexicon_read_permission
sole_grant sql laws false g o n t none_applies h = cc
sole_grant sql laws true g o n t none_applies h =
    let new : Permission = record {
      grantee = g;
      owner = o;
      object = n;
      effect = allow;
      is_deleted = false;
    } in
    ground (
      arith,
      h,
      not_live sql laws g o n t none_applies,
      filter-append (applies sql g o n) t new none_applies,
      new-applies sql laws g o n,
    )

listed-exactly :
    (sql : Sqlite) (params : ListRecordsParams) (n : Str) (rows : Rows)
    → cut_star n ≡ none
    → any (λ (r : Record). str_eq r.rkey n) rows ≡ false
    → any (is_listed sql params (n ∷ []) []) rows ≡ false
unfolding any is_listed falls_under
listed-exactly sql params n [] c h = refl
listed-exactly sql params n (r ∷ rs) c h = ground (arith, c, listed-exactly sql params n rs c)

take_rows-nil : (n : ℕ) → take_rows n [] ≡ []
unfolding take_rows
take_rows-nil zero = refl
take_rows-nil (suc n) = refl

nothing_listed :
    (sql : Sqlite) (params : ListRecordsParams) (n : Str) (rows : Rows)
    → any (is_listed sql params (n ∷ []) []) rows ≡ false
    → repo_list_records sql true params (n ∷ []) [] rows ≡ ok []
unfolding repo_list_records sort_by_rkey
nothing_listed sql params n rows h =
    ground
      (arith, filter-none (is_listed sql params (n ∷ []) []) rows h, take_rows-nil params.limit)

allowed_lists :
    (sql : Sqlite) (o g n : Str) (t : Table) (p : Permission)
    → g ≢ o
    → p.effect ≡ allow
    → filter (applies sql g o n) t ≡ p ∷ []
    → list_read_permissions_by_user sql true o g n t ≡ ok (p.object ∷ [], [])
unfolding list_read_permissions_by_user objects
allowed_lists sql o g n t p ne e f =
    ground (arith, f, str_eq_iff g o, str_eq_refl allow, str_eq_iff p.effect deny)

list_records-by :
    (sql : Sqlite) (params : ListRecordsParams) (g : Str) (t : Table) (rows : Rows)
    (allowed denied : List Str)
    → list_read_permissions_by_user sql true params.repo g params.collection t
      ≡ ok (allowed, denied)
    → list_records sql true params g t rows ≡ repo_list_records sql true params allowed denied rows
unfolding list_records
list_records-by sql params g t rows allowed denied h = rw h refl

-- For a grantee to whose lexicon no permission applied before, on a table with no denials: after
-- AddLexiconReadPermission has succeeded, HasPermission lets the grantee read every record of the
-- lexicon, yet store.listRecords lists none, where no record has the lexicon's own name as its
-- whole key and that name does not end in a star.
pub list_records-granted :
    (sql : Sqlite) (laws : SqliteLaws sql) (up : Bool) (grantee : Str) (params : ListRecordsParams)
    (t : Table) (rows : Rows)
    → AllowOnly t
    → grantee ≢ params.repo
    → any (applies sql grantee params.repo params.collection) t ≡ false
    → cut_star params.collection ≡ none
    → any (λ (r : Record). str_eq r.rkey params.collection) rows ≡ false
    → (add_lexicon_read_permission up grantee params.repo params.collection t).0 ≡ ok tt
    → let t' = (add_lexicon_read_permission up grantee params.repo params.collection t).1 in
      ((rkey : Str)
        → has_permission sql true grantee params.repo params.collection rkey t' ≡ ok true)
      × (list_records sql true params grantee t' rows ≡ ok [])
list_records-granted sql laws up g params t rows a ne na c nr h = (
  λ rkey. add-grants sql laws up g params.repo params.collection rkey t a h,
  list_records-by sql params g _ rows (params.collection ∷ []) [] (
        allowed_lists sql params.repo g params.collection _ _ ne refl
          (sole_grant sql laws up g params.repo params.collection t na h))
      ∙ nothing_listed sql params params.collection rows
          (listed-exactly sql params params.collection rows c nr),
)
