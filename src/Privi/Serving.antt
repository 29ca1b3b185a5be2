-- ===== src/Privi/Serving.antt =====
-- What the handlers let a caller read and write.
use habitat_new.Prelude.{
  Str, str_eq, str_eq_iff, str_eq_apart, any, Bool, Bool-cases, true, Option, none, some, [], ◌∷◌,
  ◌≡◌, ◌≢◌, ◌⊎◌, inl, inr, refl, ap, ◌∙◌, Result, Result-cases, ok, err, or_err, >>=-eq-ok, arith,
}
use habitat_new.Permissions.{Sqlite, Table, applies, object_of}
use habitat_new.Permissions.Access.{AllowOnly}
use habitat_new.Privi.Defs.{
  Record, Rows, PriviError, is_at, upsert, find_first, put_record, repo_put_record, get_record,
  unauthorized, key_of,
}
use habitat_new.Privi.Reading.{get_record-unauthorized_iff}
use habitat_new.Privi.Server.{
  Outside, Caller, http_error, GetRecordParams, PutRecordInput, get_authed_user, find_repo,
  get_record_handler, put_record_handler, put_record_inputs, put_answer, or_500, uri_of,
}

find_first-upsert_other :
    (new : Record) (did rkey : Str) (rows : Rows)
    → new.did ≢ did
    → find_first (is_at did rkey) (upsert new rows) ≡ find_first (is_at did rkey) rows
unfolding find_first upsert is_at
find_first-upsert_other new did rkey [] ne = ground (arith, str_eq_iff new.did did)
find_first-upsert_other new did rkey (r ∷ rs) ne = ground (
  arith,
  str_eq_iff new.did did,
  str_eq_iff r.did did,
  str_eq_iff r.did new.did,
  find_first-upsert_other new did rkey rs ne,
)

put_record-other :
    (up is_valid : Bool) (owner collection rkey did k : Str) (marshalled : Option Str)
    (validate : Option Bool) (rows : Rows)
    → owner ≢ did
    → find_first
        (is_at did k)
        (put_record up is_valid owner collection rkey marshalled validate rows).1
      ≡ find_first (is_at did k) rows
unfolding put_record repo_put_record
put_record-other up is_valid owner collection rkey did k none validate rows ne = ground arith
put_record-other up is_valid owner collection rkey did k (some bytes) validate rows ne = ground (
  arith,
  find_first-upsert_other (record { did = owner; rkey = key_of collection rkey; rec = bytes }) did k
      rows ne,
)

or_500-ok : {A : Type 0} (r : Result PriviError A) (a : A) → or_500 r ≡ ok a → r ≡ ok a
or_500-ok (ok x) a h = ground (arith, h)
or_500-ok (err e) a h = cc

or_err-ok :
    {E A : Type 0} (found : Option A) (e : E) (a : A) → or_err found e ≡ ok a → found ≡ some a
or_err-ok none e a h = cc
or_err-ok (some x) e a h = ground (arith, h)

not_refused : {r : Result PriviError Record} {a : Record} → r ≡ err unauthorized → r ≡ ok a → ⊥
not_refused h h' = cc (h, h')

module _ (o : Outside) (sql : Sqlite) where
  allowed :
      (collection rkey target did : Str) (table : Table) (rows : Rows) (r : Record)
      → AllowOnly table
      → get_record sql true collection rkey target did table rows ≡ ok r
      → (did ≡ target) ⊎ (any (applies sql did target (object_of collection rkey)) table ≡ true)
  allowed collection rkey target did table rows r a h = elim (Bool-cases (str_eq did target)) [
    | inl same ↦ inl ((str_eq_iff did target).0 same)
    | inr other ↦
        elim (Bool-cases (any (applies sql did target (object_of collection rkey)) table)) [
          | inl applied ↦ inr applied
          | inr unapplied ↦ absurd (
              not_refused
                ((get_record-unauthorized_iff sql collection rkey target did table rows a
                    (str_eq_apart did target other)).1
                  unapplied)
                h)
        ]
  ]

  -- GetRecord answers a record only where the caller is authenticated and, on a table with no
  -- denials, either is the owner of the repository or has a row that applies to the record.
  pub get_record_handler-allowed :
      (caller : Caller) (query : Option GetRecordParams) (table : Table) (rows : Rows) (uri : Str)
      (value : o.Json)
      → AllowOnly table
      → get_record_handler o sql true caller query table rows ≡ ok (uri, value)
      → (did : Str) × (params : GetRecordParams) × (target : Str) × (get_authed_user o sql true
            caller
          ≡ ok did)
        × (query ≡ some params)
        × (find_repo o sql true params.repo ≡ ok target)
        × ((did ≡ target)
            ⊎ (any (applies sql did target (object_of params.collection params.rkey)) table ≡ true))
  unfolding get_record_handler
  get_record_handler-allowed caller query table rows uri value a h =
      let (did, authed, h1) = >>=-eq-ok (get_authed_user o sql true caller) _ h in
      let (params, asked, h2) = >>=-eq-ok (or_err query (http_error 400)) _ h1 in
      let (target, located, h3) = >>=-eq-ok (find_repo o sql true params.repo) _ h2 in
      let (r, got, h4) =
        >>=-eq-ok (or_500 (get_record sql true params.collection params.rkey target did table rows))
          _ h3 in
      (
        did,
        params,
        target,
        authed,
        or_err-ok query (http_error 400) params asked,
        located,
        allowed params.collection params.rkey target did table rows r a (
            or_500-ok (get_record sql true params.collection params.rkey target did table rows) r
              got),
      )

  put_answer-rows :
      (up : Bool) (uri : Str) (r : Result PriviError (Unit {0}) × Rows)
      → (put_answer o sql up uri r).1 ≡ r.1
  put_answer-rows up uri (ok _, rows) = refl
  put_answer-rows up uri (err _, rows) = refl

  put_record_inputs-owner :
      (up : Bool) (caller : Caller) (uuid : Str) (body : Option (PutRecordInput o)) (owner : Str)
      (req : PutRecordInput o) (rkey : Str)
      → put_record_inputs o sql up caller uuid body ≡ ok (owner, (req, rkey))
      → get_authed_user o sql up caller ≡ ok owner
  unfolding put_record_inputs
  put_record_inputs-owner up caller uuid body owner req rkey h =
      let (did, authed, h1) = >>=-eq-ok (get_authed_user o sql up caller) _ h in
      let (req', decoded, h2) = >>=-eq-ok (or_err body (http_error 400)) _ h1 in
      let (owner', located, h3) = >>=-eq-ok (find_repo o sql up req'.repo) _ h2 in
      ground (arith, authed, h3, str_eq_iff owner' did)

  -- PutRecord leaves the records of every DID but the authenticated caller's as they are.
  pub put_record_handler-own :
      (up : Bool) (caller : Caller) (uuid : Str) (body : Option (PutRecordInput o)) (rows : Rows)
      (did k : Str)
      → get_authed_user o sql up caller ≢ ok did
      → find_first (is_at did k) (put_record_handler o sql up caller uuid body rows).1
        ≡ find_first (is_at did k) rows
  unfolding put_record_handler
  put_record_handler-own up caller uuid body rows did k ne =
      elim (Result-cases (put_record_inputs o sql up caller uuid body)) [
        | inr (e, failed) ↦ rw (failed, put_record_handler) refl
        | inl ((owner, (req, rkey)), made) ↦
            rw (made, put_record_handler)
              (ap (λ (w : Rows). find_first (is_at did k) w)
                  (put_answer-rows up (uri_of owner req.collection rkey) _)
                ∙ put_record-other up (o.is_valid req.record_value) owner req.collection rkey did k
                    (o.marshal req.record_value) (some true) rows
                    (λ e.
                      ne (
                        put_record_inputs-owner up caller uuid body owner req rkey made ∙ ap ok e)))
      ]
