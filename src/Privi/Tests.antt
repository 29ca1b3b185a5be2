-- ===== src/Privi/Tests.antt =====
-- Runs of the store of private records on concrete tables.
use habitat_new.Prelude.{
  Str, str, str_eq, str_eq_apart, any, true, false, none, some, [], ◌∷◌, ◌≡◌, ◌≢◌, ◌⊎◌, ap, Result,
  ◌↔◌, refl, ok, err,
}
use habitat_new.Permissions.{applies, object_of, has_permission, add_lexicon_read_permission}
use habitat_new.Permissions.Sample.{sample, sample_laws, like_final}
use habitat_new.Privi.Defs.{
  Record, Rows, ListRecordsParams, unauthorized, cut_star, put_record, get_record, list_records,
  key_of,
}
use habitat_new.Privi.Reading.{
  get_record-put_record, get_record-unauthorized_iff, list_records-granted,
}
use habitat_new.Privi.Defs.{is_at, find_first}
use habitat_new.Privi.Server.{
  Outside, Caller, Failure, GetRecordParams, PutRecordInput, panicked, bearer, get_authed_user,
  find_repo, get_record_handler, put_record_handler,
}
use habitat_new.Privi.Serving.{get_record_handler-allowed, put_record_handler-own}

abbrev ann : Str
ann = str "ann"

abbrev bob : Str
bob = str "bob"

abbrev params : ListRecordsParams
params = record { repo = ann; collection = str "net.posts"; cursor = []; limit = 0 }

abbrev rows : Rows
rows = record { did = ann; rkey = str "net.posts.1"; rec = str "{}" } ∷ []

-- The owner sees the records of the collection.
own_list : list_records sample true params ann [] rows ≡ ok rows
unfolding list_records str_eq like_final cut_star
own_list = refl

other : bob ≢ ann
unfolding str_eq
other = str_eq_apart bob ann refl

put_ok :
    (put_record true true ann (str "net.posts") (str "2") (some (str "{}")) (some true) rows).0
    ≡ ok tt
unfolding put_record
put_ok = refl

own : has_permission sample true ann ann (str "net.posts") (str "2") [] ≡ ok true
unfolding has_permission str_eq
own = refl

get_record-put_record_example :
    get_record sample true
      (str "net.posts")
      (str "2")
      ann
      ann
      []
      (put_record true true ann (str "net.posts") (str "2") (some (str "{}")) (some true) rows).1
    ≡ ok (record { did = ann; rkey = key_of (str "net.posts") (str "2"); rec = str "{}" })
get_record-put_record_example =
    get_record-put_record sample true true ann (str "net.posts") (str "2") (str "{}") ann
      (some true) [] rows put_ok own

get_record-unauthorized_iff_example :
    (get_record sample true (str "net.posts") (str "1") ann bob [] rows ≡ err unauthorized)
    ↔ (any (applies sample bob ann (object_of (str "net.posts") (str "1"))) [] ≡ false)
get_record-unauthorized_iff_example =
    get_record-unauthorized_iff sample (str "net.posts") (str "1") ann bob [] rows tt other

nothing_before : any (applies sample bob ann (str "net.posts")) [] ≡ false
unfolding any
nothing_before = refl

no_star : cut_star (str "net.posts") ≡ none
unfolding cut_star
no_star = refl

no_own_name : any (λ (r : Record). str_eq r.rkey (str "net.posts")) rows ≡ false
unfolding any str_eq
no_own_name = refl

granted : (add_lexicon_read_permission true bob ann (str "net.posts") []).0 ≡ ok tt
unfolding add_lexicon_read_permission
granted = refl

list_records-granted_example :
    let t' = (add_lexicon_read_permission true bob ann (str "net.posts") []).1 in
    ((rkey : Str) → has_permission sample true bob ann (str "net.posts") rkey t' ≡ ok true)
    × (list_records sample true params bob t' rows ≡ ok [])
list_records-granted_example =
    list_records-granted sample sample_laws true bob params [] rows tt other nothing_before no_star
      no_own_name granted

abbrev outside : Outside
outside = record {
  PublicKey = Unit {0};
  Json = Str;
  parse_at_identifier = some;
  lookup = some;
  lookup_key = λ did. some tt;
  parse_token = λ token keys. some token;
  validate = err 401;
  unmarshal = some;
  marshal = some;
  is_valid = λ j. true;
}

abbrev as_ann : Caller
as_ann = record { auth_method = []; authorization = str "Bearer ann" }

abbrev query : GetRecordParams
query = record { repo = ann; collection = str "net.posts"; rkey = str "1" }

-- A request with no token stops the handler.
no_token :
    get_record_handler outside sample true
      (record as_ann { authorization = [] })
      (some query)
      []
      rows
    ≡ err panicked
unfolding get_record_handler str_eq
no_token = refl

got :
    get_record_handler outside sample true as_ann (some query) [] rows
    ≡ ok (str "habitat://ann/net.posts/1", str "{}")
unfolding get_record_handler str_eq bearer
got = refl

get_record_handler-allowed_example :
    (did : Str) × (params : GetRecordParams) × (target : Str) × (get_authed_user outside sample true
        as_ann
      ≡ ok did)
    × (some query ≡ some params)
    × (find_repo outside sample true params.repo ≡ ok target)
    × ((did ≡ target)
        ⊎ (any (applies sample did target (object_of params.collection params.rkey)) [] ≡ true))
get_record_handler-allowed_example =
    get_record_handler-allowed outside sample as_ann (some query) [] rows
      (str "habitat://ann/net.posts/1") (str "{}") tt got

abbrev input : PutRecordInput outside
input = record { repo = ann; collection = str "net.posts"; rkey = []; record_value = str "{}" }

abbrev did_of : Result Failure Str → Str
did_of (ok did) = did
did_of (err _) = []

not_bob : get_authed_user outside sample true as_ann ≢ ok bob
unfolding get_authed_user str_eq bearer
not_bob e = str_eq_apart ann bob refl (ap did_of e)

put_record_handler-own_example :
    find_first
      (is_at bob (str "x"))
      (put_record_handler outside sample true as_ann (str "u") (some input) rows).1
    ≡ find_first (is_at bob (str "x")) rows
put_record_handler-own_example =
    put_record_handler-own outside sample true as_ann (str "u") (some input) rows bob (str "x")
      not_bob
