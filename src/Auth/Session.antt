-- ===== src/Auth/Session.antt =====
-- cookieSession (session.go): the values of a gorilla session, set and read back.
use habitat_new.Prelude.{Str, str, Option, none, some, List, Result, ok, err, or_err, ◌>>=◌}
use habitat_new.Prelude.Dict.{find, insert}
use habitat_new.Auth.Types.{Identity, TokenResponse}

-- What the package takes from crypto/x509 and encoding/json.
pub record Keys : Type 1 where
  -- *ecdsa.PrivateKey
  pub PrivateKey : Type 0
  pub marshal_key : PrivateKey → Option Str
  pub parse_key : Str → Option PrivateKey
  pub marshal_token : TokenResponse → Option Str
  pub unmarshal_token : Str → Option TokenResponse
  pub marshal_identity : Identity → Option Str
  pub unmarshal_identity : Str → Option Identity

-- An `any` in the values of a session.
pub data Value : Type 0 where
  bytes text : Str → Value

-- sessions.Session, by its Values
abbrev pub Values : Type 0
Values = List (Str × Value)

pub data SessionError : Type 0 where
  marshal_failed unmarshal_failed not_bytes not_text store_failed missing_key : SessionError

-- []byte(v) and string(v)
abbrev pub as_bytes : Value → Result SessionError Str
as_bytes (bytes b) = ok b
as_bytes (text t) = err not_bytes

abbrev pub as_text : Value → Result SessionError Str
as_text (bytes b) = err not_text
as_text (text t) = ok t

-- What a getter reads from a value that is there or not.
abbrev pub read_found :
    {A : Type 0} → (Value → Result SessionError A) → Option Value → Result SessionError (Option A)
read_found read none = ok none
read_found read (some v) = do a ← read v; ok (some a)

-- A getter: none where the key is missing, else what it reads from the value.
unfoldable pub get_value :
    {A : Type 0}
    → (key : Str) → (Value → Result SessionError A)
    → Values
    → Result SessionError (Option A)
unfolding find
get_value key read values = read_found read (find key values)

-- A setter of bytes: nothing is set where the marshalling fails.
unfoldable pub set_bytes : (key : Str) → Option Str → Values → Result SessionError Values
unfolding insert
set_bytes key marshalled values = do
  b ← or_err marshalled marshal_failed
  ok (insert key (bytes b) values)

abbrev pub read_marshalled : {A : Type 0} → (Str → Option A) → Value → Result SessionError A
read_marshalled unmarshal v = do b ← as_bytes v; or_err (unmarshal b) unmarshal_failed

module _ (c : Keys) where
  -- SetDpopKey and GetDpopKey
  unfoldable pub set_dpop_key : c.PrivateKey → Values → Result SessionError Values
  unfolding set_bytes
  set_dpop_key key values = set_bytes (str "key") (c.marshal_key key) values

  unfoldable pub get_dpop_key : Values → Result SessionError (Option c.PrivateKey)
  unfolding get_value
  get_dpop_key values = get_value (str "key") (read_marshalled c.parse_key) values

  -- SetTokenInfo and GetTokenInfo
  unfoldable pub set_token_info : TokenResponse → Values → Result SessionError Values
  unfolding set_bytes
  set_token_info info values = set_bytes (str "token_info") (c.marshal_token info) values

  unfoldable pub get_token_info : Values → Result SessionError (Option TokenResponse)
  unfolding get_value
  get_token_info values = get_value (str "token_info") (read_marshalled c.unmarshal_token) values

  -- SetIdentity and GetIdentity
  unfoldable pub set_identity : Identity → Values → Result SessionError Values
  unfolding set_bytes
  set_identity id values = set_bytes (str "identity") (c.marshal_identity id) values

  unfoldable pub get_identity : Values → Result SessionError (Option Identity)
  unfolding get_value
  get_identity values = get_value (str "identity") (read_marshalled c.unmarshal_identity) values

  -- newCookieSession. The values are those of sessionStore.New, none where it fails; the key is the
  -- one that is generated, none where that fails.
  unfoldable pub new_cookie_session :
      Option Values → Option c.PrivateKey → Identity → (pds_url : Str) → Result SessionError Values
  unfolding set_dpop_key set_identity insert
  new_cookie_session session key id pds_url = do
    values ← or_err session store_failed
    k ← or_err key marshal_failed
    with_key ← set_dpop_key k values
    with_identity ← set_identity id with_key
    ok (insert (str "pds_url") (text pds_url) with_identity)

  -- getCookieSession
  unfoldable pub get_cookie_session : Option Values → Result SessionError Values
  unfolding find
  get_cookie_session session = do
    values ← or_err session store_failed
    elim (find (str "key") values) [ none ↦ err missing_key | some _ ↦ ok values ]

-- SetIssuer and GetIssuer
unfoldable pub set_issuer : (issuer : Str) → Values → Values
unfolding insert
set_issuer issuer values = insert (str "issuer") (text issuer) values

unfoldable pub get_issuer : Values → Result SessionError (Option Str)
unfolding get_value
get_issuer values = get_value (str "issuer") as_text values

-- SetPDSURL and GetPDSURL
unfoldable pub set_pds_url : (pds_url : Str) → Values → Values
unfolding insert
set_pds_url pds_url values = insert (str "pds_url") (text pds_url) values

unfoldable pub get_pds_url : Values → Result SessionError (Option Str)
unfolding get_value
get_pds_url values = get_value (str "pds_url") as_text values

-- SetDpopNonce and GetDpopNonce
unfoldable pub set_dpop_nonce : (nonce : Str) → Values → Values
unfolding insert
set_dpop_nonce nonce values = insert (str "nonce") (text nonce) values

unfoldable pub get_dpop_nonce : Values → Result SessionError (Option Str)
unfolding get_value
get_dpop_nonce values = get_value (str "nonce") as_text values
