-- ===== src/Oauthserver/Defs.antt =====
-- The sessions, the token strategy and the storage of the OAuth server (session.go, strategy.go,
-- storage.go, client.go). A new nonce is an argument.
use habitat_new.Prelude.{
  ℕ, zero, suc, ltb, length, Str, str, split, Option, none, some, List, [], ◌∷◌, ◌++◌, Result, ok,
  err, fail_if, or_err, ◌>>=◌, ◌>>◌,
}
use habitat_new.Prelude.Dict.{find}
use habitat_new.Auth.Types.{TokenResponse, ClientMetadata}

-- authSession. The zero time is none.
pub record AuthSession : Type 0 where
  pub subject : Str
  pub expires_at : Option ℕ
  pub dpop_key : Str
  pub token_info : Option TokenResponse
  pub client_id : Str
  pub scopes : List Str
  pub state : Str
  pub pkce_challenge : Str

-- What a fosite.AuthorizeRequester tells: url.Values by their first values.
pub record AuthorizeRequest : Type 0 where
  pub form : List (Str × Str)
  pub scopes : List Str
  pub state : Str
  pub client_id : Str

-- url.Values.Get
unfoldable pub form_get : Str → List (Str × Str) → Str
unfolding find
form_get key form = elim (find key form) [ none ↦ [] | some value ↦ value ]

-- newAuthorizeSession
unfoldable pub new_authorize_session :
    AuthorizeRequest → (dpop_key : Str) → Option TokenResponse → AuthSession
unfolding form_get
new_authorize_session req dpop_key token_info = record {
  subject = form_get (str "handle") req.form;
  expires_at = none;
  dpop_key = dpop_key;
  token_info = token_info;
  client_id = req.client_id;
  scopes = req.scopes;
  state = req.state;
  pkce_challenge = form_get (str "code_challenge") req.form;
}

-- newAccessTokenSession
unfoldable pub new_access_token_session : AuthSession → AuthSession
new_access_token_session s = record {
  subject = s.subject;
  expires_at = none;
  dpop_key = s.dpop_key;
  token_info = s.token_info;
  client_id = [];
  scopes = s.scopes;
  state = [];
  pkce_challenge = [];
}

-- SetExpiresAt, for every type of token
unfoldable pub set_expires_at : ℕ → AuthSession → AuthSession
set_expires_at time s = record s { expires_at = some time }

-- client.GetScopes
unfoldable pub get_scopes : ClientMetadata → List Str
unfolding split
get_scopes client = split b' ' client.scope

-- What the strategy takes from fxamacker/cbor, encoding/base64 and nacl/secretbox.
pub record Sealing : Type 0 where
  pub encode : AuthSession → Option Str
  pub decode : Str → Option AuthSession
  pub seal : (message nonce key : Str) → Str
  pub open_box : (box nonce key : Str) → Option Str
  pub encode_to_string : Str → Str
  pub decode_string : Str → Option Str

-- A slice that is out of range stops the handler: panicked.
pub data TokenError : Type 0 where
  encode_failed decode_failed invalid_token panicked not_found not_supported : TokenError

abbrev pub nonce_size : ℕ
nonce_size = 24

unfoldable pub take : ℕ → Str → Str
take zero s = []
take (suc n) [] = []
take (suc n) (a ∷ s) = a ∷ take n s

unfoldable pub drop : ℕ → Str → Str
drop zero s = s
drop (suc n) [] = []
drop (suc n) (a ∷ s) = drop n s

-- copy into an array of n bytes: what does not fit is left out, what is missing stays 0.
unfoldable pub copy_into : ℕ → Str → Str
copy_into zero s = []
copy_into (suc n) [] = 0 ∷ copy_into n []
copy_into (suc n) (a ∷ s) = a ∷ copy_into n s

-- newStrategy: the key of the strategy.
unfoldable pub new_strategy : Str → Str
unfolding copy_into
new_strategy key = copy_into 32 key

-- strategy.encrypt with a nonce from rand.Reader
unfoldable pub encrypt : Sealing → (key nonce : Str) → AuthSession → Result TokenError Str
encrypt box key nonce s = do
  message ← or_err (box.encode s) encode_failed
  ok (box.encode_to_string (nonce ++ box.seal message nonce key))

-- strategy.decrypt up to the plain text, which is all where the target is nil.
unfoldable pub open_token : Sealing → (key token : Str) → Result TokenError Str
unfolding take drop
open_token box key token = do
  b ← or_err (box.decode_string token) invalid_token
  fail_if (ltb (length b) nonce_size) panicked
  or_err (box.open_box (drop nonce_size b) (take nonce_size b) key) invalid_token

-- strategy.decrypt into a session
unfoldable pub decrypt : Sealing → (key token : Str) → Result TokenError AuthSession
unfolding open_token
decrypt box key token = do
  message ← open_token box key token
  or_err (box.decode message) decode_failed

-- GenerateAccessToken
unfoldable pub generate_access_token :
    Sealing → (key nonce : Str) → AuthSession → Result TokenError Str
unfolding encrypt new_access_token_session
generate_access_token box key nonce s = encrypt box key nonce (new_access_token_session s)

-- GenerateRefreshToken
unfoldable pub generate_refresh_token :
    Sealing → (key nonce : Str) → AuthSession → Result TokenError Str
unfolding encrypt
generate_refresh_token box key nonce s = encrypt box key nonce s

-- GenerateAuthorizeCode
unfoldable pub generate_authorize_code :
    Sealing → (key nonce : Str) → AuthSession → Result TokenError Str
unfolding encrypt
generate_authorize_code box key nonce s = encrypt box key nonce s

-- The plain text is left aside where the target is nil.
abbrev pub forget : Result TokenError Str → Result TokenError (Unit {0})
forget (ok _) = ok tt
forget (err e) = err e

-- ValidateAccessToken
unfoldable pub validate_access_token : Sealing → (key token : Str) → Result TokenError (Unit {0})
unfolding open_token
validate_access_token box key token = forget (open_token box key token)

-- ValidateRefreshToken
unfoldable pub validate_refresh_token : Sealing → (key token : Str) → Result TokenError (Unit {0})
unfolding open_token
validate_refresh_token box key token = forget (open_token box key token)

-- ValidateAuthorizeCode
unfoldable pub validate_authorize_code : Sealing → (key token : Str) → Result TokenError (Unit {0})
unfolding open_token
validate_authorize_code box key token = forget (open_token box key token)

-- store, by the key of its strategy. Its memory store only keeps client assertions.
pub record Store : Type 0 where
  pub strategy : Str

-- An error of decrypt or of GetClient, joined with fosite.ErrNotFound. A panic is none of them.
abbrev pub joined : {A : Type 0} → Result TokenError A → Result TokenError A
joined (ok a) = ok a
joined (err panicked) = err panicked
joined (err _) = err not_found

-- fosite.Request, as GetAuthorizeCodeSession makes it.
pub record CodeRequest : Type 0 where
  pub client : ClientMetadata
  pub session : AuthSession
  pub requested_scope : List Str

-- GetAuthorizeCodeSession. `get_client` is GetClient, which fetches the metadata by HTTP.
unfoldable pub get_authorize_code_session :
    Sealing
    → Store
    → (get_client : Str → Option ClientMetadata) → (code : Str) → Result TokenError CodeRequest
unfolding decrypt
get_authorize_code_session box s get_client code = do
  session ← joined (decrypt box s.strategy code)
  client ← or_err (get_client session.client_id) not_found
  ok (record { client = client; session = session; requested_scope = session.scopes })

-- InvalidateAuthorizeCodeSession and the calls that create, delete and rotate sessions: all of them
-- leave the store as it is.
unfoldable pub invalidate_authorize_code_session :
    (code : Str) → Store → Result TokenError (Unit {0}) × Store
invalidate_authorize_code_session code s = (ok tt, s)

unfoldable pub create_authorize_code_session :
    (code : Str) → Store → Result TokenError (Unit {0}) × Store
create_authorize_code_session code s = (ok tt, s)

unfoldable pub delete_access_token_session :
    (signature : Str) → Store → Result TokenError (Unit {0}) × Store
delete_access_token_session signature s = (ok tt, s)

unfoldable pub rotate_refresh_token :
    (request_id signature : Str) → Store → Result TokenError (Unit {0}) × Store
rotate_refresh_token request_id signature s = (ok tt, s)

-- GetAccessTokenSession: the session of the request.
unfoldable pub get_access_token_session :
    Sealing → Store → (signature : Str) → Result TokenError AuthSession
unfolding decrypt
get_access_token_session box s signature = joined (decrypt box s.strategy signature)

-- GetPKCERequestSession: the form of the request.
unfoldable pub get_pkce_request_session : AuthSession → List (Str × Str)
get_pkce_request_session session =
    (str "code_challenge", session.pkce_challenge) ∷ (str "code_challenge_method", str "S256") ∷ []

-- GetRefreshTokenSession: neither a request nor an error.
unfoldable pub get_refresh_token_session :
    (signature : Str) → Result TokenError (Option AuthSession)
get_refresh_token_session signature = ok none

-- RevokeAccessToken and RevokeRefreshToken
unfoldable pub revoke_access_token : (request_id : Str) → Result TokenError (Unit {0})
revoke_access_token request_id = err not_supported

unfoldable pub revoke_refresh_token : (request_id : Str) → Result TokenError (Unit {0})
revoke_refresh_token request_id = err not_supported
