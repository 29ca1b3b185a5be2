-- ===== src/Oauthserver/Handlers.antt =====
-- The handlers of OAuthServer (oauth_server.go). The flashes are those of the cookie session
-- auth-session; url.Values are given by their first values.
use habitat_new.Prelude.{
  ℕ, Str, str, Option, none, some, List, [], ◌∷◌, ◌++◌, Result, ok, err, or_err, ◌>>=◌,
}
use habitat_new.Auth.Types.{Identity, TokenResponse, AuthorizeState}
use habitat_new.Auth.Dpop.{DpopOptions, NonceProvider}
use habitat_new.Oauthserver.Defs.{AuthSession, AuthorizeRequest, form_get, new_authorize_session}

-- authRequestFlash
pub record AuthRequestFlash : Type 0 where
  pub form : List (Str × Str)
  pub dpop_key : Str
  pub authorize_state : AuthorizeState

-- A flash of the session: of the type that HandleAuthorize adds, or of another.
pub data Flash : Type 0 where
  request : AuthRequestFlash → Flash
  other : Flash

-- nonceProvider: one nonce in memory, the empty one at first.
unfoldable pub memory_nonces : NonceProvider Str
memory_nonces = record {
  get_dpop_nonce = λ nonce. ok (some nonce);
  set_dpop_nonce = λ new nonce. ok new;
}

-- What the server takes from fosite, the identity directory, crypto/ecdsa and the OAuth client. A
-- function that may fail gives none where it does.
pub record Outside (Key World : Type 0) : Type 0 where
  pub new_authorize_request : List (Str × Str) → Option AuthorizeRequest
  -- NewAuthorizeResponse: where the user is sent back to
  pub new_authorize_response : AuthorizeRequest → AuthSession → Option Str
  pub introspect_token : (token : Str) → (scopes : List Str) → Option AuthSession
  pub parse_at_identifier : Str → Option Str
  pub lookup : Str → Option Identity
  pub key_bytes : Key → Option Str
  pub parse_raw_private_key : Str → Option Key
  pub authorize : Key → Identity → World → Option (Str × AuthorizeState) × World
  pub exchange_code :
      Key → (code issuer : Str) → AuthorizeState → World → Option TokenResponse × World

-- An answer: an error's status, a redirection, what the provider writes for its own errors, or none.
pub data Reply : Type 0 where
  http_error : ℕ → Reply
  redirect : (url : Str) → Reply
  provider_error : Reply
  -- A nil pointer is dereferenced.
  panicked : Reply

module _ {Key World : Type 0} (o : Outside Key World) where
  -- The part of HandleAuthorize before the user's PDS is asked.
  unfoldable pub authorize_inputs :
      (form : List (Str × Str))
      → (key : Option Key) → Result Reply (AuthorizeRequest × (Identity × Key))
  unfolding form_get
  authorize_inputs form key = do
    req ← or_err (o.new_authorize_request form) provider_error
    at ← or_err (o.parse_at_identifier (form_get (str "handle") form)) (http_error 400)
    id ← or_err (o.lookup at) (http_error 500)
    k ← or_err key (http_error 500)
    ok (req, (id, k))

  -- The part of HandleAuthorize after it: the flash is added behind those that are there.
  abbrev pub add_flash :
      AuthorizeRequest
      → Key
      → Option (Str × AuthorizeState) × World
      → (flashes : List Flash) → Reply × (List Flash × World)
  add_flash req key (none, w) flashes = (http_error 500, (flashes, w))
  add_flash req key (some (url, state), w) flashes = elim (o.key_bytes key) [
    | none ↦ (http_error 500, (flashes, w))
    | some b ↦ (
      redirect url,
      (
        flashes ++ request (record { form = req.form; dpop_key = b; authorize_state = state }) ∷ [],
        w,
      ),
    )
  ]

  -- HandleAuthorize. The key is the one that is generated. The flashes are those of the session that
  -- sessionStore.New gives, which is a new one where the cookie does not decode.
  unfoldable pub handle_authorize :
      (form : List (Str × Str))
      → (key : Option Key) → (flashes : List Flash) → World
      → Reply × (List Flash × World)
  unfolding authorize_inputs
  handle_authorize form key flashes w = elim (authorize_inputs form key) [
    | err e ↦ (e, (flashes, w))
    | ok (req, (id, k)) ↦ add_flash req k (o.authorize k id w) flashes
  ]

  -- The request and the key of a flash.
  unfoldable pub callback_inputs : AuthRequestFlash → Result Reply (AuthorizeRequest × Key)
  callback_inputs flash = do
    req ← or_err (o.new_authorize_request flash.form) (http_error 400)
    key ← or_err (o.parse_raw_private_key flash.dpop_key) (http_error 400)
    ok (req, key)

  -- The part of HandleCallback after the exchange of the code.
  abbrev pub respond :
      AuthorizeRequest → AuthRequestFlash → Option TokenResponse × World → Reply × World
  respond req flash (none, w) = (http_error 500, w)
  respond req flash (some info, w) =
      elim (o.new_authorize_response req (new_authorize_session req flash.dpop_key (some info))) [
        | none ↦ (http_error 500, w)
        | some url ↦ (redirect url, w)
      ]

  -- HandleCallback. Without a session the answer is 500; else the first flash counts, and all of
  -- them are used up. Where there is none, or it has another type, the error that is logged is nil,
  -- and its method is called.
  unfoldable pub handle_callback :
      (code issuer : Str)
      → (session : Option (List Flash)) → World
      → Reply × (Option (List Flash) × World)
  unfolding callback_inputs new_authorize_session
  handle_callback code issuer none w = (http_error 500, (none, w))
  handle_callback code issuer (some []) w = (panicked, (some [], w))
  handle_callback code issuer (some (other ∷ flashes)) w = (panicked, (some [], w))
  handle_callback code issuer (some (request flash ∷ flashes)) w = elim (callback_inputs flash) [
    | err e ↦ (e, (some [], w))
    | ok (req, key) ↦
        let (reply, w') =
          respond req flash (o.exchange_code key code issuer flash.authorize_state w) in
        (reply, (some [], w'))
  ]

  -- Validate: the session's subject, the key and the options of a DPoP client. A session has token
  -- information where the provider issued it; without, the code dereferences nil.
  unfoldable pub validate :
      (token : Str) → (scopes : List Str) → Result Reply (Str × (Key × DpopOptions))
  validate token scopes = do
    session ← or_err (o.introspect_token token scopes) provider_error
    key ← or_err (o.parse_raw_private_key session.dpop_key) (http_error 400)
    info ← or_err session.token_info panicked
    ok (session.subject, (key, record { htu = []; access_token = info.access_token }))
