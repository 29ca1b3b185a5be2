-- ===== src/Auth/Client.antt =====
-- The OAuth client (oauth_client.go): the metadata that it fetches and the requests it posts. The
-- time and the random verifier and state are arguments.
use habitat_new.Prelude.{
  ℕ, ◌+◌, ◌==◌, Str, str, Option, none, some, List, [], ◌∷◌, ◌++◌, Result, ok, err, fail_if, or_err,
  not, ◌>>=◌, ◌>>◌,
}
use habitat_new.Auth.Types.{Identity, TokenResponse, AuthorizeState, OauthClient}
use habitat_new.Auth.Dpop.{
  DpopOptions, Request, Response, DpopError, NonceProvider, Transport, do_request,
}

-- oauthAuthorizationServer
pub record AuthorizationServer : Type 0 where
  pub issuer : Str
  pub token_endpoint : Str
  pub par_endpoint : Str
  pub auth_endpoint : Str

-- jwt.Claims of a client's assertion, without its random identifier.
pub record AssertionClaims : Type 0 where
  pub issuer : Str
  pub subject : Str
  pub audience : List Str
  pub expiry : ℕ
  pub issued_at : ℕ

-- What the client takes from net/url, net/http, encoding/json, golang.org/x/oauth2, jose and the
-- identity. A function that may fail gives none where it does.
pub record Remote (World : Type 0) : Type 0 where
  -- Identity.PDSEndpoint
  pub pds_endpoint : Identity → Str
  -- url.Parse and String
  pub normalize : Str → Option Str
  -- url.Parse, then String with another path, or with another query
  pub with_path : (url path : Str) → Option Str
  pub with_query : (url query : Str) → Option Str
  -- url.Values.Encode, of one value for each key
  pub encode_form : List (Str × Str) → Str
  -- http.NewRequest: the URL of the request
  pub request_url : Str → Option Str
  -- http.DefaultClient.Get: status and body
  pub get : Str → World → Option (ℕ × Str) × World
  pub challenge_from_verifier : Str → Str
  pub sign_assertion : AssertionClaims → Option Str
  -- json.Decode of a member authorization_servers, of an oauthAuthorizationServer, of a parResponse
  -- and of a TokenResponse
  pub decode_resource : Str → Option (List Str)
  pub decode_server : Str → Option AuthorizationServer
  pub decode_par : Str → Option Str
  pub decode_token : Str → Option TokenResponse

pub data ClientError : Type 0 where
  bad_url fetch_failed bad_status decode_failed no_server assertion_failed bad_request : ClientError
  -- A nil request is used.
  panicked : ClientError
  do_failed : DpopError → ClientError

-- A step that may fail, after another one, on a state.
abbrev pub and_then :
    {E A B S : Type 0} → Result E A × S → (A → S → Result E B × S) → Result E B × S
and_then (ok a, s) f = f a s
and_then (err e, s) f = (err e, s)

-- A step that does not change the state.
abbrev pub lift : {E A S : Type 0} → Result E A → S → Result E A × S
lift r s = (r, s)

module _ {World : Type 0} (o : Remote World) where
  -- A document that is fetched, with status 200, and decoded.
  unfoldable pub fetch :
      {A : Type 0} → (url : Str) → (Str → Option A) → World → Result ClientError A × World
  fetch url decode w =
      let (answer, w') = o.get url w in
      (
        do
          (status, body) ← or_err answer fetch_failed
          fail_if (not (status == 200)) bad_status
          or_err (decode body) decode_failed,
        w',
      )

  -- fetchOAuthProtectedResource
  unfoldable pub fetch_protected_resource : Identity → World → Result ClientError (List Str) × World
  unfolding fetch
  fetch_protected_resource id w =
      elim (o.normalize (o.pds_endpoint id ++ str "/.well-known/oauth-protected-resource")) [
        | none ↦ (err bad_url, w)
        | some url ↦ fetch url o.decode_resource w
      ]

  -- fetchOauthAuthorizationServer
  unfoldable pub fetch_authorization_server :
      (servers : List Str) → World → Result ClientError AuthorizationServer × World
  unfolding fetch
  fetch_authorization_server [] w = (err no_server, w)
  fetch_authorization_server (server ∷ _) w =
      elim (o.with_path server (str "/.well-known/oauth-authorization-server")) [
        | none ↦ (err bad_url, w)
        | some url ↦ fetch url o.decode_server w
      ]

  -- The metadata of an identity's authorization server, as Authorize and RefreshToken fetch it.
  unfoldable pub server_of : Identity → World → Result ClientError AuthorizationServer × World
  unfolding fetch_protected_resource fetch_authorization_server
  server_of id w =
      and_then (fetch_protected_resource id w) (λ servers w'. fetch_authorization_server servers w')

  -- getClientAssertion
  unfoldable pub client_assertion :
      OauthClient → (now : ℕ) → (audience : Str) → Result ClientError Str
  client_assertion client now audience =
      or_err
        (o.sign_assertion (record {
          issuer = client.client_id;
          subject = client.client_id;
          audience = audience ∷ [];
          expiry = now + 300;
          issued_at = now;
        }))
        assertion_failed

  -- The two parameters of a client's assertion.
  abbrev pub assertion_params : Str → List (Str × Str)
  assertion_params assertion =
      (str "client_assertion_type", str "urn:ietf:params:oauth:client-assertion-type:jwt-bearer")
      ∷ (str "client_assertion", assertion)
      ∷ []

  -- The request of a form.
  abbrev pub form_request : (url : Str) → List (Str × Str) → Request
  form_request url params = record {
    method = str "POST";
    url = url;
    header = (str "Content-Type", str "application/x-www-form-urlencoded") ∷ [];
    authorization = [];
    dpop = [];
    body = o.encode_form params;
  }

  abbrev pub no_options : DpopOptions
  no_options = record { htu = []; access_token = [] }

  -- The response of Do, with the status that is expected, decoded.
  unfoldable pub read_response :
      {A : Type 0}
      → (expected : ℕ) → (Str → Option A)
      → Result DpopError Response
      → Result ClientError A
  read_response expected decode (err e) = err (do_failed e)
  read_response expected decode (ok resp) = do
    fail_if (not (resp.status == expected)) bad_status
    or_err (decode resp.body) decode_failed

  module _ {Key N : Type 0} (t : Transport Key World) (p : NonceProvider N) where
    -- A form that is posted through the DPoP client. `refused` is for a URL that http.NewRequest
    -- does not take.
    unfoldable pub post_form :
        {A : Type 0}
        → Key
        → (refused : ClientError) → (url : Str) → List (Str × Str)
        → (expected : ℕ) → (Str → Option A)
        → N
        → World
        → Result ClientError A × (N × World)
    unfolding do_request read_response
    post_form key refused url params expected decode n w = elim (o.request_url url) [
      | none ↦ (err refused, (n, w))
      | some target ↦
          let (answer, rest) = do_request t p key no_options (form_request target params) n w in
          (read_response expected decode answer, rest)
    ]

    -- The parameters of a pushed authorization request.
    unfoldable pub par_params :
        OauthClient → Identity → (state verifier assertion : Str) → List (Str × Str)
    par_params client id state verifier assertion =
        (str "client_id", client.client_id)
        ∷ (str "redirect_uri", client.redirect_uri)
        ∷ (str "code_challenge", o.challenge_from_verifier verifier)
        ∷ (str "code_challenge_method", str "S256")
        ∷ (str "state", state)
        ∷ (str "respose_mode", str "query")
        ∷ (str "response_type", str "code")
        ∷ (str "scope", str "atproto transition:generic")
        ∷ (str "login_hint", id.handle)
        ∷ assertion_params assertion

    -- makePushedAuthorizationRequest
    unfoldable pub make_pushed_authorization_request :
        OauthClient
        → (now : ℕ) → Key
        → Identity
        → AuthorizationServer
        → (state verifier : Str) → N
        → World
        → Result ClientError Str × (N × World)
    unfolding client_assertion par_params post_form
    make_pushed_authorization_request client now key id server state verifier n w =
        elim (client_assertion client now server.issuer) [
          | err e ↦ (err e, (n, w))
          | ok assertion ↦ elim (o.normalize server.par_endpoint) [
            | none ↦ (err bad_url, (n, w))
            | some url ↦
                post_form key bad_request url (par_params client id state verifier assertion) 201
                  o.decode_par n w
          ]
        ]

    -- The redirection of Authorize. An endpoint that does not parse is a nil URL.
    abbrev pub redirection :
        OauthClient
        → AuthorizationServer
        → (verifier state request_uri : Str) → Result ClientError (Str × AuthorizeState)
    redirection client server verifier state request_uri = do
      url ←
          or_err
            (o.with_query server.auth_endpoint (
              o.encode_form
                ((str "client_id", client.client_id) ∷ (str "request_uri", request_uri) ∷ [])))
            panicked
      ok (
        url,
        record { verifier = verifier; state = state; token_endpoint = server.token_endpoint },
      )

    -- Authorize, once the server's metadata is there
    abbrev pub authorize_at :
        OauthClient
        → (now : ℕ) → (verifier state : Str) → Key
        → Identity
        → N
        → Result ClientError AuthorizationServer × World
        → Result ClientError (Str × AuthorizeState) × (N × World)
    authorize_at client now verifier state key id n (err e, w) = (err e, (n, w))
    authorize_at client now verifier state key id n (ok server, w) =
        and_then (make_pushed_authorization_request client now key id server state verifier n w)
          (λ request_uri. lift (redirection client server verifier state request_uri))

    -- Authorize
    unfoldable pub authorize :
        OauthClient
        → (now : ℕ) → (verifier state : Str) → Key
        → Identity
        → N
        → World
        → Result ClientError (Str × AuthorizeState) × (N × World)
    unfolding server_of make_pushed_authorization_request
    authorize client now verifier state key id n w =
        authorize_at client now verifier state key id n (server_of id w)

    -- ExchangeCode
    unfoldable pub exchange_code :
        OauthClient
        → (now : ℕ) → Key
        → (code issuer : Str) → AuthorizeState
        → N
        → World
        → Result ClientError TokenResponse × (N × World)
    unfolding client_assertion post_form
    exchange_code client now key code issuer state n w = elim (client_assertion client now issuer) [
      | err e ↦ (err e, (n, w))
      | ok assertion ↦
          post_form key bad_request state.token_endpoint
            ((str "client_id", client.client_id)
              ∷ (str "grant_type", str "authorization_code")
              ∷ (str "redirect_uri", client.redirect_uri)
              ∷ (str "code", code)
              ∷ (str "code_verifier", state.verifier)
              ∷ assertion_params assertion)
            200 o.decode_token n w
    ]

    -- RefreshToken, once the server's metadata is there. The error of http.NewRequest is not read.
    abbrev pub refresh_at :
        OauthClient
        → (now : ℕ) → Key
        → (issuer refresh_token : Str) → N
        → Result ClientError AuthorizationServer × World
        → Result ClientError TokenResponse × (N × World)
    refresh_at client now key issuer refresh_token n (err e, w) = (err e, (n, w))
    refresh_at client now key issuer refresh_token n (ok server, w) =
        elim (client_assertion client now issuer) [
          | err e ↦ (err e, (n, w))
          | ok assertion ↦
              post_form key panicked server.token_endpoint
                ((str "client_id", client.client_id)
                  ∷ (str "grant_type", str "refresh_token")
                  ∷ (str "refresh_token", refresh_token)
                  ∷ assertion_params assertion)
                200 o.decode_token n w
        ]

    -- RefreshToken
    unfoldable pub refresh_token :
        OauthClient
        → (now : ℕ) → Key
        → Identity
        → (issuer token : Str) → N
        → World
        → Result ClientError TokenResponse × (N × World)
    unfolding server_of client_assertion post_form
    refresh_token client now key id issuer token n w =
        refresh_at client now key issuer token n (server_of id w)
