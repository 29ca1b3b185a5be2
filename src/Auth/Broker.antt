-- ===== src/Auth/Broker.antt =====
-- xrpcBrokerHandler (broker.go): requests are forwarded to the user's PDS, with one refresh of the
-- session where the PDS answers 401.
use habitat_new.Prelude.{
  ℕ, ◌==◌, Str, str, str_eq, has_prefix, Bool, not, ◌||◌, Option, none, some, filter, List, [],
  Result, ok, err, or_err, ◌>>=◌, if◌then◌else◌,
}
use habitat_new.Auth.Types.{Identity, TokenResponse}
use habitat_new.Auth.Session.{
  Keys, Values, SessionError, get_cookie_session, get_dpop_key, get_token_info, get_identity,
  get_issuer, get_pds_url, set_token_info, set_dpop_nonce, get_dpop_nonce,
}
use habitat_new.Auth.Dpop.{
  DpopOptions, Request, Response, DpopError, nonce_failed, NonceProvider, Transport, do_request,
}

-- The request that comes in: its headers without Authorization and Content-Length apart.
pub record Incoming : Type 0 where
  pub method : Str
  pub path : Str
  pub raw_query : Str
  pub header : List (Str × Str)
  pub body : Str

-- What the broker takes from net/url and path, and from the OAuth client.
pub record Outside (c : Keys) (World : Type 0) : Type 0 where
  -- url.Parse: scheme and host
  pub parse_url : Str → Option (Str × Str)
  -- url.URL.String of a scheme, a host, a path and a query
  pub url_string : (scheme host path query : Str) → Str
  -- path.Join
  pub join : Str → Str → Str
  -- OAuthClient.RefreshToken with a client whose nonces are the session's
  pub refresh_token :
      c.PrivateKey
      → Identity
      → (issuer refresh_token : Str) → Values
      → World
      → Option TokenResponse × (Values × World)

pub data BrokerError : Type 0 where
  no_pds_url bad_url no_key no_token_info no_identity no_issuer refresh_failed set_failed :
      BrokerError

-- A value that a getter finds: `if !ok || err != nil`.
abbrev pub found :
    {A : Type 0} → Result SessionError (Option A) → BrokerError → Result BrokerError A
found (ok (some a)) e = ok a
found (ok none) e = err e
found (err _) e = err e

-- cookieSession as a DpopNonceProvider
abbrev pub of_session : {A : Type 0} → Result SessionError A → Result DpopError A
of_session (ok a) = ok a
of_session (err e) = err nonce_failed

unfoldable pub session_nonces : NonceProvider Values
unfolding get_dpop_nonce set_dpop_nonce
session_nonces = record {
  get_dpop_nonce = λ values. of_session (get_dpop_nonce values);
  set_dpop_nonce = λ nonce values. ok (set_dpop_nonce nonce values);
}

-- The headers that are left out of a forwarded request.
unfoldable pub is_forwarded : Str × Str → Bool
unfolding str_eq
is_forwarded (k, v) = not (str_eq k (str "Authorization") || str_eq k (str "Content-Length"))

-- An answer of the broker: an error's status, or the response of the PDS.
pub data Answer : Type 0 where
  http_error : ℕ → Answer
  passed_on : Response → Answer

module _ {World : Type 0} (c : Keys) (o : Outside c World) (t : Transport c.PrivateKey World)
    (htu_url : Str) where
  -- getForwardReq
  unfoldable pub get_forward_req : Incoming → Values → Result BrokerError Request
  unfolding get_pds_url is_forwarded filter
  get_forward_req r values = do
    pds_url ← found (get_pds_url values) no_pds_url
    (scheme, host) ← or_err (o.parse_url pds_url) bad_url
    ok (record {
      method = r.method;
      url = o.url_string scheme host r.path r.raw_query;
      header = filter is_forwarded r.header;
      authorization = [];
      dpop = [];
      body = r.body;
    })

  -- getForwardingDpopClient: the key and the options of the client.
  unfoldable pub get_forwarding_dpop_client :
      Incoming → Values → Result BrokerError (c.PrivateKey × DpopOptions)
  unfolding get_dpop_key get_token_info get_pds_url has_prefix
  get_forwarding_dpop_client r values = do
    key ← found (get_dpop_key c values) no_key
    info ← found (get_token_info c values) no_token_info
    pds_url ← found (get_pds_url values) no_pds_url
    (scheme, host) ← or_err (o.parse_url pds_url) bad_url
    ok (
      key,
      record {
        htu = if has_prefix host (str "host.docker.internal") then o.join htu_url r.path else [];
        access_token = info.access_token;
      },
    )

  -- What refreshSession reads from the session.
  unfoldable pub refresh_inputs :
      Values → Result BrokerError (c.PrivateKey × (Identity × (Str × TokenResponse)))
  unfolding get_dpop_key get_identity get_issuer get_token_info
  refresh_inputs values = do
    key ← found (get_dpop_key c values) no_key
    id ← found (get_identity c values) no_identity
    issuer ← found (get_issuer values) no_issuer
    info ← found (get_token_info c values) no_token_info
    ok (key, (id, (issuer, info)))

  -- refreshSession
  unfoldable pub refresh_session : Values → World → Result BrokerError (Unit {0}) × (Values × World)
  unfolding refresh_inputs set_token_info
  refresh_session values w = elim (refresh_inputs values) [
    | err e ↦ (err e, (values, w))
    | ok (key, (id, (issuer, info))) ↦
        let (answer, (values', w')) = o.refresh_token key id issuer info.refresh_token values w in
        elim answer [
          | none ↦ (err refresh_failed, (values', w'))
          | some info' ↦ elim (set_token_info c info' values') [
            | err e ↦ (err set_failed, (values', w'))
            | ok values'' ↦ (ok tt, (values'', w'))
          ]
        ]
  ]

  -- The response of Do, none for an error.
  abbrev pub answered :
      Result DpopError Response × (Values × World) → Option Response × (Values × World)
  answered (ok resp, rest) = (some resp, rest)
  answered (err e, rest) = (none, rest)

  -- One forwarding: the client and the request from the session, and Do.
  unfoldable pub forward : Incoming → Values → World → Option Response × (Values × World)
  unfolding get_forward_req get_forwarding_dpop_client do_request session_nonces
  forward r values w = elim (get_forwarding_dpop_client r values) [
    | err e ↦ (none, (values, w))
    | ok (key, opts) ↦ elim (get_forward_req r values) [
      | err e ↦ (none, (values, w))
      | ok req ↦ answered (do_request t session_nonces key opts req values w)
    ]
  ]

  -- The second answer of ServeHTTP, after the refreshed session is saved; it is saved once more where
  -- the PDS has answered.
  abbrev pub pass_on :
      (refreshed : Values) → Option Response × (Values × World) → Answer × (Option Values × World)
  pass_on refreshed (none, (values, w)) = (http_error 500, (some refreshed, w))
  pass_on refreshed (some resp, (values, w)) = (passed_on resp, (some values, w))

  -- The part of ServeHTTP after a 401. `session` is what the store holds.
  abbrev pub retry_with :
      Incoming
      → (session : Option Values) → Result BrokerError (Unit {0}) × (Values × World)
      → Answer × (Option Values × World)
  retry_with r session (err e, (values, w)) = (http_error 401, (session, w))
  retry_with r session (ok _, (values, w)) = pass_on values (forward r values w)

  -- The part of ServeHTTP after the first forwarding.
  abbrev pub after_first :
      Incoming
      → (session : Option Values) → Option Response × (Values × World)
      → Answer × (Option Values × World)
  after_first r session (none, (values, w)) = (http_error 500, (session, w))
  after_first r session (some resp, (values, w)) =
      let again = retry_with r session (refresh_session values w) in
      if resp.status == 401 then again else (passed_on resp, (session, w))

  -- ServeHTTP. The session is the values that the store finds, none where it fails; the one that
  -- comes back is what the store holds afterwards.
  unfoldable pub serve_http :
      Incoming → (session : Option Values) → World → Answer × (Option Values × World)
  unfolding get_cookie_session forward refresh_session
  serve_http r session w = elim (get_cookie_session c session) [
    | err e ↦ (http_error 500, (session, w))
    | ok values ↦ after_first r session (forward r values w)
  ]
