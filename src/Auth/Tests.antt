-- ===== src/Auth/Tests.antt =====
-- Runs of the DPoP client and of the session with plain keys.
use habitat_new.Prelude.{
  Str, str, ◌++◌, str_eq, str_eq_apart, has_prefix, none, some, [], ◌∷◌, ◌≡◌, ◌≢◌, refl, ok,
  if◌then◌else◌,
}
use habitat_new.Prelude.Dict.{find, insert}
use habitat_new.Auth.Session.{
  Values, text, bytes, get_dpop_nonce, get_dpop_key, get_identity, get_issuer, get_pds_url,
  new_cookie_session, set_token_info, set_dpop_nonce, set_issuer,
}
use habitat_new.Auth.Dpop.{DpopOptions, Request, do_request}
use habitat_new.Auth.Nonce.{IsAnswered, do_request-IsAnswered}
use habitat_new.Auth.Broker.{
  Incoming, session_nonces, refresh_inputs, refresh_session, get_forwarding_dpop_client,
}
use habitat_new.Auth.Types.{Identity, TokenResponse, OauthClient}
use habitat_new.Auth.Signin.{Stored, callback_handler}
use habitat_new.Auth.Client.{refresh_token}
use habitat_new.Auth.Refreshing.{wired, refresh_session-keeps}
use habitat_new.Auth.Callback.{callback_handler-refresh}
use habitat_new.Auth.Login.{session_nonces-Keeps, login-broker}
use habitat_new.Auth.Sample.{
  sample, sample_laws, directory, remote, token, identity, marshal_token, marshal_identity,
  transport, transport-Demands, outside, fine,
}

abbrev request : Request
request = record {
  method = str "GET";
  url = str "/x";
  header = [];
  authorization = [];
  dpop = [];
  body = [];
}

abbrev options : DpopOptions
options = record { htu = []; access_token = str "t" }

-- A session with an old nonce: the second request is answered.
retried :
    (do_request
      (transport (str "n"))
      session_nonces
      (str "k")
      options
      request
      ((str "nonce", text (str "m")) ∷ [])
      0).1
    ≡ ((str "nonce", text (str "n")) ∷ [], 2)
unfolding do_request session_nonces get_dpop_nonce find insert str_eq
retried = refl

some_nonce : str "n" ≢ []
unfolding str_eq
some_nonce = str_eq_apart (str "n") [] refl

no_nonce : session_nonces.get_dpop_nonce [] ≡ ok none
unfolding session_nonces get_dpop_nonce find
no_nonce = refl

do_request-IsAnswered_example :
    IsAnswered
      (transport (str "n"))
      session_nonces
      (str "k")
      (str "n")
      fine
      (transport-Demands (str "k") (str "n") some_nonce)
      (session_nonces-Keeps (transport (str "n")) (str "n"))
      options
      request
      (do_request (transport (str "n")) session_nonces (str "k") options request [] 0)
do_request-IsAnswered_example =
    do_request-IsAnswered (transport (str "n")) session_nonces (str "k") (str "n") fine
      (transport-Demands (str "k") (str "n") some_nonce)
      (session_nonces-Keeps (transport (str "n")) (str "n")) options request [] 0 none no_nonce

abbrev incoming : Incoming
incoming = record {
  method = str "POST";
  path = str "/xrpc/a";
  raw_query = [];
  header = (str "Accept", str "x") ∷ (str "Authorization", str "y") ∷ [];
  body = [];
}

abbrev made : Values
made =
    (str "key", bytes (str "k"))
    ∷ (str "identity", bytes (str "d"))
    ∷ (str "pds_url", text (str "host"))
    ∷ []

new_session :
    new_cookie_session sample (some []) (some (str "k")) (identity (str "d")) (str "host") ≡ ok made
unfolding new_cookie_session marshal_identity insert str_eq
new_session = refl

abbrev given : Values
given =
    (str "key", bytes (str "k"))
    ∷ (str "identity", bytes (str "d"))
    ∷ (str "pds_url", text (str "host"))
    ∷ (str "nonce", text (str "n"))
    ∷ (str "token_info", bytes (str "t"))
    ∷ []

new_tokens : set_token_info sample (token (str "t")) (set_dpop_nonce (str "n") made) ≡ ok given
unfolding set_token_info set_dpop_nonce marshal_token insert str_eq
new_tokens = refl

login-broker_example :
    (refresh_inputs sample outside (transport (str "n")) [] (set_issuer (str "i") given)
      ≡ ok (str "k", (identity (str "d"), (str "i", token (str "t")))))
    × (get_forwarding_dpop_client sample outside
          (transport (str "n"))
          []
          incoming
          (set_issuer (str "i") given)
        ≡ ok (
          str "k",
          record {
            htu =
                if has_prefix (str "host") (str "host.docker.internal") then str "/xrpc/a" else [];
            access_token = str "t";
          },
        ))
login-broker_example =
    login-broker sample sample_laws outside (transport (str "n")) [] [] made given (str "k")
      (identity (str "d")) (token (str "t")) (str "host") (str "n") (str "i") (str "https")
      (str "host") incoming new_session new_tokens refl

abbrev node : OauthClient
node = record {
  client_id = str "c";
  client_uri = str "u";
  redirect_uri = str "r";
  public_jwks = [];
}

-- A login has left a session and the state of its authorization.
abbrev signed_in : Stored
signed_in = record { dpop = some made; flashes = some (bytes (str "te") ∷ []) }

home :
    (callback_handler sample directory remote
      (transport (str "n"))
      node
      0
      (str "code")
      (str "i")
      signed_in
      0).0.location
    ≡ str "/"
unfolding callback_handler set_token_info get_identity get_pds_url get_dpop_key get_dpop_nonce
    set_dpop_nonce marshal_token session_nonces find insert str_eq
home = refl

-- The stored session, after two requests.
renewed :
    (callback_handler sample directory remote
      (transport (str "n"))
      node
      0
      (str "code")
      (str "i")
      signed_in
      0).1
    ≡ (
      record {
        dpop = some (
            made
            ++ (str "nonce", text (str "n"))
              ∷ (str "token_info", bytes (str "te"))
              ∷ (str "issuer", text (str "i"))
              ∷ []);
        flashes = some [];
      },
      2,
    )
unfolding callback_handler marshal_token
renewed = refl

callback_handler-refresh_example :
    (before : Values) × (last : Values) × (key : Str) × (id : Identity) × (info : TokenResponse)
    × (some made ≡ some before)
    × (get_dpop_key sample before ≡ ok (some key))
    × ((callback_handler sample directory remote
          (transport (str "n"))
          node
          0
          (str "code")
          (str "i")
          signed_in
          0).1.0.dpop
        ≡ some last)
    × (refresh_inputs sample outside (transport (str "n")) [] last
        ≡ ok (key, (id, (str "i", info))))
callback_handler-refresh_example =
    callback_handler-refresh sample sample_laws directory remote (transport (str "n")) node 0
      outside [] (str "code") (str "i") signed_in 0 home

refresh_session-keeps_example :
    let last =
      (refresh_session sample
        (wired sample remote (transport (str "n")) node 0 outside)
        (transport (str "n"))
        []
        (set_issuer (str "i") given)
        0).1.0 in
    (get_dpop_key sample last ≡ get_dpop_key sample (set_issuer (str "i") given))
    × (get_identity sample last ≡ get_identity sample (set_issuer (str "i") given))
    × (get_issuer last ≡ get_issuer (set_issuer (str "i") given))
    × (get_pds_url last ≡ get_pds_url (set_issuer (str "i") given))
refresh_session-keeps_example =
    refresh_session-keeps sample remote (transport (str "n")) node 0 outside []
      (set_issuer (str "i") given) 0

-- The refresh of that session succeeds.
refreshed :
    (refresh_session sample
      (wired sample remote (transport (str "n")) node 0 outside)
      (transport (str "n"))
      []
      (set_issuer (str "i") given)
      0).0
    ≡ ok tt
unfolding refresh_session marshal_token set_issuer str_eq refresh_token session_nonces
refreshed = refl
