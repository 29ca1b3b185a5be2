-- ===== src/Auth/Refreshing.antt =====
-- What a refresh of the session changes: the broker with the OAuth client.
use habitat_new.Prelude.{
  ℕ, Str, str, str_eq, false, Option, none, some, ◌≡◌, inl, inr, refl, ◌∙◌, Result, Result-cases,
  ok, err,
}
use habitat_new.Auth.Types.{Identity, TokenResponse, OauthClient}
use habitat_new.Auth.Session.{
  Keys, Value, Values, bytes, text, SessionError, get_value, get_dpop_key, get_identity, get_issuer,
  get_pds_url, set_token_info, set_dpop_nonce,
}
use habitat_new.Auth.Dpop.{Transport}
use habitat_new.Auth.Broker.{Outside, session_nonces, refresh_inputs, refresh_session}
use habitat_new.Auth.Client.{
  Remote, ClientError, AuthorizationServer, refresh_at, server_of, client_assertion, refresh_token,
}
use habitat_new.Auth.Login.{get_value-other, set_bytes-ok}
use habitat_new.Auth.Callback.{SetsNonce, post_form-SetsNonce}

-- A value without its error.
abbrev pub answer_of : {A : Type 0} → Result ClientError A → Option A
answer_of (ok a) = some a
answer_of (err _) = none

-- What the broker takes from others, with RefreshToken of the OAuth client.
abbrev pub wired :
    (c : Keys)
    → {World : Type 0} → Remote World
    → Transport c.PrivateKey World
    → OauthClient
    → (now : ℕ) → Outside c World
    → Outside c World
wired c o t client now outside = record {
  parse_url = outside.parse_url;
  url_string = outside.url_string;
  join = outside.join;
  refresh_token = λ key id issuer token values w.
      let (r, rest) = refresh_token o t session_nonces client now key id issuer token values w in
      (answer_of r, rest);
}

-- A value that is not the nonce stays.
get_value-SetsNonce :
    {A : Type 0} (key : Str) (read : Value → Result SessionError A) (n n' : Values)
    → str_eq (str "nonce") key ≡ false
    → SetsNonce n n'
    → get_value key read n' ≡ get_value key read n
unfolding set_dpop_nonce
get_value-SetsNonce key read n n' apart (inl e) = rw e refl
get_value-SetsNonce key read n n' apart (inr (nonce, e)) =
    rw e (get_value-other key (str "nonce") read (text nonce) n apart)

set_token_info-get_value :
    (c : Keys) {A : Type 0} (key : Str) (read : Value → Result SessionError A)
    (info : TokenResponse) (values last : Values)
    → str_eq (str "token_info") key ≡ false
    → set_token_info c info values ≡ ok last
    → get_value key read last ≡ get_value key read values
unfolding set_token_info
set_token_info-get_value c key read info values last apart h =
    let (b, marshalled, e) = set_bytes-ok (str "token_info") (c.marshal_token info) values last h in
    rw e (get_value-other key (str "token_info") read (bytes b) values apart)

module _ (c : Keys) {World : Type 0} (o : Remote World) (t : Transport c.PrivateKey World)
    (client : OauthClient) (now : ℕ) (outside : Outside c World) (htu_url : Str) where
  refresh_at-SetsNonce :
      (key : c.PrivateKey) (issuer token : Str) (n : Values)
      (found : Result ClientError AuthorizationServer × World)
      → SetsNonce n (refresh_at o t session_nonces client now key issuer token n found).1.0
  refresh_at-SetsNonce key issuer token n (err e, w) = inl refl
  refresh_at-SetsNonce key issuer token n (ok server, w) =
      elim (Result-cases (client_assertion o client now issuer)) [
        | inr (e, failed) ↦ rw (failed, refresh_at) (inl refl)
        | inl (assertion, signed) ↦
            rw (signed, refresh_at) (post_form-SetsNonce t o key _ _ _ _ _ n w)
      ]

  refresh_token-SetsNonce :
      (key : c.PrivateKey) (id : Identity) (issuer token : Str) (n : Values) (w : World)
      → SetsNonce n (refresh_token o t session_nonces client now key id issuer token n w).1.0
  unfolding refresh_token
  refresh_token-SetsNonce key id issuer token n w =
      refresh_at-SetsNonce key issuer token n (server_of o id w)

  -- A value that is neither the nonce nor the tokens stays in a refresh.
  refresh_session-get_value :
      {A : Type 0} (key : Str) (read : Value → Result SessionError A) (values : Values) (w : World)
      → str_eq (str "nonce") key ≡ false
      → str_eq (str "token_info") key ≡ false
      → get_value key read
          (refresh_session c (wired c o t client now outside) t htu_url values w).1.0
        ≡ get_value key read values
  unfolding refresh_session
  refresh_session-get_value key read values w apart apart' =
      let b = wired c o t client now outside in
      elim (Result-cases (refresh_inputs c b t htu_url values)) [
        | inr (e, failed) ↦ rw (failed, refresh_session) refl
        | inl ((k, (id, (issuer, info))), read_in) ↦
            let r =
              refresh_token o t session_nonces client now k id issuer info.refresh_token values w in
            let kept =
              get_value-SetsNonce key read values r.1.0 apart
                (refresh_token-SetsNonce k id issuer info.refresh_token values w) in
            elim (Result-cases r.0) [
              | inr (e, failed) ↦ rw (read_in, refresh_session, failed) kept
              | inl (info', given) ↦ elim (Result-cases (set_token_info c info' r.1.0)) [
                | inr (e, failed) ↦ rw (read_in, refresh_session, given, failed) kept
                | inl (last, made) ↦
                    rw (read_in, refresh_session, given, made)
                      (set_token_info-get_value c key read info' r.1.0 last apart' made ∙ kept)
              ]
            ]
      ]

  -- A refresh of the session with the OAuth client, whatever the servers answer and whether it
  -- succeeds or not, leaves the key, the identity, the issuer and the URL of the PDS as they are.
  pub refresh_session-keeps :
      (values : Values) (w : World)
      → let last = (refresh_session c (wired c o t client now outside) t htu_url values w).1.0 in
        (get_dpop_key c last ≡ get_dpop_key c values)
        × (get_identity c last ≡ get_identity c values)
        × (get_issuer last ≡ get_issuer values)
        × (get_pds_url last ≡ get_pds_url values)
  unfolding get_dpop_key get_identity get_issuer get_pds_url str_eq
  refresh_session-keeps values w = (
    refresh_session-get_value (str "key") _ values w refl refl,
    refresh_session-get_value (str "identity") _ values w refl refl,
    refresh_session-get_value (str "issuer") _ values w refl refl,
    refresh_session-get_value (str "pds_url") _ values w refl refl,
  )
