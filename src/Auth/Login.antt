-- ===== src/Auth/Login.antt =====
-- The session that a login leaves: what the broker reads from it.
use habitat_new.Prelude.{
  Str, str, str_eq, str_eq_refl, has_prefix, false, Option, none, some, [], ◌≡◌, refl, ap, ◌∙◌,
  Result, ok, ◌>>=◌, >>=-eq-ok, if◌then◌else◌, arith,
}
use habitat_new.Prelude.Dict.{insert, find-insert}
use habitat_new.Auth.Types.{Identity, TokenResponse}
use habitat_new.Auth.Session.{
  Keys, Value, Values, SessionError, bytes, text, as_text, read_marshalled, read_found, get_value,
  set_bytes, set_dpop_key, get_dpop_key, set_token_info, get_token_info, set_identity, get_identity,
  set_issuer, get_issuer, get_pds_url, set_dpop_nonce, get_dpop_nonce, new_cookie_session,
}
use habitat_new.Auth.Dpop.{Transport}
use habitat_new.Auth.Nonce.{Keeps}
use habitat_new.Auth.Broker.{
  Outside, Incoming, session_nonces, of_session, refresh_inputs, get_forwarding_dpop_client,
}

-- Documented behaviour of x509 and encoding/json: what was marshalled is read back.
pub record KeysLaws (c : Keys) : Type 0 where
  pub parse_marshal_key :
      (key : c.PrivateKey) (b : Str) → c.marshal_key key ≡ some b → c.parse_key b ≡ some key
  pub unmarshal_marshal_token :
      (info : TokenResponse) (b : Str)
      → c.marshal_token info ≡ some b
      → c.unmarshal_token b ≡ some info
  pub unmarshal_marshal_identity :
      (id : Identity) (b : Str) → c.marshal_identity id ≡ some b → c.unmarshal_identity b ≡ some id

pub get_value-insert :
    {A : Type 0} (key : Str) (read : Value → Result SessionError A) (v : Value) (values : Values)
    (a : A)
    → read v ≡ ok a
    → get_value key read (insert key v values) ≡ ok (some a)
unfolding get_value
get_value-insert key read v values a h = rw (find-insert key key v values, str_eq_refl key, h) refl

pub get_value-other :
    {A : Type 0} (key other : Str) (read : Value → Result SessionError A) (v : Value)
    (values : Values)
    → str_eq other key ≡ false
    → get_value key read (insert other v values) ≡ get_value key read values
unfolding get_value
get_value-other key other read v values apart =
    ap (read_found read) (ground (arith, find-insert other key v values, apart))

pub set_bytes-ok :
    (key : Str) (marshalled : Option Str) (values after : Values)
    → set_bytes key marshalled values ≡ ok after
    → (b : Str) × (marshalled ≡ some b) × (after ≡ insert key (bytes b) values)
unfolding set_bytes
set_bytes-ok key none values after h = cc
set_bytes-ok key (some b) values after h = (b, refl, ground (arith, h))

-- The session keeps the nonces that a client sets.
pub session_nonces-Keeps :
    {Key World : Type 0} (t : Transport Key World) (nonce : Str) → Keeps t session_nonces nonce
unfolding session_nonces set_dpop_nonce get_dpop_nonce
session_nonces-Keeps t nonce = record {
  set_get = λ values. (
    set_dpop_nonce nonce values,
    refl,
    ap of_session (get_value-insert (str "nonce") as_text (text nonce) values nonce refl),
  );
}

module _ (c : Keys) (laws : KeysLaws c) where
  read_key :
      (key : c.PrivateKey) (b : Str)
      → c.marshal_key key ≡ some b
      → read_marshalled c.parse_key (bytes b) ≡ ok key
  read_key key b h = rw (laws.parse_marshal_key key b h) refl

  pub read_token :
      (info : TokenResponse) (b : Str)
      → c.marshal_token info ≡ some b
      → read_marshalled c.unmarshal_token (bytes b) ≡ ok info
  read_token info b h = rw (laws.unmarshal_marshal_token info b h) refl

  read_identity :
      (id : Identity) (b : Str)
      → c.marshal_identity id ≡ some b
      → read_marshalled c.unmarshal_identity (bytes b) ≡ ok id
  read_identity id b h = rw (laws.unmarshal_marshal_identity id b h) refl

  -- The values of a session after a login and its callback, in the order they are set.
  abbrev after_login : (key id token : Str) → (pds_url nonce issuer : Str) → Values → Values
  after_login key id token pds_url nonce issuer values = insert (str "issuer") (text issuer) (
      insert (str "token_info") (bytes token) (
        insert (str "nonce") (text nonce) (
          insert (str "pds_url") (text pds_url)
            (insert (str "identity") (bytes id) (insert (str "key") (bytes key) values)))))

  new_cookie_session-values :
      (values after : Values) (key : c.PrivateKey) (id : Identity) (pds_url : Str)
      → new_cookie_session c (some values) (some key) id pds_url ≡ ok after
      → (k : Str) × (i : Str) × (c.marshal_key key ≡ some k)
        × (c.marshal_identity id ≡ some i)
        × (after
            ≡ insert
                (str "pds_url")
                (text pds_url)
                (insert (str "identity") (bytes i) (insert (str "key") (bytes k) values)))
  unfolding new_cookie_session set_dpop_key set_identity
  new_cookie_session-values values after key id pds_url h =
      let (v1, s1, rest) =
        >>=-eq-ok (set_dpop_key c key values)
          (λ w. set_identity c id w >>= (λ u. ok (insert (str "pds_url") (text pds_url) u))) h in
      let (v2, s2, e) =
        >>=-eq-ok (set_identity c id v1) (λ u. ok (insert (str "pds_url") (text pds_url) u)) rest in
      let (k, mk, e1) = set_bytes-ok (str "key") (c.marshal_key key) values v1 s1 in
      let (i, mi, e2) = set_bytes-ok (str "identity") (c.marshal_identity id) v1 v2 s2 in
      (k, i, mk, mi, cc (e, e1, e2))

  -- The getters on that session.
  read_after_login :
      (key : c.PrivateKey) (id : Identity) (info : TokenResponse) (k i b : Str)
      (pds_url nonce issuer : Str) (values : Values)
      → c.marshal_key key ≡ some k
      → c.marshal_identity id ≡ some i
      → c.marshal_token info ≡ some b
      → let s = after_login k i b pds_url nonce issuer values in
        (get_dpop_key c s ≡ ok (some key))
        × (get_identity c s ≡ ok (some id))
        × (get_issuer s ≡ ok (some issuer))
        × (get_token_info c s ≡ ok (some info))
        × (get_pds_url s ≡ ok (some pds_url))
  unfolding get_dpop_key get_identity get_issuer get_token_info get_pds_url str_eq
  read_after_login key id info k i b pds_url nonce issuer values mk mi mb = (
    get_value-other _ _ _ _ _ refl
        ∙ (get_value-other _ _ _ _ _ refl
            ∙ (get_value-other _ _ _ _ _ refl
                ∙ (get_value-other _ _ _ _ _ refl
                    ∙ (get_value-other _ _ _ _ _ refl
                        ∙ get_value-insert _ _ _ _ _ (read_key key k mk))))),
    get_value-other _ _ _ _ _ refl
        ∙ (get_value-other _ _ _ _ _ refl
            ∙ (get_value-other _ _ _ _ _ refl
                ∙ (get_value-other _ _ _ _ _ refl
                    ∙ get_value-insert _ _ _ _ _ (read_identity id i mi)))),
    get_value-insert _ _ _ _ _ refl,
    get_value-other _ _ _ _ _ refl ∙ get_value-insert _ _ _ _ _ (read_token info b mb),
    get_value-other _ _ _ _ _ refl
        ∙ (get_value-other _ _ _ _ _ refl
            ∙ (get_value-other _ _ _ _ _ refl ∙ get_value-insert _ _ _ _ _ refl)),
  )

  session-values :
      (values after last : Values) (key : c.PrivateKey) (id : Identity) (info : TokenResponse)
      (pds_url nonce issuer : Str)
      → new_cookie_session c (some values) (some key) id pds_url ≡ ok after
      → set_token_info c info (set_dpop_nonce nonce after) ≡ ok last
      → (k : Str) × (i : Str) × (b : Str) × (c.marshal_key key ≡ some k)
        × (c.marshal_identity id ≡ some i)
        × (c.marshal_token info ≡ some b)
        × (set_issuer issuer last ≡ after_login k i b pds_url nonce issuer values)
  unfolding set_token_info set_dpop_nonce set_issuer
  session-values values after last key id info pds_url nonce issuer made given =
      let (k, i, mk, mi, e) = new_cookie_session-values values after key id pds_url made in
      let (b, mb, e') =
        set_bytes-ok (str "token_info") (c.marshal_token info)
          (insert (str "nonce") (text nonce) after) last given in
      (
        k,
        i,
        b,
        mk,
        mi,
        mb,
        ap (λ v. insert (str "issuer") (text issuer) v)
            (e'
              ∙ ap (λ v. insert (str "token_info") (bytes b) (insert (str "nonce") (text nonce) v))
                  e),
      )

  module _ {World : Type 0} (o : Outside c World) (t : Transport c.PrivateKey World)
      (htu_url : Str) where
    -- What refreshSession and getForwardingDpopClient read from a session that has the values.
    inputs :
        (s : Values) (key : c.PrivateKey) (id : Identity) (info : TokenResponse)
        (pds_url issuer scheme host : Str) (r : Incoming)
        → get_dpop_key c s ≡ ok (some key)
        → get_identity c s ≡ ok (some id)
        → get_issuer s ≡ ok (some issuer)
        → get_token_info c s ≡ ok (some info)
        → get_pds_url s ≡ ok (some pds_url)
        → o.parse_url pds_url ≡ some (scheme, host)
        → (refresh_inputs c o t htu_url s ≡ ok (key, (id, (issuer, info))))
          × (get_forwarding_dpop_client c o t htu_url r s
              ≡ ok (
                key,
                record {
                  htu =
                      if has_prefix host (str "host.docker.internal")
                      then o.join htu_url r.path
                      else [];
                  access_token = info.access_token;
                },
              ))
    unfolding refresh_inputs get_forwarding_dpop_client
    inputs s key id info pds_url issuer scheme host r k i u b p parsed =
        (rw (k, i, u, b) refl, rw (k, b, p, parsed) refl)

    -- After a login (newCookieSession), a new nonce and the callback (SetTokenInfo, SetIssuer), the
    -- broker reads from the session the key, the identity, the issuer and the tokens that were set:
    -- refreshSession has its inputs, and the forwarding client the access token, with its own HTU
    -- only for a PDS on the Docker host.
    pub login-broker :
        (values after last : Values) (key : c.PrivateKey) (id : Identity) (info : TokenResponse)
        (pds_url nonce issuer scheme host : Str) (r : Incoming)
        → new_cookie_session c (some values) (some key) id pds_url ≡ ok after
        → set_token_info c info (set_dpop_nonce nonce after) ≡ ok last
        → o.parse_url pds_url ≡ some (scheme, host)
        → (refresh_inputs c o t htu_url (set_issuer issuer last) ≡ ok (key, (id, (issuer, info))))
          × (get_forwarding_dpop_client c o t htu_url r (set_issuer issuer last)
              ≡ ok (
                key,
                record {
                  htu =
                      if has_prefix host (str "host.docker.internal")
                      then o.join htu_url r.path
                      else [];
                  access_token = info.access_token;
                },
              ))
    login-broker values after last key id info pds_url nonce issuer scheme host r made given
          parsed =
        let (k, i, b, mk, mi, mb, e) =
          session-values values after last key id info pds_url nonce issuer made given in
        let (gk, gi, gu, gb, gp) =
          read_after_login key id info k i b pds_url nonce issuer values mk mi mb in
        rw e (inputs _ key id info pds_url issuer scheme host r gk gi gu gb gp parsed)
