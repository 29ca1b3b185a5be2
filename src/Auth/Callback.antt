-- ===== src/Auth/Callback.antt =====
-- The session that a callback saves: what a refresh needs of it.
use habitat_new.Prelude.{
  ℕ, or_err, Str, str, str_eq, Bool-cases, Option, Option-cases, none, some, List, [], ◌∷◌, ◌++◌,
  ◌≡◌, ◌⊎◌, inl, inr, refl, sym, ap, ◌∙◌, Result, Result-cases, ok, err, >>=-eq-ok, arith,
}
use habitat_new.Prelude.Dict.{find, insert}
use habitat_new.Auth.Types.{Identity, TokenResponse, AuthorizeState, OauthClient}
use habitat_new.Auth.Session.{
  Keys, Value, Values, bytes, text, SessionError, as_bytes, read_marshalled, get_dpop_key,
  get_token_info, get_identity, get_issuer, set_token_info, set_issuer, set_dpop_nonce,
  get_cookie_session,
}
use habitat_new.Auth.Dpop.{
  DpopOptions, Request, Response, Transport, do_request, retry, take_nonce, sign,
  is_use_dpop_nonce_error,
}
use habitat_new.Auth.Broker.{Outside, session_nonces, refresh_inputs}
use habitat_new.Auth.Client.{
  Remote, ClientError, exchange_code, post_form, client_assertion, no_options, form_request,
}
use habitat_new.Auth.Login.{KeysLaws, get_value-insert, get_value-other, set_bytes-ok, read_token}
use habitat_new.Auth.Signin.{
  Directory, Stored, Answer, callback_handler, callback_session, finish_callback, finish,
  with_tokens, present, or_status,
}

-- A session with the nonce that it had, or with another one.
abbrev pub SetsNonce : Values → Values → Type 0
SetsNonce n n' = (n' ≡ n) ⊎ ((nonce : Str) × (n' ≡ set_dpop_nonce nonce n))

module _ {Key World : Type 0} (t : Transport Key World) where
  take_nonce-SetsNonce :
      (resp : Response) (n n' : Values)
      → take_nonce t session_nonces resp n ≡ ok n'
      → SetsNonce n n'
  unfolding take_nonce session_nonces
  take_nonce-SetsNonce resp n n' h = elim (Bool-cases (str_eq resp.dpop_nonce [])) [
    | inl e ↦ inl (ground (arith, h, e))
    | inr e ↦ inr (resp.dpop_nonce, ground (arith, h, e))
  ]

  retry-SetsNonce :
      (key : Key) (opts : DpopOptions) (req : Request) (resp : Response) (n : Values) (w : World)
      → SetsNonce n (retry t session_nonces key opts req resp n w).1.0
  unfolding retry
  retry-SetsNonce key opts req resp n w = elim (Result-cases (take_nonce t session_nonces resp n)) [
    | inr (e, failed) ↦ rw (failed, retry) (inl refl)
    | inl (n', taken) ↦ elim (Result-cases (sign t session_nonces key opts req n')) [
      | inr (e, failed) ↦ rw (taken, retry, failed) (take_nonce-SetsNonce resp n n' taken)
      | inl (req2, signed) ↦ rw (taken, retry, signed) (take_nonce-SetsNonce resp n n' taken)
    ]
  ]

  do_request-SetsNonce :
      (key : Key) (opts : DpopOptions) (req : Request) (n : Values) (w : World)
      → SetsNonce n (do_request t session_nonces key opts req n w).1.0
  unfolding do_request
  do_request-SetsNonce key opts req n w =
      elim (Result-cases (sign t session_nonces key opts req n)) [
        | inr (e, failed) ↦ rw (failed, do_request) (inl refl)
        | inl (signed, made) ↦
            let ready : Request = record signed {
              authorization = str "DPoP " ++ opts.access_token;
            } in
            elim (Result-cases (t.send ready w).0) [
              | inr (e, failed) ↦ rw (made, do_request, failed) (inl refl)
              | inl (resp, answered) ↦ elim (Bool-cases (is_use_dpop_nonce_error resp)) [
                | inl asks ↦
                    rw (made, do_request, answered, asks)
                      (retry-SetsNonce key opts ready resp n (t.send ready w).1)
                | inr done ↦ rw (made, do_request, answered, done) (inl refl)
              ]
            ]
      ]

  module _ (o : Remote World) where
    pub post_form-SetsNonce :
        {A : Type 0} (key : Key) (refused : ClientError) (url : Str) (params : List (Str × Str))
        (expected : ℕ) (decode : Str → Option A) (n : Values) (w : World)
        → SetsNonce n (post_form o t session_nonces key refused url params expected decode n w).1.0
    unfolding post_form
    post_form-SetsNonce key refused url params expected decode n w =
        elim (Option-cases (o.request_url url)) [
          | inl e ↦ rw (e, post_form) (inl refl)
          | inr (target, e) ↦
              rw (e, post_form)
                (do_request-SetsNonce key (no_options o) (form_request o target params) n w)
        ]

    exchange_code-SetsNonce :
        (client : OauthClient) (now : ℕ) (key : Key) (code issuer : Str) (state : AuthorizeState)
        (n : Values) (w : World)
        → SetsNonce n (exchange_code o t session_nonces client now key code issuer state n w).1.0
    unfolding exchange_code
    exchange_code-SetsNonce client now key code issuer state n w =
        elim (Result-cases (client_assertion o client now issuer)) [
          | inr (e, failed) ↦ rw (failed, exchange_code) (inl refl)
          | inl (assertion, signed) ↦
              rw (signed, exchange_code) (post_form-SetsNonce key _ _ _ _ _ n w)
        ]

module _ (c : Keys) (laws : KeysLaws c) where
  get_dpop_key-SetsNonce : (n n' : Values) → SetsNonce n n' → get_dpop_key c n' ≡ get_dpop_key c n
  unfolding get_dpop_key set_dpop_nonce str_eq
  get_dpop_key-SetsNonce n n' (inl e) = rw e refl
  get_dpop_key-SetsNonce n n' (inr (nonce, e)) =
      rw e (
        get_value-other (str "key") (str "nonce") (read_marshalled c.parse_key) (text nonce) n refl)

  not_home : [] ≡ str "/" → ⊥
  not_home h = cc

  present-ok :
      {A : Type 0} (r : Result SessionError (Option A)) (a : A) → present r ≡ ok a → r ≡ ok (some a)
  present-ok (ok (some x)) a h = ground (arith, h)
  present-ok (ok none) a h = cc
  present-ok (err e) a h = cc

  or_status-ok :
      {E A : Type 0} (r : Result E A) (status : ℕ) (a : A) → or_status r status ≡ ok a → r ≡ ok a
  or_status-ok (ok x) status a h = ground (arith, h)
  or_status-ok (err e) status a h = cc

  module _ {World : Type 0} (dir : Directory) (o : Remote World) (t : Transport c.PrivateKey World)
      (client : OauthClient) (now : ℕ) where
    finish-identity :
        (last : Values) (cookies : List (Str × Str))
        → finish c dir o t client now last ≡ ok cookies
        → (id : Identity) × (get_identity c last ≡ ok (some id))
    unfolding finish
    finish-identity last cookies h = elim (Result-cases (present (get_identity c last))) [
      | inr (e, failed) ↦ ground (arith, h, failed)
      | inl (id, found) ↦ (id, present-ok (get_identity c last) id found)
    ]

    finish_callback-saved :
        (issuer : Str) (session : Option Values) (r : Result ClientError TokenResponse)
        (values : Values) (w : World)
        → (finish_callback c dir o t client now issuer session (r, (values, w))).0.location
          ≡ str "/"
        → (info : TokenResponse) × (last : Values) × (id : Identity) × ((finish_callback c dir o t
              client now issuer session
              (r, (values, w))).1.0
            ≡ some last)
          × (with_tokens c dir o t client now info issuer values ≡ ok last)
          × (get_identity c last ≡ ok (some id))
    unfolding finish_callback
    finish_callback-saved issuer session (err e) values w h = cc
    finish_callback-saved issuer session (ok info) values w h =
        elim (Result-cases (with_tokens c dir o t client now info issuer values)) [
          | inr (e, failed) ↦
              let nowhere : (finish_callback c dir o t client now issuer session
                    (ok info, (values, w))).0.location
                  ≡ [] =
                rw (failed, finish_callback) refl in
              absurd (not_home (sym nowhere ∙ h))
          | inl (last, made) ↦ elim (Result-cases (finish c dir o t client now last)) [
            | inr (e, failed) ↦
                let nowhere : (finish_callback c dir o t client now issuer session
                      (ok info, (values, w))).0.location
                    ≡ [] =
                  rw (made, finish_callback, failed) refl in
                absurd (not_home (sym nowhere ∙ h))
            | inl (cookies, finished) ↦
                let (id, found) = finish-identity last cookies finished in
                (info, last, id, rw (made, finish_callback, finished) refl, made, found)
          ]
        ]

    with_tokens-values :
        (info : TokenResponse) (issuer : Str) (values last : Values)
        → with_tokens c dir o t client now info issuer values ≡ ok last
        → (b : Str) × (c.marshal_token info ≡ some b)
          × (last
              ≡ insert (str "issuer") (text issuer) (insert (str "token_info") (bytes b) values))
    unfolding with_tokens set_token_info set_issuer
    with_tokens-values info issuer values last h =
        let (values', given, e) =
          >>=-eq-ok (or_status (set_token_info c info values) 500)
            (λ v. ok (insert (str "issuer") (text issuer) v)) h in
        let (b, marshalled, e') =
          set_bytes-ok (str "token_info") (c.marshal_token info) values values'
            (or_status-ok (set_token_info c info values) 500 values' given) in
        (b, marshalled, cc (e, e'))

    -- What the getters read from a session after the tokens and the issuer are set.
    read_with_tokens :
        (info : TokenResponse) (issuer : Str) (values last : Values)
        → with_tokens c dir o t client now info issuer values ≡ ok last
        → (get_dpop_key c last ≡ get_dpop_key c values)
          × (get_issuer last ≡ ok (some issuer))
          × (get_token_info c last ≡ ok (some info))
    unfolding get_dpop_key get_issuer get_token_info str_eq
    read_with_tokens info issuer values last h =
        let (b, marshalled, e) = with_tokens-values info issuer values last h in
        rw e (
          get_value-other _ _ _ _ _ refl ∙ get_value-other _ _ _ _ _ refl,
          get_value-insert _ _ _ _ _ refl,
          get_value-other _ _ _ _ _ refl
              ∙ get_value-insert _ _ _ _ _ (read_token c laws info b marshalled),
        )

    get_cookie_session-ok :
        (session : Option Values) (values : Values)
        → get_cookie_session c session ≡ ok values
        → session ≡ some values
    unfolding get_cookie_session
    get_cookie_session-ok none values h = cc
    get_cookie_session-ok (some v) values h = elim (Option-cases (find (str "key") v)) [
      | inl e ↦ ground (arith, h, e)
      | inr (k, e) ↦ ground (arith, h, e)
    ]

    callback_session-ok :
        (flashes : List Value) (session : Option Values) (state : AuthorizeState) (values : Values)
        (key : c.PrivateKey)
        → callback_session c dir o t client now flashes session ≡ ok (state, (values, key))
        → (session ≡ some values) × (get_dpop_key c values ≡ ok (some key))
    unfolding callback_session
    callback_session-ok [] session state values key h = cc
    callback_session-ok (flash ∷ _) session state values key h =
        let (b, read, h1) = >>=-eq-ok (or_status (as_bytes flash) 400) _ h in
        let (state', decoded, h2) = >>=-eq-ok (or_err (dir.unmarshal_state b) 500) _ h1 in
        let (values', opened, h3) = >>=-eq-ok (or_status (get_cookie_session c session) 500) _ h2 in
        let (key', keyed, h4) = >>=-eq-ok (present (get_dpop_key c values')) _ h3 in
        let same : values' ≡ values = ground (arith, h4) in
        let same_key : key' ≡ key = ground (arith, h4) in
        (
          get_cookie_session-ok session values'
                (or_status-ok (get_cookie_session c session) 500 values' opened)
              ∙ ap some same,
          cc (same, same_key, present-ok (get_dpop_key c values') key' keyed),
        )

    -- The parts of a callback whose session and code are read.
    callback_handler-finish :
        (code issuer : Str) (stored : Stored) (flashes : List Value) (state : AuthorizeState)
        (values : Values) (key : c.PrivateKey) (w : World)
        → stored.flashes ≡ some flashes
        → callback_session c dir o t client now flashes stored.dpop ≡ ok (state, (values, key))
        → let r = callback_handler c dir o t client now code issuer stored w in
          let f =
            finish_callback c dir o t client now issuer stored.dpop
              (exchange_code o t session_nonces client now key code issuer state values w) in
          (r.0 ≡ f.0) × (r.1.0.dpop ≡ f.1.0)
    unfolding callback_handler
    callback_handler-finish code issuer stored flashes state values key w there read =
        (rw (there, callback_handler, read) refl, rw (there, callback_handler, read) refl)

    module _ (broker : Outside c World) (htu_url : Str) where
      refresh_inputs-ok :
          (s : Values) (key : c.PrivateKey) (id : Identity) (issuer : Str) (info : TokenResponse)
          → get_dpop_key c s ≡ ok (some key)
          → get_identity c s ≡ ok (some id)
          → get_issuer s ≡ ok (some issuer)
          → get_token_info c s ≡ ok (some info)
          → refresh_inputs c broker t htu_url s ≡ ok (key, (id, (issuer, info)))
      unfolding refresh_inputs
      refresh_inputs-ok s key id issuer info k i u b = rw (k, i, u, b) refl

      -- A callback that sends the user on to the front page has saved a session with which the
      -- broker can refresh the tokens: refreshSession reads from it the key of the session before,
      -- an identity, the issuer that the callback was given and tokens.
      pub callback_handler-refresh :
          (code issuer : Str) (stored : Stored) (w : World)
          → (callback_handler c dir o t client now code issuer stored w).0.location ≡ str "/"
          → (before : Values) × (last : Values) × (key : c.PrivateKey) × (id : Identity)
            × (info : TokenResponse) × (stored.dpop ≡ some before)
            × (get_dpop_key c before ≡ ok (some key))
            × ((callback_handler c dir o t client now code issuer stored w).1.0.dpop ≡ some last)
            × (refresh_inputs c broker t htu_url last ≡ ok (key, (id, (issuer, info))))
      unfolding callback_handler
      callback_handler-refresh code issuer stored w h =
          let r = callback_handler c dir o t client now code issuer stored w in
          elim (Option-cases stored.flashes) [
            | inl e ↦
                let nowhere : r.0.location ≡ [] = rw (e, callback_handler) refl in
                absurd (not_home (sym nowhere ∙ h))
            | inr (flashes, there) ↦
                elim (Result-cases (callback_session c dir o t client now flashes stored.dpop)) [
                  | inr (e, failed) ↦
                      let nowhere : r.0.location ≡ [] = rw (there, callback_handler, failed) refl in
                      absurd (not_home (sym nowhere ∙ h))
                  | inl ((state, (values, key)), read) ↦
                      let (before, keyed) =
                        callback_session-ok flashes stored.dpop state values key read in
                      let (answer, kept) =
                        callback_handler-finish code issuer stored flashes state values key w there
                          read in
                      let ex =
                        exchange_code o t session_nonces client now key code issuer state values
                          w in
                      let (info, last, id, saved, made, found) =
                        finish_callback-saved issuer stored.dpop ex.0 ex.1.0 ex.1.1
                          (sym (ap (λ (a : Answer). a.location) answer) ∙ h) in
                      let (k, u, b) = read_with_tokens info issuer ex.1.0 last made in
                      let same =
                        get_dpop_key-SetsNonce values ex.1.0
                          (exchange_code-SetsNonce t o client now key code issuer state values w) in
                      (
                        values,
                        last,
                        key,
                        id,
                        info,
                        before,
                        keyed,
                        kept ∙ saved,
                        refresh_inputs-ok last key id issuer info (k ∙ (same ∙ keyed)) found u b,
                      )
                ]
          ]
