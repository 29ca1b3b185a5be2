-- ===== src/Auth/Signin.antt =====
-- The handlers of a sign-in (login_handler.go): the login and the callback. The store's two cookies
-- are the session with the tokens and the flashes.
use habitat_new.Prelude.{
  ℕ, Str, str, str_eq, Option, none, some, List, [], ◌∷◌, ◌++◌, Result, ok, err, or_err, ◌>>=◌,
  if◌then◌else◌,
}
use habitat_new.Auth.Types.{Identity, TokenResponse, AuthorizeState, OauthClient}
use habitat_new.Auth.Session.{
  Keys, Value, Values, bytes, SessionError, as_bytes, new_cookie_session, get_cookie_session,
  get_dpop_key, get_identity, get_pds_url, set_token_info, set_issuer,
}
use habitat_new.Auth.Dpop.{Transport}
use habitat_new.Auth.Broker.{session_nonces}
use habitat_new.Auth.Client.{Remote, ClientError, authorize, exchange_code}

-- What the handlers take from the identity directory and encoding/json.
pub record Directory : Type 0 where
  pub parse_at_identifier : Str → Option Str
  pub lookup : Str → Option Identity
  pub marshal_state : AuthorizeState → Option Str
  pub unmarshal_state : Str → Option AuthorizeState

-- An answer: its status, where it redirects to, and the cookies that it sets for the frontend.
pub record Answer : Type 0 where
  pub status : ℕ
  pub location : Str
  pub cookies : List (Str × Str)

-- What the store holds for a client: none where the session cannot be read.
pub record Stored : Type 0 where
  pub dpop : Option Values
  pub flashes : Option (List Value)

-- http.Error, after the cookies that are already set.
abbrev pub failed : ℕ → List (Str × Str) → Answer
failed status cookies = record { status = status; location = []; cookies = cookies }

-- http.Redirect with StatusSeeOther
abbrev pub see_other : Str → List (Str × Str) → Answer
see_other location cookies = record { status = 303; location = location; cookies = cookies }

-- The values of a getter, where `ok` is asked before the error: both are answered alike.
abbrev pub present : {A : Type 0} → Result SessionError (Option A) → Result ℕ A
present (ok (some a)) = ok a
present (ok none) = err 500
present (err e) = err 500

abbrev pub or_status : {E A : Type 0} → Result E A → ℕ → Result ℕ A
or_status (ok a) status = ok a
or_status (err e) status = err status

-- The cookies for the frontend, without the URL of the PDS where it is empty.
unfoldable pub frontend_cookies : Identity → (pds_url : Str) → List (Str × Str)
unfolding str_eq
frontend_cookies id pds_url =
    (str "handle", id.handle)
    ∷ (str "did", id.did)
    ∷ (if str_eq pds_url [] then [] else ((str "pds_url", pds_url) ∷ []))

module _ (c : Keys) {World : Type 0} (dir : Directory) (o : Remote World)
    (t : Transport c.PrivateKey World) (client : OauthClient) (now : ℕ) where
  -- The part of a login before the user's PDS is asked: the identity, the session and its key.
  unfoldable pub login_inputs :
      (handle : Str)
      → (key : Option c.PrivateKey) → (session : Option Values)
      → Result ℕ (Identity × (Values × c.PrivateKey))
  unfolding new_cookie_session get_dpop_key
  login_inputs handle key session = do
    at ← or_err (dir.parse_at_identifier handle) 400
    id ← or_err (dir.lookup at) 500
    pds_url ← or_err id.pds 500
    values ← or_status (new_cookie_session c session key id pds_url) 500
    k ← present (get_dpop_key c values)
    ok (id, (values, k))

  -- The flashes of a new session, which are none where the stored one cannot be read.
  abbrev pub or_none : Option (List Value) → List Value
  or_none none = []
  or_none (some flashes) = flashes

  -- The part of a login after it: the state becomes a flash, and the session is saved.
  abbrev pub keep_state :
      Stored
      → Result ClientError (Str × AuthorizeState) × (Values × World)
      → Answer × (Stored × World)
  keep_state stored (err e, (values, w)) = (failed 500 [], (stored, w))
  keep_state stored (ok (redirect, state), (values, w)) = elim (dir.marshal_state state) [
    | none ↦ (failed 500 [], (stored, w))
    | some b ↦ (
      see_other redirect [],
      (record { dpop = some values; flashes = some (or_none stored.flashes ++ bytes b ∷ []) }, w),
    )
  ]

  -- loginHandler.ServeHTTP. The key, the verifier and the state are those that are generated.
  unfoldable pub login_handler :
      (handle : Str)
      → (key : Option c.PrivateKey) → (verifier state : Str) → Stored
      → World
      → Answer × (Stored × World)
  unfolding login_inputs authorize session_nonces
  login_handler handle key verifier state stored w = elim (login_inputs handle key stored.dpop) [
    | err status ↦ (failed status [], (stored, w))
    | ok (id, (values, k)) ↦
        keep_state stored (authorize o t session_nonces client now verifier state k id values w)
  ]

  -- The part of a callback before the exchange of the code: the state of the first flash, the
  -- session and its key.
  unfoldable pub callback_session :
      (flashes : List Value)
      → (session : Option Values) → Result ℕ (AuthorizeState × (Values × c.PrivateKey))
  unfolding get_cookie_session get_dpop_key
  callback_session [] session = err 400
  callback_session (flash ∷ _) session = do
    b ← or_status (as_bytes flash) 400
    state ← or_err (dir.unmarshal_state b) 500
    values ← or_status (get_cookie_session c session) 500
    key ← present (get_dpop_key c values)
    ok (state, (values, key))

  -- The session with the tokens and the issuer.
  unfoldable pub with_tokens : TokenResponse → (issuer : Str) → Values → Result ℕ Values
  unfolding set_token_info set_issuer
  with_tokens info issuer values = do
    values' ← or_status (set_token_info c info values) 500
    ok (set_issuer issuer values')

  -- The cookies of a session, or the answer without them.
  unfoldable pub finish : Values → Result (List (Str × Str)) (List (Str × Str))
  unfolding get_identity get_pds_url frontend_cookies
  finish values = elim (present (get_identity c values)) [
    | err e ↦ err []
    | ok id ↦ elim (present (get_pds_url values)) [
      | err e ↦ err (frontend_cookies id [])
      | ok pds_url ↦ ok (frontend_cookies id pds_url)
    ]
  ]

  -- The part of a callback after the exchange: the session is saved at the end.
  unfoldable pub finish_callback :
      (issuer : Str)
      → (session : Option Values) → Result ClientError TokenResponse × (Values × World)
      → Answer × (Option Values × World)
  unfolding with_tokens finish
  finish_callback issuer session (err e, (values, w)) = (failed 500 [], (session, w))
  finish_callback issuer session (ok info, (values, w)) = elim (with_tokens info issuer values) [
    | err status ↦ (failed status [], (session, w))
    | ok last ↦ elim (finish last) [
      | err cookies ↦ (failed 500 cookies, (session, w))
      | ok cookies ↦ (see_other (str "/") cookies, (some last, w))
    ]
  ]

  -- callbackHandler.ServeHTTP: the flashes are used up first.
  unfoldable pub callback_handler : (code issuer : Str) → Stored → World → Answer × (Stored × World)
  unfolding callback_session exchange_code finish_callback session_nonces
  callback_handler code issuer stored w = elim stored.flashes [
    | none ↦ (failed 500 [], (stored, w))
    | some flashes ↦ elim (callback_session flashes stored.dpop) [
      | err status ↦ (failed status [], (record stored { flashes = some [] }, w))
      | ok (state, (values, key)) ↦
          let (answer, (session, w')) =
            finish_callback issuer stored.dpop
              (exchange_code o t session_nonces client now key code issuer state values w) in
          (answer, (record { dpop = session; flashes = some [] }, w'))
    ]
  ]
