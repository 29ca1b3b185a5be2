-- ===== src/Bffauth/Defs.antt =====
-- The challenges, the session store, the tokens and the provider's handlers. Times are whole
-- seconds; the time of a call and new UUIDs are arguments.
use habitat_new.Prelude.{
  ℕ, ◌+◌, ltb, Str, str, str_eq, cut_prefix, Bool, true, false, not, Option, none, some, List, [],
  ◌∷◌, Result, ok, err, fail_if, or_err, ◌>>=◌, ◌>>◌,
}
use habitat_new.Prelude.Dict.{find, insert, erase}

-- jwt.RegisteredClaims, as far as the package fills it.
pub record Claims : Type 0 where
  pub expires_at : Option ℕ
  pub issued_at : Option ℕ
  pub audience : List Str

-- What the package takes from atproto/atcrypto, encoding/base64 and golang-jwt.
pub record Crypto : Type 1 where
  pub PublicKey : Type 0
  -- atcrypto.ParsePublicBytesP256
  pub parse_public_bytes : Str → Option PublicKey
  -- base64.StdEncoding.DecodeString
  pub decode_string : Str → Option Str
  -- HashAndVerify: whether the signature is one of the content.
  pub hash_and_verify : PublicKey → (content signature : Str) → Bool
  -- NewWithClaims for HS256, then SignedString
  pub signed_string : (signing_key : Str) → Claims → Option Str
  -- jwt.ParseWithClaims at a time: the claims and token.Valid, none for an error. The key function
  -- gets whether the token's method is an HMAC.
  pub parse_with_claims : ℕ → (Bool → Option Str) → Str → Option (Claims × Bool)

pub data AuthError : Type 0 where
  signing_failed parse_failed invalid_token token_expired bad_audience session_not_found bad_proof :
      AuthError
  missing_header bad_header missing_token : AuthError

-- 15 * time.Minute
abbrev pub lifetime : ℕ
lifetime = 900

-- ChallengeRequest
pub record ChallengeRequest : Type 0 where
  pub did : Str
  pub public_key : Str

-- AuthRequest
pub record AuthRequest : Type 0 where
  pub session_id : Str
  pub proof : Str

-- The answers of the handlers: an error's status, or the response with status 200.
pub data Reply : Type 0 where
  http_error : ℕ → Reply
  challenge_response : (challenge session : Str) → Reply
  auth_response : (token : Str) → Reply
  hello : Reply

module _ (c : Crypto) where
  -- ChallengeSession
  pub record ChallengeSession : Type 0 where
    pub session_id : Str
    pub did : Str
    pub public_key : c.PublicKey
    pub challenge : Str
    pub expires_at : ℕ

  -- InMemoryChallengeSessionPersister
  pub record Persister : Type 0 where
    pub store : List (Str × ChallengeSession)
    pub used_challenges : List (Str × Bool)

  -- NewInMemorySessionPersister
  abbrev pub new_persister : Persister
  new_persister = record { store = []; used_challenges = [] }

  -- SaveSession
  unfoldable pub save_session : ChallengeSession → Persister → Persister
  unfolding insert
  save_session s p = record {
    store = insert s.session_id s p.store;
    used_challenges = insert s.challenge true p.used_challenges;
  }

  -- GetSession
  unfoldable pub get_session : Str → Persister → Result AuthError ChallengeSession
  unfolding find
  get_session id p = or_err (find id p.store) session_not_found

  -- DeleteSession
  unfoldable pub delete_session : Str → Persister → Persister
  unfolding erase
  delete_session id p = record p { store = erase id p.store }

  -- VerifyProof
  unfoldable pub verify_proof : (challenge proof : Str) → c.PublicKey → Result AuthError Bool
  verify_proof challenge proof key = do
    signature ← or_err (c.decode_string proof) bad_proof
    fail_if (not (c.hash_and_verify key challenge signature)) bad_proof
    ok true

  -- GenerateJWT
  unfoldable pub generate_jwt : (now : ℕ) → (signing_key did : Str) → Result AuthError Str
  generate_jwt now signing_key did =
      or_err
        (c.signed_string signing_key (record {
          expires_at = some (now + lifetime);
          issued_at = some now;
          audience = did ∷ [];
        }))
        signing_failed

  -- The key function of ValidateJWT
  abbrev pub key_for : Str → Bool → Option Str
  key_for signing_key true = some signing_key
  key_for signing_key false = none

  -- claims.ExpiresAt != nil && claims.ExpiresAt.Before(time.Now())
  abbrev pub is_past : ℕ → Option ℕ → Bool
  is_past now none = false
  is_past now (some time) = ltb time now

  -- ValidateJWT
  unfoldable pub validate_jwt : (now : ℕ) → (token signing_key : Str) → Result AuthError Claims
  validate_jwt now token signing_key = do
    (claims, valid) ← or_err (c.parse_with_claims now (key_for signing_key) token) parse_failed
    fail_if (not valid) invalid_token
    fail_if (is_past now claims.expires_at) token_expired
    ok claims

  -- ValidateRequest, on the Authorization header, which is empty where it is missing.
  unfoldable pub validate_request : (now : ℕ) → (header signing_key : Str) → Result AuthError Claims
  unfolding validate_jwt cut_prefix str_eq
  validate_request now header signing_key = do
    fail_if (str_eq header []) missing_header
    token ← or_err (cut_prefix header (str "Bearer ")) bad_header
    fail_if (str_eq token []) missing_token
    validate_jwt now token signing_key

  -- The session that handleChallenge makes.
  abbrev pub new_session :
      ℕ → (challenge session_id : Str) → ChallengeRequest → c.PublicKey → ChallengeSession
  new_session now challenge session_id req key = record {
    session_id = session_id;
    did = req.did;
    public_key = key;
    challenge = challenge;
    expires_at = now + lifetime;
  }

  -- Provider.handleChallenge. The body is none where it does not decode.
  unfoldable pub handle_challenge :
      (now : ℕ)
      → (challenge session_id : Str) → Option ChallengeRequest
      → Persister
      → Reply × Persister
  unfolding save_session
  handle_challenge now challenge session_id none p = (http_error 400, p)
  handle_challenge now challenge session_id (some req) p =
      elim (c.parse_public_bytes req.public_key) [
        | none ↦ (http_error 500, p)
        | some key ↦ (
          challenge_response challenge session_id,
          save_session (new_session now challenge session_id req key) p,
        )
      ]

  -- handleAuth once the session is deleted: the proof, the token and its check.
  unfoldable pub answer_proof : (now : ℕ) → (signing_key proof : Str) → ChallengeSession → Reply
  unfolding verify_proof generate_jwt validate_jwt
  answer_proof now signing_key proof s = elim (verify_proof s.challenge proof s.public_key) [
    | ok true ↦ elim (generate_jwt now signing_key s.did) [
      | err e ↦ http_error 500
      | ok token ↦ elim (validate_jwt now token signing_key) [
        | err e ↦ http_error 500
        | ok claims ↦ auth_response token
      ]
    ]
    | ok false ↦ http_error 401
    | err e ↦ http_error 401
  ]

  -- Provider.handleAuth
  unfoldable pub handle_auth :
      (now : ℕ) → (signing_key : Str) → Option AuthRequest → Persister → Reply × Persister
  unfolding get_session delete_session answer_proof
  handle_auth now signing_key none p = (http_error 400, p)
  handle_auth now signing_key (some req) p = elim (get_session req.session_id p) [
    | err e ↦ (http_error 400, p)
    | ok s ↦ (answer_proof now signing_key req.proof s, delete_session req.session_id p)
  ]

  -- Provider.handleTest
  unfoldable pub handle_test : (now : ℕ) → (header signing_key : Str) → Reply
  unfolding validate_request
  handle_test now header signing_key = elim (validate_request now header signing_key) [
    | err e ↦ http_error 401
    | ok claims ↦ hello
  ]

  -- Provider.ValidateToken
  unfoldable pub validate_token : (now : ℕ) → (token signing_key : Str) → Result AuthError Str
  unfolding validate_jwt
  validate_token now token signing_key = do
    claims ← validate_jwt now token signing_key
    elim claims.audience [ did ∷ [] ↦ ok did | _ ↦ err bad_audience ]

  -- A request to the provider, with the time and the UUIDs of its handling.
  pub data Request : Type 0 where
    challenge_request : (now : ℕ) → (challenge session_id : Str) → Option ChallengeRequest → Request
    auth_request : (now : ℕ) → Option AuthRequest → Request

  -- The routes of the provider that change its state.
  unfoldable pub serve : (signing_key : Str) → Request → Persister → Reply × Persister
  unfolding handle_challenge handle_auth
  serve signing_key (challenge_request now challenge id body) p =
      handle_challenge now challenge id body p
  serve signing_key (auth_request now body) p = handle_auth now signing_key body p
