-- ===== src/Bffauth/Honest.antt =====
-- A caller that holds the private key gets a token, and the token names it.
use habitat_new.Prelude.{
  ℕ, ◌+◌, ◌<◌, Str, str_eq_iff, str_eq_refl, true, Bool, Option, Option-cases, none, some, List, [],
  ◌∷◌, All, ◌≡◌, ◌≢◌, ◌∙◌, refl, ok, arith, inl, inr,
}
use habitat_new.Prelude.Dict.{find, find-insert, find-erase}
use habitat_new.Bffauth.Defs.{
  Crypto, Claims, Persister, ChallengeSession, ChallengeRequest, AuthRequest, Request,
  challenge_request, auth_request, auth_response, lifetime, new_session, key_for, serve,
  handle_auth, handle_challenge, get_session, delete_session, save_session, answer_proof,
  verify_proof, generate_jwt, validate_jwt, validate_token,
}
use habitat_new.Bffauth.Single.{run}

-- Documented behaviour of golang-jwt: a token that was signed for claims parses with the same key,
-- before they expire, to those claims, and is valid.
pub record TokenLaws (c : Crypto) : Type 0 where
  pub parse_signed :
      (signing_key token : Str) (claims : Claims) (now end : ℕ) (key_for : Bool → Option Str)
      → c.signed_string signing_key claims ≡ some token
      → claims.expires_at ≡ some end
      → now < end
      → key_for true ≡ some signing_key
      → c.parse_with_claims now key_for token ≡ some (claims, true)

-- The claims of a token for a DID.
abbrev pub claims_at : ℕ → Str → Claims
claims_at now did = record {
  expires_at = some (now + lifetime);
  issued_at = some now;
  audience = did ∷ [];
}

module _ (c : Crypto) (signing_key : Str) where
  -- A request that is not about the session.
  abbrev pub IsApart : Str → Request c → Type 0
  IsApart id (challenge_request now challenge session_id body) = session_id ≢ id
  IsApart id (auth_request now none) = Unit
  IsApart id (auth_request now (some body)) = body.session_id ≢ id

  challenge-find :
      (id : Str) (now : ℕ) (challenge session_id : Str) (body : Option ChallengeRequest)
      (p : Persister c)
      → session_id ≢ id
      → find id (handle_challenge c now challenge session_id body p).1.store ≡ find id p.store
  unfolding handle_challenge save_session
  challenge-find id now challenge session_id none p ne = refl
  challenge-find id now challenge session_id (some req) p ne =
      elim (Option-cases (c.parse_public_bytes req.public_key)) [
        | inl e ↦ rw (e, handle_challenge) refl
        | inr (key, e) ↦
            rw (e, handle_challenge)
              (ground (
                arith,
                str_eq_iff session_id id,
                find-insert session_id id (new_session c now challenge session_id req key) p.store,
              ))
      ]

  auth-find :
      (id : Str) (now : ℕ) (req : AuthRequest) (p : Persister c)
      → req.session_id ≢ id
      → find id (handle_auth c now signing_key (some req) p).1.store ≡ find id p.store
  unfolding handle_auth get_session delete_session
  auth-find id now req p ne = elim (Option-cases (find req.session_id p.store)) [
    | inl e ↦ rw (e, handle_auth) refl
    | inr (s, e) ↦
        rw (e, handle_auth)
          (ground (arith, str_eq_iff req.session_id id, find-erase req.session_id id p.store))
  ]

  run-find :
      (id : Str) (rs : List (Request c)) (p : Persister c)
      → All (IsApart id) rs
      → find id (run c signing_key rs p).1.store ≡ find id p.store
  unfolding run serve
  run-find id [] p a = refl
  run-find id (challenge_request now challenge session_id body ∷ rs) p a =
      run-find id rs _ a.1 ∙ challenge-find id now challenge session_id body p a.0
  run-find id (auth_request now none ∷ rs) p a = run-find id rs p a.1
  run-find id (auth_request now (some req) ∷ rs) p a =
      run-find id rs _ a.1 ∙ auth-find id now req p a.0

  validate_jwt-signed :
      (laws : TokenLaws c) (now time : ℕ) (did token : Str)
      → c.signed_string signing_key (claims_at time did) ≡ some token
      → now < time + lifetime
      → validate_jwt c now token signing_key ≡ ok (claims_at time did)
  unfolding validate_jwt
  validate_jwt-signed laws now time did token signed before = ground (
    arith,
    laws.parse_signed signing_key token (claims_at time did) now (time + lifetime)
        (key_for c signing_key) signed refl before refl,
  )

  validate_token-signed :
      (laws : TokenLaws c) (now time : ℕ) (did token : Str)
      → c.signed_string signing_key (claims_at time did) ≡ some token
      → now < time + lifetime
      → validate_token c now token signing_key ≡ ok did
  unfolding validate_token
  validate_token-signed laws now time did token signed before =
      rw (validate_jwt-signed laws now time did token signed before) refl

  answer_proof-honest :
      (laws : TokenLaws c) (now : ℕ) (proof signature token : Str) (s : ChallengeSession c)
      → c.decode_string proof ≡ some signature
      → c.hash_and_verify s.public_key s.challenge signature ≡ true
      → c.signed_string signing_key (claims_at now s.did) ≡ some token
      → answer_proof c now signing_key proof s ≡ auth_response token
  unfolding answer_proof verify_proof generate_jwt
  answer_proof-honest laws now proof signature token s decoded verified signed = ground (
    arith,
    decoded,
    verified,
    signed,
    validate_jwt-signed laws now now s.did token signed (omega arith),
  )

  challenge-session :
      (now : ℕ) (challenge id : Str) (req : ChallengeRequest) (key : c.PublicKey) (p : Persister c)
      → c.parse_public_bytes req.public_key ≡ some key
      → find id (handle_challenge c now challenge id (some req) p).1.store
        ≡ some (new_session c now challenge id req key)
  unfolding handle_challenge save_session
  challenge-session now challenge id req key p parsed = ground (
    arith,
    parsed,
    str_eq_refl id,
    find-insert id id (new_session c now challenge id req key) p.store,
  )

  handle_auth-open :
      (now : ℕ) (id proof : Str) (p : Persister c) (s : ChallengeSession c)
      → find id p.store ≡ some s
      → (handle_auth c now signing_key (some (record { session_id = id; proof = proof })) p).0
        ≡ answer_proof c now signing_key proof s
  unfolding handle_auth get_session
  handle_auth-open now id proof p s there = rw (there, handle_auth) refl

  -- A challenge is asked for with a public key, and answered, after any requests about other
  -- sessions and however much later, by a proof whose signature of the challenge the key verifies:
  -- where the token can be signed, it is the answer, and for 15 minutes ValidateToken finds in it
  -- the DID that the challenge was asked for with.
  pub handle_auth-honest :
      (laws : TokenLaws c) (asked answered used : ℕ) (challenge id proof signature token : Str)
      (req : ChallengeRequest) (key : c.PublicKey) (p : Persister c) (rs : List (Request c))
      → c.parse_public_bytes req.public_key ≡ some key
      → c.decode_string proof ≡ some signature
      → c.hash_and_verify key challenge signature ≡ true
      → c.signed_string signing_key (claims_at answered req.did) ≡ some token
      → All (IsApart id) rs
      → used < answered + lifetime
      → let p' = (run c signing_key rs (handle_challenge c asked challenge id (some req) p).1).1 in
        ((handle_auth c answered signing_key
            (some (record { session_id = id; proof = proof }))
            p').0
          ≡ auth_response token)
        × (validate_token c used token signing_key ≡ ok req.did)
  handle_auth-honest laws asked answered used challenge id proof signature token req key p rs parsed
        decoded verified signed apart before =
      (
        handle_auth-open answered id proof _ (new_session c asked challenge id req key)
              (run-find id rs _ apart ∙ challenge-session asked challenge id req key p parsed)
            ∙ answer_proof-honest laws answered proof signature token
                (new_session c asked challenge id req key) decoded verified signed,
        validate_token-signed laws used answered req.did token signed before,
      )
