-- ===== src/Oauthserver/Tokens.antt =====
-- Authorization codes and access tokens: what a token holds, and which tokens pass for which.
use habitat_new.Prelude.{
  ltb, ◌<◌, length, Str, Option, Option-cases, none, some, [], ◌∷◌, ◌++◌, ◌≡◌, ◌↔◌, refl,
  Result-cases, ◌>>=◌, or_err, ap, subst, Result, false, ok, err, arith, inl, inr,
}
use habitat_new.Auth.Types.{ClientMetadata}
use habitat_new.Oauthserver.Defs.{
  AuthSession, Sealing, Store, TokenError, panicked, encode_failed, decode_failed, invalid_token,
  not_found, not_supported, nonce_size, take, drop, encrypt, open_token, decrypt, joined, forget,
  new_access_token_session, generate_access_token, generate_authorize_code, validate_access_token,
  get_authorize_code_session, get_access_token_session, invalidate_authorize_code_session,
}

-- Documented behaviour of cbor, secretbox and base64: each reads back what it has written.
pub record SealingLaws (box : Sealing) : Type 0 where
  pub decode_encode :
      (s : AuthSession) (message : Str) → box.encode s ≡ some message → box.decode message ≡ some s
  pub open_seal :
      (message nonce key : Str)
      → length nonce ≡ nonce_size
      → length key ≡ 32
      → box.open_box (box.seal message nonce key) nonce key ≡ some message
  pub decode_string_encode : (b : Str) → box.decode_string (box.encode_to_string b) ≡ some b

take-append : (a b : Str) → take (length a) (a ++ b) ≡ a
unfolding take
take-append [] b = refl
take-append (x ∷ a) b = ap (λ s. x ∷ s) (take-append a b)

drop-append : (a b : Str) → drop (length a) (a ++ b) ≡ b
unfolding drop
drop-append [] b = refl
drop-append (x ∷ a) b = drop-append a b

length-prefix : (a b : Str) → ltb (length (a ++ b)) (length a) ≡ false
length-prefix [] b = ground arith
length-prefix (x ∷ a) b = ground (arith, length-prefix a b)

module _ (box : Sealing) (laws : SealingLaws box) (key nonce : Str) where
  take-nonce : (b : Str) → length nonce ≡ nonce_size → take nonce_size (nonce ++ b) ≡ nonce
  take-nonce b n = subst (λ k. take k (nonce ++ b) ≡ nonce) n (take-append nonce b)

  drop-nonce : (b : Str) → length nonce ≡ nonce_size → drop nonce_size (nonce ++ b) ≡ b
  drop-nonce b n = subst (λ k. drop k (nonce ++ b) ≡ b) n (drop-append nonce b)

  long_enough : (b : Str) → length nonce ≡ nonce_size → ltb (length (nonce ++ b)) nonce_size ≡ false
  long_enough b n = subst (λ k. ltb (length (nonce ++ b)) k ≡ false) n (length-prefix nonce b)

  open_token-sealed :
      (message : Str)
      → length nonce ≡ nonce_size
      → length key ≡ 32
      → open_token box key (box.encode_to_string (nonce ++ box.seal message nonce key)) ≡ ok message
  unfolding open_token
  open_token-sealed message n k =
      let sealed : Str = box.seal message nonce key in
      rw
        (
          laws.decode_string_encode (nonce ++ sealed),
          long_enough sealed n,
          take-nonce sealed n,
          drop-nonce sealed n,
          laws.open_seal message nonce key n k,
        )
        refl

  -- A token that encrypt has made opens, and holds the session.
  IsTokenOf : AuthSession → Str → Type 0
  IsTokenOf s token =
      (message : Str) × (open_token box key token ≡ ok message) × (box.decode message ≡ some s)

  encrypt-IsTokenOf :
      (s : AuthSession) (token : Str)
      → length nonce ≡ nonce_size
      → length key ≡ 32
      → encrypt box key nonce s ≡ ok token
      → IsTokenOf s token
  unfolding encrypt IsTokenOf
  encrypt-IsTokenOf s token n k e = elim (Option-cases (box.encode s)) [
    | inl none_encoded ↦ ground (arith, e, none_encoded)
    | inr (message, encoded) ↦ (
      message,
      subst (λ t. open_token box key t ≡ ok message) (ground (arith, e, encoded))
          (open_token-sealed message n k),
      laws.decode_encode s message encoded,
    )
  ]

  decrypt-IsTokenOf :
      (s : AuthSession) (token : Str) → IsTokenOf s token → decrypt box key token ≡ ok s
  unfolding IsTokenOf decrypt
  decrypt-IsTokenOf s token (message, opened, decoded) = rw (opened, decoded) refl

  validate-IsTokenOf :
      (s : AuthSession) (token : Str)
      → IsTokenOf s token
      → validate_access_token box key token ≡ ok tt
  unfolding IsTokenOf validate_access_token
  validate-IsTokenOf s token (message, opened, decoded) = ap forget opened

  -- What GenerateAccessToken makes of a session is read back by GetAccessTokenSession as the part of
  -- the session that newAccessTokenSession keeps, which has no time of expiry.
  pub access_token-round_trip :
      (s : AuthSession) (token : Str)
      → length nonce ≡ nonce_size
      → length key ≡ 32
      → generate_access_token box key nonce s ≡ ok token
      → (get_access_token_session box (record { strategy = key }) token
          ≡ ok (new_access_token_session s))
        × ((new_access_token_session s).expires_at ≡ none)
  unfolding generate_access_token get_access_token_session new_access_token_session
  access_token-round_trip s token n k e = (
    ap joined (
        decrypt-IsTokenOf (new_access_token_session s) token
          (encrypt-IsTokenOf (new_access_token_session s) token n k e)),
    refl,
  )

  -- An authorization code gives its request again after its invalidation; the code also passes for an
  -- access token, with the whole session, where the client's metadata can be fetched.
  pub code-reusable :
      (s : AuthSession) (code : Str) (get_client : Str → Option ClientMetadata)
      (client : ClientMetadata)
      → length nonce ≡ nonce_size
      → length key ≡ 32
      → get_client s.client_id ≡ some client
      → generate_authorize_code box key nonce s ≡ ok code
      → let store = (invalidate_authorize_code_session code (record { strategy = key })).1 in
        (get_authorize_code_session box store get_client code
          ≡ ok (record { client = client; session = s; requested_scope = s.scopes }))
        × (validate_access_token box key code ≡ ok tt)
        × (get_access_token_session box store code ≡ ok s)
  unfolding generate_authorize_code get_authorize_code_session invalidate_authorize_code_session
      validate_access_token get_access_token_session IsTokenOf
  code-reusable s code get_client client n k fetched e =
      let holds : IsTokenOf s code = encrypt-IsTokenOf s code n k e in
      let read : decrypt box key code ≡ ok s = decrypt-IsTokenOf s code holds in
      (rw (read, fetched) refl, validate-IsTokenOf s code holds, rw read refl)

open_token-panicked :
    (box : Sealing) (key token : Str)
    → (open_token box key token ≡ err panicked)
      ↔ ((b : Str) × (box.decode_string token ≡ some b) × (length b < nonce_size))
unfolding open_token
open_token-panicked box key token = elim (Option-cases (box.decode_string token)) [
  | inl e ↦ (λ h. ground (arith, h, e), λ (b, d, l). ground (arith, d, e))
  | inr (b, e) ↦ (λ h. (b, e, ground (arith, h, e)), λ (b', d, l). ground (arith, d, e, l))
]

decrypt-panicked_iff :
    (box : Sealing) (key token : Str)
    → (decrypt box key token ≡ err panicked) ↔ (open_token box key token ≡ err panicked)
unfolding decrypt
decrypt-panicked_iff box key token = elim (Result-cases (open_token box key token)) [
  | inl (m, e) ↦ (λ h. ground (arith, h, e), λ h. ground (arith, h, e))
  | inr (f, e) ↦ (λ h. ground (arith, h, e), λ h. ground (arith, h, e))
]

joined-panicked_iff :
    {A : Type 0} (r : Result TokenError A) → (joined r ≡ err panicked) ↔ (r ≡ err panicked)
joined-panicked_iff (ok a) = (λ h. cc, λ h. cc)
joined-panicked_iff (err panicked) = (λ h. refl, λ h. refl)
joined-panicked_iff (err encode_failed) = (λ h. cc, λ h. cc)
joined-panicked_iff (err decode_failed) = (λ h. cc, λ h. cc)
joined-panicked_iff (err invalid_token) = (λ h. cc, λ h. cc)
joined-panicked_iff (err not_found) = (λ h. cc, λ h. cc)
joined-panicked_iff (err not_supported) = (λ h. cc, λ h. cc)

chain : {A B C : Type 0} → (A ↔ B) → (B ↔ C) → (A ↔ C)
chain (f, g) (h, k) = (λ a. h (f a), λ c. g (k c))

then-panicked_iff :
    {A B : Type 0} (r : Result TokenError A) (client : A → Option ClientMetadata)
    (make : A → ClientMetadata → B)
    → ((do a ← r; c ← or_err (client a) not_found; ok (make a c)) ≡ err panicked)
      ↔ (r ≡ err panicked)
then-panicked_iff (err e) client make = (λ h. ground (arith, h), λ h. ground (arith, h))
then-panicked_iff (ok a) client make = elim (Option-cases (client a)) [
  | inl e ↦ (λ h. ground (arith, h, e), λ h. cc)
  | inr (c, e) ↦ (λ h. ground (arith, h, e), λ h. cc)
]

-- The lookup of the session of an access token, and that of an authorization code, panics exactly
-- where the token decodes to fewer bytes than a nonce has, whatever the client's metadata.
pub get_session-panicked :
    (box : Sealing) (store : Store) (get_client : Str → Option ClientMetadata) (token : Str)
    → ((get_access_token_session box store token ≡ err panicked)
        ↔ ((b : Str) × (box.decode_string token ≡ some b) × (length b < nonce_size)))
      × ((get_authorize_code_session box store get_client token ≡ err panicked)
          ↔ ((b : Str) × (box.decode_string token ≡ some b) × (length b < nonce_size)))
unfolding get_access_token_session get_authorize_code_session
get_session-panicked box store get_client token =
    let opened = chain (joined-panicked_iff (decrypt box store.strategy token)) (
      chain (decrypt-panicked_iff box store.strategy token)
        (open_token-panicked box store.strategy token)) in
    (opened, chain (then-panicked_iff (joined (decrypt box store.strategy token)) _ _) opened)
