-- ===== src/Bffauth/Sample.antt =====
-- Keys and tokens for runs: a signature is the key before the content, a token the key before the
-- claims.
use habitat_new.Prelude.{
  ℕ, ◌<◌, ltb, Str, str_eq, cut_prefix, cut_prefix-append, Bool, true, Option, none, some, List, [],
  ◌∷◌, ◌++◌, ◌≡◌, arith, if◌then◌else◌,
}
use habitat_new.Bffauth.Defs.{Crypto, Claims}
use habitat_new.Bffauth.Honest.{TokenLaws}

unfoldable pub signed_plain : Str → Option ℕ → Option ℕ → List Str → Option Str
signed_plain key (some end) (some start) (did ∷ []) = some (end ∷ start ∷ key ++ did)
signed_plain key _ _ _ = none

-- The claims of a token that ends at a time, from what stands behind the key.
abbrev claims_of : ℕ → ℕ → ℕ → Option Str → Option (Claims × Bool)
claims_of now end start none = none
claims_of now end start (some did) =
    if ltb now end
    then some (record { expires_at = some end; issued_at = some start; audience = did ∷ [] }, true)
    else none

unfoldable pub parse_plain : ℕ → Option Str → Str → Option (Claims × Bool)
unfolding cut_prefix
parse_plain now none token = none
parse_plain now (some key) [] = none
parse_plain now (some key) (end ∷ []) = none
parse_plain now (some key) (end ∷ start ∷ rest) = claims_of now end start (cut_prefix rest key)

abbrev pub sample : Crypto
sample = record {
  PublicKey = Str;
  parse_public_bytes = some;
  decode_string = some;
  hash_and_verify = λ key content signature. str_eq signature (key ++ content);
  signed_string = λ key claims. signed_plain key claims.expires_at claims.issued_at claims.audience;
  parse_with_claims = λ now key_for token. parse_plain now (key_for true) token;
}

parse_plain-signed :
    (key token : Str) (expires issued : Option ℕ) (audience : List Str) (now end : ℕ)
    (found : Option Str)
    → signed_plain key expires issued audience ≡ some token
    → expires ≡ some end
    → now < end
    → found ≡ some key
    → parse_plain now found token
      ≡ some (record { expires_at = expires; issued_at = issued; audience = audience }, true)
unfolding signed_plain parse_plain
parse_plain-signed key token none issued audience now end found signed e before k = cc
parse_plain-signed key token (some x) none audience now end found signed e before k = cc
parse_plain-signed key token (some x) (some y) [] now end found signed e before k = cc
parse_plain-signed key token (some x) (some y) (d ∷ d' ∷ ds) now end found signed e before k = cc
parse_plain-signed key token (some x) (some y) (did ∷ []) now end found signed e before k =
    ground (arith, cut_prefix-append key did)

pub sample_laws : TokenLaws sample
sample_laws = record {
  parse_signed = λ key token claims now end key_for signed e before k.
      parse_plain-signed key token claims.expires_at claims.issued_at claims.audience now end
        (key_for true) signed e before k;
}
