-- ===== src/Oauthserver/Sample.antt =====
-- A sealing for runs: a session that has only a subject is the subject's text, sealed behind the key.
use habitat_new.Prelude.{
  ℕ, Str, cut_prefix, cut_prefix-append, Option, none, some, List, [], ◌∷◌, ◌++◌, ◌≡◌, refl, ap,
  arith,
}
use habitat_new.Auth.Types.{TokenResponse}
use habitat_new.Oauthserver.Defs.{AuthSession, Sealing}
use habitat_new.Oauthserver.Tokens.{SealingLaws}

abbrev pub plain : Str → AuthSession
plain subject = record {
  subject = subject;
  expires_at = none;
  dpop_key = [];
  token_info = none;
  client_id = [];
  scopes = [];
  state = [];
  pkce_challenge = [];
}

unfoldable pub encode_plain :
    (subject : Str)
    → Option ℕ
    → (dpop_key : Str) → Option TokenResponse
    → (client_id : Str) → (scopes : List Str) → (state pkce_challenge : Str) → Option Str
encode_plain subject none [] none [] [] [] [] = some subject
encode_plain subject _ _ _ _ _ _ _ = none

abbrev pub sample : Sealing
sample = record {
  encode = λ s.
      encode_plain s.subject s.expires_at s.dpop_key s.token_info s.client_id s.scopes s.state
        s.pkce_challenge;
  decode = λ message. some (plain message);
  seal = λ message nonce key. key ++ message;
  open_box = λ box nonce key. cut_prefix box key;
  encode_to_string = λ b. b;
  decode_string = some;
}

encode_plain-inverse :
    (subject : Str) (expires : Option ℕ) (dpop_key : Str) (info : Option TokenResponse)
    (client_id : Str) (scopes : List Str) (state pkce message : Str)
    → encode_plain subject expires dpop_key info client_id scopes state pkce ≡ some message
    → plain message ≡ record {
      subject = subject;
      expires_at = expires;
      dpop_key = dpop_key;
      token_info = info;
      client_id = client_id;
      scopes = scopes;
      state = state;
      pkce_challenge = pkce;
    }
unfolding encode_plain
encode_plain-inverse subject (some e) dpop_key info client_id scopes state pkce message h = cc
encode_plain-inverse subject none (b ∷ k) info client_id scopes state pkce message h = cc
encode_plain-inverse subject none [] (some i) client_id scopes state pkce message h = cc
encode_plain-inverse subject none [] none (b ∷ i) scopes state pkce message h = cc
encode_plain-inverse subject none [] none [] (s ∷ ss) state pkce message h = cc
encode_plain-inverse subject none [] none [] [] (b ∷ s) pkce message h = cc
encode_plain-inverse subject none [] none [] [] [] (b ∷ p) message h = cc
encode_plain-inverse subject none [] none [] [] [] [] message h = ground (arith, h)

pub sample_laws : SealingLaws sample
sample_laws = record {
  decode_encode = λ s message h. ap some (
      encode_plain-inverse s.subject s.expires_at s.dpop_key s.token_info s.client_id s.scopes
        s.state s.pkce_challenge message h);
  open_seal = λ message nonce key n k. cut_prefix-append key message;
  decode_string_encode = λ b. refl;
}
