-- ===== src/Auth/Sample.antt =====
-- Keys, a server and a session for runs: a key is its own text, a proof is its nonce, and tokens and
-- identities are texts of their one part.
use habitat_new.Prelude.{
  ℕ, zero, suc, Str, str, str_eq, str_eq_iff, true, false, Option, none, some, [], ◌∷◌, ◌≡◌, ◌≢◌,
  refl, sym, ap, Result, ok, arith, if◌then◌else◌,
}
use habitat_new.Auth.Types.{Identity, TokenResponse}
use habitat_new.Auth.Session.{Keys}
use habitat_new.Auth.Dpop.{Request, Response, DpopError, Transport, is_use_dpop_nonce_error}
use habitat_new.Auth.Nonce.{Demands}
use habitat_new.Auth.Broker.{Outside, session_nonces}
use habitat_new.Auth.Login.{KeysLaws}
use habitat_new.Auth.Client.{Remote}
use habitat_new.Auth.Signin.{Directory}

abbrev pub token : Str → TokenResponse
token access = record {
  access_token = access;
  refresh_token = [];
  scope = [];
  token_type = [];
  expires_in = 0;
}

abbrev pub identity : Str → Identity
identity did = record { did = did; handle = []; pds = none }

unfoldable pub marshal_token : (access refresh scope type : Str) → ℕ → Option Str
marshal_token access [] [] [] zero = some access
marshal_token access _ _ _ _ = none

unfoldable pub marshal_identity : (did handle : Str) → Option Str → Option Str
marshal_identity did [] none = some did
marshal_identity did _ _ = none

abbrev pub sample : Keys
sample = record {
  PrivateKey = Str;
  marshal_key = some;
  parse_key = some;
  marshal_token =
      λ t. marshal_token t.access_token t.refresh_token t.scope t.token_type t.expires_in;
  unmarshal_token = λ b. some (token b);
  marshal_identity = λ id. marshal_identity id.did id.handle id.pds;
  unmarshal_identity = λ b. some (identity b);
}

marshal_token-inverse :
    (access refresh scope type : Str) (expires : ℕ) (b : Str)
    → marshal_token access refresh scope type expires ≡ some b
    → token b ≡ record {
      access_token = access;
      refresh_token = refresh;
      scope = scope;
      token_type = type;
      expires_in = expires;
    }
unfolding marshal_token
marshal_token-inverse access (x ∷ r) scope type expires b h = cc
marshal_token-inverse access [] (x ∷ s) type expires b h = cc
marshal_token-inverse access [] [] (x ∷ t) expires b h = cc
marshal_token-inverse access [] [] [] (suc n) b h = cc
marshal_token-inverse access [] [] [] zero b h = ground (arith, h)

marshal_identity-inverse :
    (did handle : Str) (pds : Option Str) (b : Str)
    → marshal_identity did handle pds ≡ some b
    → identity b ≡ record { did = did; handle = handle; pds = pds }
unfolding marshal_identity
marshal_identity-inverse did (x ∷ h) pds b e = cc
marshal_identity-inverse did [] (some p) b e = cc
marshal_identity-inverse did [] none b e = ground (arith, e)

pub sample_laws : KeysLaws sample
sample_laws = record {
  parse_marshal_key = λ key b h. sym h;
  unmarshal_marshal_token = λ t b h.
      ap some (
        marshal_token-inverse t.access_token t.refresh_token t.scope t.token_type t.expires_in b h);
  unmarshal_marshal_identity =
      λ id b h. ap some (marshal_identity-inverse id.did id.handle id.pds b h);
}

-- The server's texts.
abbrev pub demand : Str → Response
demand nonce = record {
  status = 400;
  www_authenticate = [];
  dpop_nonce = nonce;
  body = [];
  error = some (str "use_dpop_nonce");
}

abbrev pub fine : Request → Response
fine req = record {
  status = 200;
  www_authenticate = [];
  dpop_nonce = [];
  body = req.url;
  error = none;
}

abbrev pub serve : Str → Request → Result DpopError Response
serve nonce req = ok (if str_eq req.dpop nonce then fine req else demand nonce)

abbrev pub transport : Str → Transport Str ℕ
transport nonce = record {
  sign_claims = λ key claims. some claims.nonce;
  hash_access_token = λ t. t;
  send = λ req w. (serve nonce req, suc w);
}

asked : (nonce : Str) → is_use_dpop_nonce_error (demand nonce) ≡ true
unfolding is_use_dpop_nonce_error str_eq
asked nonce = refl

not_asked : (req : Request) → is_use_dpop_nonce_error (fine req) ≡ false
unfolding is_use_dpop_nonce_error
not_asked req = refl

pub transport-Demands :
    (key nonce : Str) → nonce ≢ [] → Demands (transport nonce) session_nonces key nonce fine
transport-Demands key nonce ne = record {
  is_nonce = ne;
  demand = demand nonce;
  asks = asked nonce;
  names = refl;
  answers = not_asked;
  nonce_of = λ proof. proof;
  sign_total = λ claims. (claims.nonce, refl, refl);
  serve = λ req w e. ground (arith, str_eq_iff req.dpop nonce, e);
  refuse = λ req w e. ground (arith, str_eq_iff req.dpop nonce, e);
}

abbrev pub outside : Outside sample ℕ
outside = record {
  parse_url = λ u. some (str "https", u);
  url_string = λ scheme host path query. path;
  join = λ a b. b;
  refresh_token = λ key id issuer refresh values w. (none, (values, w));
}

abbrev pub directory : Directory
directory = record {
  parse_at_identifier = some;
  lookup = λ at. some (record { did = at; handle = []; pds = some (str "host") });
  marshal_state = λ s. some s.token_endpoint;
  unmarshal_state = λ b. some (record { verifier = []; state = []; token_endpoint = b });
}

abbrev pub remote : Remote ℕ
remote = record {
  pds_endpoint = λ id. id.did;
  normalize = some;
  with_path = λ url path. some path;
  with_query = λ url query. some url;
  encode_form = λ params. [];
  request_url = some;
  get = λ url w. (some (200, url), suc w);
  challenge_from_verifier = λ v. v;
  sign_assertion = λ claims. some claims.issuer;
  decode_resource = λ b. some (b ∷ []);
  decode_server =
      λ b. some (record { issuer = b; token_endpoint = b; par_endpoint = b; auth_endpoint = b });
  decode_par = some;
  decode_token = λ b. some (token b);
}
