-- ===== src/Oauthserver/Tests.antt =====
-- Runs of the token strategy with a plain sealing.
use habitat_new.Prelude.{
  ℕ, suc, ◌<◌, length, Str, str, str_eq, Option, none, some, [], ◌∷◌, ◌++◌, ◌≡◌, ◌↔◌, refl, ok, err,
  List, if◌then◌else◌,
}
use habitat_new.Auth.Types.{ClientMetadata, client_metadata}
use habitat_new.Oauthserver.Defs.{
  panicked, nonce_size, new_strategy, generate_authorize_code, validate_access_token,
  get_authorize_code_session, get_access_token_session, invalidate_authorize_code_session,
}
use habitat_new.Oauthserver.Tokens.{code-reusable, get_session-panicked}
use habitat_new.Oauthserver.Handlers.{Flash, request, Outside, handle_authorize, handle_callback}
use habitat_new.Oauthserver.Flashes.{callback-authorize}
use habitat_new.Auth.Types.{TokenResponse, AuthorizeState}
use habitat_new.Oauthserver.Sample.{sample, sample_laws, plain, encode_plain}

abbrev key : Str
key = str "0123456789abcdef0123456789abcdef"

abbrev nonce : Str
nonce = str "abcdefghijklmnopqrstuvwx"

abbrev app : ClientMetadata
app = client_metadata (record {
  client_id = str "https://a/c.json";
  client_uri = str "https://a";
  redirect_uri = str "https://a/r";
  public_jwks = [];
})

padded :
    new_strategy (str "my super secret signing password") ≡ str "my super secret signing password"
unfolding new_strategy
padded = refl

made :
    generate_authorize_code sample key nonce (plain (str "ann")) ≡ ok (nonce ++ (key ++ str "ann"))
unfolding generate_authorize_code encode_plain
made = refl

code-reusable_example :
    let store =
      (invalidate_authorize_code_session
        (nonce ++ (key ++ str "ann"))
        (record { strategy = key })).1 in
    (get_authorize_code_session sample store (λ id. some app) (nonce ++ (key ++ str "ann"))
      ≡ ok (record { client = app; session = plain (str "ann"); requested_scope = [] }))
    × (validate_access_token sample key (nonce ++ (key ++ str "ann")) ≡ ok tt)
    × (get_access_token_session sample store (nonce ++ (key ++ str "ann")) ≡ ok (plain (str "ann")))
code-reusable_example =
    code-reusable sample sample_laws key nonce (plain (str "ann")) (nonce ++ (key ++ str "ann"))
      (λ id. some app) app refl refl refl made

get_session-panicked_example :
    ((get_access_token_session sample (record { strategy = key }) (str "short") ≡ err panicked)
      ↔ ((b : Str) × (some (str "short") ≡ some b) × (length b < nonce_size)))
    × ((get_authorize_code_session sample (record { strategy = key }) (λ id. some app) (str "short")
          ≡ err panicked)
        ↔ ((b : Str) × (some (str "short") ≡ some b) × (length b < nonce_size)))
get_session-panicked_example =
    get_session-panicked sample (record { strategy = key }) (λ id. some app) (str "short")

abbrev first_state : AuthorizeState
first_state = record { verifier = str "v1"; state = str "s1"; token_endpoint = str "https://p1/t" }

abbrev second_state : AuthorizeState
second_state = record { verifier = str "v2"; state = str "s2"; token_endpoint = str "https://p2/t" }

-- A PDS that gives a token for the first state only.
abbrev exchange : Str → (code issuer : Str) → AuthorizeState → ℕ → Option TokenResponse × ℕ
exchange k code issuer state n = (
  if str_eq state.verifier (str "v1")
      then some (record {
        access_token = code;
        refresh_token = [];
        scope = [];
        token_type = str "DPoP";
        expires_in = 60;
      })
      else none,
  suc n,
)

abbrev outside : Outside Str ℕ
outside = record {
  new_authorize_request =
      λ form. some (record { form = form; scopes = []; state = []; client_id = str "app" });
  new_authorize_response = λ req session. some (str "https://a/r");
  introspect_token = λ token scopes. none;
  parse_at_identifier = some;
  lookup = λ at. some (record { did = str "did:plc:ann"; handle = at; pds = none });
  key_bytes = some;
  parse_raw_private_key = some;
  authorize = λ k id n. (some (str "https://p2/authorize", second_state), suc n);
  exchange_code = exchange;
}

abbrev ann_form : List (Str × Str)
ann_form = (str "handle", str "ann") ∷ []

abbrev bob_form : List (Str × Str)
bob_form = (str "handle", str "bob") ∷ []

abbrev ann_flash : Flash
ann_flash = request (record { form = ann_form; dpop_key = str "k1"; authorize_state = first_state })

second_flash :
    (handle_authorize outside bob_form (some (str "k2")) (ann_flash ∷ []) 0).1.0
    ≡ ann_flash
      ∷ request (record { form = bob_form; dpop_key = str "k2"; authorize_state = second_state })
      ∷ []
unfolding handle_authorize
second_flash = refl

callback-authorize_example :
    handle_callback outside
      (str "c")
      (str "p2")
      (some (handle_authorize outside bob_form (some (str "k2")) (ann_flash ∷ []) 0).1.0)
      1
    ≡ handle_callback outside (str "c") (str "p2") (some (ann_flash ∷ [])) 1
callback-authorize_example =
    callback-authorize outside bob_form (some (str "k2")) ann_flash [] (str "c") (str "p2") 0 1
