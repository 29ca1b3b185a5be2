-- ===== src/Auth/Dpop.antt =====
-- DpopHttpClient (dpop.go): requests with a proof of possession, and one retry with a new nonce.
use habitat_new.Prelude.{
  ℕ, ◌==◌, Str, str, str_eq, has_prefix, Bool, false, ◌&&◌, ◌||◌, Option, none, some, List, [], ◌∷◌,
  ◌++◌, Result, ok, err, or_err, ◌>>=◌, if◌then◌else◌,
}

-- dpopClaims, without the identifier and the time that jose's claims add. A claim that is left out
-- is empty, as `omitempty` has it.
pub record DpopClaims : Type 0 where
  pub htm : Str
  pub htu : Str
  pub ath : Str
  pub nonce : Str

-- DpopOptions
pub record DpopOptions : Type 0 where
  pub htu : Str
  pub access_token : Str

-- An http.Request, with the two headers that the client sets apart from the others.
pub record Request : Type 0 where
  pub method : Str
  pub url : Str
  pub header : List (Str × Str)
  pub authorization : Str
  pub dpop : Str
  pub body : Str

-- An http.Response, by what the client reads of it. `error` is the member of that name where the body
-- is a JSON object with such a text, none otherwise.
pub record Response : Type 0 where
  pub status : ℕ
  pub www_authenticate : Str
  pub dpop_nonce : Str
  pub body : Str
  pub error : Option Str

pub data DpopError : Type 0 where
  sign_failed nonce_failed send_failed : DpopError

-- DpopNonceProvider, on a state of any type.
pub record NonceProvider (N : Type 0) : Type 0 where
  pub get_dpop_nonce : N → Result DpopError (Option Str)
  pub set_dpop_nonce : Str → N → Result DpopError N

-- What a client takes from others: the signature of claims as a compact JWT with the key in its
-- header, the hash of an access token, and http.DefaultClient on a world of any type: `send` is one
-- call of its Do, the redirects that it follows included.
pub record Transport (Key World : Type 0) : Type 0 where
  pub sign_claims : Key → DpopClaims → Option Str
  pub hash_access_token : Str → Str
  pub send : Request → World → Result DpopError Response × World

-- strings.Contains
unfoldable pub contains : (s part : Str) → Bool
unfolding has_prefix
contains [] part = has_prefix [] part
contains (a ∷ s) part = has_prefix (a ∷ s) part || contains s part

-- isUseDPopNonceError
unfoldable pub is_use_dpop_nonce_error : Response → Bool
unfolding contains has_prefix str_eq
is_use_dpop_nonce_error resp =
    (resp.status == 401
      && (has_prefix resp.www_authenticate (str "DPoP")
          && contains resp.www_authenticate (str "error=\"use_dpop_nonce\"")))
    || (resp.status == 400
        && (elim resp.error [ none ↦ false | some e ↦ str_eq e (str "use_dpop_nonce") ]))

module _ {Key World N : Type 0} (t : Transport Key World) (p : NonceProvider N) where
  -- The claims of a request under a nonce that the provider has, or none.
  abbrev pub new_claims : DpopOptions → Request → Option Str → DpopClaims
  new_claims opts req nonce = record {
    htm = req.method;
    htu = if str_eq opts.htu [] then req.url else opts.htu;
    ath = if str_eq opts.access_token [] then [] else t.hash_access_token opts.access_token;
    nonce = elim nonce [ none ↦ [] | some value ↦ value ];
  }

  -- generateClaims
  unfoldable pub generate_claims : DpopOptions → Request → N → Result DpopError DpopClaims
  unfolding str_eq
  generate_claims opts req n = do nonce ← p.get_dpop_nonce n; ok (new_claims opts req nonce)

  -- sign
  unfoldable pub sign : Key → DpopOptions → Request → N → Result DpopError Request
  unfolding generate_claims
  sign key opts req n = do
    claims ← generate_claims opts req n
    proof ← or_err (t.sign_claims key claims) sign_failed
    ok (record req { dpop = proof })

  -- The nonce of a response that asks for one.
  unfoldable pub take_nonce : Response → N → Result DpopError N
  unfolding str_eq
  take_nonce resp n = if str_eq resp.dpop_nonce [] then ok n else p.set_dpop_nonce resp.dpop_nonce n

  -- The retry in Do
  unfoldable pub retry :
      Key → DpopOptions → Request → Response → N → World → Result DpopError Response × (N × World)
  unfolding take_nonce sign
  retry key opts req resp n w = elim (take_nonce resp n) [
    | err e ↦ (err e, (n, w))
    | ok n' ↦ elim (sign key opts req n') [
      | err e ↦ (err e, (n', w))
      | ok req2 ↦ let (answer, w') = t.send req2 w in (answer, (n', w'))
    ]
  ]

  -- Do
  unfoldable pub do_request :
      Key → DpopOptions → Request → N → World → Result DpopError Response × (N × World)
  unfolding sign retry is_use_dpop_nonce_error
  do_request key opts req n w = elim (sign key opts req n) [
    | err e ↦ (err e, (n, w))
    | ok signed ↦
        let ready : Request = record signed { authorization = str "DPoP " ++ opts.access_token } in
        let (answer, w') = t.send ready w in
        elim answer [
          | err e ↦ (err e, (n, w'))
          | ok resp ↦
              if is_use_dpop_nonce_error resp
              then retry key opts ready resp n w'
              else (ok resp, (n, w'))
        ]
  ]
