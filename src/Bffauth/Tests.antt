-- ===== src/Bffauth/Tests.antt =====
-- Runs of the provider with plain keys.
use habitat_new.Prelude.{
  ◌+◌, ◌≤◌, str, str_eq, cut_prefix, true, some, List, [], ◌∷◌, ◌≡◌, ◌≢◌, refl, ok, arith,
  str_eq_apart,
}
use habitat_new.Prelude.Dict.{find, insert, erase}
use habitat_new.Bffauth.Defs.{
  ChallengeRequest, AuthRequest, Request, new_persister, challenge_request, auth_request,
  auth_response, http_error, lifetime, handle_auth, handle_challenge, handle_test, validate_token,
}
use habitat_new.Bffauth.Single.{run, tokens, challenges, open_sessions, tokens-bound}
use habitat_new.Bffauth.Honest.{handle_auth-honest}
use habitat_new.Bffauth.Sample.{sample, sample_laws, signed_plain, parse_plain}

abbrev asked : ChallengeRequest
asked = record { did = str "d"; public_key = str "k" }

abbrev proof : AuthRequest
proof = record { session_id = str "1"; proof = str "kx" }

abbrev answers : List (Request sample)
answers =
    challenge_request 5 (str "x") (str "1") (some asked)
    ∷ auth_request 2000 (some proof)
    ∷ auth_request 2001 (some proof)
    ∷ []

-- The proof is taken long after the session's end, and once.
replayed :
    tokens sample (str "s") (str "1") (run sample (str "s") answers (new_persister sample)).0 ≡ 1
unfolding run handle_auth handle_challenge str_eq find insert erase signed_plain parse_plain
    cut_prefix
replayed = refl

wrong_header : handle_test sample 7 (str "Basic x") (str "s") ≡ http_error 401
unfolding handle_test cut_prefix str_eq
wrong_header = refl

tokens-bound_example :
    let (trace, last) = run sample (str "s") answers (new_persister sample) in
    tokens sample (str "s") (str "1") trace + open_sessions sample (str "s") (str "1") last
    ≤ challenges sample (str "s") (str "1") trace
      + open_sessions sample (str "s") (str "1") (new_persister sample)
tokens-bound_example = tokens-bound sample (str "s") (str "1") answers (new_persister sample)

other : str "2" ≢ str "1"
unfolding str_eq
other = str_eq_apart (str "2") (str "1") refl

verified : str_eq (str "kx") (str "kx") ≡ true
unfolding str_eq
verified = refl

signed :
    signed_plain (str "s") (some (2000 + lifetime)) (some 2000) (str "d" ∷ [])
    ≡ some (2900 ∷ 2000 ∷ str "sd")
unfolding signed_plain
signed = refl

handle_auth-honest_example :
    let p' =
      (run sample
        (str "s")
        (auth_request 7 (some (record proof { session_id = str "2" })) ∷ [])
        (handle_challenge sample 5 (str "x") (str "1") (some asked) (new_persister sample)).1).1 in
    ((handle_auth sample 2000 (str "s") (some proof) p').0 ≡ auth_response (2900 ∷ 2000 ∷ str "sd"))
    × (validate_token sample 2899 (2900 ∷ 2000 ∷ str "sd") (str "s") ≡ ok (str "d"))
handle_auth-honest_example =
    handle_auth-honest sample (str "s") sample_laws 5 2000 2899 (str "x") (str "1") (str "kx")
      (str "kx") (2900 ∷ 2000 ∷ str "sd") asked (str "k") (new_persister sample)
      (auth_request 7 (some (record proof { session_id = str "2" })) ∷ []) refl refl verified signed
      (other, tt) (omega arith)
