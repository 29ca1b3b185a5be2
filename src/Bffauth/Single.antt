-- ===== src/Bffauth/Single.antt =====
-- A challenge is answered once: over any sequence of requests, tokens and sessions are counted.
use habitat_new.Prelude.{
  ℕ, ◌+◌, ◌≤◌, Str, str_eq, str_eq_iff, Bool, true, false, Option, Option-cases, none, some,
  is_some, List, [], ◌∷◌, arith, inl, inr,
}
use habitat_new.Prelude.Dict.{find, find-insert, find-erase}
use habitat_new.Bffauth.Defs.{
  Crypto, AuthRequest, new_session, Persister, Request, Reply, challenge_request, auth_request,
  challenge_response, auth_response, serve, handle_auth, handle_challenge, get_session,
  delete_session, save_session, answer_proof,
}

module _ (c : Crypto) (signing_key : Str) where
  -- The requests in their order, each with its answer, and the store afterwards.
  abbrev pub Trace : Type 0
  Trace = List (Request c × Reply)

  unfoldable pub run : List (Request c) → Persister c → Trace × Persister c
  unfolding serve
  run [] p = ([], p)
  run (r ∷ rs) p =
      let (reply, p') = serve c signing_key r p in
      let (trace, last) = run rs p' in ((r, reply) ∷ trace, last)

  abbrev bit : Bool → ℕ
  bit true = 1
  bit false = 0

  -- Whether the request got a token for the session.
  abbrev token_for : Str → Request c → Reply → ℕ
  token_for id (auth_request now (some body)) (auth_response token) =
      bit (str_eq body.session_id id)
  token_for id _ _ = 0

  -- Whether the answer names the session that it has made.
  abbrev challenge_for : Str → Reply → ℕ
  challenge_for id (challenge_response challenge session) = bit (str_eq session id)
  challenge_for id _ = 0

  abbrev pub tokens : Str → Trace → ℕ
  tokens id [] = 0
  tokens id ((r, reply) ∷ trace) = token_for id r reply + tokens id trace

  abbrev pub challenges : Str → Trace → ℕ
  challenges id [] = 0
  challenges id ((r, reply) ∷ trace) = challenge_for id reply + challenges id trace

  abbrev pub open_sessions : Str → Persister c → ℕ
  open_sessions id p = bit (is_some (find id p.store))

  challenge-count :
      (id : Str) (now : ℕ) (challenge session_id : Str) (body : Option _) (p : Persister c)
      → let (reply, p') = handle_challenge c now challenge session_id body p in
        open_sessions id p' ≤ challenge_for id reply + open_sessions id p
  unfolding handle_challenge save_session
  challenge-count id now challenge session_id none p = omega arith
  challenge-count id now challenge session_id (some req) p =
      elim (Option-cases (c.parse_public_bytes req.public_key)) [
        | inl e ↦ rw (e, handle_challenge) (omega arith)
        | inr (key, e) ↦
            rw (e, handle_challenge)
              (ground (
                arith,
                find-insert session_id id (new_session c now challenge session_id req key) p.store,
              ))
      ]

  token_for_bound :
      (id : Str) (now : ℕ) (body : AuthRequest) (reply : Reply)
      → token_for id (auth_request now (some body)) reply ≤ bit (str_eq body.session_id id)
  token_for_bound id now body reply = ground arith

  auth-count :
      (id : Str) (now : ℕ) (body : Option _) (p : Persister c)
      → let (reply, p') = handle_auth c now signing_key body p in
        token_for id (auth_request now body) reply + open_sessions id p' ≤ open_sessions id p
  unfolding handle_auth get_session delete_session
  auth-count id now none p = omega arith
  auth-count id now (some req) p = elim (Option-cases (find req.session_id p.store)) [
    | inl e ↦ rw (e, handle_auth) (omega arith)
    | inr (s, e) ↦
        rw (e, handle_auth)
          (ground (
            arith,
            token_for_bound id now req (answer_proof c now signing_key req.proof s),
            str_eq_iff req.session_id id,
            find-erase req.session_id id p.store,
            e,
          ))
  ]

  serve-count :
      (id : Str) (r : Request c) (p : Persister c)
      → let (reply, p') = serve c signing_key r p in
        token_for id r reply + open_sessions id p' ≤ challenge_for id reply + open_sessions id p
  unfolding serve
  serve-count id (challenge_request now challenge session_id body) p =
      omega (arith, challenge-count id now challenge session_id body p)
  serve-count id (auth_request now body) p = omega (arith, auth-count id now body p)

  -- Over any requests to any provider: the tokens given for a session ID and the sessions left under
  -- it are together no more than the challenges sent with that ID and the sessions that were there.
  pub tokens-bound :
      (id : Str) (rs : List (Request c)) (p : Persister c)
      → tokens id (run rs p).0 + open_sessions id (run rs p).1
        ≤ challenges id (run rs p).0 + open_sessions id p
  unfolding run
  tokens-bound id [] p = omega arith
  tokens-bound id (r ∷ rs) p =
      omega (arith, serve-count id r p, tokens-bound id rs (serve c signing_key r p).1)
