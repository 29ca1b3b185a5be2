-- ===== src/Auth/Nonce.antt =====
-- A server that asks for a nonce gets it: the retry of Do.
use habitat_new.Prelude.{
  Str, str, str_eq, str_eq_iff, Bool-cases, true, false, Option, none, some, [], ◌++◌, ◌≡◌, ◌≢◌,
  refl, sym, ap, if◌then◌else◌, ◌∙◌, str_eq_apart, Result, ok, arith, inl, inr,
}
use habitat_new.Auth.Dpop.{
  DpopClaims, DpopOptions, Request, Response, DpopError, NonceProvider, Transport,
  is_use_dpop_nonce_error, generate_claims, new_claims, sign, take_nonce, retry, do_request,
}

module _ {Key World N : Type 0} (t : Transport Key World) (p : NonceProvider N) where
  -- A server that answers the requests whose proof carries a nonce, and asks for it in all others.
  pub record Demands (key : Key) (nonce : Str) (answer : Request → Response) : Type 0 where
    pub is_nonce : nonce ≢ []
    pub demand : Response
    pub asks : is_use_dpop_nonce_error demand ≡ true
    pub names : demand.dpop_nonce ≡ nonce
    pub answers : (req : Request) → is_use_dpop_nonce_error (answer req) ≡ false
    -- What the server reads from a proof.
    pub nonce_of : Str → Str
    pub sign_total :
        (claims : DpopClaims)
        → (proof : Str) × (t.sign_claims key claims ≡ some proof) × (nonce_of proof ≡ claims.nonce)
    pub serve :
        (req : Request) (w : World) → nonce_of req.dpop ≡ nonce → (t.send req w).0 ≡ ok (answer req)
    pub refuse :
        (req : Request) (w : World) → nonce_of req.dpop ≢ nonce → (t.send req w).0 ≡ ok demand

  -- A provider that keeps the nonce it is given.
  pub record Keeps (nonce : Str) : Type 0 where
    pub set_get :
        (n : N)
        → (n' : N) × (p.set_dpop_nonce nonce n ≡ ok n') × (p.get_dpop_nonce n' ≡ ok (some nonce))

  abbrev or_empty : Option Str → Str
  or_empty none = []
  or_empty (some nonce) = nonce

  sign-claims :
      (key : Key) (opts : DpopOptions) (req : Request) (n : N) (held : Option Str) (proof : Str)
      → p.get_dpop_nonce n ≡ ok held
      → t.sign_claims key (new_claims t p opts req held) ≡ some proof
      → sign t p key opts req n ≡ ok (record req { dpop = proof })
  unfolding sign generate_claims
  sign-claims key opts req n held proof h signed = rw (h, signed) refl

  claims-nonce :
      (opts : DpopOptions) (req : Request) (held : Option Str)
      → (new_claims t p opts req held).nonce ≡ or_empty held
  claims-nonce opts req none = refl
  claims-nonce opts req (some nonce) = refl

  module _ (key : Key) (nonce : Str) (answer : Request → Response)
      (server : Demands key nonce answer) (keeps : Keeps nonce) where
    -- The request as it is sent with a proof.
    abbrev pub sent : DpopOptions → Request → (proof : Str) → Request
    sent opts req proof = record req {
      dpop = proof;
      authorization = str "DPoP " ++ opts.access_token;
    }

    -- A request is answered in the end: by the answer to a request that differs from it only in the
    -- two headers, and the provider holds the nonce then.
    abbrev pub IsAnswered : DpopOptions → Request → Result DpopError Response × (N × World) → Type 0
    IsAnswered opts req r =
        (proof : Str) × (server.nonce_of proof ≡ nonce)
        × (r.0 ≡ ok (answer (sent opts req proof)))
        × (p.get_dpop_nonce r.1.0 ≡ ok (some nonce))

    take_nonce-demand :
        (n n' : N) → p.set_dpop_nonce nonce n ≡ ok n' → take_nonce t p server.demand n ≡ ok n'
    unfolding take_nonce
    take_nonce-demand n n' set =
        rw server.names (ground (arith, set, str_eq_iff nonce [], server.is_nonce))

    retry-sent :
        (opts : DpopOptions) (req req2 : Request) (resp : Response) (n n' : N) (w : World)
        → take_nonce t p resp n ≡ ok n'
        → sign t p key opts req n' ≡ ok req2
        → retry t p key opts req resp n w ≡ ((t.send req2 w).0, (n', (t.send req2 w).1))
    unfolding retry
    retry-sent opts req req2 resp n n' w taken signed = rw (taken, retry, signed) refl

    retry-IsAnswered :
        (opts : DpopOptions) (req : Request) (first : Str) (n : N) (w : World)
        → IsAnswered opts req (retry t p key opts (sent opts req first) server.demand n w)
    retry-IsAnswered opts req first n w =
        let (n', set, get) = keeps.set_get n in
        let (proof, signed, reads) =
          server.sign_total (new_claims t p opts (sent opts req first) (some nonce)) in
        let e =
          retry-sent opts (sent opts req first) (sent opts req proof) server.demand n n' w
            (take_nonce-demand n n' set)
            (sign-claims key opts (sent opts req first) n' (some nonce) proof get signed) in
        rw e (proof, reads, server.serve (sent opts req proof) w reads, get)

    do_request-first :
        (opts : DpopOptions) (req : Request) (proof : Str) (n : N) (w : World) (resp : Response)
        → sign t p key opts req n ≡ ok (record req { dpop = proof })
        → (t.send (sent opts req proof) w).0 ≡ ok resp
        → do_request t p key opts req n w ≡ (
            if is_use_dpop_nonce_error resp
            then retry t p key opts (sent opts req proof) resp n (t.send (sent opts req proof) w).1
            else (ok resp, (n, (t.send (sent opts req proof) w).1)))
    unfolding do_request
    do_request-first opts req proof n w resp signed answered =
        rw (do_request, signed, answered) refl

    held-nonce : (held : Option Str) → or_empty held ≡ nonce → held ≡ some nonce
    held-nonce none e = absurd (server.is_nonce (sym e))
    held-nonce (some value) e = ap some e

    held-IsAnswered :
        (opts : DpopOptions) (req : Request) (proof : Str) (n : N) (w : World)
        → sign t p key opts req n ≡ ok (record req { dpop = proof })
        → server.nonce_of proof ≡ nonce
        → p.get_dpop_nonce n ≡ ok (some nonce)
        → IsAnswered opts req (do_request t p key opts req n w)
    held-IsAnswered opts req proof n w signed reads get =
        let e =
          do_request-first opts req proof n w (answer (sent opts req proof)) signed
            (server.serve (sent opts req proof) w reads) in
        rw (e, server.answers (sent opts req proof)) (proof, reads, refl, get)

    refused-IsAnswered :
        (opts : DpopOptions) (req : Request) (proof : Str) (n : N) (w : World)
        → sign t p key opts req n ≡ ok (record req { dpop = proof })
        → server.nonce_of proof ≢ nonce
        → IsAnswered opts req (do_request t p key opts req n w)
    refused-IsAnswered opts req proof n w signed reads =
        let e =
          do_request-first opts req proof n w server.demand signed
            (server.refuse (sent opts req proof) w reads) in
        rw (e, server.asks) (retry-IsAnswered opts req proof n (t.send (sent opts req proof) w).1)

    -- Whatever nonce the provider holds, if any: a request to a server that asks for a nonce in all
    -- requests that do not carry it is answered by what the server says to the request with a proof
    -- that carries the nonce, and the provider holds the nonce afterwards.
    pub do_request-IsAnswered :
        (opts : DpopOptions) (req : Request) (n : N) (w : World) (held : Option Str)
        → p.get_dpop_nonce n ≡ ok held
        → IsAnswered opts req (do_request t p key opts req n w)
    do_request-IsAnswered opts req n w held h =
        let (proof, signed, reads) = server.sign_total (new_claims t p opts req held) in
        let s = sign-claims key opts req n held proof h signed in
        let carried : server.nonce_of proof ≡ or_empty held = reads ∙ claims-nonce opts req held in
        elim (Bool-cases (str_eq (or_empty held) nonce)) [
          | inl same ↦
              let e : or_empty held ≡ nonce = (str_eq_iff (or_empty held) nonce).0 same in
              held-IsAnswered opts req proof n w s (carried ∙ e) (h ∙ ap ok (held-nonce held e))
          | inr other ↦
              refused-IsAnswered opts req proof n w s
                (λ e. str_eq_apart (or_empty held) nonce other (sym carried ∙ e))
        ]
