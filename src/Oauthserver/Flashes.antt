-- ===== src/Oauthserver/Flashes.antt =====
-- The flashes of an authorization that was not finished.
use habitat_new.Prelude.{
  Str, Option, Option-cases, none, some, List, [], ◌∷◌, ◌++◌, ◌≡◌, refl, Result-cases, inl, inr,
}
use habitat_new.Auth.Types.{AuthorizeState}
use habitat_new.Oauthserver.Defs.{AuthorizeRequest}
use habitat_new.Oauthserver.Handlers.{
  Flash, request, other, Outside, add_flash, authorize_inputs, handle_authorize, handle_callback,
}

module _ {Key World : Type 0} (o : Outside Key World) where
  add_flash-head :
      (req : AuthorizeRequest) (key : Key) (answer : Option (Str × AuthorizeState)) (w : World)
      (flash : Flash) (flashes : List Flash)
      → (rest : List Flash) × ((add_flash o req key (answer, w) (flash ∷ flashes)).1.0
          ≡ flash ∷ rest)
  add_flash-head req key none w flash flashes = (flashes, refl)
  add_flash-head req key (some (url, state)) w flash flashes =
      elim (Option-cases (o.key_bytes key)) [
        | inl e ↦ (flashes, rw (e, add_flash) refl)
        | inr (b, e) ↦ (
          flashes
              ++ request (record { form = req.form; dpop_key = b; authorize_state = state }) ∷ [],
          rw (e, add_flash) refl,
        )
      ]

  authorize-head :
      (form : List (Str × Str)) (key : Option Key) (flash : Flash) (flashes : List Flash)
      (w : World)
      → (rest : List Flash) × ((handle_authorize o form key (flash ∷ flashes) w).1.0 ≡ flash ∷ rest)
  unfolding handle_authorize
  authorize-head form key flash flashes w = elim (Result-cases (authorize_inputs o form key)) [
    | inr (reply, e) ↦ (flashes, rw (e, handle_authorize) refl)
    | inl ((req, (id, k)), e) ↦
        let (answer, w') = o.authorize k id w in
        let (rest, head) = add_flash-head req k answer w' flash flashes in
        (rest, rw (e, handle_authorize) head)
  ]

  -- Where the flash of an earlier authorization is still there, another authorization, whatever comes
  -- of it, does not change what the callback answers and leaves: the code is exchanged with the key
  -- and the state of the earlier one.
  pub callback-authorize :
      (form : List (Str × Str)) (key : Option Key) (flash : Flash) (flashes : List Flash)
      (code issuer : Str) (w w' : World)
      → handle_callback o code issuer
          (some (handle_authorize o form key (flash ∷ flashes) w).1.0)
          w'
        ≡ handle_callback o code issuer (some (flash ∷ flashes)) w'
  unfolding handle_callback
  callback-authorize form key (request flash) flashes code issuer w w' =
      let (rest, head) = authorize-head form key (request flash) flashes w in
      rw (head, handle_callback) refl
  callback-authorize form key other flashes code issuer w w' =
      let (rest, head) = authorize-head form key other flashes w in rw (head, handle_callback) refl
