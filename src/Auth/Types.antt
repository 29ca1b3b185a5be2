-- ===== src/Auth/Types.antt =====
-- The data that the OAuth client, the sessions and the OAuth server share (oauth_client.go).
use habitat_new.Prelude.{ℕ, Str, str, Bool, true, Option, List, [], ◌∷◌}

-- identity.Identity, as far as the packages read it: `pds` is the service atproto_pds.
pub record Identity : Type 0 where
  pub did : Str
  pub handle : Str
  pub pds : Option Str

-- TokenResponse
pub record TokenResponse : Type 0 where
  pub access_token : Str
  pub refresh_token : Str
  pub scope : Str
  pub token_type : Str
  pub expires_in : ℕ

-- AuthorizeState
pub record AuthorizeState : Type 0 where
  pub verifier : Str
  pub state : Str
  pub token_endpoint : Str

-- ClientMetadata, its key set in the text of its JSON.
pub record ClientMetadata : Type 0 where
  pub client_name : Str
  pub client_id : Str
  pub client_uri : Str
  pub application_type : Str
  pub grant_types : List Str
  pub scope : Str
  pub response_types : List Str
  pub redirect_uris : List Str
  pub token_endpoint_auth_method : Str
  pub token_endpoint_auth_signer : Str
  pub dpop_bound_access_tokens : Bool
  pub jwks : Str

-- oauthClientImpl, with the public part of its key in the text of its JSON.
pub record OauthClient : Type 0 where
  pub client_id : Str
  pub client_uri : Str
  pub redirect_uri : Str
  pub public_jwks : Str

-- oauthClientImpl.ClientMetadata
unfoldable pub client_metadata : OauthClient → ClientMetadata
client_metadata o = record {
  client_name = str "Habitat";
  client_id = o.client_id;
  client_uri = o.client_uri;
  application_type = str "web";
  grant_types = str "authorization_code" ∷ str "refresh_token" ∷ [];
  scope = str "atproto transition:generic";
  response_types = str "code" ∷ [];
  redirect_uris = o.redirect_uri ∷ [];
  token_endpoint_auth_method = str "private_key_jwt";
  token_endpoint_auth_signer = str "ES256";
  dpop_bound_access_tokens = true;
  jwks = o.public_jwks;
}
