-- ===== src/Oidc/Server.antt =====
-- internal/oidc/server.go: what the handlers share, and the requests and responses they exchange.
use micro_identity_sidecar.Prelude.{ℕ, Bool, Option, none, some, List, [], Bytes, String, ltb}
use micro_identity_sidecar.Prelude.Map.{Map, get, delete_where}
use micro_identity_sidecar.Platform.{Json}
use micro_identity_sidecar.Keys.Published.{Jwk}
use micro_identity_sidecar.Session.{World, Store}
use micro_identity_sidecar.Session.Bridge.{Bridge}
use micro_identity_sidecar.Oidc.Clients.{ClientRegistry}
use micro_identity_sidecar.Oidc.Users.{UserStore}

pub record AuthCode : Type 0 where
  pub code : Bytes
  pub client_id : Bytes
  pub redirect_uri : Bytes
  pub subject : Bytes
  pub scope : Bytes
  pub code_challenge : Bytes
  pub code_challenge_method : Bytes
  pub nonce : Bytes
  pub auth_time : ℕ
  pub expires_at : ℕ
  pub used : Bool

pub record Config : Type 0 where
  pub issuer : Bytes
  pub auth_code_ttl : ℕ
  pub refresh_token_ttl : ℕ
  pub default_session_mode : Bytes
  pub stateless_ttl : ℕ
  pub stateful_ttl : ℕ

-- The part of Server that no handler changes.
pub record Server (B : Type 0) : Type 0 where
  pub cfg : Config
  pub bridge : Bridge (World B)
  pub clients : ClientRegistry
  pub users : UserStore
  pub refresh_store : Store (World B)

-- The part that they change: the codes, and the keys and sessions.
pub record State (B : Type 0) : Type 0 where
  pub codes : Map AuthCode
  pub world : World B

-- An http.Request: its method, the values of its body and of its URL (each key's first), whether
-- ParseForm can read it, the basic authentication, and the Authorization header.
pub record Request : Type 0 where
  pub method : Bytes
  pub post_form : Map Bytes
  pub query : Map Bytes
  pub parses : Bool
  pub basic_auth : Option (Bytes × Bytes)
  pub authorization : Bytes

-- tokenResponse; an empty member is left out of the JSON.
pub record TokenResponse : Type 0 where
  pub access_token : Bytes
  pub token_type : Bytes
  pub expires_in : ℕ
  pub id_token : Bytes
  pub refresh_token : Bytes
  pub scope : Bytes

-- loginPage
pub record LoginPage : Type 0 where
  pub client_id : Bytes
  pub redirect_uri : Bytes
  pub response_type : Bytes
  pub scope : Bytes
  pub state : Bytes
  pub nonce : Bytes
  pub code_challenge : Bytes
  pub code_challenge_method : Bytes
  pub error : String

-- discoveryDoc
pub record DiscoveryDoc : Type 0 where
  pub issuer : Bytes
  pub authorization_endpoint : Bytes
  pub token_endpoint : Bytes
  pub userinfo_endpoint : Bytes
  pub jwks_uri : Bytes
  pub revocation_endpoint : Bytes
  pub response_types_supported : List Bytes
  pub grant_types_supported : List Bytes
  pub subject_types_supported : List Bytes
  pub id_token_signing_alg_values_supported : List Bytes
  pub scopes_supported : List Bytes
  pub token_endpoint_auth_methods_supported : List Bytes
  pub code_challenge_methods_supported : List Bytes
  pub claims_supported : List Bytes

-- What a handler answers. `oauth_error` is writeOAuthError; a `redirect` carries the registered URI and
-- the two values that its query gets.
pub data Response : Type 0 where
  oauth_error : ℕ → String → String → Response
  token_set : TokenResponse → Response
  login : ℕ → LoginPage → Response
  redirect : Bytes → Bytes → Bytes → Response
  userinfo : Map Json → Response
  discovery : DiscoveryDoc → Response
  key_set : List Jwk → Response
  empty_body : ℕ → Response

-- url.Values.Get
unfoldable pub value : Map Bytes → Bytes → Bytes
value m k = elim (get k m) [ none ↦ [] | some v ↦ v ]

-- r.Form.Get: the body's value before the URL's.
unfoldable pub form_value : Request → Bytes → Bytes
form_value r k = elim (get k r.post_form) [ none ↦ value r.query k | some v ↦ v ]

-- pruneExpiredCodes
unfoldable pub prune_expired_codes : ℕ → Map AuthCode → Map AuthCode
prune_expired_codes now codes = delete_where (λ c. ltb c.expires_at now) codes
