-- ===== src/Oidc/Wire.antt =====
-- internal/oidc/server.go: writeJSON and writeOAuthError, on the wire.
use micro_identity_sidecar.Prelude.{ℕ, none, some, [], ◌∷◌, ◌++◌, Bytes, ◌==◌, codes, if◌then◌else◌}
use micro_identity_sidecar.Prelude.Map.{Map}
use micro_identity_sidecar.Platform.{Platform, Json, num, str, strs}
use micro_identity_sidecar.Oidc.Server.{
  TokenResponse, DiscoveryDoc, Response, oauth_error, token_set, login, redirect, userinfo,
  discovery, key_set, empty_body,
}

-- The status and the body of an HTTP response.
pub record HttpAnswer : Type 0 where
  pub status : ℕ
  pub body : Bytes

-- A member with omitempty, before the others.
abbrev pub unless_empty : Bytes → Bytes → Map Json → Map Json
unless_empty key s m = if s == [] then m else (key, str s) ∷ m

-- The members of tokenResponse and of discoveryDoc.
abbrev pub token_members : TokenResponse → Map Json
token_members t =
    (codes "access_token", str t.access_token)
    ∷ (codes "token_type", str t.token_type)
    ∷ (codes "expires_in", num t.expires_in)
    ∷ unless_empty (codes "id_token") t.id_token (
        unless_empty (codes "refresh_token") t.refresh_token
          (unless_empty (codes "scope") t.scope []))

abbrev pub discovery_members : DiscoveryDoc → Map Json
discovery_members d =
    (codes "issuer", str d.issuer)
    ∷ (codes "authorization_endpoint", str d.authorization_endpoint)
    ∷ (codes "token_endpoint", str d.token_endpoint)
    ∷ (codes "userinfo_endpoint", str d.userinfo_endpoint)
    ∷ (codes "jwks_uri", str d.jwks_uri)
    ∷ (codes "revocation_endpoint", str d.revocation_endpoint)
    ∷ (codes "response_types_supported", strs d.response_types_supported)
    ∷ (codes "grant_types_supported", strs d.grant_types_supported)
    ∷ (codes "subject_types_supported", strs d.subject_types_supported)
    ∷ (codes "id_token_signing_alg_values_supported", strs d.id_token_signing_alg_values_supported)
    ∷ (codes "scopes_supported", strs d.scopes_supported)
    ∷ (codes "token_endpoint_auth_methods_supported", strs d.token_endpoint_auth_methods_supported)
    ∷ (codes "code_challenge_methods_supported", strs d.code_challenge_methods_supported)
    ∷ (codes "claims_supported", strs d.claims_supported)
    ∷ []

-- oauthErrorBody
abbrev pub error_members : Bytes → Bytes → Map Json
error_members code description =
    (codes "error", str code) ∷ unless_empty (codes "error_description") description []

-- `other_body` is the body of what is not written by writeJSON: the key set, as Manager.JWKS prints
-- it, the login page, and what http.Redirect writes.
module _ (p : Platform) (other_body : Response → Bytes) where
  -- writeJSON: the status goes out first, the text after it; Encode writes nothing on an error.
  unfoldable pub write_json : ℕ → Map Json → HttpAnswer
  write_json status m = record {
    status = status;
    body = elim (p.render m) [ none ↦ [] | some text ↦ text ++ 10 ∷ [] ];
  }

  unfoldable pub wire : Response → HttpAnswer
  wire (oauth_error status code description) =
      write_json status (error_members (codes code) (codes description))
  wire (token_set t) = write_json 200 (token_members t)
  wire (userinfo claims) = write_json 200 claims
  wire (discovery d) = write_json 200 (discovery_members d)
  wire (login status page) = record { status = status; body = other_body (login status page) }
  wire (redirect uri code state) = record {
    status = 302;
    body = other_body (redirect uri code state);
  }
  wire (key_set keys) = record { status = 200; body = other_body (key_set keys) }
  wire (empty_body status) = record { status = status; body = [] }
