-- ===== src/Oidc/Resources.antt =====
-- internal/oidc/{userinfo,revoke,discovery}.go: the other endpoints.
pub mod Bearer
use micro_identity_sidecar.Prelude.{
  ℕ, not, [], ◌∷◌, ◌++◌, Bytes, ◌==◌, codes, ok, err, if◌then◌else◌,
}
use micro_identity_sidecar.Prelude.Map.{put}
use micro_identity_sidecar.Go.Strings.{has_prefix, trim_prefix}
use micro_identity_sidecar.Platform.{Platform, str}
use micro_identity_sidecar.Keys.Published.{jwks}
use micro_identity_sidecar.Keys.{active_alg}
use micro_identity_sidecar.Session.Bridge as Bridge
use micro_identity_sidecar.Session.Bridge.{mode_stateful, validate_any}
use micro_identity_sidecar.Oidc.Server.{
  Config, Server, State, Request, DiscoveryDoc, Response, oauth_error, userinfo, discovery, key_set,
  empty_body, value,
}
use micro_identity_sidecar.Oidc.Issue.{authenticate_client, unauthorized}

abbrev pub bearer : Bytes
bearer = codes "Bearer "

-- The document of handleDiscovery.
unfoldable pub discovery_doc : Config → Bytes → DiscoveryDoc
discovery_doc cfg alg = record {
  issuer = cfg.issuer;
  authorization_endpoint = cfg.issuer ++ codes "/authorize";
  token_endpoint = cfg.issuer ++ codes "/token";
  userinfo_endpoint = cfg.issuer ++ codes "/userinfo";
  jwks_uri = cfg.issuer ++ codes "/.well-known/jwks.json";
  revocation_endpoint = cfg.issuer ++ codes "/revoke";
  response_types_supported = codes "code" ∷ [];
  grant_types_supported = codes "authorization_code" ∷ codes "refresh_token" ∷ [];
  subject_types_supported = codes "public" ∷ [];
  id_token_signing_alg_values_supported = alg ∷ [];
  scopes_supported = codes "openid" ∷ codes "profile" ∷ codes "email" ∷ codes "offline_access" ∷ [];
  token_endpoint_auth_methods_supported =
      codes "client_secret_basic" ∷ codes "client_secret_post" ∷ codes "none" ∷ [];
  code_challenge_methods_supported = codes "S256" ∷ [];
  claims_supported =
      codes "sub"
      ∷ codes "iss"
      ∷ codes "aud"
      ∷ codes "exp"
      ∷ codes "iat"
      ∷ codes "name"
      ∷ codes "email"
      ∷ [];
}

module _ (p : Platform) {B : Type 0} (server : Server B) where
  unfoldable pub handle_userinfo : ℕ → Request → State B → Response
  handle_userinfo now r st =
      if has_prefix r.authorization bearer
      then elim (validate_any server.bridge now (trim_prefix r.authorization bearer) st.world) [
        | err e ↦ oauth_error 401 "invalid_token" "access token is invalid, expired, or revoked"
        | ok (sess, mode) ↦
            userinfo (put (codes "sub") (str sess.subject) (server.users.profile sess.subject))
      ]
      else oauth_error 401 "invalid_token" "missing bearer access token"

  -- The two revocations of handleRevoke, whose errors it drops.
  unfoldable pub revoke_everywhere : Bytes → State B → State B
  revoke_everywhere token st =
      let (w, failed) = server.refresh_store.revoke token st.world in
      let (w', failed_too) = Bridge.revoke server.bridge mode_stateful token w in
      record st { world = w' }

  unfoldable pub handle_revoke : Request → State B → State B × Response
  handle_revoke r st =
      if not (r.method == codes "POST")
      then (st, oauth_error 405 "invalid_request" "POST only")
      else if not r.parses
      then (st, oauth_error 400 "invalid_request" "could not parse form body")
      else if value r.post_form (codes "token") == []
      then (st, oauth_error 400 "invalid_request" "token is required")
      else elim (authenticate_client p server r (value r.post_form (codes "client_id"))) [
        | err e ↦ (st, unauthorized e)
        | ok client ↦ (revoke_everywhere (value r.post_form (codes "token")) st, empty_body 200)
      ]

  unfoldable pub handle_discovery : Request → State B → Response
  handle_discovery r st =
      if r.method == codes "GET"
      then discovery (discovery_doc server.cfg (active_alg st.world.keys))
      else oauth_error 405 "invalid_request" "GET only"

  unfoldable pub handle_jwks : Request → State B → Response
  handle_jwks r st =
      if r.method == codes "GET"
      then key_set (jwks p st.world.keys)
      else oauth_error 405 "invalid_request" "GET only"
