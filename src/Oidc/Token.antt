-- ===== src/Oidc/Token.antt =====
-- internal/oidc/token.go: the token endpoint.
pub mod Conditions
pub mod Exchange
use micro_identity_sidecar.Prelude.{
  ℕ, ◌+◌, ◌*◌, ◌/◌, ◌||◌, not, Bool, true, false, Option, none, some, List, [], ◌∷◌, Bytes, ◌==◌,
  codes, String, ltb, Result, ok, err, if◌then◌else◌,
}
use micro_identity_sidecar.Prelude.Map.{Map, get, put, delete}
use micro_identity_sidecar.Go.Fields.{fields}
use micro_identity_sidecar.Platform.{Platform, Json, num, str}
use micro_identity_sidecar.Jwt.Claims.{Claims}
use micro_identity_sidecar.Jwt.Token.{sign, second, unix}
use micro_identity_sidecar.Keys.{Manager, Random, active_signer}
use micro_identity_sidecar.Session.{Session, Error, no_signer, unsigned, World}
use micro_identity_sidecar.Session.Bridge as Bridge
use micro_identity_sidecar.Session.Bridge.{mode_stateless, mode_stateful}
use micro_identity_sidecar.Pkce as Pkce
use micro_identity_sidecar.Oidc.Clients.{Client, lookup, contains}
use micro_identity_sidecar.Oidc.Users.{UserStore}
use micro_identity_sidecar.Oidc.Server.{
  AuthCode, Config, Server, State, Request, TokenResponse, Response, oauth_error, token_set, value,
}
use micro_identity_sidecar.Oidc.Issue.{
  authenticate_client, issue_token_set, unauthorized, invalid_grant,
}

module _ (p : Platform) {B : Type 0} (server : Server B) where
  -- The checks of tokenAuthorizationCode on a code that was found.
  unfoldable pub check_code : ℕ → Client → Bytes → Bytes → AuthCode → Option Response
  check_code now client redirect_uri verifier ac =
      if ltb ac.expires_at now
      then some (invalid_grant "authorization code expired")
      else if not (ac.client_id == client.id)
      then some (invalid_grant "authorization code was not issued to this client")
      else if not (ac.redirect_uri == redirect_uri)
      then some (invalid_grant "redirect_uri does not match the one used at /authorize")
      else elim (Pkce.verify p verifier ac.code_challenge) [
        | some e ↦ some (invalid_grant e)
        | none ↦ none
      ]

  -- tokenAuthorizationCode from the lookup of the code on.
  unfoldable pub exchange :
      ℕ → Random → Random → Client → Bytes → Bytes → Bytes → State B → State B × Response
  exchange now for_access for_refresh client code redirect_uri verifier st =
      elim (get code st.codes) [
        | none ↦ (st, invalid_grant "unknown, expired, or already-used authorization code")
        | some ac ↦
            let left = record st { codes = delete code st.codes } in
            elim (check_code now client redirect_uri verifier ac) [
              | some refusal ↦ (left, refusal)
              | none ↦
                  let (w, answer) =
                    issue_token_set p server now for_access for_refresh client ac.subject ac.scope
                      ac.nonce ac.auth_time st.world in
                  (record left { world = w }, answer)
            ]
      ]

  unfoldable pub token_authorization_code :
      ℕ → Random → Random → Request → State B → State B × Response
  token_authorization_code now for_access for_refresh r st =
      let code = value r.post_form (codes "code") in
      let verifier = value r.post_form (codes "code_verifier") in
      if code == [] || verifier == []
      then (st, oauth_error 400 "invalid_request" "code and code_verifier are required")
      else elim (authenticate_client p server r (value r.post_form (codes "client_id"))) [
        | err e ↦ (st, unauthorized e)
        | ok client ↦
            exchange now for_access for_refresh client code
              (value r.post_form (codes "redirect_uri")) verifier st
      ]

  -- The presented token is revoked, whatever the store says, and a new set issued.
  unfoldable pub renew :
      ℕ → Random → Random → Client → Bytes → Session → State B → State B × Response
  renew now for_access for_refresh client token sess st =
      let (w, failed) = server.refresh_store.revoke token st.world in
      let (w', answer) =
        issue_token_set p server now for_access for_refresh client sess.subject sess.scope []
          sess.issued_at w in
      (record st { world = w' }, answer)

  -- tokenRefresh from the validation of the token on.
  unfoldable pub rotate_refresh :
      ℕ → Random → Random → Client → Bytes → State B → State B × Response
  rotate_refresh now for_access for_refresh client token st =
      elim (server.refresh_store.validate now token st.world) [
        | err e ↦ (st, invalid_grant "unknown, expired, or revoked refresh token")
        | ok sess ↦
            if sess.client_id == client.id
            then renew now for_access for_refresh client token sess st
            else (st, invalid_grant "refresh token was not issued to this client")
      ]

  unfoldable pub token_refresh : ℕ → Random → Random → Request → State B → State B × Response
  token_refresh now for_access for_refresh r st =
      let token = value r.post_form (codes "refresh_token") in
      if token == []
      then (st, oauth_error 400 "invalid_request" "refresh_token is required")
      else elim (authenticate_client p server r (value r.post_form (codes "client_id"))) [
        | err e ↦ (st, unauthorized e)
        | ok client ↦ rotate_refresh now for_access for_refresh client token st
      ]

  unfoldable pub handle_token : ℕ → Random → Random → Request → State B → State B × Response
  handle_token now for_access for_refresh r st =
      if not (r.method == codes "POST")
      then (st, oauth_error 405 "invalid_request" "POST only")
      else if not r.parses
      then (st, oauth_error 400 "invalid_request" "could not parse form body")
      else if value r.post_form (codes "grant_type") == codes "authorization_code"
      then token_authorization_code now for_access for_refresh r st
      else if value r.post_form (codes "grant_type") == codes "refresh_token"
      then token_refresh now for_access for_refresh r st
      else (
        st,
        oauth_error 400 "unsupported_grant_type"
            "only authorization_code and refresh_token are supported",
      )
