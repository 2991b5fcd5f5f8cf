-- ===== src/Oidc/History/Always.antt =====
-- token.go: what makes a request for a code succeed.
use micro_identity_sidecar.Prelude.{ℕ, ◌≡◌, ◌≢◌, ◌⊎◌, ap, ◌∙◌, true, some, [], Bytes, codes}
use micro_identity_sidecar.Platform.{Platform, IsSound}
use micro_identity_sidecar.Go.Base64.RoundTrip.{IsBytes}
use micro_identity_sidecar.Jwt.Claims.RoundTrip.{IsWritable}
use micro_identity_sidecar.Session.{Backend}
use micro_identity_sidecar.Session.Stateless.RoundTrip.{IsIssuable}
use micro_identity_sidecar.Session.Bridge.{mode_stateful, mode_stateless}
use micro_identity_sidecar.Oidc.Clients.{Client, ClientRegistry}
use micro_identity_sidecar.Oidc.Users.{UserStore}
use micro_identity_sidecar.Oidc.Server.{
  Config, Server, State, Request, TokenResponse, AuthCode, token_set,
}
use micro_identity_sidecar.Oidc.Issue.{granted, has_scope, id_claims}
use micro_identity_sidecar.Oidc.Token.{handle_token}
use micro_identity_sidecar.Oidc.Token.Conditions.{
  IsCodeRequest, IsAuthenticated, IsRedeemable, sent_code,
}
use micro_identity_sidecar.Oidc.Token.Exchange.{handle_token_redeems}
use micro_identity_sidecar.Oidc.History.{sidecar_server}
use micro_identity_sidecar.Oidc.History.Issuing.{Accepts, CanSign, issued}

module _ (p : Platform) (sound : IsSound p) where
  module _ {B : Type 0} (ops : Backend B) (accepts : Accepts ops) (cfg : Config)
      (clients : ClientRegistry) (users : UserStore) where
    abbrev server : Server B
    server = sidecar_server p ops cfg clients users

    -- A valid request for a code is answered with tokens, whichever mode the client has: if the keys
    -- are in order and Ed25519, the random source answers, the table takes every row, and JSON can
    -- carry what is signed, an authenticated client that redeems a code that was issued to it, in
    -- time and with the redirect URI and the verifier, gets them.
    pub redeeming_succeeds :
        (now : ℕ) (r r' : Bytes) (request : Request) (st : State B) (client : Client)
        (ac : AuthCode)
        → IsCodeRequest request
        → sent_code request ≢ []
        → IsAuthenticated p server request client
        → IsRedeemable p server now request st client ac
        → CanSign p sound ops accepts cfg clients users st.world
        → IsBytes r
        → IsIssuable p cfg.issuer cfg.stateless_ttl now (granted client ac.subject ac.scope)
        → (cfg.default_session_mode ≡ mode_stateless) ⊎ (cfg.default_session_mode ≡ mode_stateful)
        → ((has_scope ac.scope (codes "openid") ≡ true)
            → IsWritable p (id_claims cfg users now client.id ac.subject ac.nonce ac.auth_time))
        → (t : TokenResponse) × ((handle_token p server now (some r) (some r') request st).1
            ≡ token_set t)
    redeeming_succeeds now r r' request st client ac c sent auth h signs bytes i default writable =
        let (t, done) =
          issued p sound ops accepts cfg clients users now client ac.subject ac.scope ac.nonce
            ac.auth_time writable r r' st.world signs bytes i default in
        (
          t,
          ap (λ q. q.1)
                (handle_token_redeems p server now (some r) (some r') request st client ac c sent
                  auth h)
              ∙ done,
        )
