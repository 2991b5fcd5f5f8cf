-- ===== src/Oidc/History/Flow.antt =====
-- authorize.go, token.go: from the login to the tokens.
use micro_identity_sidecar.Prelude.{
  ℕ, ◌+◌, ◌≤◌, ◌≡◌, ◌≢◌, refl, sym, some, [], Bytes, eq_refl, codes, ap, ◌∙◌,
}
use micro_identity_sidecar.Prelude.Map.{get}
use micro_identity_sidecar.Platform.{Platform}
use micro_identity_sidecar.Keys.{Random}
use micro_identity_sidecar.Pkce.{challenge}
use micro_identity_sidecar.Pkce.Check.{IsVerifier}
use micro_identity_sidecar.Oidc.Clients.{Client, lookup}
use micro_identity_sidecar.Oidc.Server.{Server, State, Request, redirect, form_value}
use micro_identity_sidecar.Oidc.Issue.{issue_token_set}
use micro_identity_sidecar.Oidc.Token.{handle_token}
use micro_identity_sidecar.Oidc.Token.Conditions.{
  IsCodeRequest, IsAuthenticated, sent_code, sent_redirect, sent_verifier,
}
use micro_identity_sidecar.Oidc.Token.Exchange.{handle_token_redeems}
use micro_identity_sidecar.Oidc.Authorize.{parameter, handle_authorize, granted_code}
use micro_identity_sidecar.Oidc.Authorize.Grants.{handle_authorize-IsLogin}

module _ (p : Platform) {B : Type 0} (server : Server B) where
  -- The token request that goes with a login.
  pub record IsFollowUp (r again : Request) (uri code : Bytes) (client : Client) : Type 0 where
    pub code_request : IsCodeRequest again
    pub registered : lookup (parameter r (codes "client_id")) server.clients ≡ some client
    pub authenticated : IsAuthenticated p server again client
    pub same_code : sent_code again ≡ code
    pub named : code ≢ []
    pub same_redirect : sent_redirect again ≡ uri
    pub verifier : IsVerifier (sent_verifier again)
    pub proven : challenge p (sent_verifier again) ≡ parameter r (codes "code_challenge")

  -- After a login that was answered with a code, the authenticated client of that login that sends
  -- this code, not empty, the same redirect URI and the challenge's verifier, before the code
  -- expires, gets what issueTokenSet makes for the owner who logged in, with the scope and nonce
  -- that the login asked for.
  pub login_then_tokens :
      (now later : ℕ) (random for_access for_refresh : Random) (r again : Request) (st : State B)
      (uri code state : Bytes) (client : Client)
      → (handle_authorize server now random r st).1 ≡ redirect uri code state
      → IsFollowUp r again uri code client
      → later ≤ now + server.cfg.auth_code_ttl
      → (subject : Bytes) × (server.users.authenticate
            (form_value r (codes "username"))
            (form_value r (codes "password"))
          ≡ some subject)
        × ((handle_token p server later for_access for_refresh again
              (handle_authorize server now random r st).0).1
            ≡ (issue_token_set p server later for_access for_refresh client subject
                (parameter r (codes "scope"))
                (parameter r (codes "nonce"))
                now
                st.world).1)
  login_then_tokens now later random for_access for_refresh r again st uri code state client h f
        live =
      let l = handle_authorize-IsLogin server now random r st uri code state h in
      let same_client : l.req.client ≡ client =
        let a = l.request.registered in let b = f.registered in cc in
      let sent_as = l.request.as_sent in
      (
        l.subject,
        l.authenticated,
        ap (λ q. q.1)
              (handle_token_redeems p server later for_access for_refresh again
                (handle_authorize server now random r st).0 client
                (granted_code l.req code l.subject now server.cfg.auth_code_ttl) f.code_request
                (λ e. f.named (sym f.same_code ∙ e)) f.authenticated
                (record {
                  known =
                      ap (λ k. get k (handle_authorize server now random r st).0.codes) f.same_code
                      ∙ l.codes_after code
                      ∙ rw (eq_refl code) refl;
                  in_time = live;
                  same_client = ap (λ c. c.id) same_client;
                  same_redirect = sym l.destination ∙ sym f.same_redirect;
                  verifier = f.verifier;
                  proven = f.proven ∙ sym (ap (λ q. q.code_challenge) sent_as);
                }))
            ∙ rw (ap (λ q. q.scope) sent_as, ap (λ q. q.nonce) sent_as, l.world) refl,
      )
