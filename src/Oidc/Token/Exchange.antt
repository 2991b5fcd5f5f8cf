-- ===== src/Oidc/Token/Exchange.antt =====
-- token.go: what an authorization code is exchanged for, and when.
use micro_identity_sidecar.Prelude.{
  ℕ, ◌≡◌, ◌≢◌, refl, sym, subst, none, some, [], Bytes, eq_iff, codes, arith, ap, ◌∙◌, Option-cases,
  Result-cases, inl, inr,
}
use micro_identity_sidecar.Prelude.Map.{get, delete}
use micro_identity_sidecar.Platform.{Platform}
use micro_identity_sidecar.Keys.{Random}
use micro_identity_sidecar.Pkce.Check.{IsVerifier-ne-nil}
use micro_identity_sidecar.Oidc.Clients.{Client}
use micro_identity_sidecar.Oidc.Server.{
  AuthCode, Server, State, Request, TokenResponse, Response, token_set, value,
}
use micro_identity_sidecar.Oidc.Issue.{authenticate_client, issue_token_set}
use micro_identity_sidecar.Oidc.Token.{check_code, exchange, token_authorization_code, handle_token}
use micro_identity_sidecar.Oidc.Token.Conditions.{
  sent_code, sent_verifier, sent_redirect, IsCodeRequest, IsAuthenticated,
  authenticate_client-IsAuthenticated, authenticate_client_complete, IsRedeemable, check_code-none,
  check_code_complete, check_code-refusal,
}

module _ (p : Platform) {B : Type 0} (server : Server B) where
  -- Why a request is answered with a set of tokens, and what the state is then.
  pub record IsExchange (now : ℕ) (for_access for_refresh : Random) (r : Request)
      (st after : State B) (answer : Response) : Type 0 where
    pub client : Client
    pub authenticated : IsAuthenticated p server r client
    pub ac : AuthCode
    pub redeemable : IsRedeemable p server now r st client ac
    pub codes_after : after.codes ≡ delete (sent_code r) st.codes
    pub issued :
        issue_token_set p server now for_access for_refresh client ac.subject ac.scope ac.nonce
          ac.auth_time st.world
        ≡ (after.world, answer)

  exchange-passed :
      (now : ℕ) (for_access for_refresh : Random) (client : Client) (code uri verifier : Bytes)
      (st : State B) (ac : AuthCode)
      → get code st.codes ≡ some ac
      → check_code p server now client uri verifier ac ≡ none
      → exchange p server now for_access for_refresh client code uri verifier st ≡ (
          let issued =
            issue_token_set p server now for_access for_refresh client ac.subject ac.scope ac.nonce
              ac.auth_time st.world in
          (record { codes = delete code st.codes; world = issued.0 }, issued.1))
  unfolding exchange
  exchange-passed now for_access for_refresh client code uri verifier st ac known passed =
      rw (known, exchange, passed) refl

  exchange-refused :
      (now : ℕ) (for_access for_refresh : Random) (client : Client) (code uri verifier : Bytes)
      (st : State B) (ac : AuthCode) (refusal : Response)
      → get code st.codes ≡ some ac
      → check_code p server now client uri verifier ac ≡ some refusal
      → exchange p server now for_access for_refresh client code uri verifier st
        ≡ (record st { codes = delete code st.codes }, refusal)
  unfolding exchange
  exchange-refused now for_access for_refresh client code uri verifier st ac refusal known refused =
      rw (known, exchange, refused) refl

  exchange-IsExchange :
      (now : ℕ) (for_access for_refresh : Random) (r : Request) (st : State B) (client : Client)
      (t : TokenResponse)
      → IsAuthenticated p server r client
      → (exchange p server now for_access for_refresh client
          (sent_code r)
          (sent_redirect r)
          (sent_verifier r)
          st).1
        ≡ token_set t
      → IsExchange now for_access for_refresh r st
          (exchange p server now for_access for_refresh client
            (sent_code r)
            (sent_redirect r)
            (sent_verifier r)
            st).0
          (token_set t)
  unfolding exchange check_code
  exchange-IsExchange now for_access for_refresh r st client t auth h =
      elim (Option-cases (get (sent_code r) st.codes)) [
        | inl missing ↦ absurd (ground arith)
        | inr (ac, known) ↦
            elim (Option-cases
              (check_code p server now client (sent_redirect r) (sent_verifier r) ac)) [
                | inl passed ↦
                    let done =
                      exchange-passed now for_access for_refresh client (sent_code r)
                        (sent_redirect r) (sent_verifier r) st ac known passed in
                    let same_world = ap (λ q. q.0.world) done in
                    let same_answer = sym (ap (λ q. q.1) done) ∙ h in
                    record {
                      client = client;
                      authenticated = auth;
                      ac = ac;
                      redeemable = check_code-none p server now r st client ac known passed;
                      codes_after = ap (λ q. q.0.codes) done;
                      issued = λ i. (sym same_world i, same_answer i);
                    }
                | inr (refusal, refused) ↦
                    let left =
                      exchange-refused now for_access for_refresh client (sent_code r)
                        (sent_redirect r) (sent_verifier r) st ac refusal known refused in
                    absurd (
                      check_code-refusal p server now client (sent_redirect r) (sent_verifier r) ac
                        t (refused ∙ ap some (sym (ap (λ q. q.1) left) ∙ h)))
              ]
      ]

  pub code_request-eq :
      (now : ℕ) (for_access for_refresh : Random) (r : Request) (st : State B)
      → IsCodeRequest r
      → handle_token p server now for_access for_refresh r st
        ≡ token_authorization_code p server now for_access for_refresh r st
  unfolding handle_token
  code_request-eq now for_access for_refresh r st h =
      let posted = h.posted in
      let parsed = h.parsed in
      let grant_type = h.grant_type in
      ground (
        arith,
        eq_iff r.method (codes "POST"),
        eq_iff (value r.post_form (codes "grant_type")) (codes "authorization_code"),
      )

  token_code-IsExchange :
      (now : ℕ) (for_access for_refresh : Random) (r : Request) (st : State B) (t : TokenResponse)
      → (token_authorization_code p server now for_access for_refresh r st).1 ≡ token_set t
      → IsExchange now for_access for_refresh r st
          (token_authorization_code p server now for_access for_refresh r st).0
          (token_set t)
  unfolding token_authorization_code
  token_code-IsExchange now for_access for_refresh r st t h =
      elim (Result-cases (authenticate_client p server r (value r.post_form (codes "client_id")))) [
        | inr (e, refused) ↦ absurd (ground arith)
        | inl (client, auth) ↦
            let same : exchange p server now for_access for_refresh client (sent_code r)
                  (sent_redirect r) (sent_verifier r) st
                ≡ token_authorization_code p server now for_access for_refresh r st =
              ground arith in
            subst (λ q. IsExchange now for_access for_refresh r st q.0 (token_set t)) same
              (exchange-IsExchange now for_access for_refresh r st client t
                (authenticate_client-IsAuthenticated p server r client auth)
                (ap (λ q. q.1) same ∙ h))
      ]

  -- Tokens are issued for a code only to an authenticated client, before the code expires, and if the
  -- code was issued to that client, for the redirect URI sent and for the S256 challenge of the
  -- verifier sent; they are those of the code's subject and scope, and the code is gone then.
  pub handle_token-IsExchange :
      (now : ℕ) (for_access for_refresh : Random) (r : Request) (st : State B) (t : TokenResponse)
      → IsCodeRequest r
      → (handle_token p server now for_access for_refresh r st).1 ≡ token_set t
      → IsExchange now for_access for_refresh r st
          (handle_token p server now for_access for_refresh r st).0
          (token_set t)
  handle_token-IsExchange now for_access for_refresh r st t c h =
      let same = code_request-eq now for_access for_refresh r st c in
      subst (λ q. IsExchange now for_access for_refresh r st q.0 (token_set t)) (sym same)
        (token_code-IsExchange now for_access for_refresh r st t (ap (λ q. q.1) (sym same) ∙ h))

  -- An authenticated request for a code that is not empty, has not expired and was issued to the
  -- client, for the redirect URI sent and for the verifier's challenge is answered with what
  -- issueTokenSet makes of the code's subject and scope, and consumes the code.
  pub handle_token_redeems :
      (now : ℕ) (for_access for_refresh : Random) (r : Request) (st : State B) (client : Client)
      (ac : AuthCode)
      → IsCodeRequest r
      → sent_code r ≢ []
      → IsAuthenticated p server r client
      → IsRedeemable p server now r st client ac
      → handle_token p server now for_access for_refresh r st ≡ (
          let issued =
            issue_token_set p server now for_access for_refresh client ac.subject ac.scope ac.nonce
              ac.auth_time st.world in
          (record { codes = delete (sent_code r) st.codes; world = issued.0 }, issued.1))
  unfolding token_authorization_code
  handle_token_redeems now for_access for_refresh r st client ac c sent auth h =
      let authenticated = authenticate_client_complete p server r client auth in
      let some_verifier = IsVerifier-ne-nil (sent_verifier r) h.verifier in
      let entered : token_authorization_code p server now for_access for_refresh r st
          ≡ exchange p server now for_access for_refresh client (sent_code r) (sent_redirect r)
              (sent_verifier r) st =
        ground (arith, eq_iff (sent_code r) [], eq_iff (sent_verifier r) []) in
      code_request-eq now for_access for_refresh r st c
      ∙ entered
      ∙ exchange-passed now for_access for_refresh client (sent_code r) (sent_redirect r)
          (sent_verifier r) st ac h.known (check_code_complete p server now r st client ac h)
