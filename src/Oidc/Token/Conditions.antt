-- ===== src/Oidc/Token/Conditions.antt =====
-- token.go: the conditions of the code grant.
use micro_identity_sidecar.Prelude.{
  ℕ, ◌≤◌, ◌≡◌, ◌≢◌, ◌⊎◌, subst, true, none, some, Bytes, eq_iff, codes, ok, arith, Bool-cases,
  Option-cases, inl, inr,
}
use micro_identity_sidecar.Prelude.Map.{get}
use micro_identity_sidecar.Platform.{Platform}
use micro_identity_sidecar.Pkce as Pkce
use micro_identity_sidecar.Pkce.{challenge}
use micro_identity_sidecar.Pkce.Check.{IsVerifier, verify_iff}
use micro_identity_sidecar.Oidc.Clients.{Client, lookup}
use micro_identity_sidecar.Oidc.Server.{
  AuthCode, Server, State, Request, TokenResponse, token_set, value,
}
use micro_identity_sidecar.Oidc.Issue.{credentials, authenticate_client}
use micro_identity_sidecar.Oidc.Token.{check_code}

-- The values that an exchange sends.
abbrev pub sent_code : Request → Bytes
sent_code r = value r.post_form (codes "code")

abbrev pub sent_verifier : Request → Bytes
sent_verifier r = value r.post_form (codes "code_verifier")

abbrev pub sent_redirect : Request → Bytes
sent_redirect r = value r.post_form (codes "redirect_uri")

-- A request to exchange a code.
pub record IsCodeRequest (r : Request) : Type 0 where
  pub posted : r.method ≡ codes "POST"
  pub parsed : r.parses ≡ true
  pub grant_type : value r.post_form (codes "grant_type") ≡ codes "authorization_code"

module _ (p : Platform) {B : Type 0} (server : Server B) where
  -- The client is registered under the id that the request presents, and it is public or its secret
  -- is presented too.
  pub record IsAuthenticated (r : Request) (client : Client) : Type 0 where
    pub registered :
        lookup (credentials r (value r.post_form (codes "client_id"))).0 server.clients
        ≡ some client
    pub secret :
        (client.public ≡ true)
        ⊎ ((credentials r (value r.post_form (codes "client_id"))).1 ≡ client.secret)

  pub authenticate_client-IsAuthenticated :
      (r : Request) (client : Client)
      → authenticate_client p server r (value r.post_form (codes "client_id")) ≡ ok client
      → IsAuthenticated r client
  unfolding authenticate_client
  authenticate_client-IsAuthenticated r client h =
      elim (Option-cases
        (lookup (credentials r (value r.post_form (codes "client_id"))).0 server.clients)) [
          | inl missing ↦ absurd (ground arith)
          | inr (c, at) ↦
              let same : c ≡ client = ground arith in
              subst (IsAuthenticated r) same (record {
                registered = at;
                secret = elim (Bool-cases c.public) [
                  | inl is_public ↦ inl is_public
                  | inr confidential ↦ inr (
                      ground (
                        arith,
                        eq_iff (credentials r (value r.post_form (codes "client_id"))).1 c.secret,
                      ))
                ];
              })
        ]

  pub authenticate_client_complete :
      (r : Request) (client : Client)
      → IsAuthenticated r client
      → authenticate_client p server r (value r.post_form (codes "client_id")) ≡ ok client
  unfolding authenticate_client
  authenticate_client_complete r client h =
      let at = h.registered in
      elim h.secret [
        | inl is_public ↦ ground arith
        | inr same ↦
            ground (
              arith,
              eq_iff (credentials r (value r.post_form (codes "client_id"))).1 client.secret,
            )
      ]

  -- The code is known, has not expired, and was issued to the client, for the redirect URI and for
  -- the challenge of the verifier.
  pub record IsRedeemable (now : ℕ) (r : Request) (st : State B) (client : Client) (ac : AuthCode)
      : Type 0 where
    pub known : get (sent_code r) st.codes ≡ some ac
    pub in_time : now ≤ ac.expires_at
    pub same_client : ac.client_id ≡ client.id
    pub same_redirect : ac.redirect_uri ≡ sent_redirect r
    pub verifier : IsVerifier (sent_verifier r)
    pub proven : challenge p (sent_verifier r) ≡ ac.code_challenge

  pub check_code-none :
      (now : ℕ) (r : Request) (st : State B) (client : Client) (ac : AuthCode)
      → get (sent_code r) st.codes ≡ some ac
      → check_code p server now client (sent_redirect r) (sent_verifier r) ac ≡ none
      → IsRedeemable now r st client ac
  unfolding check_code
  check_code-none now r st client ac known h =
      let pkce : Pkce.verify p (sent_verifier r) ac.code_challenge ≡ none = ground arith in
      let (verifier, proven) = (verify_iff p (sent_verifier r) ac.code_challenge).0 pkce in
      record {
        known = known;
        in_time = ground arith;
        same_client = ground (arith, eq_iff ac.client_id client.id);
        same_redirect = ground (arith, eq_iff ac.redirect_uri (sent_redirect r));
        verifier = verifier;
        proven = proven;
      }

  pub check_code_complete :
      (now : ℕ) (r : Request) (st : State B) (client : Client) (ac : AuthCode)
      → IsRedeemable now r st client ac
      → check_code p server now client (sent_redirect r) (sent_verifier r) ac ≡ none
  unfolding check_code
  check_code_complete now r st client ac h =
      let pkce = (verify_iff p (sent_verifier r) ac.code_challenge).1 (h.verifier, h.proven) in
      let in_time = h.in_time in
      let same_client = h.same_client in
      let same_redirect = h.same_redirect in
      ground (arith, eq_iff ac.client_id client.id, eq_iff ac.redirect_uri (sent_redirect r))

  pub check_code-refusal :
      (now : ℕ) (client : Client) (uri verifier : Bytes) (ac : AuthCode) (t : TokenResponse)
      → check_code p server now client uri verifier ac ≢ some (token_set t)
  unfolding check_code
  check_code-refusal now client uri verifier ac t h =
      ground (arith, Pkce.verify p verifier ac.code_challenge)
