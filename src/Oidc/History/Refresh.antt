-- ===== src/Oidc/History/Refresh.antt =====
-- token.go: the refresh grant, and that a refresh token is used once.
use micro_identity_sidecar.Prelude.{
  ℕ, ◌≡◌, sym, subst, true, [], Bytes, eq_iff, codes, ok, arith, ap, ◌∙◌, Result-cases, inl, inr,
}
use micro_identity_sidecar.Platform.{Platform}
use micro_identity_sidecar.Keys.{Random}
use micro_identity_sidecar.Session.{Session, Backend}
use micro_identity_sidecar.Session.Opaque as Opaque
use micro_identity_sidecar.Session.Opaque.{hash_token, or_not_found}
use micro_identity_sidecar.Oidc.Clients.{Client, ClientRegistry}
use micro_identity_sidecar.Oidc.Users.{UserStore}
use micro_identity_sidecar.Oidc.Server.{
  Config, Server, State, Request, TokenResponse, Response, token_set, value,
}
use micro_identity_sidecar.Oidc.Issue.{issue_token_set, authenticate_client}
use micro_identity_sidecar.Oidc.Token.{token_refresh, rotate_refresh, renew, handle_token}
use micro_identity_sidecar.Oidc.Token.Conditions.{
  IsAuthenticated, authenticate_client-IsAuthenticated,
}
use micro_identity_sidecar.Oidc.History.{sidecar_server}

abbrev pub sent_refresh : Request → Bytes
sent_refresh r = value r.post_form (codes "refresh_token")

-- A request of the refresh grant.
pub record IsRefreshRequest (r : Request) : Type 0 where
  pub posted : r.method ≡ codes "POST"
  pub parsed : r.parses ≡ true
  pub grant_type : value r.post_form (codes "grant_type") ≡ codes "refresh_token"

module _ (p : Platform) {B : Type 0} (ops : Backend B) (cfg : Config) (clients : ClientRegistry)
    (users : UserStore) where
  abbrev server : Server B
  server = sidecar_server p ops cfg clients users

  -- Why a refresh is answered with tokens, and what it does.
  pub record IsRenewal (now : ℕ) (for_access for_refresh : Random) (r : Request)
      (st after : State B) (answer : Response) : Type 0 where
    pub client : Client
    pub authenticated : IsAuthenticated p server r client
    pub session : Session
    pub validated :
        Opaque.validate p ops cfg.refresh_token_ttl now (sent_refresh r) st.world ≡ ok session
    pub same_client : session.client_id ≡ client.id
    pub issued :
        issue_token_set p server now for_access for_refresh client session.subject session.scope []
          session.issued_at
          (Opaque.revoke p ops cfg.refresh_token_ttl (sent_refresh r) st.world).0
        ≡ (after.world, answer)

  rotate_refresh-IsRenewal :
      (now : ℕ) (for_access for_refresh : Random) (r : Request) (st : State B) (client : Client)
      (t : TokenResponse)
      → IsAuthenticated p server r client
      → (rotate_refresh p server now for_access for_refresh client (sent_refresh r) st).1
        ≡ token_set t
      → IsRenewal now for_access for_refresh r st
          (rotate_refresh p server now for_access for_refresh client (sent_refresh r) st).0
          (token_set t)
  unfolding rotate_refresh renew sidecar_server
  rotate_refresh-IsRenewal now for_access for_refresh r st client t auth h =
      elim (Result-cases
        (Opaque.validate p ops cfg.refresh_token_ttl now (sent_refresh r) st.world)) [
          | inr (e, unknown) ↦ absurd (ground arith)
          | inl (session, found) ↦
              let same_client : session.client_id ≡ client.id =
                ground (arith, eq_iff session.client_id client.id) in
              let done : rotate_refresh p server now for_access for_refresh client (sent_refresh r)
                    st
                  ≡ renew p server now for_access for_refresh client (sent_refresh r) session st =
                ground (arith, eq_iff session.client_id client.id) in
              let same_world = ap (λ q. q.0.world) done in
              let same_answer = sym (ap (λ q. q.1) done) ∙ h in
              record {
                client = client;
                authenticated = auth;
                session = session;
                validated = found;
                same_client = same_client;
                issued = λ i. (sym same_world i, same_answer i);
              }
        ]

  refresh_request-eq :
      (now : ℕ) (for_access for_refresh : Random) (r : Request) (st : State B)
      → IsRefreshRequest r
      → handle_token p server now for_access for_refresh r st
        ≡ token_refresh p server now for_access for_refresh r st
  unfolding handle_token
  refresh_request-eq now for_access for_refresh r st h =
      let posted = h.posted in
      let parsed = h.parsed in
      let grant_type = h.grant_type in
      ground (
        arith,
        eq_iff r.method (codes "POST"),
        eq_iff (value r.post_form (codes "grant_type")) (codes "authorization_code"),
        eq_iff (value r.post_form (codes "grant_type")) (codes "refresh_token"),
      )

  token_refresh-IsRenewal :
      (now : ℕ) (for_access for_refresh : Random) (r : Request) (st : State B) (t : TokenResponse)
      → (token_refresh p server now for_access for_refresh r st).1 ≡ token_set t
      → IsRenewal now for_access for_refresh r st
          (token_refresh p server now for_access for_refresh r st).0
          (token_set t)
  unfolding token_refresh
  token_refresh-IsRenewal now for_access for_refresh r st t h =
      elim (Result-cases (authenticate_client p server r (value r.post_form (codes "client_id")))) [
        | inr (e, refused) ↦ absurd (ground arith)
        | inl (client, auth) ↦
            let same : rotate_refresh p server now for_access for_refresh client (sent_refresh r) st
                ≡ token_refresh p server now for_access for_refresh r st =
              ground arith in
            subst (λ q. IsRenewal now for_access for_refresh r st q.0 (token_set t)) same
              (rotate_refresh-IsRenewal now for_access for_refresh r st client t
                (authenticate_client-IsAuthenticated p server r client auth)
                (ap (λ q. q.1) same ∙ h))
      ]

  -- A refresh is answered with tokens only to an authenticated client that presents a valid refresh
  -- token of its own; they carry the subject and the scope of that token, no more, and the token is
  -- revoked before they are issued.
  pub refresh-IsRenewal :
      (now : ℕ) (for_access for_refresh : Random) (r : Request) (st : State B) (t : TokenResponse)
      → IsRefreshRequest r
      → (handle_token p server now for_access for_refresh r st).1 ≡ token_set t
      → IsRenewal now for_access for_refresh r st
          (handle_token p server now for_access for_refresh r st).0
          (token_set t)
  refresh-IsRenewal now for_access for_refresh r st t c h =
      let same = refresh_request-eq now for_access for_refresh r st c in
      subst (λ q. IsRenewal now for_access for_refresh r st q.0 (token_set t)) (sym same)
        (token_refresh-IsRenewal now for_access for_refresh r st t (ap (λ q. q.1) (sym same) ∙ h))
