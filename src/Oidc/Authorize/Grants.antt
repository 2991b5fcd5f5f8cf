-- ===== src/Oidc/Authorize/Grants.antt =====
-- authorize.go: what a redirect with a code stands for.
use micro_identity_sidecar.Prelude.{
  ℕ, ◌≡◌, ◌≢◌, refl, sym, subst, true, some, [], Bytes, ◌==◌, eq_iff, codes, ok, if◌then◌else◌,
  arith, ap, ◌∙◌, Option-cases, Result-cases, inl, inr,
}
use micro_identity_sidecar.Prelude.Map.{get, get-put}
use micro_identity_sidecar.Keys.{Random}
use micro_identity_sidecar.Pkce.{verify_method, method_s256}
use micro_identity_sidecar.Oidc.Clients.{redirect_allowed, lookup}
use micro_identity_sidecar.Oidc.Server.{
  Server, State, Request, redirect, form_value, prune_expired_codes,
}
use micro_identity_sidecar.Oidc.Authorize.{
  AuthRequest, parameter, random_token, granted_code, valid_request, validate_auth_request, grant,
  authorize_show_login, authorize_process_login, handle_authorize,
}

module _ {B : Type 0} (server : Server B) where
  -- A request of a registered client for the code flow with PKCE by S256.
  pub record IsRequest (r : Request) (req : AuthRequest) : Type 0 where
    pub registered : lookup (parameter r (codes "client_id")) server.clients ≡ some req.client
    pub allowed : redirect_allowed req.client req.redirect_uri ≡ true
    code_flow : parameter r (codes "response_type") ≡ codes "code"
    challenged : req.code_challenge ≢ []
    s256 : req.code_challenge_method ≡ method_s256
    pub as_sent : req ≡ valid_request req.client r

  validate_auth_request-IsRequest :
      (r : Request) (req : AuthRequest) → validate_auth_request server r ≡ ok req → IsRequest r req
  unfolding validate_auth_request verify_method
  validate_auth_request-IsRequest r req h =
      elim (Option-cases (lookup (parameter r (codes "client_id")) server.clients)) [
        | inl missing ↦ absurd (ground arith)
        | inr (client, at) ↦
            let same : valid_request client r ≡ req = ground arith in
            subst (IsRequest r) same (record {
              registered = at;
              allowed = ground arith;
              code_flow =
                  ground (arith, eq_iff (parameter r (codes "response_type")) (codes "code"));
              challenged = ground (arith, eq_iff (parameter r (codes "code_challenge")) []);
              s256 =
                  ground (arith, eq_iff (parameter r (codes "code_challenge_method")) method_s256);
              as_sent = refl;
            })
      ]

  -- A login that put the code `code` into the state.
  pub record IsLogin (now : ℕ) (random : Random) (r : Request) (st after : State B)
      (uri code state : Bytes) : Type 0 where
    pub req : AuthRequest
    pub request : IsRequest r req
    pub posted : r.method ≡ codes "POST"
    pub subject : Bytes
    pub authenticated :
        server.users.authenticate
          (form_value r (codes "username"))
          (form_value r (codes "password"))
        ≡ some subject
    pub spelled : random_token random ≡ some code
    pub destination : uri ≡ req.redirect_uri
    echoed : state ≡ req.state
    pub world : after.world ≡ st.world
    pub codes_after :
        (k : Bytes)
        → get k after.codes ≡ (
            if code == k
            then some (granted_code req code subject now server.cfg.auth_code_ttl)
            else get k (prune_expired_codes now st.codes))

  posted-IsLogin :
      (now : ℕ) (random : Random) (r : Request) (st : State B) (uri code state : Bytes)
      → r.method ≡ codes "POST"
      → (authorize_process_login server now random r st).1 ≡ redirect uri code state
      → IsLogin now random r st (authorize_process_login server now random r st).0 uri code state
  unfolding authorize_process_login grant
  posted-IsLogin now random r st uri code state posted h =
      elim (Result-cases (validate_auth_request server r)) [
        | inr (e, refused) ↦ absurd (ground arith)
        | inl (req, valid) ↦
            elim (Option-cases (
              server.users.authenticate (form_value r (codes "username"))
                (form_value r (codes "password")))) [
                  | inl unknown ↦ absurd (ground arith)
                  | inr (subject, known) ↦ elim (Option-cases (random_token random)) [
                    | inl failed ↦ absurd (ground arith)
                    | inr (spelled, read) ↦ record {
                      req = req;
                      request = validate_auth_request-IsRequest r req valid;
                      posted = posted;
                      subject = subject;
                      authenticated = known;
                      spelled = ground arith;
                      destination = ground arith;
                      echoed = ground arith;
                      world = ground arith;
                      codes_after = λ k.
                          let same : spelled ≡ code = ground arith in
                          ground (
                            arith,
                            get-put spelled k
                                (granted_code req spelled subject now server.cfg.auth_code_ttl)
                                (prune_expired_codes now st.codes),
                          );
                    }
                  ]
                ]
      ]

  -- Whenever /authorize redirects with a code, a registered client asked for it by POST at one of its
  -- redirect URIs, in the code flow with an S256 challenge, and the resource owner authenticated;
  -- the code stands for just that request, and any other code is what pruning leaves.
  pub handle_authorize-IsLogin :
      (now : ℕ) (random : Random) (r : Request) (st : State B) (uri code state : Bytes)
      → (handle_authorize server now random r st).1 ≡ redirect uri code state
      → IsLogin now random r st (handle_authorize server now random r st).0 uri code state
  unfolding handle_authorize authorize_show_login
  handle_authorize-IsLogin now random r st uri code state h =
      let posted : r.method ≡ codes "POST" = elim (Result-cases (validate_auth_request server r)) [
        | inl (req, valid) ↦ ground (arith, eq_iff r.method (codes "POST"))
        | inr (e, refused) ↦ ground (arith, eq_iff r.method (codes "POST"))
      ] in
      let same : handle_authorize server now random r st
          ≡ authorize_process_login server now random r st =
        ground (arith, eq_iff r.method (codes "POST"), eq_iff r.method (codes "GET")) in
      subst (λ q. IsLogin now random r st q.0 uri code state) (sym same)
        (posted-IsLogin now random r st uri code state posted (ap (λ q. q.1) (sym same) ∙ h))
