-- ===== src/Oidc/History/Codes.antt =====
-- token.go: an authorization code is used once.
use micro_identity_sidecar.Prelude.{
  ℕ, ◌≡◌, ◌≢◌, none, some, List, [], ◌∷◌, Bytes, ◌==◌, eq_iff, codes, if◌then◌else◌, arith, All, ap,
  ◌∙◌, Option-cases, Result-cases, inl, inr, ltb,
}
use micro_identity_sidecar.Prelude.Map.{get, get-delete, get-put, get-delete_where-none}
use micro_identity_sidecar.Platform.{Platform}
use micro_identity_sidecar.Keys.{Random}
use micro_identity_sidecar.Session.{Backend}
use micro_identity_sidecar.Oidc.Clients.{Client}
use micro_identity_sidecar.Oidc.Server.{
  AuthCode, Server, State, Request, TokenResponse, token_set, value, form_value,
  prune_expired_codes,
}
use micro_identity_sidecar.Oidc.Issue.{authenticate_client}
use micro_identity_sidecar.Oidc.Token.{
  check_code, exchange, token_authorization_code, token_refresh, rotate_refresh, renew,
  handle_token,
}
use micro_identity_sidecar.Oidc.Token.Conditions.{
  sent_code, sent_verifier, sent_redirect, IsCodeRequest, IsAuthenticated,
  authenticate_client_complete,
}
use micro_identity_sidecar.Oidc.Token.Exchange.{code_request-eq, handle_token-IsExchange}
use micro_identity_sidecar.Oidc.Authorize.{
  AuthRequest, random_token, granted_code, validate_auth_request, grant, authorize_process_login,
  handle_authorize,
}
use micro_identity_sidecar.Oidc.Resources.{handle_revoke, revoke_everywhere}
use micro_identity_sidecar.Oidc.History.{
  Call, tokens, authorizes, revokes, sweeps, rotates, step, run,
}

-- The random source does not spell this code.
abbrev pub AvoidsCode : Bytes → Call → Type 0
AvoidsCode code (tokens now for_access for_refresh r) = Unit
AvoidsCode code (authorizes now random r) = random_token random ≢ some code
AvoidsCode code (revokes r) = Unit
AvoidsCode code (sweeps now) = Unit
AvoidsCode code (rotates events) = Unit

module _ (p : Platform) {B : Type 0} (ops : Backend B) (server : Server B) where
  -- What an exchange leaves of the codes, whatever it answers.
  exchange-codes :
      (now : ℕ) (for_access for_refresh : Random) (client : Client) (code uri verifier : Bytes)
      (st : State B) (k : Bytes)
      → get k (exchange p server now for_access for_refresh client code uri verifier st).0.codes
        ≡ (if code == k then none else get k st.codes)
  unfolding exchange
  exchange-codes now for_access for_refresh client code uri verifier st k =
      elim (Option-cases (get code st.codes)) [
        | inl missing ↦ ground (arith, eq_iff code k)
        | inr (ac, known) ↦ elim (Option-cases (check_code p server now client uri verifier ac)) [
          | inl passed ↦ ground (arith, get-delete code k st.codes)
          | inr (refusal, refused) ↦ ground (arith, get-delete code k st.codes)
        ]
      ]

  refresh-codes :
      (now : ℕ) (for_access for_refresh : Random) (r : Request) (st : State B)
      → (token_refresh p server now for_access for_refresh r st).0.codes ≡ st.codes
  unfolding token_refresh rotate_refresh renew
  refresh-codes now for_access for_refresh r st = ground arith

  token_absent :
      (now : ℕ) (for_access for_refresh : Random) (r : Request) (st : State B) (k : Bytes)
      → get k st.codes ≡ none
      → get k (handle_token p server now for_access for_refresh r st).0.codes ≡ none
  unfolding handle_token token_authorization_code
  token_absent now for_access for_refresh r st k h =
      elim (Result-cases (authenticate_client p server r (value r.post_form (codes "client_id")))) [
        | inl (client, auth) ↦ ground (
          arith,
          refresh-codes now for_access for_refresh r st,
          exchange-codes now for_access for_refresh client (sent_code r) (sent_redirect r)
              (sent_verifier r) st k,
        )
        | inr (e, refused) ↦ ground (arith, refresh-codes now for_access for_refresh r st)
      ]

  grant_absent :
      (now : ℕ) (code subject : Bytes) (req : AuthRequest) (st : State B) (k : Bytes)
      → code ≢ k
      → get k st.codes ≡ none
      → get k (grant server now code subject req st).0.codes ≡ none
  unfolding grant prune_expired_codes
  grant_absent now code subject req st k other h = ground (
    arith,
    get-put code k (granted_code req code subject now server.cfg.auth_code_ttl)
        (prune_expired_codes now st.codes),
    get-delete_where-none (λ (c : AuthCode). ltb c.expires_at now) k st.codes h,
    eq_iff code k,
  )

  authorize_absent :
      (now : ℕ) (random : Random) (r : Request) (st : State B) (k : Bytes)
      → random_token random ≢ some k
      → get k st.codes ≡ none
      → get k (handle_authorize server now random r st).0.codes ≡ none
  unfolding handle_authorize authorize_process_login
  authorize_absent now random r st k other h =
      elim (Result-cases (validate_auth_request server r)) [
        | inr (e, refused) ↦ ground arith
        | inl (req, valid) ↦
            elim (Option-cases (
              server.users.authenticate (form_value r (codes "username"))
                (form_value r (codes "password")))) [
                  | inl unknown ↦ ground arith
                  | inr (subject, knows) ↦ elim (Option-cases (random_token random)) [
                    | inl failed ↦ ground arith
                    | inr (code, spelled) ↦
                        let new : code ≢ k = λ same. other (spelled ∙ ap some same) in
                        ground (arith, grant_absent now code subject req st k new h)
                  ]
                ]
      ]

  pub step_absent :
      (c : Call) (st : State B) (k : Bytes)
      → AvoidsCode k c
      → get k st.codes ≡ none
      → get k (step p ops server c st).codes ≡ none
  unfolding step handle_revoke revoke_everywhere
  step_absent (tokens now for_access for_refresh r) st k a h =
      token_absent now for_access for_refresh r st k h
  step_absent (authorizes now random r) st k a h = authorize_absent now random r st k a h
  step_absent (revokes r) st k a h =
      elim (Result-cases (authenticate_client p server r (value r.post_form (codes "client_id")))) [
        | inl (client, auth) ↦ ground arith
        | inr (e, refused) ↦ ground arith
      ]
  step_absent (sweeps now) st k a h = h
  step_absent (rotates events) st k a h = h

  run_absent :
      (cs : List Call) (st : State B) (k : Bytes)
      → All (AvoidsCode k) cs
      → get k st.codes ≡ none
      → get k (run p ops server cs st).codes ≡ none
  unfolding run
  run_absent [] st k a h = h
  run_absent (c ∷ cs) st k a h =
      run_absent cs (step p ops server c st) k a.1 (step_absent c st k a.0 h)

  -- An attempt by an authenticated client takes the code.
  attempt_absent :
      (now : ℕ) (for_access for_refresh : Random) (r : Request) (st : State B) (client : Client)
      → IsCodeRequest r
      → sent_code r ≢ []
      → sent_verifier r ≢ []
      → IsAuthenticated p server r client
      → get (sent_code r) (handle_token p server now for_access for_refresh r st).0.codes ≡ none
  unfolding token_authorization_code
  attempt_absent now for_access for_refresh r st client c sent verifier auth =
      let authenticated = authenticate_client_complete p server r client auth in
      ap (λ q. get (sent_code r) q.0.codes)
        (code_request-eq p server now for_access for_refresh r st c)
      ∙ ground (
        arith,
        exchange-codes now for_access for_refresh client (sent_code r) (sent_redirect r)
            (sent_verifier r) st (sent_code r),
        eq_iff (sent_code r) [],
        eq_iff (sent_verifier r) [],
        eq_iff (sent_code r) (sent_code r),
      )

  -- Once an authenticated client has presented a code with a verifier, whatever the answer was, no
  -- request for that code is ever answered with tokens again: not after any history of requests,
  -- sweeps and rotations in which the random source does not spell that code anew.
  pub code_used_once :
      (now later : ℕ) (for_access for_refresh again_access again_refresh : Random)
      (r again : Request) (st : State B) (client : Client) (cs : List Call) (t : TokenResponse)
      → IsCodeRequest r
      → sent_code r ≢ []
      → sent_verifier r ≢ []
      → IsAuthenticated p server r client
      → All (AvoidsCode (sent_code r)) cs
      → IsCodeRequest again
      → sent_code again ≡ sent_code r
      → (handle_token p server later again_access again_refresh again
          (run p ops server cs (handle_token p server now for_access for_refresh r st).0)).1
        ≢ token_set t
  code_used_once now later for_access for_refresh again_access again_refresh r again st client cs t
        c sent verifier auth a c' same h =
      let spent =
        run_absent cs (handle_token p server now for_access for_refresh r st).0 (sent_code r) a
          (attempt_absent now for_access for_refresh r st client c sent verifier auth) in
      let e = handle_token-IsExchange p server later again_access again_refresh again _ t c' h in
      let known = e.redeemable.known in absurd (cc)
