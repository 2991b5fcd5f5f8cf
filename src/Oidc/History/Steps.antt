-- ===== src/Oidc/History/Steps.antt =====
-- main.go: what a history of calls does to the keys and the table.
use micro_identity_sidecar.Prelude.{
  ℕ, ◌≡◌, ◌⊎◌, ◌||◌, sym, subst, List, [], ◌∷◌, Bytes, ◌==◌, codes, arith, All, Option-cases,
  Result-cases, inl, inr, Bool-cases,
}
use micro_identity_sidecar.Prelude.Map.{get}
use micro_identity_sidecar.Platform.{Platform}
use micro_identity_sidecar.Keys.{Random}
use micro_identity_sidecar.Session.{Session, Backend, World}
use micro_identity_sidecar.Session.Opaque as Opaque
use micro_identity_sidecar.Session.Bridge as Bridge
use micro_identity_sidecar.Session.Bridge.{
  Bridge, store_for, mode_stateful, mode_stateless, sidecar_bridge,
}
use micro_identity_sidecar.Oidc.Clients.{Client, ClientRegistry}
use micro_identity_sidecar.Oidc.Users.{UserStore}
use micro_identity_sidecar.Oidc.Server.{Config, Server, State, Request, value}
use micro_identity_sidecar.Oidc.Issue.{authenticate_client}
use micro_identity_sidecar.Oidc.Token.{
  check_code, exchange, token_authorization_code, token_refresh, rotate_refresh, renew,
  handle_token,
}
use micro_identity_sidecar.Oidc.Token.Conditions.{sent_code, sent_redirect, sent_verifier}
use micro_identity_sidecar.Oidc.Authorize.{handle_authorize, authorize_process_login, grant}
use micro_identity_sidecar.Oidc.Resources.{handle_revoke, revoke_everywhere}
use micro_identity_sidecar.Oidc.History.Tables.{
  KeptByCreate, KeptByRevoke, KeptBySweep, KeptByRotation, issue-keeps,
}
use micro_identity_sidecar.Oidc.History.{
  sidecar_server, Call, tokens, authorizes, revokes, sweeps, rotates, step, run,
}

module _ (p : Platform) {B : Type 0} (ops : Backend B) (cfg : Config) (clients : ClientRegistry)
    (users : UserStore) (Q : World B → Type 0) where
  abbrev server : Server B
  server = sidecar_server p ops cfg clients users

  exchange-keeps :
      (now : ℕ) (for_access for_refresh : Random) (client : Client) (code uri verifier : Bytes)
      (st : State B)
      → KeptByCreate p ops Q for_access
      → KeptByCreate p ops Q for_refresh
      → Q st.world
      → Q (exchange p server now for_access for_refresh client code uri verifier st).0.world
  unfolding exchange
  exchange-keeps now for_access for_refresh client code uri verifier st keep keep_too h =
      elim (Option-cases (get code st.codes)) [
        | inl missing ↦ rw (missing, exchange) h
        | inr (ac, known) ↦ elim (Option-cases (check_code p server now client uri verifier ac)) [
          | inl passed ↦
              rw (known, exchange, passed)
                (issue-keeps p ops cfg clients users Q now for_access for_refresh client ac.subject
                  ac.scope ac.nonce ac.auth_time st.world keep keep_too h)
          | inr (refusal, refused) ↦ rw (known, exchange, refused) h
        ]
      ]

  renew-keeps :
      (now : ℕ) (for_access for_refresh : Random) (client : Client) (token : Bytes) (s : Session)
      (st : State B)
      → KeptByCreate p ops Q for_access
      → KeptByCreate p ops Q for_refresh
      → Q (Opaque.revoke p ops cfg.refresh_token_ttl token st.world).0
      → Q (renew p server now for_access for_refresh client token s st).0.world
  unfolding renew sidecar_server
  renew-keeps now for_access for_refresh client token s st keep keep_too h =
      issue-keeps p ops cfg clients users Q now for_access for_refresh client s.subject s.scope []
        s.issued_at _ keep keep_too h

  rotate_refresh-keeps :
      (now : ℕ) (for_access for_refresh : Random) (client : Client) (token : Bytes) (st : State B)
      → KeptByCreate p ops Q for_access
      → KeptByCreate p ops Q for_refresh
      → KeptByRevoke p ops Q
      → Q st.world
      → Q (rotate_refresh p server now for_access for_refresh client token st).0.world
  unfolding rotate_refresh
  rotate_refresh-keeps now for_access for_refresh client token st keep keep_too revoked h =
      elim (Result-cases (server.refresh_store.validate now token st.world)) [
        | inr (e, unknown) ↦ rw (unknown, rotate_refresh) h
        | inl (s, found) ↦ elim (Bool-cases (s.client_id == client.id)) [
          | inl same ↦
              rw (found, rotate_refresh, same)
                (renew-keeps now for_access for_refresh client token s st keep keep_too
                  (revoked cfg.refresh_token_ttl token st.world h))
          | inr other ↦ rw (found, rotate_refresh, other) h
        ]
      ]

  -- A token request leaves the state alone, or gets as far as a code or a refresh token.
  token-cases :
      (now : ℕ) (for_access for_refresh : Random) (r : Request) (st : State B)
      → ((handle_token p server now for_access for_refresh r st).0 ≡ st)
        ⊎ ((client : Client) × ((handle_token p server now for_access for_refresh r st).0
              ≡ (exchange p server now for_access for_refresh client
                  (sent_code r)
                  (sent_redirect r)
                  (sent_verifier r)
                  st).0))
        ⊎ ((client : Client) × ((handle_token p server now for_access for_refresh r st).0
              ≡ (rotate_refresh p server now for_access for_refresh client
                  (value r.post_form (codes "refresh_token"))
                  st).0))
  unfolding handle_token token_authorization_code token_refresh
  token-cases now for_access for_refresh r st =
      elim (Result-cases (authenticate_client p server r (value r.post_form (codes "client_id")))) [
        | inr (e, refused) ↦ inl (ground arith)
        | inl (client, auth) ↦ elim (Bool-cases (r.method == codes "POST")) [
          | inr other ↦ inl (ground arith)
          | inl posted ↦ elim (Bool-cases r.parses) [
            | inr garbled ↦ inl (ground arith)
            | inl parsed ↦
                elim (Bool-cases
                  (value r.post_form (codes "grant_type") == codes "authorization_code")) [
                    | inl code_grant ↦
                        elim (Bool-cases (sent_code r == [] || sent_verifier r == [])) [
                          | inl missing ↦ inl (ground arith)
                          | inr sent ↦ inr (inl (client, ground arith))
                        ]
                    | inr other_grant ↦
                        elim (Bool-cases
                          (value r.post_form (codes "grant_type") == codes "refresh_token")) [
                            | inr unknown ↦ inl (ground arith)
                            | inl refresh_grant ↦
                                elim (Bool-cases
                                  (value r.post_form (codes "refresh_token") == [])) [
                                    | inl missing ↦ inl (ground arith)
                                    | inr sent ↦ inr (inr (client, ground arith))
                                  ]
                          ]
                  ]
          ]
        ]
      ]

  handle_token-keeps :
      (now : ℕ) (for_access for_refresh : Random) (r : Request) (st : State B)
      → KeptByCreate p ops Q for_access
      → KeptByCreate p ops Q for_refresh
      → KeptByRevoke p ops Q
      → Q st.world
      → Q (handle_token p server now for_access for_refresh r st).0.world
  handle_token-keeps now for_access for_refresh r st keep keep_too revoked h =
      elim (token-cases now for_access for_refresh r st) [
        | inl same ↦ subst (λ s. Q s.world) (sym same) h
        | inr (inl (client, same)) ↦
            subst (λ s. Q s.world) (sym same)
              (exchange-keeps now for_access for_refresh client _ _ _ st keep keep_too h)
        | inr (inr (client, same)) ↦
            subst (λ s. Q s.world) (sym same)
              (rotate_refresh-keeps now for_access for_refresh client _ st keep keep_too revoked h)
      ]

  -- The authorization endpoint issues codes only.
  handle_authorize-world :
      (now : ℕ) (random : Random) (r : Request) (st : State B)
      → (handle_authorize server now random r st).0.world ≡ st.world
  unfolding handle_authorize authorize_process_login grant
  handle_authorize-world now random r st = ground arith

  revoke_everywhere-keeps :
      (token : Bytes) (st : State B)
      → KeptByRevoke p ops Q
      → Q st.world
      → Q (revoke_everywhere p server token st).world
  unfolding revoke_everywhere sidecar_server sidecar_bridge Bridge.revoke store_for ◌==◌
  revoke_everywhere-keeps token st revoked h =
      revoked cfg.stateful_ttl token _ (revoked cfg.refresh_token_ttl token st.world h)

  revoke-cases :
      (r : Request) (st : State B)
      → ((handle_revoke p server r st).0 ≡ st)
        ⊎ ((handle_revoke p server r st).0
            ≡ revoke_everywhere p server (value r.post_form (codes "token")) st)
  unfolding handle_revoke
  revoke-cases r st =
      elim (Result-cases (authenticate_client p server r (value r.post_form (codes "client_id")))) [
        | inr (e, refused) ↦ inl (ground arith)
        | inl (client, auth) ↦ elim (Bool-cases (r.method == codes "POST")) [
          | inr other ↦ inl (ground arith)
          | inl posted ↦ elim (Bool-cases r.parses) [
            | inr garbled ↦ inl (ground arith)
            | inl parsed ↦ elim (Bool-cases (value r.post_form (codes "token") == [])) [
              | inl missing ↦ inl (ground arith)
              | inr sent ↦ inr (ground arith)
            ]
          ]
        ]
      ]

  handle_revoke-keeps :
      (r : Request) (st : State B)
      → KeptByRevoke p ops Q
      → Q st.world
      → Q (handle_revoke p server r st).0.world
  handle_revoke-keeps r st revoked h = elim (revoke-cases r st) [
    | inl same ↦ subst (λ s. Q s.world) (sym same) h
    | inr done ↦
        subst (λ s. Q s.world) (sym done)
          (revoke_everywhere-keeps (value r.post_form (codes "token")) st revoked h)
  ]

  -- What the random source gives to a call.
  abbrev pub KeptByRandom : Call → Type 0
  KeptByRandom (tokens now for_access for_refresh r) =
      KeptByCreate p ops Q for_access × KeptByCreate p ops Q for_refresh
  KeptByRandom (authorizes now random r) = Unit
  KeptByRandom (revokes r) = Unit
  KeptByRandom (sweeps now) = Unit
  KeptByRandom (rotates events) = KeptByRotation p ops Q events

  step-keeps :
      (c : Call) (st : State B)
      → KeptByRandom c
      → KeptByRevoke p ops Q
      → KeptBySweep p ops Q
      → Q st.world
      → Q (step p ops server c st).world
  unfolding step
  step-keeps (tokens now for_access for_refresh r) st (keep, keep_too) revoked swept h =
      handle_token-keeps now for_access for_refresh r st keep keep_too revoked h
  step-keeps (authorizes now random r) st k revoked swept h =
      subst (λ w. Q w) (sym (handle_authorize-world now random r st)) h
  step-keeps (revokes r) st k revoked swept h = handle_revoke-keeps r st revoked h
  step-keeps (sweeps now) st k revoked swept h = swept now st.world h
  step-keeps (rotates events) st k revoked swept h = k st.world h

  pub run-keeps :
      (cs : List Call) (st : State B)
      → All KeptByRandom cs
      → KeptByRevoke p ops Q
      → KeptBySweep p ops Q
      → Q st.world
      → Q (run p ops server cs st).world
  unfolding run
  run-keeps [] st k revoked swept h = h
  run-keeps (c ∷ cs) st k revoked swept h =
      run-keeps cs (step p ops server c st) k.1 revoked swept (step-keeps c st k.0 revoked swept h)
