-- ===== src/Oidc/History/Tables.antt =====
-- token.go, revoke.go: what the handlers do to the keys and the table of stateful sessions.
use micro_identity_sidecar.Prelude.{
  ℕ, ◌≡◌, ◌⊎◌, List, sym, subst, Bytes, ◌==◌, codes, arith, Result-cases, inl, inr, Bool-cases,
}
use micro_identity_sidecar.Platform.{Platform}
use micro_identity_sidecar.Keys.{Random, Event, start_rotation}
use micro_identity_sidecar.Session.{Session, Backend, World}
use micro_identity_sidecar.Session.Opaque as Opaque
use micro_identity_sidecar.Session.Bridge as Bridge
use micro_identity_sidecar.Session.Bridge.{
  Bridge, store_for, mode_stateful, mode_stateless, sidecar_bridge,
}
use micro_identity_sidecar.Session.Bridge.Routing.{jwt-keeps}
use micro_identity_sidecar.Oidc.Clients.{Client, ClientRegistry}
use micro_identity_sidecar.Oidc.Users.{UserStore}
use micro_identity_sidecar.Oidc.Server.{Config, Server}
use micro_identity_sidecar.Oidc.Issue.{
  granted, has_scope, session_mode_for, id_token_for, refresh_token_for, finish_token_set,
  issue_token_set,
}
use micro_identity_sidecar.Oidc.History.{sidecar_server}

-- A property of the keys and the table, and what keeps it.
module _ (p : Platform) {B : Type 0} (ops : Backend B) (Q : World B → Type 0) where
  abbrev pub KeptByCreate : Random → Type 0
  KeptByCreate random =
      (ttl now : ℕ) (s : Session) (w : World B) → Q w → Q (Opaque.create p ops ttl now random s w).0

  abbrev pub KeptByRevoke : Type 0
  KeptByRevoke =
      (ttl : ℕ) (token : Bytes) (w : World B) → Q w → Q (Opaque.revoke p ops ttl token w).0

  abbrev pub KeptBySweep : Type 0
  KeptBySweep = (now : ℕ) (w : World B) → Q w → Q (Opaque.sweep p ops 0 now w)

  abbrev pub KeptByRotation : List Event → Type 0
  KeptByRotation events =
      (w : World B) → Q w → Q (record { keys = start_rotation p events w.keys; table = w.table })

module _ (p : Platform) {B : Type 0} (ops : Backend B) (cfg : Config) (clients : ClientRegistry)
    (users : UserStore) where
  abbrev server : Server B
  server = sidecar_server p ops cfg clients users

  -- The world of an outcome is the one before, or the one that a store left.
  bridge-world :
      (mode : Bytes) (now : ℕ) (random : Random) (s : Session) (w : World B)
      → ((Bridge.create server.bridge mode now random s w).0 ≡ w)
        ⊎ ((Bridge.create server.bridge mode now random s w).0
            ≡ (Opaque.create p ops cfg.stateful_ttl now random s w).0)
  unfolding sidecar_server sidecar_bridge Bridge.create store_for
  bridge-world mode now random s w = elim (Bool-cases (mode == mode_stateless)) [
    | inl jwt ↦ inl (ground (arith, jwt-keeps p cfg.issuer cfg.stateless_ttl now random s w))
    | inr other ↦ elim (Bool-cases (mode == mode_stateful)) [
      | inl opaque ↦ inr (ground arith)
      | inr unknown ↦ inl (ground arith)
    ]
  ]

  pub finish-world :
      (now : ℕ) (random : Random) (client : Client) (subject scope nonce : Bytes) (auth_time : ℕ)
      (access : Bytes) (w : World B)
      → ((finish_token_set p server now random client subject scope nonce auth_time access w).0 ≡ w)
        ⊎ ((finish_token_set p server now random client subject scope nonce auth_time access w).0
            ≡ (Opaque.create p ops cfg.refresh_token_ttl now random
                (granted client subject scope)
                w).0)
  unfolding finish_token_set refresh_token_for sidecar_server
  finish-world now random client subject scope nonce auth_time access w =
      elim (Result-cases (id_token_for p server now client subject scope nonce auth_time w)) [
        | inr (e, failed) ↦ inl (ground arith)
        | inl (token, minted) ↦ elim (Bool-cases (has_scope scope (codes "offline_access"))) [
          | inl offline ↦ inr (ground arith)
          | inr online ↦ inl (ground arith)
        ]
      ]

  module _ (Q : World B → Type 0) where
    pub bridge-keeps :
        (mode : Bytes) (now : ℕ) (random : Random) (s : Session) (w : World B)
        → KeptByCreate p ops Q random
        → Q w
        → Q (Bridge.create server.bridge mode now random s w).0
    bridge-keeps mode now random s w keep h = elim (bridge-world mode now random s w) [
      | inl same ↦ subst (λ v. Q v) (sym same) h
      | inr stored ↦ subst (λ v. Q v) (sym stored) (keep cfg.stateful_ttl now s w h)
    ]

    finish-keeps :
        (now : ℕ) (random : Random) (client : Client) (subject scope nonce : Bytes) (auth_time : ℕ)
        (access : Bytes) (w : World B)
        → KeptByCreate p ops Q random
        → Q w
        → Q (finish_token_set p server now random client subject scope nonce auth_time access w).0
    finish-keeps now random client subject scope nonce auth_time access w keep h =
        elim (finish-world now random client subject scope nonce auth_time access w) [
          | inl same ↦ subst (λ v. Q v) (sym same) h
          | inr stored ↦
              subst (λ v. Q v) (sym stored)
                (keep cfg.refresh_token_ttl now (granted client subject scope) w h)
        ]

    pub issue-keeps :
        (now : ℕ) (for_access for_refresh : Random) (client : Client) (subject scope nonce : Bytes)
        (auth_time : ℕ) (w : World B)
        → KeptByCreate p ops Q for_access
        → KeptByCreate p ops Q for_refresh
        → Q w
        → Q
            (issue_token_set p server now for_access for_refresh client subject scope nonce
              auth_time w).0
    unfolding issue_token_set
    issue-keeps now for_access for_refresh client subject scope nonce auth_time w keep keep_too h =
        let made =
          bridge-keeps (session_mode_for server.cfg client) now for_access
            (granted client subject scope) w keep h in
        elim (Result-cases
          (Bridge.create server.bridge (session_mode_for server.cfg client) now for_access
            (granted client subject scope) w).1) [
              | inl (access, done) ↦
                  rw (done, issue_token_set)
                    (finish-keeps now for_refresh client subject scope nonce auth_time access _
                      keep_too made)
              | inr (e, failed) ↦ rw (failed, issue_token_set) made
            ]
