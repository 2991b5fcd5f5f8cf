-- ===== src/Oidc/History/Issuing.antt =====
-- token.go: what makes issueTokenSet succeed.
use micro_identity_sidecar.Prelude.{
  ℕ, ◌/◌, ◌≡◌, ◌⊎◌, refl, subst, ap, ◌∙◌, true, false, none, some, [], Bytes, ◌==◌, eq_iff, codes,
  ok, arith, Bool-cases, Option-cases, inl, inr,
}
use micro_identity_sidecar.Platform.{Platform, IsSound}
use micro_identity_sidecar.Go.Base64.RoundTrip.{IsBytes}
use micro_identity_sidecar.Jwt.Claims.{Claims}
use micro_identity_sidecar.Jwt.Claims.RoundTrip.{IsWritable}
use micro_identity_sidecar.Jwt.Token.{second, Signer, ed_signer, sign, eddsa, rs256, kid_of, b64}
use micro_identity_sidecar.Jwt.Token.Signing.{sign_ed-total}
use micro_identity_sidecar.Keys.{Random, Manager, Entry, signer, active_signer}
use micro_identity_sidecar.Keys.Invariant.{IsManaged}
use micro_identity_sidecar.Session.{Session, Backend, World}
use micro_identity_sidecar.Session.Opaque as Opaque
use micro_identity_sidecar.Session.Opaque.{hash_token, stamp}
use micro_identity_sidecar.Session.Stateless as Stateless
use micro_identity_sidecar.Session.Stateless.{id_for, random_id, claims_for}
use micro_identity_sidecar.Session.Stateless.RoundTrip.{
  IsIssuable, claims-IsWritable, id_for-utf8, active-utf8,
}
use micro_identity_sidecar.Session.Bridge as Bridge
use micro_identity_sidecar.Session.Bridge.{sidecar_bridge, store_for, mode_stateful, mode_stateless}
use micro_identity_sidecar.Oidc.Clients.{Client, ClientRegistry}
use micro_identity_sidecar.Oidc.Users.{UserStore}
use micro_identity_sidecar.Oidc.Server.{Config, Server, TokenResponse, token_set}
use micro_identity_sidecar.Oidc.Issue.{
  granted, access_token_ttl, has_scope, session_mode_for, id_claims, id_token_for, mint_id_token,
  refresh_token_for, finish_token_set, issue_token_set,
}
use micro_identity_sidecar.Oidc.History.Tables.{KeptByCreate, bridge-keeps}
use micro_identity_sidecar.Oidc.History.{sidecar_server}

-- A table that takes every row.
abbrev pub Accepts : {B : Type 0} → Backend B → Type 0
Accepts {B} ops = (now : ℕ) (k : Bytes) (s : Session) (b : B) → (ops.put now k s b).1 ≡ none

-- The mode of a client is one of the two if the default mode is.
pub mode_known :
    (cfg : Config) (client : Client)
    → (cfg.default_session_mode ≡ mode_stateless) ⊎ (cfg.default_session_mode ≡ mode_stateful)
    → (session_mode_for cfg client ≡ mode_stateless) ⊎ (session_mode_for cfg client ≡ mode_stateful)
unfolding session_mode_for
mode_known cfg client default = elim (Bool-cases (client.session_mode == mode_stateful)) [
  | inl stateful ↦ inr (ground (arith, stateful))
  | inr other ↦ elim (Bool-cases (client.session_mode == mode_stateless)) [
    | inl stateless ↦ inl (ground (arith, other, stateless))
    | inr neither ↦ elim default [
      | inl d ↦ inl (ground (arith, other, neither, d))
      | inr d ↦ inr (ground (arith, other, neither, d))
    ]
  ]
]

module _ (p : Platform) (sound : IsSound p) where
  ed_key :
      (e : Entry) (k : Signer)
      → e.alg ≡ eddsa
      → signer e ≡ some k
      → (kid : Bytes) × (key : Bytes) × (k ≡ ed_signer kid key)
  unfolding signer
  ed_key e k alg signs =
      let not_rsa : (e.alg == rs256) ≡ false = rw alg (unfold ◌==◌ in refl) in
      let is_ed : (e.alg == eddsa) ≡ true = (eq_iff e.alg eddsa).1 alg in
      elim (Option-cases e.ed_priv) [
        | inl missing ↦ absurd (ground (arith, not_rsa, is_ed, missing, signs))
        | inr (key, there) ↦ (e.kid, key, ground (arith, not_rsa, is_ed, there, signs))
      ]

  -- An Ed25519 manager in order signs every writable claim set.
  active_signs :
      (m : Manager) (c : Claims)
      → IsManaged p m
      → m.alg ≡ eddsa
      → IsWritable p c
      → (k : Signer) × (token : Bytes) × (active_signer m ≡ some k) × (sign p k c ≡ ok token)
  unfolding active_signer
  active_signs m c h alg w =
      let (kid, key, same) =
        ed_key m.active h.active.key (h.active.same_alg ∙ alg) h.active.signs in
      let text : p.is_utf8 (kid_of (ed_signer kid key)) ≡ true =
        subst (λ k. p.is_utf8 (kid_of k) ≡ true) same (active-utf8 p sound m h) in
      let (token, signed) = sign_ed-total p sound kid key c text w in
      (ed_signer kid key, token, h.active.signs ∙ ap some same, signed)

  module _ {B : Type 0} (ops : Backend B) (accepts : Accepts ops) (cfg : Config)
      (clients : ClientRegistry) (users : UserStore) where
    abbrev server : Server B
    server = sidecar_server p ops cfg clients users

    opaque_creates :
        (ttl now : ℕ) (r : Bytes) (s : Session) (w : World B)
        → (token : Bytes) × ((Opaque.create p ops ttl now (some r) s w).1 ≡ ok token)
    unfolding Opaque.create Opaque.store
    opaque_creates ttl now r s w = (
      b64 r,
      ground (arith, accepts now (hash_token p (b64 r)) (stamp p ttl now (b64 r) s) w.table),
    )

    jwt_creates :
        (now : ℕ) (r : Bytes) (s : Session) (w : World B)
        → IsManaged p w.keys
        → w.keys.alg ≡ eddsa
        → IsBytes r
        → IsIssuable p cfg.issuer cfg.stateless_ttl now s
        → (token : Bytes) × ((Stateless.create p cfg.issuer cfg.stateless_ttl now (some r) s w).1
            ≡ ok token)
    unfolding Stateless.create
    jwt_creates now r s w h alg bytes i = elim (Option-cases (id_for (some r) s)) [
      | inl nameless ↦ absurd (unfold id_for random_id in ground (arith, nameless))
      | inr (id, named) ↦
          let text = id_for-utf8 p sound (some r) s id bytes i.id named in
          let (k, token, active, signed) =
            active_signs w.keys (claims_for cfg.issuer cfg.stateless_ttl now id s) h alg
              (claims-IsWritable p sound cfg.issuer cfg.stateless_ttl now id s i text) in
          (token, ground (arith, named, active, signed))
    ]

    -- The bridge creates a session in either mode.
    bridge_creates :
        (mode : Bytes) (now : ℕ) (r : Bytes) (s : Session) (w : World B)
        → (mode ≡ mode_stateless) ⊎ (mode ≡ mode_stateful)
        → IsManaged p w.keys
        → w.keys.alg ≡ eddsa
        → IsBytes r
        → IsIssuable p cfg.issuer cfg.stateless_ttl now s
        → (token : Bytes) × ((Bridge.create server.bridge mode now (some r) s w).1 ≡ ok token)
    unfolding sidecar_server sidecar_bridge Bridge.create store_for ◌==◌
    bridge_creates mode now r s w (inl jwt) h alg bytes i =
        rw jwt (jwt_creates now r s w h alg bytes i)
    bridge_creates mode now r s w (inr opaque) h alg bytes i =
        rw opaque (opaque_creates cfg.stateful_ttl now r s w)

    -- What signing needs of the keys, and no creation changes.
    abbrev pub CanSign : World B → Type 0
    CanSign w = IsManaged p w.keys × (w.keys.alg ≡ eddsa)

    create-CanSign : (random : Random) → KeptByCreate p ops CanSign random
    unfolding Opaque.create Opaque.store
    create-CanSign none ttl now s w h = h
    create-CanSign (some r) ttl now s w h = h

    module _ (now : ℕ) (client : Client) (subject scope nonce : Bytes) (auth_time : ℕ)
        (writable : (has_scope scope (codes "openid") ≡ true)
          → IsWritable p (id_claims cfg users now client.id subject nonce auth_time)) where
      id_token_made :
          (w : World B)
          → CanSign w
          → (token : Bytes) × (id_token_for p server now client subject scope nonce auth_time w
              ≡ ok token)
      unfolding id_token_for mint_id_token sidecar_server
      id_token_made w (managed, alg) = elim (Bool-cases (has_scope scope (codes "openid"))) [
        | inr without ↦ ([], ground (arith, without))
        | inl openid ↦
            let (k, token, active, signed) =
              active_signs w.keys (id_claims cfg users now client.id subject nonce auth_time)
                managed alg (writable openid) in
            (token, ground (arith, openid, active, signed))
      ]

      refresh_token_made :
          (r : Bytes) (w : World B)
          → (token : Bytes) × ((refresh_token_for p server now (some r) client subject scope w).1
              ≡ ok token)
      unfolding refresh_token_for sidecar_server
      refresh_token_made r w = elim (Bool-cases (has_scope scope (codes "offline_access"))) [
        | inr without ↦ ([], ground (arith, without))
        | inl offline ↦
            let (token, made) =
              opaque_creates cfg.refresh_token_ttl now r (granted client subject scope) w in
            (token, rw (offline, refresh_token_for) made)
      ]

      finished :
          (r access : Bytes) (w : World B)
          → CanSign w
          → (t : TokenResponse) × ((finish_token_set p server now
                (some r)
                client
                subject
                scope
                nonce
                auth_time
                access
                w).1
              ≡ token_set t)
      unfolding finish_token_set sidecar_server
      finished r access w h =
          let (id_token, minted) = id_token_made w h in
          let (refresh, made) = refresh_token_made r w in
          let t : TokenResponse = record {
            access_token = access;
            token_type = codes "Bearer";
            expires_in = access_token_ttl cfg (session_mode_for cfg client) / second;
            id_token = id_token;
            refresh_token = refresh;
            scope = scope;
          } in
          (t, rw (minted, made, finish_token_set) refl)

      pub issued :
          (r r' : Bytes) (w : World B)
          → CanSign w
          → IsBytes r
          → IsIssuable p cfg.issuer cfg.stateless_ttl now (granted client subject scope)
          → (cfg.default_session_mode ≡ mode_stateless) ⊎ (cfg.default_session_mode ≡ mode_stateful)
          → (t : TokenResponse) × ((issue_token_set p server now
                (some r)
                (some r')
                client
                subject
                scope
                nonce
                auth_time
                w).1
              ≡ token_set t)
      unfolding issue_token_set sidecar_server
      issued r r' w h bytes i default =
          let mode : Bytes = session_mode_for cfg client in
          let s : Session = granted client subject scope in
          let (access, made) =
            bridge_creates mode now r s w (mode_known cfg client default) h.0 h.1 bytes i in
          let kept : CanSign (Bridge.create server.bridge mode now (some r) s w).0 =
            bridge-keeps p ops cfg clients users CanSign mode now (some r) s w
              (create-CanSign (some r)) h in
          let (t, done) =
            finished r' access (Bridge.create server.bridge mode now (some r) s w).0 kept in
          (t, rw (made, issue_token_set) done)
