-- ===== src/Oidc/History/IdToken.antt =====
-- token.go: what the id_token that /token hands out says, and who can verify it.
use micro_identity_sidecar.Prelude.{
  ℕ, ◌+◌, ◌≡◌, ◌≢◌, refl, sym, ap, ◌∙◌, true, none, some, List, [], Bytes, ltb, if◌then◌else◌,
  codes, ok, err, arith, Result-cases, Option-cases, inl, inr,
}
use micro_identity_sidecar.Prelude.Map.{IsMap}
use micro_identity_sidecar.Platform.{Platform, IsSound}
use micro_identity_sidecar.Jwt.Claims.{Claims}
use micro_identity_sidecar.Jwt.Claims.RoundTrip.{IsWritable, SameClaims}
use micro_identity_sidecar.Jwt.Token.{
  Signer, Verifier, expired, unix, sign, verify, verifier_of, kid_of, alg_of, peek_kid, check_times,
}
use micro_identity_sidecar.Jwt.Token.Signing.{IsReadAs, sign-IsReadAs}
use micro_identity_sidecar.Keys.{Random, Manager, Event, active_signer, verifier, start_rotation}
use micro_identity_sidecar.Keys.Invariant.{IsManaged, start_rotation-IsManaged}
use micro_identity_sidecar.Keys.Published.{Jwk, jwks}
use micro_identity_sidecar.Keys.Jwks.{jwk_at, jwks-verifier, verifier_jwk, published}
use micro_identity_sidecar.Keys.Reading.{jwk_key, jwk_key-published}
use micro_identity_sidecar.Keys.Rotation.{Within, active_survives}
use micro_identity_sidecar.Session.{Session, Backend, World}
use micro_identity_sidecar.Session.Opaque as Opaque
use micro_identity_sidecar.Session.Stateless.RoundTrip.{active-utf8}
use micro_identity_sidecar.Session.Bridge as Bridge
use micro_identity_sidecar.Oidc.Clients.{Client, ClientRegistry}
use micro_identity_sidecar.Oidc.Users.{UserStore}
use micro_identity_sidecar.Oidc.Server.{
  Config, Server, State, Request, TokenResponse, AuthCode, token_set,
}
use micro_identity_sidecar.Oidc.Issue.{
  granted, has_scope, session_mode_for, id_claims, mint_id_token, id_token_for, refresh_token_for,
  finish_token_set, issue_token_set,
}
use micro_identity_sidecar.Oidc.Token.{handle_token}
use micro_identity_sidecar.Oidc.Token.Conditions.{
  IsCodeRequest, IsAuthenticated, IsRedeemable, sent_code,
}
use micro_identity_sidecar.Oidc.Token.Exchange.{handle_token_redeems}
use micro_identity_sidecar.Oidc.History.Tables.{KeptByCreate, bridge-keeps}
use micro_identity_sidecar.Oidc.History.{sidecar_server}
use micro_identity_sidecar.Oidc.History.LoginClaims.{IsIdToken, id_claims-IsIdToken}

module _ (p : Platform) (sound : IsSound p) where
  -- A token whose kid is listed in the key set of `m`, and whose claims the key that is published
  -- there accepts, up to the second `end`.
  pub record IsVerifiable (m : Manager) (end : ℕ) (claims : Claims) (token : Bytes) : Type 0 where
    pub kid : Bytes
    pub alg : Bytes
    pub peeked : peek_kid p token ≡ ok (kid, alg)
    pub listed : Jwk
    pub at_kid : jwk_at kid (jwks p m) ≡ some listed
    pub key : Verifier
    pub read : jwk_key listed ≡ some key
    pub verified :
        (later : ℕ)
        → verify p later key token ≡ (if ltb end (unix later) then err expired else ok claims)

  -- The ten minutes of an id_token.
  check_times-id_claims :
      (cfg : Config) (users : UserStore) (now later : ℕ) (id subject nonce : Bytes) (auth_time : ℕ)
      (c : Claims)
      → SameClaims (id_claims cfg users now id subject nonce auth_time) c
      → check_times later c ≡ (if ltb (unix now + 600) (unix later) then err expired else ok c)
  unfolding check_times id_claims
  check_times-id_claims cfg users now later id subject nonce auth_time c same =
      rw (same.expires_at, same.not_before) (ground arith)

  -- What the active key signs can be verified while the keys rotate.
  signed-IsVerifiable :
      (cfg : Config) (users : UserStore) (now : ℕ) (id subject nonce : Bytes) (auth_time : ℕ)
      (events : List Event) (m : Manager) (k : Signer) (token : Bytes)
      → IsManaged p m
      → IsWritable p (id_claims cfg users now id subject nonce auth_time)
      → IsMap (users.profile subject)
      → Within now m.grace_period events
      → active_signer m ≡ some k
      → sign p k (id_claims cfg users now id subject nonce auth_time) ≡ ok token
      → (c : Claims) × IsIdToken cfg users now id subject nonce auth_time c
        × IsVerifiable (start_rotation p events m) (unix now + 600) c token
  signed-IsVerifiable cfg users now id subject nonce auth_time events m k token h w profile within
        active signed =
      let c : Claims = id_claims cfg users now id subject nonce auth_time in
      let same : k ≡ h.active.key = unfold active_signer in ground (arith, h.active.signs) in
      let read : IsReadAs p h.active.key c token =
        sign-IsReadAs p sound h.active.key c token h.active.generated (active-utf8 p sound m h) w
          (ap (λ x. sign p x c) (sym same) ∙ signed) in
      let after : Manager = start_rotation p events m in
      let found : verifier p after (kid_of h.active.key)
          ≡ some (some (verifier_of p h.active.key)) =
        rw h.active.kid (active_survives p now events m h within) in
      (
        read.read,
        id_claims-IsIdToken cfg users now id subject nonce auth_time read.read profile read.same,
        record {
          kid = kid_of h.active.key;
          alg = alg_of h.active.key;
          peeked = read.peeked;
          listed = published (verifier_of p h.active.key);
          at_kid =
              jwks-verifier p after (kid_of h.active.key) (start_rotation-IsManaged p events m h)
              ∙ ap verifier_jwk found;
          key = verifier_of p h.active.key;
          read = jwk_key-published p sound h.active.key;
          verified = λ later.
              read.verified later
              ∙ check_times-id_claims cfg users now later id subject nonce auth_time read.read
                  read.same;
        },
      )

  module _ {B : Type 0} (ops : Backend B) (cfg : Config) (clients : ClientRegistry)
      (users : UserStore) where
    abbrev server : Server B
    server = sidecar_server p ops cfg clients users

    create-keys :
        (random : Random) (m : Manager) → KeptByCreate p ops (λ (v : World B). v.keys ≡ m) random
    unfolding Opaque.create Opaque.store
    create-keys none m ttl now s w h = h
    create-keys (some r) m ttl now s w h = h

    module _ (now : ℕ) (client : Client) (subject scope nonce : Bytes) (auth_time : ℕ) where
      -- The id_token of a response is signed by the active key.
      finish-sign :
          (random : Random) (access : Bytes) (w : World B) (t : TokenResponse)
          → has_scope scope (codes "openid") ≡ true
          → (finish_token_set p server now random client subject scope nonce auth_time access w).1
            ≡ token_set t
          → (k : Signer) × (active_signer w.keys ≡ some k)
            × (sign p k (id_claims cfg users now client.id subject nonce auth_time) ≡ ok t.id_token)
      unfolding finish_token_set id_token_for mint_id_token sidecar_server
      finish-sign random access w t openid done = elim (Option-cases (active_signer w.keys)) [
        | inl no_key ↦ absurd (ground (arith, no_key))
        | inr (k, active) ↦
            elim (Result-cases
              (sign p k (id_claims cfg users now client.id subject nonce auth_time))) [
                | inr (e, failed) ↦ absurd (ground (arith, active, failed))
                | inl (token, signed) ↦
                    elim (Result-cases
                      (refresh_token_for p server now random client subject scope w).1) [
                        | inr (e, failed) ↦ absurd (ground (arith, active, signed, failed))
                        | inl (refresh, made) ↦ (k, active, ground (arith, active, signed, made))
                      ]
              ]
      ]

      issue-sign :
          (random random' : Random) (w : World B) (t : TokenResponse)
          → has_scope scope (codes "openid") ≡ true
          → (issue_token_set p server now random random' client subject scope nonce auth_time w).1
            ≡ token_set t
          → (k : Signer) × (active_signer w.keys ≡ some k)
            × (sign p k (id_claims cfg users now client.id subject nonce auth_time) ≡ ok t.id_token)
      unfolding issue_token_set
      issue-sign random random' w t openid done =
          let s : Session = granted client subject scope in
          let made =
            Bridge.create server.bridge (session_mode_for server.cfg client) now random s w in
          let same_keys : made.0.keys ≡ w.keys =
            bridge-keeps p ops cfg clients users (λ v. v.keys ≡ w.keys)
              (session_mode_for server.cfg client) now random s w (create-keys random w.keys)
              refl in
          elim (Result-cases made.1) [
            | inr (e, failed) ↦ absurd (ground arith)
            | inl (access, created) ↦
                let tail =
                  finish_token_set p server now random' client subject scope nonce auth_time access
                    made.0 in
                let same : tail
                    ≡ issue_token_set p server now random random' client subject scope nonce
                        auth_time w =
                  ground (arith, created) in
                let (k, active, signed) =
                  finish-sign random' access made.0 t openid (ap (λ q. q.1) same ∙ done) in
                (k, ap active_signer (sym same_keys) ∙ active, signed)
          ]

    -- The id_token of an exchange can be verified with the published keys, up to ten minutes after
    -- its issue and after any rotations in the grace period that the exchange starts: the key set
    -- lists, under the kid of the token, a JWK that by the standards stands for a key that accepts the
    -- token, and the claims are the issuer, the code's subject, the client as sole audience, the time
    -- of issue, ten minutes more as expiry, the nonce unless it is empty, the time of the login, and
    -- the profile of the subject, and no other. The platform is sound, the keys were in order, the
    -- code has the scope openid, the profile lists no claim twice, JSON can carry the claims, and
    -- the redeemed code was answered with tokens.
    pub id_token-IsVerifiable :
        (now : ℕ) (random random' : Random) (request : Request) (st : State B) (client : Client)
        (ac : AuthCode) (t : TokenResponse) (events : List Event)
        → IsCodeRequest request
        → sent_code request ≢ []
        → IsAuthenticated p server request client
        → IsRedeemable p server now request st client ac
        → (handle_token p server now random random' request st).1 ≡ token_set t
        → has_scope ac.scope (codes "openid") ≡ true
        → IsManaged p st.world.keys
        → IsWritable p (id_claims cfg users now client.id ac.subject ac.nonce ac.auth_time)
        → IsMap (users.profile ac.subject)
        → Within now st.world.keys.grace_period events
        → (c : Claims) × IsIdToken cfg users now client.id ac.subject ac.nonce ac.auth_time c
          × IsVerifiable (start_rotation p events st.world.keys) (unix now + 600) c t.id_token
    id_token-IsVerifiable now random random' request st client ac t events c sent auth redeemable
          done openid h w profile within =
        let done_as =
          handle_token_redeems p server now random random' request st client ac c sent auth
            redeemable in
        let (k, active, signed) =
          issue-sign now client ac.subject ac.scope ac.nonce ac.auth_time random random' st.world t
            openid (sym (ap (λ q. q.1) done_as) ∙ done) in
        signed-IsVerifiable cfg users now client.id ac.subject ac.nonce ac.auth_time events
          st.world.keys k t.id_token h w profile within active signed
