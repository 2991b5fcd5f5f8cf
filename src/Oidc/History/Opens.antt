-- ===== src/Oidc/History/Opens.antt =====
-- token.go, userinfo.go: what the access token that /token hands out is good for.
use micro_identity_sidecar.Prelude.{
  ℕ, ◌+◌, ◌≤◌, ◌≡◌, ◌≢◌, ◌⊎◌, sym, subst, ap, ◌∙◌, Option, List, [], ◌++◌, Bytes, codes, Result,
  err, arith, Result-cases, inl, inr,
}
use micro_identity_sidecar.Prelude.Map.{put, delete}
use micro_identity_sidecar.Platform.{Platform, IsSound, str}
use micro_identity_sidecar.Keys.{Random, Event}
use micro_identity_sidecar.Keys.Invariant.{IsManaged}
use micro_identity_sidecar.Keys.Rotation.{Within}
use micro_identity_sidecar.Session.{Session, Row, Error, not_found, Backend, World}
use micro_identity_sidecar.Session.Table.{IsTable}
use micro_identity_sidecar.Session.Opaque as Opaque
use micro_identity_sidecar.Session.Opaque.{hash_token, stamp}
use micro_identity_sidecar.Session.Stateless.RoundTrip.{IsIssuable, IsRandom}
use micro_identity_sidecar.Session.Bridge as Bridge
use micro_identity_sidecar.Session.Bridge.{
  sidecar_bridge, store_for, mode_stateful, mode_stateless, validate_any,
}
use micro_identity_sidecar.Oidc.Clients.{Client, ClientRegistry}
use micro_identity_sidecar.Oidc.Users.{UserStore}
use micro_identity_sidecar.Oidc.Server.{
  Config, Server, State, Request, TokenResponse, AuthCode, token_set, userinfo,
}
use micro_identity_sidecar.Oidc.Issue.{
  granted, access_token_ttl, session_mode_for, id_token_for, refresh_token_for, finish_token_set,
  issue_token_set,
}
use micro_identity_sidecar.Oidc.History.Tables.{finish-world}
use micro_identity_sidecar.Oidc.Resources.{bearer, handle_userinfo}
use micro_identity_sidecar.Oidc.Token.{handle_token}
use micro_identity_sidecar.Oidc.Token.Conditions.{
  IsCodeRequest, IsAuthenticated, IsRedeemable, sent_code,
}
use micro_identity_sidecar.Oidc.Token.Exchange.{handle_token_redeems}
use micro_identity_sidecar.Oidc.History.Issuing.{mode_known}
use micro_identity_sidecar.Oidc.History.Admission.{
  Admits, Admits-userinfo, opens-create, created_opens,
}
use micro_identity_sidecar.Oidc.History.{sidecar_server, rotates, step}

module _ (p : Platform) (sound : IsSound p) {B : Type 0} (ops : Backend B)
    (find : Bytes → B → Option Row) (IsValid : B → Type 0) (promise : IsTable ops find IsValid)
    (cfg : Config) (clients : ClientRegistry) (users : UserStore) (events : List Event) where
  abbrev server : Server B
  server = sidecar_server p ops cfg clients users

  abbrev stateful : ℕ → Bytes → World B → Result Error Session
  stateful later token w = Opaque.validate p ops cfg.stateful_ttl later token w

  abbrev Open : Bytes → ℕ → Bytes → World B → Type 0
  Open subject later token w =
      Admits p sound ops find IsValid promise cfg clients users events subject later token w

  module _ (now later : ℕ) (client : Client) (subject scope nonce : Bytes) (auth_time : ℕ) where
    finish-access :
        (random : Random) (access : Bytes) (w : World B) (t : TokenResponse)
        → (finish_token_set p server now random client subject scope nonce auth_time access w).1
          ≡ token_set t
        → t.access_token ≡ access
    unfolding finish_token_set
    finish-access random access w t done =
        elim (Result-cases (id_token_for p server now client subject scope nonce auth_time w)) [
          | inr (e, failed) ↦ absurd (ground arith)
          | inl (token, minted) ↦
              elim (Result-cases (refresh_token_for p server now random client subject scope w).1) [
                | inr (e, failed) ↦ absurd (ground arith)
                | inl (refresh, made) ↦ ground arith
              ]
        ]

    -- The rest of issueTokenSet hands the token out and keeps it open.
    finish_opens :
        (random : Random) (access : Bytes) (w : World B) (t : TokenResponse)
        → later ≤ now + cfg.refresh_token_ttl
        → (finish_token_set p server now random client subject scope nonce auth_time access w).1
          ≡ token_set t
        → Open subject later access w
        → (t.access_token ≡ access)
          × Open subject later access
              (finish_token_set p server now random client subject scope nonce auth_time access w).0
    finish_opens random access w t live done h = (
      finish-access random access w t done,
      elim (finish-world p ops cfg clients users now random client subject scope nonce auth_time
          access w) [
            | inl same ↦ subst (λ v. Open subject later access v) (sym same) h
            | inr stored ↦
                subst (λ v. Open subject later access v) (sym stored)
                  (opens-create p sound ops find IsValid promise cfg clients users events
                    cfg.refresh_token_ttl now later random access (granted client subject scope) w
                    live h)
          ],
    )

    -- issueTokenSet hands out a token of the subject.
    issue_opens :
        (random random' : Random) (w : World B) (t : TokenResponse)
        → (session_mode_for cfg client ≡ mode_stateless)
          ⊎ (session_mode_for cfg client ≡ mode_stateful)
        → IsManaged p w.keys
        → IsIssuable p cfg.issuer cfg.stateless_ttl now (granted client subject scope)
        → IsRandom random
        → Within now w.keys.grace_period events
        → later ≤ now + access_token_ttl cfg (session_mode_for cfg client)
        → later ≤ now + cfg.refresh_token_ttl
        → stateful later t.access_token w ≡ err not_found
        → (issue_token_set p server now random random' client subject scope nonce auth_time w).1
          ≡ token_set t
        → Open subject later t.access_token
            (issue_token_set p server now random random' client subject scope nonce auth_time w).0
    unfolding issue_token_set sidecar_server
    issue_opens random random' w t mode h i r within live refreshes fresh done =
        let s : Session = granted client subject scope in
        let made =
          Bridge.create server.bridge (session_mode_for server.cfg client) now random s w in
        elim (Result-cases made.1) [
          | inr (e, failed) ↦ absurd (ground arith)
          | inl (access, created) ↦
              let tail =
                finish_token_set p server now random' client subject scope nonce auth_time access
                  made.0 in
              let same : issue_token_set p server now random random' client subject scope nonce
                    auth_time w
                  ≡ tail =
                ground (arith, created) in
              let finished : tail.1 ≡ token_set t = sym (ap (λ q. q.1) same) ∙ done in
              let handed = finish-access random' access made.0 t finished in
              let opened =
                created_opens p sound ops find IsValid promise cfg clients users events
                  (session_mode_for cfg client) now later random s w access mode h i r within
                  (rw (← handed) fresh) live created in
              rw (same, handed) (finish_opens random' access made.0 t refreshes finished opened).1
        ]

  -- The access token of an exchange opens /userinfo, in either mode and while the keys rotate: after
  -- an authenticated client has redeemed a code that can be redeemed and was answered with tokens, a
  -- bearer of the access token is shown the profile of the code's subject, up to the ttls of the
  -- access token and of a refresh token. The platform is sound, the backend keeps its promise, the
  -- default mode is one of the two, the keys were in order, the random source gives bytes, JSON can
  -- carry the session, the rotations come in the grace period that the exchange starts, and the
  -- stateful store would not have known the token without the exchange.
  pub access_token_opens_userinfo :
      (now later : ℕ) (random random' : Random) (request again : Request) (st : State B)
      (client : Client) (ac : AuthCode) (t : TokenResponse)
      → IsCodeRequest request
      → sent_code request ≢ []
      → IsAuthenticated p server request client
      → IsRedeemable p server now request st client ac
      → (handle_token p server now random random' request st).1 ≡ token_set t
      → (cfg.default_session_mode ≡ mode_stateless) ⊎ (cfg.default_session_mode ≡ mode_stateful)
      → IsManaged p st.world.keys
      → IsIssuable p cfg.issuer cfg.stateless_ttl now (granted client ac.subject ac.scope)
      → IsRandom random
      → Within now st.world.keys.grace_period events
      → later ≤ now + access_token_ttl cfg (session_mode_for cfg client)
      → later ≤ now + cfg.refresh_token_ttl
      → stateful later t.access_token st.world ≡ err not_found
      → again.authorization ≡ bearer ++ t.access_token
      → handle_userinfo p server later again (
          step p ops server
            (rotates events)
            (handle_token p server now random random' request st).0)
        ≡ userinfo (put (codes "sub") (str ac.subject) (users.profile ac.subject))
  access_token_opens_userinfo now later random random' request again st client ac t c sent auth
        redeemable done default h i r within live refreshes fresh bearing =
      let done_as =
        handle_token_redeems p server now random random' request st client ac c sent auth
          redeemable in
      let opened =
        issue_opens now later client ac.subject ac.scope ac.nonce ac.auth_time random random'
          st.world t (mode_known cfg client default) h i r within live refreshes fresh
          (sym (ap (λ q. q.1) done_as) ∙ done) in
      ap (λ q. handle_userinfo p server later again (step p ops server (rotates events) q.0))
        done_as
      ∙ Admits-userinfo p sound ops find IsValid promise cfg clients users events ac.subject later
          t.access_token again
          (record {
            codes = delete (sent_code request) st.codes;
            world =
                (issue_token_set p server now random random' client ac.subject ac.scope ac.nonce
                  ac.auth_time st.world).0;
          })
          bearing opened
