-- ===== src/Oidc/History/Admission.antt =====
-- bridge.go, userinfo.go: which tokens /userinfo takes for a subject's, and what keeps it so.
use micro_identity_sidecar.Prelude.{
  ℕ, ◌+◌, ◌≤◌, ◌≡◌, ◌⊎◌, refl, sym, subst, ap, ◌∙◌, false, Option, none, some, List, ◌++◌, Bytes,
  ◌==◌, eq_refl, ltb, if◌then◌else◌, codes, Result, ok, err, arith, Bool-cases, inl, inr,
}
use micro_identity_sidecar.Prelude.Map.{put}
use micro_identity_sidecar.Platform.{Platform, IsSound, str}
use micro_identity_sidecar.Jwt.Token.{b64, unix}
use micro_identity_sidecar.Keys.{Random, Event, start_rotation}
use micro_identity_sidecar.Keys.Invariant.{IsManaged}
use micro_identity_sidecar.Keys.Rotation.{Within}
use micro_identity_sidecar.Session.{Session, Row, Error, not_found, Backend, World}
use micro_identity_sidecar.Session.Table.{IsTable}
use micro_identity_sidecar.Session.Opaque as Opaque
use micro_identity_sidecar.Session.Opaque.{hash_token, stamp}
use micro_identity_sidecar.Session.Opaque.Life.{store-validate, create-validate}
use micro_identity_sidecar.Session.Stateless as Stateless
use micro_identity_sidecar.Session.Stateless.RoundTrip.{IsIssuable, IsRandom, jwt_session-validate}
use micro_identity_sidecar.Session.Bridge as Bridge
use micro_identity_sidecar.Session.Bridge.{
  sidecar_bridge, store_for, mode_stateful, mode_stateless, validate_any,
}
use micro_identity_sidecar.Session.Bridge.Routing.{
  either, jwt-keeps, validate_any-either, stateless-table,
}
use micro_identity_sidecar.Oidc.Clients.{ClientRegistry}
use micro_identity_sidecar.Oidc.Users.{UserStore}
use micro_identity_sidecar.Oidc.Server.{Config, Server, State, Request, userinfo}
use micro_identity_sidecar.Oidc.Issue.{access_token_ttl}
use micro_identity_sidecar.Oidc.Resources.{bearer, handle_userinfo}
use micro_identity_sidecar.Oidc.Resources.Bearer.{answer_to, userinfo-eq}
use micro_identity_sidecar.Oidc.History.{sidecar_server, rotates, step}

module _ (p : Platform) (sound : IsSound p) {B : Type 0} (ops : Backend B)
    (find : Bytes → B → Option Row) (IsValid : B → Type 0) (promise : IsTable ops find IsValid)
    (cfg : Config) (clients : ClientRegistry) (users : UserStore) (events : List Event) where
  abbrev server : Server B
  server = sidecar_server p ops cfg clients users

  -- The world after the key rotations.
  abbrev turned : World B → World B
  turned w = record { keys = start_rotation p events w.keys; table = w.table }

  abbrev stateful : ℕ → Bytes → World B → Result Error Session
  stateful later token w = Opaque.validate p ops cfg.stateful_ttl later token w

  abbrev stateless : ℕ → Bytes → World B → Result Error Session
  stateless later token w = Stateless.validate p cfg.issuer cfg.stateless_ttl later token w

  -- After the rotations the bridge knows the token as one of the subject.
  abbrev pub Admits : Bytes → ℕ → Bytes → World B → Type 0
  Admits subject later token w =
      (s : Session) × (mode : Bytes) × (either (stateful later token w)
          (stateless later token (turned w))
        ≡ ok (s, mode))
      × (s.subject ≡ subject)

  Admits-validate_any :
      (later : ℕ) (token : Bytes) (w : World B)
      → validate_any server.bridge later token (turned w)
        ≡ either (stateful later token w) (stateless later token (turned w))
  unfolding sidecar_server Opaque.validate
  Admits-validate_any later token w =
      validate_any-either p ops find IsValid promise cfg.issuer cfg.stateless_ttl cfg.stateful_ttl
        later token (turned w)

  pub Admits-userinfo :
      (subject : Bytes) (later : ℕ) (token : Bytes) (again : Request) (st : State B)
      → again.authorization ≡ bearer ++ token
      → Admits subject later token st.world
      → handle_userinfo p server later again (step p ops server (rotates events) st)
        ≡ userinfo (put (codes "sub") (str subject) (users.profile subject))
  unfolding step sidecar_server
  Admits-userinfo subject later token again st bearing (s, mode, known, same) =
      userinfo-eq server p later again token (record st { world = turned st.world }) bearing
      ∙ ap (answer_to server) (Admits-validate_any later token st.world ∙ known)
      ∙ ap (λ u. userinfo (put (codes "sub") (str u) (users.profile u))) same

  -- A store of the same subject, for long enough, keeps the token open, also if the hashes clash.
  opens-store :
      (ttl now later : ℕ) (token access : Bytes) (s : Session) (w : World B)
      → later ≤ now + ttl
      → Admits s.subject later access w
      → Admits s.subject later access (Opaque.store p ops ttl now token s w).0
  unfolding Opaque.validate stamp
  opens-store ttl now later token access s w live (t, mode, known, subject) =
      let w' = (Opaque.store p ops ttl now token s w).0 in
      let after : stateful later access w' ≡ (
          if hash_token p token == hash_token p access
          then if ltb (now + ttl) later then err not_found else ok (stamp p ttl now token s)
          else stateful later access w) =
        store-validate p ops find IsValid promise ttl now token s w later access in
      let same_keys : stateless later access (turned w') ≡ stateless later access (turned w) =
        stateless-table p ops find IsValid promise cfg.issuer cfg.stateless_ttl cfg.stateful_ttl
          later access (turned w) (turned w') (unfold Opaque.store in refl) in
      elim (Bool-cases (hash_token p token == hash_token p access)) [
        | inl clash ↦
            (stamp p ttl now token s, mode_stateful, rw (after, clash) (ground arith), refl)
        | inr apart ↦ (t, mode, rw (after, apart, same_keys) known, subject)
      ]

  pub opens-create :
      (ttl now later : ℕ) (random : Random) (access : Bytes) (s : Session) (w : World B)
      → later ≤ now + ttl
      → Admits s.subject later access w
      → Admits s.subject later access (Opaque.create p ops ttl now random s w).0
  unfolding Opaque.create
  opens-create ttl now later none access s w live h = h
  opens-create ttl now later (some r) access s w live h =
      opens-store ttl now later (b64 r) access s w live h

  jwt_opens :
      (now later : ℕ) (random : Random) (s : Session) (w : World B) (token : Bytes)
      → IsManaged p w.keys
      → IsIssuable p cfg.issuer cfg.stateless_ttl now s
      → IsRandom random
      → Within now w.keys.grace_period events
      → later ≤ now + cfg.stateless_ttl
      → stateful later token w ≡ err not_found
      → (Stateless.create p cfg.issuer cfg.stateless_ttl now random s w).1 ≡ ok token
      → Admits s.subject later token w
  jwt_opens now later random s w token h i r within live fresh made =
      let (t, copy, valid) =
        jwt_session-validate p sound cfg.issuer cfg.stateless_ttl now random s w events later token
          h i r made within in
      let in_time : ltb (unix (now + cfg.stateless_ttl)) (unix later) ≡ false = ground arith in
      (t, mode_stateless, rw (fresh, valid, in_time) refl, copy.subject)

  opaque_opens :
      (now later : ℕ) (random : Random) (s : Session) (w : World B) (token : Bytes)
      → later ≤ now + cfg.stateful_ttl
      → (Opaque.create p ops cfg.stateful_ttl now random s w).1 ≡ ok token
      → Admits s.subject later token (Opaque.create p ops cfg.stateful_ttl now random s w).0
  unfolding stamp
  opaque_opens now later random s w token live made =
      let found =
        create-validate p ops find IsValid promise cfg.stateful_ttl now random s w token later token
          made in
      let same = eq_refl (hash_token p token) in
      (stamp p cfg.stateful_ttl now token s, mode_stateful, rw (found, same) (ground arith), refl)

  abbrev pub CreationOpens : ℕ → ℕ → Random → Session → World B → Bytes → Bytes → Type 0
  CreationOpens now later random s w token mode =
      later ≤ now + access_token_ttl cfg mode
      → (Bridge.create server.bridge mode now random s w).1 ≡ ok token
      → Admits s.subject later token (Bridge.create server.bridge mode now random s w).0

  -- A token that the bridge makes in either mode is open until its ttl is over.
  pub created_opens :
      (mode : Bytes) (now later : ℕ) (random : Random) (s : Session) (w : World B) (token : Bytes)
      → (mode ≡ mode_stateless) ⊎ (mode ≡ mode_stateful)
      → IsManaged p w.keys
      → IsIssuable p cfg.issuer cfg.stateless_ttl now s
      → IsRandom random
      → Within now w.keys.grace_period events
      → stateful later token w ≡ err not_found
      → CreationOpens now later random s w token mode
  unfolding sidecar_server sidecar_bridge Bridge.create store_for ◌==◌ access_token_ttl
  created_opens mode now later random s w token (inl jwt) h i r within fresh =
      subst (λ m. CreationOpens now later random s w token m) (sym jwt)
        (λ live made.
          rw (jwt-keeps p cfg.issuer cfg.stateless_ttl now random s w)
            (jwt_opens now later random s w token h i r within live fresh made))
  created_opens mode now later random s w token (inr opaque) h i r within fresh =
      subst (λ m. CreationOpens now later random s w token m) (sym opaque)
        (λ live made. opaque_opens now later random s w token live made)
