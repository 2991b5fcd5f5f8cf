-- ===== src/Oidc/History/Access.antt =====
-- revoke.go, userinfo.go: who gets in with a stateful token.
use micro_identity_sidecar.Prelude.{
  ℕ, ◌+◌, ◌≤◌, ◌≡◌, ◌≢◌, refl, Bool, true, false, Option, [], ◌++◌, Bytes, ◌==◌, eq_iff, eq_refl,
  codes, Result, ok, err, if◌then◌else◌, arith, ap, ◌∙◌, Result-cases, inl, inr,
}
use micro_identity_sidecar.Prelude.Map.{put}
use micro_identity_sidecar.Go.Strings.{Lacks}
use micro_identity_sidecar.Platform.{Platform, str}
use micro_identity_sidecar.Jwt.Token.Soundness.{verify_dotless}
use micro_identity_sidecar.Keys.{Random}
use micro_identity_sidecar.Session.{Session, Row, Error, not_found, Backend, World}
use micro_identity_sidecar.Session.Table.{IsTable}
use micro_identity_sidecar.Session.Opaque as Opaque
use micro_identity_sidecar.Session.Opaque.{hash_token, stamp}
use micro_identity_sidecar.Session.Opaque.Life.{create-validate}
use micro_identity_sidecar.Session.Opaque.Revocation.{revoke-validate}
use micro_identity_sidecar.Session.Stateless as Stateless
use micro_identity_sidecar.Session.Bridge as Bridge
use micro_identity_sidecar.Session.Bridge.{sidecar_bridge, store_for, mode_stateful, validate_any}
use micro_identity_sidecar.Session.Bridge.Routing.{either, validate_any-either}
use micro_identity_sidecar.Oidc.Clients.{Client, ClientRegistry}
use micro_identity_sidecar.Oidc.Users.{UserStore}
use micro_identity_sidecar.Oidc.Server.{
  oauth_error, Config, Server, State, Request, userinfo, empty_body, value,
}
use micro_identity_sidecar.Oidc.Token.Conditions.{IsAuthenticated, authenticate_client_complete}
use micro_identity_sidecar.Oidc.Resources.{
  bearer, handle_userinfo, revoke_everywhere, handle_revoke,
}
use micro_identity_sidecar.Oidc.Resources.Bearer.{answer_to, userinfo-eq}
use micro_identity_sidecar.Oidc.History.{sidecar_server}

-- A request to revoke a token.
pub record IsRevocation (r : Request) : Type 0 where
  pub posted : r.method ≡ codes "POST"
  pub parsed : r.parses ≡ true
  pub named : value r.post_form (codes "token") ≢ []

module _ (p : Platform) {B : Type 0} (ops : Backend B) (find : Bytes → B → Option Row)
    (IsValid : B → Type 0) (promise : IsTable ops find IsValid) (cfg : Config)
    (clients : ClientRegistry) (users : UserStore) where
  abbrev server : Server B
  server = sidecar_server p ops cfg clients users

  pub revocation-eq :
      (r : Request) (st : State B) (client : Client)
      → IsRevocation r
      → IsAuthenticated p server r client
      → handle_revoke p server r st
        ≡ (revoke_everywhere p server (value r.post_form (codes "token")) st, empty_body 200)
  unfolding handle_revoke
  revocation-eq r st client h auth =
      let authenticated = authenticate_client_complete p server r client auth in
      let posted = h.posted in
      let parsed = h.parsed in
      let named = h.named in
      ground (arith, eq_iff r.method (codes "POST"), eq_iff (value r.post_form (codes "token")) [])

  once_is_enough :
      (b : Bool) (v : Result Error Session)
      → (if b then err not_found else if b then err not_found else v)
        ≡ (if b then err not_found else v)
  once_is_enough true v = refl
  once_is_enough false v = refl

  -- The stores over one table differ in their ttls, and validation does not read them.
  validate-ttl :
      (a b later : ℕ) (token : Bytes) (w : World B)
      → Opaque.validate p ops a later token w ≡ Opaque.validate p ops b later token w
  unfolding Opaque.validate
  validate-ttl a b later token w = refl

  -- Two revocations in a row, as one validation sees them.
  revoke_everywhere-validate :
      (token other : Bytes) (st : State B) (ttl later : ℕ)
      → Opaque.validate p ops ttl later other (revoke_everywhere p server token st).world ≡ (
          if hash_token p token == hash_token p other
          then err not_found
          else Opaque.validate p ops ttl later other st.world)
  unfolding revoke_everywhere sidecar_server sidecar_bridge Bridge.revoke store_for ◌==◌
      Opaque.revoke
  revoke_everywhere-validate token other st ttl later =
      let once = (Opaque.revoke p ops ttl token st.world).0 in
      let first = revoke-validate p ops find IsValid promise ttl token other st.world later in
      let second = revoke-validate p ops find IsValid promise ttl token other once later in
      second
      ∙ ap (λ v. if hash_token p token == hash_token p other then err not_found else v) first
      ∙ once_is_enough (hash_token p token == hash_token p other) _

  -- An authenticated client that names a token can revoke it, whoever holds it: the answer is 200,
  -- no store over the table finds the token any longer, and each finds every token of another hash
  -- as before.
  pub revocation_takes_effect :
      (r : Request) (st : State B) (client : Client) (other : Bytes) (ttl later : ℕ)
      → IsRevocation r
      → IsAuthenticated p server r client
      → ((handle_revoke p server r st).1 ≡ empty_body 200)
        × (Opaque.validate p ops ttl later other (handle_revoke p server r st).0.world ≡ (
            if hash_token p (value r.post_form (codes "token")) == hash_token p other
            then err not_found
            else Opaque.validate p ops ttl later other st.world))
  revocation_takes_effect r st client other ttl later h auth =
      let same = revocation-eq r st client h auth in
      (
        ap (λ q. q.1) same,
        ap (λ q. Opaque.validate p ops ttl later other q.0.world) same
            ∙ revoke_everywhere-validate (value r.post_form (codes "token")) other st ttl later,
      )

  -- A refresh token opens /userinfo until its ttl is over: the bridge's stateful store looks it up in
  -- the table that it shares with the refresh store, and tells no kinds of token apart.
  pub refresh_token_opens_userinfo :
      (now later : ℕ) (random : Random) (s : Session) (st : State B) (token : Bytes) (r : Request)
      → (Opaque.create p ops cfg.refresh_token_ttl now random s st.world).1 ≡ ok token
      → r.authorization ≡ bearer ++ token
      → later ≤ now + cfg.refresh_token_ttl
      → handle_userinfo p server later r (record st {
        world = (Opaque.create p ops cfg.refresh_token_ttl now random s st.world).0;
      })
        ≡ userinfo (put (codes "sub") (str s.subject) (users.profile s.subject))
  unfolding stamp sidecar_server
  refresh_token_opens_userinfo now later random s st token r made sent live =
      let w = (Opaque.create p ops cfg.refresh_token_ttl now random s st.world).0 in
      let life =
        create-validate p ops find IsValid promise cfg.refresh_token_ttl now random s st.world token
          later token made in
      let found : Opaque.validate p ops cfg.stateful_ttl later token w
          ≡ ok (stamp p cfg.refresh_token_ttl now token s) =
        validate-ttl cfg.stateful_ttl cfg.refresh_token_ttl later token w
        ∙ life
        ∙ rw (eq_refl (hash_token p token)) (ground arith) in
      userinfo-eq server p later r token (record st { world = w }) sent
      ∙ ap (answer_to server) (
          validate_any-either p ops find IsValid promise cfg.issuer cfg.stateless_ttl
            cfg.stateful_ttl later token w)
      ∙ ap
          (λ v.
            answer_to server
              (either v (Stateless.validate p cfg.issuer cfg.stateless_ttl later token w)))
          found

  -- A text without a dot is no JWT.
  validate_dotless :
      (later : ℕ) (token : Bytes) (w : World B)
      → Lacks b'.' token
      → (e : Error) × (Stateless.validate p cfg.issuer cfg.stateless_ttl later token w ≡ err e)
  unfolding Stateless.validate
  validate_dotless later token w plain =
      elim (Result-cases (Stateless.verifier_for p cfg.issuer cfg.stateless_ttl token w)) [
        | inr (e, unknown) ↦ (e, ground (arith, unknown))
        | inl (v, known) ↦ (not_found, ground (arith, known, verify_dotless p later v token plain))
      ]

  -- After an authenticated client has revoked a token without a dot, which is no JWT, /userinfo
  -- refuses the token with 401, at any time and whatever the stores held.
  pub revoked_from_userinfo :
      (r again : Request) (st : State B) (client : Client) (later : ℕ)
      → IsRevocation r
      → IsAuthenticated p server r client
      → Lacks b'.' (value r.post_form (codes "token"))
      → again.authorization ≡ bearer ++ value r.post_form (codes "token")
      → handle_userinfo p server later again (handle_revoke p server r st).0
        ≡ oauth_error 401 "invalid_token" "access token is invalid, expired, or revoked"
  unfolding sidecar_server
  revoked_from_userinfo r again st client later h auth plain sent =
      let token = value r.post_form (codes "token") in
      let after : State B = revoke_everywhere p server token st in
      let same = revocation-eq r st client h auth in
      let gone : Opaque.validate p ops cfg.stateful_ttl later token after.world ≡ err not_found =
        revoke_everywhere-validate token token st cfg.stateful_ttl later
        ∙ rw (eq_refl (hash_token p token)) refl in
      let (e, no_jwt) = validate_dotless later token after.world plain in
      let refused : validate_any server.bridge later token after.world ≡ err not_found =
        validate_any-either p ops find IsValid promise cfg.issuer cfg.stateless_ttl cfg.stateful_ttl
          later token after.world
        ∙ rw (gone, no_jwt) refl in
      ap (λ q. handle_userinfo p server later again q.0) same
      ∙ userinfo-eq server p later again token after sent
      ∙ ap (answer_to server) refused
