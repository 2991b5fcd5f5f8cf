-- ===== src/Session/Bridge/Routing.antt =====
-- bridge.go: the bridge over the two stores that main.go gives it.
use micro_identity_sidecar.Prelude.{ℕ, ◌≡◌, refl, Option, Bytes, Result, ok, err, arith, ap, ◌∙◌}
use micro_identity_sidecar.Platform.{Platform}
use micro_identity_sidecar.Keys.{Random}
use micro_identity_sidecar.Session.{Session, Row, Error, not_found, Backend, World}
use micro_identity_sidecar.Session.Table.{IsTable}
use micro_identity_sidecar.Session.Opaque as Opaque
use micro_identity_sidecar.Session.Opaque.{hash_token, stamp}
use micro_identity_sidecar.Session.Opaque.Revocation.{unless_subject, revoke_all-validate}
use micro_identity_sidecar.Session.Stateless as Stateless
use micro_identity_sidecar.Session.Bridge.{
  Bridge, mode_stateful, mode_stateless, validate_any, revoke_all_for_subject, sidecar_bridge,
}

-- A stateful session if there is one, or else a stateless one.
abbrev pub either : Result Error Session → Result Error Session → Result Error (Session × Bytes)
either (ok s) r = ok (s, mode_stateful)
either (err e) (ok s) = ok (s, mode_stateless)
either (err e) (err f) = err not_found

-- Creating a JWT changes nothing.
pub jwt-keeps :
    (p : Platform) {B : Type 0} (issuer : Bytes) (ttl now : ℕ) (random : Random) (s : Session)
    (w : World B)
    → (Stateless.create p issuer ttl now random s w).0 ≡ w
unfolding Stateless.create
jwt-keeps p issuer ttl now random s w = ground arith

module _ (p : Platform) {B : Type 0} (ops : Backend B) (find : Bytes → B → Option Row)
    (IsValid : B → Type 0) (promise : IsTable ops find IsValid) (issuer : Bytes)
    (stateless_ttl stateful_ttl : ℕ) where
  abbrev bridge : Bridge (World B)
  bridge = sidecar_bridge p ops issuer stateless_ttl stateful_ttl

  abbrev stateless : ℕ → Bytes → World B → Result Error Session
  stateless later token w = Stateless.validate p issuer stateless_ttl later token w

  abbrev stateful : ℕ → Bytes → World B → Result Error Session
  stateful later token w = Opaque.validate p ops stateful_ttl later token w

  pub validate_any-either :
      (later : ℕ) (token : Bytes) (w : World B)
      → validate_any bridge later token w
        ≡ either (stateful later token w) (stateless later token w)
  unfolding validate_any sidecar_bridge
  validate_any-either later token w =
      ground (arith, stateful later token w, stateless later token w)

  -- The stateless store reads the keys only.
  pub stateless-table :
      (later : ℕ) (token : Bytes) (w v : World B)
      → v.keys ≡ w.keys
      → stateless later token v ≡ stateless later token w
  unfolding Stateless.validate Stateless.verifier_for
  stateless-table later token w v same =
      ap (λ k. stateless later token (record { keys = k; table = v.table })) same

  -- Over a table in order, logging a subject out through the bridge ends its stateful sessions at
  -- once, and changes nothing about what the stateless store accepts: JWTs of the subject stay
  -- valid.
  pub logout-validate_any :
      (u token : Bytes) (w : World B) (later : ℕ)
      → IsValid w.table
      → validate_any bridge later token (revoke_all_for_subject bridge u w).0
        ≡ either (unless_subject u (stateful later token w)) (stateless later token w)
  unfolding sidecar_bridge revoke_all_for_subject
  logout-validate_any u token w later h =
      let w' = (Opaque.revoke_all_for_subject p ops stateful_ttl u w).0 in
      validate_any-either later token w'
      ∙ rw (
        revoke_all-validate p ops find IsValid promise stateful_ttl u token w later h,
        stateless-table later token w w' (unfold Opaque.revoke_all_for_subject in refl),
      )
