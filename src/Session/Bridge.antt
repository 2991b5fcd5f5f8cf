-- ===== src/Session/Bridge.antt =====
-- internal/session/bridge.go: the choice between the two stores.
pub mod Routing
use micro_identity_sidecar.Prelude.{
  ℕ, Option, none, some, List, Bytes, ◌==◌, codes, Result, ok, err, if◌then◌else◌,
}
use micro_identity_sidecar.Keys.{Random}
use micro_identity_sidecar.Platform.{Platform}
use micro_identity_sidecar.Session.{Session, Error, not_found, unknown_mode, Store, Backend, World}
use micro_identity_sidecar.Session.Opaque.{opaque_store}
use micro_identity_sidecar.Session.Stateless.{jwt_store}

-- Mode, as the string that it is
abbrev pub mode_stateless : Bytes
mode_stateless = codes "stateless"

abbrev pub mode_stateful : Bytes
mode_stateful = codes "stateful"

pub record Bridge (W : Type 0) : Type 0 where
  pub stateless : Store W
  pub stateful : Store W

module _ {W : Type 0} (br : Bridge W) where
  unfoldable pub store_for : Bytes → Result Error (Store W)
  store_for mode =
      if mode == mode_stateless
      then ok br.stateless
      else if mode == mode_stateful
      then ok br.stateful
      else err (unknown_mode mode)

  unfoldable pub create : Bytes → ℕ → Random → Session → W → W × Result Error Bytes
  create mode now random s w = elim (store_for mode) [
    | err e ↦ (w, err e)
    | ok store ↦ store.create now random s w
  ]

  unfoldable pub validate : Bytes → ℕ → Bytes → W → Result Error Session
  validate mode now token w = elim (store_for mode) [
    | err e ↦ err e
    | ok store ↦ store.validate now token w
  ]

  -- ValidateAny: the session and the mode whose store knows it, stateful first.
  unfoldable pub validate_any : ℕ → Bytes → W → Result Error (Session × Bytes)
  validate_any now token w = elim (br.stateful.validate now token w) [
    | ok s ↦ ok (s, mode_stateful)
    | err e ↦ elim (br.stateless.validate now token w) [
      | ok s ↦ ok (s, mode_stateless)
      | err f ↦ err not_found
    ]
  ]

  unfoldable pub revoke : Bytes → Bytes → W → W × Option Error
  revoke mode token w = elim (store_for mode) [
    | err e ↦ (w, some e)
    | ok store ↦ store.revoke token w
  ]

  unfoldable pub revoke_all_for_subject : Bytes → W → W × ℕ × Option Error
  revoke_all_for_subject u w = br.stateful.revoke_all_for_subject u w

-- The bridge that main.go makes: both stores over one world.
unfoldable pub sidecar_bridge :
    {B : Type 0} → Platform → Backend B → Bytes → ℕ → ℕ → Bridge (World B)
sidecar_bridge p ops issuer stateless_ttl stateful_ttl = record {
  stateless = jwt_store p issuer stateless_ttl;
  stateful = opaque_store p ops stateful_ttl;
}
