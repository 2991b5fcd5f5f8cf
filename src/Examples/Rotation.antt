-- ===== src/Examples/Rotation.antt =====
-- The theorems on keys and tokens, applied to an Ed25519 key.
use micro_identity_sidecar.Prelude.{
  ◌*◌, ◌≡◌, ◌↔◌, refl, none, some, List, [], ◌∷◌, ◌==◌, codes, arith, ok,
}
use micro_identity_sidecar.Go.Decimal.{decimal}
use micro_identity_sidecar.Jwt.Token.{eddsa, verifier_of, second}
use micro_identity_sidecar.Keys.Published.{jwks}
use micro_identity_sidecar.Keys.{
  Entry, Manager, Event, ticked, stopped, blank, new_manager, generate, start_rotation, rotate,
  kid_for, verifier, prune, find,
}
use micro_identity_sidecar.Keys.Invariant.{IsManaged, new_manager-IsManaged, rotate-IsManaged}
use micro_identity_sidecar.Keys.Rotation.{active_survives, verifier-prune}
use micro_identity_sidecar.Keys.Jwks.{jwk_at, verifier_jwk, jwks-verifier}
use micro_identity_sidecar.Pkce.{verify, challenge}
use micro_identity_sidecar.Pkce.Check.{IsVerifier, verify_iff}
use micro_identity_sidecar.Examples.Toy.{toy}

-- The key that NewManager makes at second 5.
abbrev pub first : Entry
first = record (blank eddsa (5 * second) 1) { ed_priv = some (7 ∷ 8 ∷ []) }

abbrev pub manager : Manager
manager = record {
  alg = eddsa;
  rotate_every = 10 * second;
  grace_period = 100 * second;
  active = first;
  retired = [];
  seq = 1;
}

pub made :
    new_manager toy (5 * second) (some (7 ∷ 8 ∷ [])) eddsa (10 * second) (100 * second) ≡ ok manager
unfolding new_manager generate ◌==◌
made = refl

pub managed : IsManaged toy manager
managed =
    new_manager-IsManaged toy (5 * second) (some (7 ∷ 8 ∷ [])) eddsa (10 * second) (100 * second)
      manager made

-- Two rotations, the second of which fails, and the end of the loop.
abbrev pub events : List Event
events = ticked (15 * second) (some (9 ∷ [])) ∷ ticked (25 * second) none ∷ stopped ∷ []

active_survives_example :
    verifier toy (start_rotation toy events manager) first.kid
    ≡ some (some (verifier_of toy managed.active.key))
active_survives_example = active_survives toy (5 * second) events manager managed (omega arith)

-- After one rotation, at second 15.
abbrev rotated : Manager
rotated = (rotate toy (15 * second) (some (9 ∷ [])) manager).0

verifier-prune_example : verifier toy (prune (115 * second) rotated) first.kid ≡ none
unfolding rotate generate find ◌==◌ kid_for decimal
verifier-prune_example =
    verifier-prune toy (115 * second) rotated first.kid
      (rotate-IsManaged toy (15 * second) (some (9 ∷ [])) manager managed)

jwks-verifier_example :
    jwk_at first.kid (jwks toy manager) ≡ verifier_jwk (verifier toy manager first.kid)
jwks-verifier_example = jwks-verifier toy manager first.kid managed

verify_iff_example :
    (verify toy (codes "short") (codes "digest") ≡ none)
    ↔ (IsVerifier (codes "short") × (challenge toy (codes "short") ≡ codes "digest"))
verify_iff_example = verify_iff toy (codes "short") (codes "digest")
