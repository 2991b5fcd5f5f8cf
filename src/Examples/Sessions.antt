-- ===== src/Examples/Sessions.antt =====
-- The theorems on sessions, applied to one session that is created, kept and revoked.
use micro_identity_sidecar.Prelude.{
  ◌*◌, ◌≡◌, ◌≢◌, refl, some, List, [], ◌∷◌, Bytes, ◌==◌, codes, arith, ok, err, if◌then◌else◌,
}
use micro_identity_sidecar.Jwt.Token.{second, b64}
use micro_identity_sidecar.Go.Base64.{encode, digit, sextet}
use micro_identity_sidecar.Session.Bridge.{sidecar_bridge, validate_any, revoke_all_for_subject}
use micro_identity_sidecar.Session.Bridge.Routing.{either, logout-validate_any}
use micro_identity_sidecar.Session.{Session, not_found, World}
use micro_identity_sidecar.Session.Memory as Memory
use micro_identity_sidecar.Session.Memory.{MemoryBackend, memory_ops, memory-IsTable}
use micro_identity_sidecar.Session.Stateless as Stateless
use micro_identity_sidecar.Session.Stateless.{claims_for, id_for}
use micro_identity_sidecar.Session.Opaque as Opaque
use micro_identity_sidecar.Session.Opaque.{hash_token, stamp}
use micro_identity_sidecar.Session.Opaque.Life as Life
use micro_identity_sidecar.Session.Opaque.Revocation as Revocation
use micro_identity_sidecar.Examples.Toy.{toy, bytes_of}
use micro_identity_sidecar.Examples.Rotation.{manager}

abbrev pub issuer : Bytes
issuer = codes "https://id.example"

abbrev pub session : Session
session = record {
  id = codes "s1";
  subject = codes "alice";
  client_id = codes "app";
  scope = codes "read";
  issued_at = 0;
  expires_at = 0;
  extra = (codes "team", codes "blue") ∷ [];
}

abbrev pub world : World MemoryBackend
world = record { keys = manager; table = record { rows = [] } }

abbrev pub token : Bytes
token = b64 (1 ∷ 2 ∷ [])

abbrev after : World MemoryBackend
after =
    (Opaque.create toy memory_ops (60 * second) (6 * second) (some (1 ∷ 2 ∷ [])) session world).0

stored :
    (Opaque.create toy memory_ops (60 * second) (6 * second) (some (1 ∷ 2 ∷ [])) session world).1
    ≡ ok token
unfolding Opaque.create Opaque.store Memory.put
stored = refl

after-IsValid : Memory.IsValid after.table
unfolding Opaque.create Opaque.store
after-IsValid = memory-IsTable.put_valid (6 * second) _ _ world.table tt

create-validate_example : Opaque.validate toy memory_ops (60 * second) (60 * second) token after ≡ (
    if hash_token toy token == hash_token toy token
    then ok (stamp toy (60 * second) (6 * second) token session)
    else Opaque.validate toy memory_ops (60 * second) (60 * second) token world)
create-validate_example =
    Life.create-validate toy memory_ops Memory.find Memory.IsValid memory-IsTable (60 * second)
      (6 * second) (some (1 ∷ 2 ∷ [])) session world token (60 * second) token stored

sweep-validate_example :
    Opaque.validate toy memory_ops
      (60 * second)
      (60 * second)
      token
      (Opaque.sweep toy memory_ops (60 * second) (50 * second) after)
    ≡ Opaque.validate toy memory_ops (60 * second) (60 * second) token after
sweep-validate_example =
    Life.sweep-validate toy memory_ops Memory.find Memory.IsValid memory-IsTable (60 * second)
      (50 * second) (60 * second) token after after-IsValid (omega arith)

-- Another session, a sweep and a logout.
abbrev ops : List Revocation.Op
ops =
    Revocation.creates (60 * second) (7 * second) (some (3 ∷ [])) session
    ∷ Revocation.sweeps (8 * second)
    ∷ Revocation.revokes_all (codes "bob")
    ∷ []

pub other_hash : hash_token toy (b64 (3 ∷ [])) ≢ hash_token toy token
unfolding hash_token b64 encode digit bytes_of sextet
other_hash = λ e. cc

revoked_for_good_example :
    Opaque.validate toy memory_ops
      (60 * second)
      (9 * second)
      token
      (Revocation.run toy memory_ops ops (Opaque.revoke toy memory_ops (60 * second) token after).0)
    ≡ err not_found
revoked_for_good_example =
    Revocation.revoked_for_good toy memory_ops Memory.find Memory.IsValid memory-IsTable token ops
      after (60 * second) (9 * second) after-IsValid (other_hash, (tt, (tt, tt)))

logout-validate_any_example :
    validate_any
      (sidecar_bridge toy memory_ops issuer (60 * second) (60 * second))
      (9 * second)
      token
      (revoke_all_for_subject
        (sidecar_bridge toy memory_ops issuer (60 * second) (60 * second))
        (codes "alice")
        after).0
    ≡ either
        (Revocation.unless_subject
          (codes "alice")
          (Opaque.validate toy memory_ops (60 * second) (9 * second) token after))
        (Stateless.validate toy issuer (60 * second) (9 * second) token after)
logout-validate_any_example =
    logout-validate_any toy memory_ops Memory.find Memory.IsValid memory-IsTable issuer
      (60 * second) (60 * second) (codes "alice") token after (9 * second) after-IsValid
