-- ===== src/Keys.antt =====
-- internal/keys/manager.go: generation, rotation and retirement of signing keys.
pub mod Kid
pub mod Generation
pub mod Invariant
pub mod Rotation
pub mod Published
pub mod Jwks
pub mod Reading
use mathlib.Core.List.{flat_map}
use micro_identity_sidecar.Prelude.{
  ℕ, suc, ◌+◌, Bool, false, Option, none, some, List, [], ◌∷◌, ◌++◌, map, Bytes, ◌==◌, codes, ltb,
  Result, ok, err, if◌then◌else◌,
}
use micro_identity_sidecar.Go.Decimal.{decimal}
use micro_identity_sidecar.Platform.{Platform, RsaPrivateKey, RsaPublicKey}
use micro_identity_sidecar.Jwt.Exponent.{encode_mod_exp}
use micro_identity_sidecar.Jwt.Token.{
  Signer, rsa_signer, ed_signer, Verifier, rsa_verifier, ed_verifier, rs256, eddsa, unix, b64,
}

pub data Error : Type 0 where
  rsa_failed ed_failed : Error
  unsupported : Bytes → Error

-- A key pair; `retired_at` is absent while the key is active. A private key is absent for a nil one.
pub record Entry : Type 0 where
  pub kid : Bytes
  pub alg : Bytes
  pub created_at : ℕ
  pub retired_at : Option ℕ
  pub rsa_priv : Option RsaPrivateKey
  pub ed_priv : Option Bytes

-- The signer of an entry, and its verifier; absent for an algorithm that is not supported.
unfoldable pub signer : Entry → Option Signer
signer e =
    if e.alg == rs256
    then elim e.rsa_priv [ none ↦ none | some key ↦ some (rsa_signer e.kid key) ]
    else if e.alg == eddsa
    then elim e.ed_priv [ none ↦ none | some key ↦ some (ed_signer e.kid key) ]
    else none

unfoldable pub entry_verifier : Platform → Entry → Option Verifier
entry_verifier p e =
    if e.alg == rs256
    then elim e.rsa_priv [ none ↦ none | some key ↦ some (rsa_verifier e.kid key.public_key) ]
    else if e.alg == eddsa
    then elim e.ed_priv [ none ↦ none | some key ↦ some (ed_verifier e.kid (p.ed_public key)) ]
    else none

pub record Manager : Type 0 where
  pub alg : Bytes
  pub rotate_every : ℕ
  pub grace_period : ℕ
  pub active : Entry
  pub retired : List Entry
  pub seq : ℕ

-- fmt.Sprintf("%s-%d-%d", alg, unix, seq)
unfoldable pub kid_for : Bytes → ℕ → ℕ → Bytes
kid_for alg now seq = alg ++ b'-' ∷ (decimal (unix now) ++ b'-' ∷ decimal seq)

-- What rand.Reader gives; absent if it fails.
abbrev pub Random : Type 0
Random = Option Bytes

abbrev read {ℓ} : {A : Type ℓ} → Random → (Bytes → Option A) → Option A
read none f = none
read (some r) f = f r

-- An entry with no key yet.
abbrev pub blank : Bytes → ℕ → ℕ → Entry
blank alg now seq = record {
  kid = kid_for alg now seq;
  alg = alg;
  created_at = now;
  retired_at = none;
  rsa_priv = none;
  ed_priv = none;
}

-- generate; the counter has been raised to `seq` before.
unfoldable pub generate : Platform → ℕ → Random → Bytes → ℕ → Result Error Entry
generate p now random alg seq =
    if alg == rs256
    then elim (read random p.rsa_generate) [
      | none ↦ err rsa_failed
      | some key ↦ ok (record (blank alg now seq) { rsa_priv = some key })
    ]
    else if alg == eddsa
    then elim random [
      | none ↦ err ed_failed
      | some r ↦ ok (record (blank alg now seq) { ed_priv = some (p.ed_generate r) })
    ]
    else err (unsupported alg)

-- NewManager
unfoldable pub new_manager : Platform → ℕ → Random → Bytes → ℕ → ℕ → Result Error Manager
new_manager p now random alg rotate_every grace_period = elim (generate p now random alg 1) [
  | err e ↦ err e
  | ok first ↦ ok (record {
    alg = alg;
    rotate_every = rotate_every;
    grace_period = grace_period;
    active = first;
    retired = [];
    seq = 1;
  })
]

-- The new key is active, and the previous one retired at the end of the list.
abbrev pub promote : ℕ → Entry → Manager → Manager
promote now next m = record m {
  active = next;
  retired = m.retired ++ record m.active { retired_at = some now } ∷ [];
  seq = m.seq + 1;
}

-- Manager.Rotate. The counter stays raised when no key could be made.
unfoldable pub rotate : Platform → ℕ → Random → Manager → Manager × Option Error
rotate p now random m = elim (generate p now random m.alg (m.seq + 1)) [
  | err e ↦ (record m { seq = m.seq + 1 }, some e)
  | ok next ↦ (promote now next m, none)
]

-- e.retiredAt.After(now.Add(-grace)); the zero time is after no cutoff.
unfoldable pub in_grace : ℕ → ℕ → Entry → Bool
in_grace now grace e = elim e.retired_at [ none ↦ false | some t ↦ ltb now (t + grace) ]

unfoldable pub keep : ℕ → ℕ → List Entry → List Entry
keep now grace [] = []
keep now grace (e ∷ l) =
    let rest = keep now grace l in if in_grace now grace e then e ∷ rest else rest

-- Manager.prune
unfoldable pub prune : ℕ → Manager → Manager
prune now m = record m { retired = keep now m.grace_period m.retired }

-- One tick of the rotation loop: no pruning after an error.
unfoldable pub tick : Platform → ℕ → Random → Manager → Manager
tick p now random m =
    let (m', failed) = rotate p now random m in elim failed [ none ↦ prune now m' | some e ↦ m' ]

-- What the loop of StartRotation selects on.
pub data Event : Type 0 where
  ticked : ℕ → Random → Event
  stopped : Event

-- The goroutine of StartRotation over what it receives.
unfoldable pub start_rotation : Platform → List Event → Manager → Manager
start_rotation p [] m = m
start_rotation p (ticked now random ∷ events) m = start_rotation p events (tick p now random m)
start_rotation p (stopped ∷ events) m = m

-- Manager.ActiveSigner
unfoldable pub active_signer : Manager → Option Signer
active_signer m = signer m.active

unfoldable pub find : Bytes → List Entry → Option Entry
find kid [] = none
find kid (e ∷ l) = if e.kid == kid then some e else find kid l

-- Manager.Verifier: the outer option is the second result, the inner one a nil verifier.
unfoldable pub verifier : Platform → Manager → Bytes → Option (Option Verifier)
verifier p m kid =
    if m.active.kid == kid
    then some (entry_verifier p m.active)
    else elim (find kid m.retired) [ none ↦ none | some e ↦ some (entry_verifier p e) ]

-- Manager.ActiveAlg
unfoldable pub active_alg : Manager → Bytes
active_alg m = m.alg
