-- ===== src/Session/Opaque/Revocation.antt =====
-- stateful.go: revocation takes effect at once, and for good.
use micro_identity_sidecar.Prelude.{
  ℕ, ◌≡◌, ◌≢◌, ap, ◌∙◌, Option, none, some, List, [], ◌∷◌, Bytes, ◌==◌, eq_iff, Result, ok, err,
  if◌then◌else◌, arith, All,
}
use micro_identity_sidecar.Platform.{Platform}
use micro_identity_sidecar.Keys.{Random}
use micro_identity_sidecar.Jwt.Token.{b64}
use micro_identity_sidecar.Session.{Session, Row, Error, not_found, Backend, World}
use micro_identity_sidecar.Session.Table.{live, IsTable}
use micro_identity_sidecar.Session.Opaque.{
  hash_token, stamp, store, create, validate, revoke, revoke_all_for_subject, sweep, or_not_found,
}
use micro_identity_sidecar.Session.Opaque.Life.{validate-eq}

-- What is left of a validation when the sessions of `u` are gone.
abbrev pub unless_subject : Bytes → Result Error Session → Result Error Session
unless_subject u (err e) = err e
unless_subject u (ok s) = if s.subject == u then err not_found else ok s

module _ (p : Platform) {B : Type 0} (ops : Backend B) (find : Bytes → B → Option Row)
    (IsValid : B → Type 0) (promise : IsTable ops find IsValid) (ttl : ℕ) where
  -- A revoked token is not found from then on, at any time, and every token of another hash is
  -- what it was; also where the backend reports an error.
  pub revoke-validate :
      (token other : Bytes) (w : World B) (later : ℕ)
      → validate p ops ttl later other (revoke p ops ttl token w).0 ≡ (
          if hash_token p token == hash_token p other
          then err not_found
          else validate p ops ttl later other w)
  unfolding revoke
  revoke-validate token other w later = ground (
    arith,
    validate-eq p ops find IsValid promise ttl later other w,
    validate-eq p ops find IsValid promise ttl later other (revoke p ops ttl token w).0,
    promise.delete_find (hash_token p token) w.table (hash_token p other),
  )

  -- Over a table in order, logging a subject out ends all of its stateful sessions and no other.
  pub revoke_all-validate :
      (u token : Bytes) (w : World B) (later : ℕ)
      → IsValid w.table
      → validate p ops ttl later token (revoke_all_for_subject p ops ttl u w).0
        ≡ unless_subject u (validate p ops ttl later token w)
  unfolding revoke_all_for_subject
  revoke_all-validate u token w later h = ground (
    arith,
    validate-eq p ops find IsValid promise ttl later token w,
    validate-eq p ops find IsValid promise ttl later token (revoke_all_for_subject p ops ttl u w).0,
    promise.subject_find u w.table (hash_token p token) h,
  )

-- What happens to the table: calls of stores that share it, with their times to live, and sweeps.
pub data Op : Type 0 where
  creates : ℕ → ℕ → Random → Session → Op
  revokes revokes_all : Bytes → Op
  sweeps : ℕ → Op

module _ (p : Platform) {B : Type 0} (ops : Backend B) where
  unfoldable pub step : Op → World B → World B
  step (creates ttl now random s) w = (create p ops ttl now random s w).0
  step (revokes token) w = (revoke p ops 0 token w).0
  step (revokes_all u) w = (revoke_all_for_subject p ops 0 u w).0
  step (sweeps now) w = sweep p ops 0 now w

  unfoldable pub run : List Op → World B → World B
  run [] w = w
  run (o ∷ os) w = run os (step o w)

-- The random source does not spell a token of this hash again.
abbrev pub Avoids : Platform → Bytes → Op → Type 0
Avoids p hash (creates ttl now none s) = Unit
Avoids p hash (creates ttl now (some random) s) = hash_token p (b64 random) ≢ hash
Avoids p hash (revokes token) = Unit
Avoids p hash (revokes_all u) = Unit
Avoids p hash (sweeps now) = Unit

module _ (p : Platform) {B : Type 0} (ops : Backend B) (find : Bytes → B → Option Row)
    (IsValid : B → Type 0) (promise : IsTable ops find IsValid) where
  pub step-IsValid : (o : Op) (w : World B) → IsValid w.table → IsValid (step p ops o w).table
  unfolding step create store revoke revoke_all_for_subject sweep
  step-IsValid (creates ttl now none s) w h = h
  step-IsValid (creates ttl now (some random) s) w h = promise.put_valid now _ _ w.table h
  step-IsValid (revokes token) w h = promise.delete_valid _ w.table h
  step-IsValid (revokes_all u) w h = promise.subject_valid u w.table h
  step-IsValid (sweeps now) w h = promise.sweep_valid now w.table h

  pub step-absent :
      (hash : Bytes) (o : Op) (w : World B)
      → IsValid w.table
      → Avoids p hash o
      → find hash w.table ≡ none
      → find hash (step p ops o w).table ≡ none
  unfolding step create store revoke revoke_all_for_subject sweep
  step-absent hash (creates ttl now none s) w h a e = e
  step-absent hash (creates ttl now (some random) s) w h a e = ground (
    arith,
    promise.put_find now (hash_token p (b64 random)) (stamp p ttl now (b64 random) s) w.table hash,
    eq_iff (hash_token p (b64 random)) hash,
  )
  step-absent hash (revokes token) w h a e =
      ground (arith, promise.delete_find (hash_token p token) w.table hash)
  step-absent hash (revokes_all u) w h a e = ground (arith, promise.subject_find u w.table hash h)
  step-absent hash (sweeps now) w h a e = ground (arith, promise.sweep_find now w.table hash h)

  run-absent :
      (hash : Bytes) (os : List Op) (w : World B)
      → IsValid w.table
      → All (Avoids p hash) os
      → find hash w.table ≡ none
      → find hash (run p ops os w).table ≡ none
  unfolding run
  run-absent hash [] w h a e = e
  run-absent hash (o ∷ os) w h a e =
      run-absent hash os (step p ops o w) (step-IsValid o w h) a.1 (step-absent hash o w h a.0 e)

  -- Over a table in order, a revoked token stays dead: whatever is created, revoked and swept
  -- afterwards by any store over the table, no store finds it again, unless the random source
  -- spells a token of the same hash.
  pub revoked_for_good :
      (token : Bytes) (os : List Op) (w : World B) (ttl later : ℕ)
      → IsValid w.table
      → All (Avoids p (hash_token p token)) os
      → validate p ops ttl later token (run p ops os (revoke p ops ttl token w).0) ≡ err not_found
  unfolding revoke
  revoked_for_good token os w ttl later h a =
      validate-eq p ops find IsValid promise ttl later token _
      ∙ ap (λ o. or_not_found (live later o))
          (run-absent (hash_token p token) os (revoke p ops ttl token w).0
            (promise.delete_valid (hash_token p token) w.table h) a gone)
    where
      gone : find (hash_token p token) (revoke p ops ttl token w).0.table ≡ none
      gone = ground (
        arith,
        promise.delete_find (hash_token p token) w.table (hash_token p token),
        eq_iff (hash_token p token) (hash_token p token),
      )
