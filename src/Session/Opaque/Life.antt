-- ===== src/Session/Opaque/Life.antt =====
-- stateful.go: from creation to expiry, over any backend that keeps its promise.
use micro_identity_sidecar.Prelude.{
  ℕ, ◌+◌, ◌≤◌, ◌≡◌, Option, none, some, Bytes, ◌==◌, ltb, ok, err, if◌then◌else◌, arith,
}
use micro_identity_sidecar.Platform.{Platform}
use micro_identity_sidecar.Keys.{Random}
use micro_identity_sidecar.Jwt.Token.{b64}
use micro_identity_sidecar.Session.{Session, Row, not_found, expired, Backend, World}
use micro_identity_sidecar.Session.Table.{live, IsTable}
use micro_identity_sidecar.Session.Opaque.{
  hash_token, stamp, store, create, validate, sweep, or_not_found,
}

module _ (p : Platform) {B : Type 0} (ops : Backend B) (find : Bytes → B → Option Row)
    (IsValid : B → Type 0) (promise : IsTable ops find IsValid) (ttl : ℕ) where
  -- Validation reads one row.
  pub validate-eq :
      (now : ℕ) (token : Bytes) (w : World B)
      → validate p ops ttl now token w ≡ or_not_found (live now (find (hash_token p token) w.table))
  unfolding validate
  validate-eq now token w = rw (promise.get_find now (hash_token p token) w.table, validate)

  -- What a store call leaves at any token.
  pub store-validate :
      (now : ℕ) (token : Bytes) (s : Session) (w : World B) (later : ℕ) (other : Bytes)
      → validate p ops ttl later other (store p ops ttl now token s w).0 ≡ (
          if hash_token p token == hash_token p other
          then if ltb (now + ttl) later then err not_found else ok (stamp p ttl now token s)
          else validate p ops ttl later other w)
  unfolding store stamp expired
  store-validate now token s w later other = ground (
    arith,
    validate-eq later other w,
    validate-eq later other (store p ops ttl now token s w).0,
    promise.put_find now (hash_token p token) (stamp p ttl now token s) w.table
        (hash_token p other),
  )

  -- A token that creation returns is good for exactly its time to live, with the times and the id
  -- that it was stamped with, and the validity of every token of another hash stays what it was.
  pub create-validate :
      (now : ℕ) (random : Random) (s : Session) (w : World B) (token : Bytes) (later : ℕ)
      (other : Bytes)
      → (create p ops ttl now random s w).1 ≡ ok token
      → validate p ops ttl later other (create p ops ttl now random s w).0 ≡ (
          if hash_token p token == hash_token p other
          then if ltb (now + ttl) later then err not_found else ok (stamp p ttl now token s)
          else validate p ops ttl later other w)
  unfolding create store
  create-validate now none s w token later other made = cc
  create-validate now (some random) s w token later other made =
      let same : b64 random ≡ token = ground arith in
      rw (← same) (store-validate now (b64 random) s w later other)

  -- Over a table in order, a sweep changes no validation at the time of the sweep or later.
  pub sweep-validate :
      (now later : ℕ) (token : Bytes) (w : World B)
      → IsValid w.table
      → now ≤ later
      → validate p ops ttl later token (sweep p ops ttl now w) ≡ validate p ops ttl later token w
  unfolding sweep expired
  sweep-validate now later token w h after = ground (
    arith,
    validate-eq later token w,
    validate-eq later token (sweep p ops ttl now w),
    promise.sweep_find now w.table (hash_token p token) h,
  )
