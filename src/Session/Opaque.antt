-- ===== src/Session/Opaque.antt =====
-- stateful.go: OpaqueStore, over any backend.
pub mod Life
pub mod Revocation
use micro_identity_sidecar.Prelude.{
  ℕ, ◌+◌, Option, none, some, List, [], ◌∷◌, Bytes, ◌==◌, String, Result, ok, err, ◌>>=◌, take,
  if◌then◌else◌,
}
use micro_identity_sidecar.Platform.{Platform}
use micro_identity_sidecar.Keys.{Random}
use micro_identity_sidecar.Jwt.Token.{b64}
use micro_identity_sidecar.Session.{
  Session, Error, not_found, no_random, wrapped, Backend, World, Store,
}

-- hashToken
unfoldable pub hash_token : Platform → Bytes → Bytes
hash_token p token = b64 (p.sha256 token)

-- The session as it is stored: with its times, and with an id of its own if it came without one.
unfoldable pub stamp : Platform → ℕ → ℕ → Bytes → Session → Session
stamp p ttl now token s = record s {
  id = if s.id == [] then take 16 (hash_token p token) else s.id;
  issued_at = now;
  expires_at = now + ttl;
}

-- A row or ErrNotFound.
abbrev pub or_not_found : Option Session → Result Error Session
or_not_found none = err not_found
or_not_found (some s) = ok s

module _ (p : Platform) {B : Type 0} (ops : Backend B) (ttl : ℕ) where
  -- Puts the session under the token that the random bytes spell.
  unfoldable pub store : ℕ → Bytes → Session → World B → World B × Result Error Bytes
  store now token s w =
      let (table, failed) = ops.put now (hash_token p token) (stamp p ttl now token s) w.table in
      (
        record w { table = table },
        elim failed [ none ↦ ok token | some e ↦ err (wrapped "store session" e) ],
      )

  unfoldable pub create : ℕ → Random → Session → World B → World B × Result Error Bytes
  create now none s w = (w, err (wrapped "generate opaque token" no_random))
  create now (some random) s w = store now (b64 random) s w

  unfoldable pub validate : ℕ → Bytes → World B → Result Error Session
  validate now token w = elim (ops.get now (hash_token p token) w.table) [
    | ok found ↦ or_not_found found
    | err e ↦ err (wrapped "lookup session" e)
  ]

  unfoldable pub revoke : Bytes → World B → World B × Option Error
  revoke token w =
      let (table, failed) = ops.delete (hash_token p token) w.table in
      (record w { table = table }, failed)

  unfoldable pub revoke_all_for_subject : Bytes → World B → World B × ℕ × Option Error
  revoke_all_for_subject u w =
      let (table, n, failed) = ops.delete_where_subject u w.table in
      (record w { table = table }, n, failed)

  -- One tick of StartSweeper; it only logs an error.
  unfoldable pub sweep : ℕ → World B → World B
  sweep now w = let (table, n, failed) = ops.sweep now w.table in record w { table = table }

  -- OpaqueStore as a Store.
  abbrev pub opaque_store : Store (World B)
  opaque_store = record {
    kind = "stateful-opaque";
    create = create;
    validate = validate;
    revoke = revoke;
    revoke_all_for_subject = revoke_all_for_subject;
  }
