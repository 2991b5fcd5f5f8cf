-- ===== src/Middleware/Local.antt =====
-- examples/middleware/middleware.go: the cache of the sidecar's key set.
pub mod Freshness
pub mod Members
pub mod Printed
use micro_identity_sidecar.Prelude.{
  ℕ, ◌+◌, ◌*◌, Bool, true, false, not, Option, none, some, List, [], ◌∷◌, ◌++◌, Bytes, ltb, codes,
  Result, ok, err, if◌then◌else◌, map,
}
use micro_identity_sidecar.Prelude.Map.{Map, get, put}
use micro_identity_sidecar.Go.Strings.{trim_right}
use micro_identity_sidecar.Jwt.Token.{second}
use micro_identity_sidecar.Oidc.Wire.{HttpAnswer}

-- The jwk of the middleware, a subset of the members of the sidecar's.
pub record CachedJwk : Type 0 where
  pub kty : Bytes
  pub kid : Bytes
  pub alg : Bytes
  pub n : Bytes
  pub e : Bytes
  pub crv : Bytes
  pub x : Bytes

-- The text of a member; one that is absent leaves the field empty.
unfoldable pub text_of : Bytes → Map Bytes → Bytes
text_of key m = elim (get key m) [ none ↦ [] | some s ↦ s ]

-- What the tags of the middleware's jwk take from the members of an object.
unfoldable pub cached_jwk : Map Bytes → CachedJwk
cached_jwk m = record {
  kty = text_of (codes "kty") m;
  kid = text_of (codes "kid") m;
  alg = text_of (codes "alg") m;
  n = text_of (codes "n") m;
  e = text_of (codes "e") m;
  crv = text_of (codes "crv") m;
  x = text_of (codes "x") m;
}

-- json.Decoder.Decode into jwks, where `parse` reads the objects under "keys", all of whose members
-- are strings.
unfoldable pub decode_jwks : (Bytes → Option (List (Map Bytes))) → Bytes → Option (List CachedJwk)
decode_jwks parse body = elim (parse body) [
  | none ↦ none
  | some objects ↦ some (map cached_jwk objects)
]

-- LocalValidator; `fetched_at` is absent for the zero time.
pub record LocalValidator : Type 0 where
  pub jwks_url : Bytes
  pub issuer : Bytes
  pub keys : Map CachedJwk
  pub fetched_at : Option ℕ
  pub ttl : ℕ

-- NewLocalValidator
unfoldable pub new_local_validator : Bytes → Bytes → LocalValidator
new_local_validator base_url issuer = record {
  jwks_url = trim_right base_url b'/' ++ codes "/.well-known/jwks.json";
  issuer = issuer;
  keys = [];
  fetched_at = none;
  ttl = 300 * second;
}

pub data LocalError : Type 0 where
  bad_url unreachable undecodable unplugged : LocalError

-- time.Since(v.fetchedAt) > v.ttl
unfoldable pub stale : ℕ → LocalValidator → Bool
stale now v = elim v.fetched_at [ none ↦ true | some t ↦ ltb (t + v.ttl) now ]

-- for _, k := range doc.Keys { v.keys[k.Kid] = k }
unfoldable pub cache_all : List CachedJwk → Map CachedJwk → Map CachedJwk
cache_all [] m = m
cache_all (k ∷ l) m = cache_all l (put k.kid k m)

-- `is_url` is whether NewRequest accepts a URL, `fetch` what Do gives for a GET of it, and
-- `decode_keys` what json.Decoder.Decode reads from a body as the key set.
module _ (is_url : Bytes → Bool) (fetch : Bytes → Option HttpAnswer)
    (decode_keys : Bytes → Option (List CachedJwk)) where
  -- refreshIfStale; it does not look at the status.
  unfoldable pub refresh_if_stale : ℕ → LocalValidator → LocalValidator × Option LocalError
  refresh_if_stale now v =
      if not (stale now v)
      then (v, none)
      else if not (is_url v.jwks_url)
      then (v, some bad_url)
      else elim (fetch v.jwks_url) [
        | none ↦ (v, some unreachable)
        | some a ↦ elim (decode_keys a.body) [
          | none ↦ (v, some undecodable)
          | some keys ↦ (record v { keys = cache_all keys []; fetched_at = some now }, none)
        ]
      ]

  -- LocalValidator.Validate, the documented stub.
  unfoldable pub validate : ℕ → Bytes → LocalValidator → LocalValidator × LocalError
  validate now token v =
      let (v', failed) = refresh_if_stale now v in
      (v', elim failed [ none ↦ unplugged | some e ↦ e ])

  -- LocalValidator.Keys
  unfoldable pub keys_at :
      ℕ → Bytes → LocalValidator → LocalValidator × Result LocalError (Option CachedJwk)
  keys_at now kid v =
      let (v', failed) = refresh_if_stale now v in
      (v', elim failed [ none ↦ ok (get kid v'.keys) | some e ↦ err e ])
