-- ===== src/Middleware/Local/Freshness.antt =====
-- middleware.go: which keys the cache gives.
use micro_identity_sidecar.Prelude.{
  ℕ, ◌+◌, ◌≤◌, ◌≡◌, refl, sym, ap, subst, ◌∙◌, Bool, true, Option, none, some, List, [], ◌∷◌, map,
  Bytes, ◌==◌, eq_iff, codes, Result, ok, err, arith,
}
use micro_identity_sidecar.Prelude.Map.{Map, get, put, get-put}
use micro_identity_sidecar.Platform.{Platform}
use micro_identity_sidecar.Keys.{Manager, verifier}
use micro_identity_sidecar.Keys.Invariant.{IsManaged}
use micro_identity_sidecar.Keys.Published.{Jwk, jwks}
use micro_identity_sidecar.Keys.Jwks.{
  jwk_at, jwks-verifier, verifier_jwk, jwks-IsDistinct, IsDistinct,
}
use micro_identity_sidecar.Oidc.Server.{Server, State, Request, Response, key_set}
use micro_identity_sidecar.Oidc.Resources.{handle_jwks}
use micro_identity_sidecar.Oidc.Wire.{HttpAnswer, wire}
use micro_identity_sidecar.Middleware.Local.{
  CachedJwk, LocalValidator, LocalError, stale, cache_all, refresh_if_stale, keys_at,
}

-- What the middleware reads of a published key.
abbrev pub cached : Jwk → CachedJwk
cached k = record { kty = k.kty; kid = k.kid; alg = k.alg; n = k.n; e = k.e; crv = k.crv; x = k.x }

abbrev pub cached_if : Option Jwk → Option CachedJwk
cached_if none = none
cached_if (some k) = some (cached k)

abbrev or_else : Option CachedJwk → Option CachedJwk → Option CachedJwk
or_else none o = o
or_else (some k) o = some k

-- Of distinct keys, the map holds each under its id.
get-cache_all :
    (kid : Bytes) (l : List Jwk) (m : Map CachedJwk)
    → IsDistinct l
    → get kid (cache_all (map cached l) m) ≡ or_else (cached_if (jwk_at kid l)) (get kid m)
unfolding cache_all jwk_at
get-cache_all kid [] m h = refl
get-cache_all kid (k ∷ l) m h = ground (
  arith,
  h,
  get-cache_all kid l (put k.kid (cached k) m) h.1,
  get-put k.kid kid (cached k) m,
  eq_iff k.kid kid,
)

module _ (p : Platform) (other_body : Response → Bytes) {B : Type 0} (server : Server B)
    (is_url : Bytes → Bool) (fetch : Bytes → Option HttpAnswer)
    (decode_keys : Bytes → Option (List CachedJwk)) where
  -- The decoder reads the key set of a manager as the sidecar prints it.
  abbrev pub ReadsKeys : Manager → Type 0
  ReadsKeys m = decode_keys (other_body (key_set (jwks p m))) ≡ some (map cached (jwks p m))

  -- A GET reaches the sidecar, and what it writes comes back.
  pub record IsFetched (v : LocalValidator) (r : Request) (st : State B) : Type 0 where
    pub url : is_url v.jwks_url ≡ true
    pub method : r.method ≡ codes "GET"
    pub returned : fetch v.jwks_url ≡ some (wire p other_body (handle_jwks p server r st))

  -- The validator behind a refresh.
  abbrev pub refreshed : ℕ → Manager → LocalValidator → LocalValidator
  refreshed now m v = record v {
    keys = cache_all (map cached (jwks p m)) [];
    fetched_at = some now;
  }

  refresh-eq :
      (now : ℕ) (v : LocalValidator) (r : Request) (st : State B)
      → ReadsKeys st.world.keys
      → stale now v ≡ true
      → IsFetched v r st
      → refresh_if_stale is_url fetch decode_keys now v ≡ (refreshed now st.world.keys v, none)
  unfolding refresh_if_stale wire handle_jwks
  refresh-eq now v r st reads old h =
      let get : (r.method == codes "GET") ≡ true = (eq_iff r.method (codes "GET")).1 h.method in
      rw (old, h.url, h.returned, get, refresh_if_stale) (rw reads refl)

  or_else-none : (o : Option CachedJwk) → or_else o none ≡ o
  or_else-none none = refl
  or_else-none (some k) = refl

  cache_holds :
      (now : ℕ) (kid : Bytes) (v : LocalValidator) (m : Manager)
      → IsManaged p m
      → get kid (refreshed now m v).keys ≡ cached_if (verifier_jwk (verifier p m kid))
  unfolding get
  cache_holds now kid v m managed =
      get-cache_all kid (jwks p m) [] (jwks-IsDistinct p m managed)
      ∙ or_else-none (cached_if (jwk_at kid (jwks p m)))
      ∙ ap cached_if (jwks-verifier p m kid managed)

  refreshed_stays :
      (now later : ℕ) (v : LocalValidator) (m : Manager)
      → later ≤ now + v.ttl
      → refresh_if_stale is_url fetch decode_keys later (refreshed now m v)
        ≡ (refreshed now m v, none)
  unfolding refresh_if_stale stale
  refreshed_stays now later v m soon = ground arith

  -- What a lookup answers behind a refresh.
  abbrev lookup_in :
      Bytes
      → LocalValidator × Option LocalError
      → LocalValidator × Result LocalError (Option CachedJwk)
  lookup_in kid q = (q.0, elim q.1 [ none ↦ ok (get kid q.0.keys) | some e ↦ err e ])

  keys_at-eq :
      (now : ℕ) (kid : Bytes) (v : LocalValidator)
      → keys_at is_url fetch decode_keys now kid v
        ≡ lookup_in kid (refresh_if_stale is_url fetch decode_keys now v)
  unfolding keys_at
  keys_at-eq now kid v = refl

  -- A lookup behind a refresh, and a later one that needs none.
  pub keys_at-cached :
      (now : ℕ) (kid : Bytes) (v : LocalValidator) (r : Request) (st : State B) (later : ℕ)
      (other : Bytes)
      → ReadsKeys st.world.keys
      → IsManaged p st.world.keys
      → stale now v ≡ true
      → IsFetched v r st
      → later ≤ now + v.ttl
      → ((keys_at is_url fetch decode_keys now kid v).1
          ≡ ok (cached_if (verifier_jwk (verifier p st.world.keys kid))))
        × (keys_at is_url fetch decode_keys later other
              (keys_at is_url fetch decode_keys now kid v).0
            ≡ (
              (keys_at is_url fetch decode_keys now kid v).0,
              ok (cached_if (verifier_jwk (verifier p st.world.keys other))),
            ))
  keys_at-cached now kid v r st later other reads managed old h soon =
      let m : Manager = st.world.keys in
      let w : LocalValidator = refreshed now m v in
      let first : keys_at is_url fetch decode_keys now kid v ≡ (w, ok (get kid w.keys)) =
        keys_at-eq now kid v ∙ ap (lookup_in kid) (refresh-eq now v r st reads old h) in
      let second : keys_at is_url fetch decode_keys later other w ≡ (w, ok (get other w.keys)) =
        keys_at-eq later other w ∙ ap (lookup_in other) (refreshed_stays now later v m soon) in
      let after : (keys_at is_url fetch decode_keys now kid v).0 ≡ w = ap (λ q. q.0) first in
      (
        ap (λ q. q.1) first ∙ ap ok (cache_holds now kid v m managed),
        subst
            (λ u.
              keys_at is_url fetch decode_keys later other u
              ≡ (u, ok (cached_if (verifier_jwk (verifier p m other)))))
            (sym after) (second ∙ ap (λ o. (w, ok o)) (cache_holds now other v m managed)),
      )
