-- ===== src/Middleware/Local/Printed.antt =====
-- middleware.go, manager.go: the cached keys against the keys of the sidecar, through the JSON between
-- them.
use micro_identity_sidecar.Prelude.{
  ℕ, ◌+◌, ◌≤◌, ◌≡◌, refl, ap, ◌∙◌, true, Option, none, some, List, map, Bytes, All, Result, ok, err,
  inl, inr, Bool,
}
use micro_identity_sidecar.Prelude.Map.{Map}
use micro_identity_sidecar.Platform.{Platform, IsSound}
use micro_identity_sidecar.Jwt.Token.{Verifier}
use micro_identity_sidecar.Keys.{Manager, verifier}
use micro_identity_sidecar.Keys.Invariant.{IsManaged}
use micro_identity_sidecar.Keys.Published.{jwks, jwk_members}
use micro_identity_sidecar.Keys.Jwks.{verifier_jwk}
use micro_identity_sidecar.Keys.Reading.{key_from, jwk_key-published, verifier-known}
use micro_identity_sidecar.Oidc.Server.{Server, State, Request, Response, key_set}
use micro_identity_sidecar.Oidc.Wire.{HttpAnswer}
use micro_identity_sidecar.Middleware.Local.{
  CachedJwk, LocalValidator, LocalError, stale, cached_jwk, decode_jwks, keys_at,
}
use micro_identity_sidecar.Middleware.Local.Freshness.{cached, cached_if, IsFetched, keys_at-cached}
use micro_identity_sidecar.Middleware.Local.Members.{AreTexts, jwks-AreTexts, cached_jwk-map}

module _ (p : Platform) (sound : IsSound p) where
  -- The key that a cached JWK stands for.
  abbrev pub cached_key : CachedJwk → Option Verifier
  cached_key k = key_from k.kty k.alg k.kid k.n k.e k.crv k.x

  abbrev pub key_if : Option CachedJwk → Option (Option Verifier)
  key_if none = none
  key_if (some k) = some (cached_key k)

  -- A lookup in the cache, as a lookup of the key that is cached.
  abbrev pub as_key :
      Result LocalError (Option CachedJwk) → Result LocalError (Option (Option Verifier))
  as_key (ok o) = ok (key_if o)
  as_key (err e) = err e

  key_if-verifier :
      (m : Manager) (kid : Bytes)
      → IsManaged p m
      → key_if (cached_if (verifier_jwk (verifier p m kid))) ≡ verifier p m kid
  key_if-verifier m kid h = elim (verifier-known p m kid h) [
    | inl absent ↦ rw absent refl
    | inr (k, known) ↦ rw known (ap some (jwk_key-published p sound k))
  ]

-- `print` is the text that json.MarshalIndent gives an object with these objects of strings under
-- "keys", `parse` what json.Decoder reads of it, and `other_body` the bodies that are not key sets.
module _ (p : Platform) (sound : IsSound p) {B : Type 0} (server : Server B) (is_url : Bytes → Bool)
    (fetch : Bytes → Option HttpAnswer) (print : List (Map Bytes) → Bytes)
    (parse : Bytes → Option (List (Map Bytes))) (other_body : Response → Bytes) where
  -- The body of the key set is Manager.JWKS.
  abbrev pub body_of : Response → Bytes
  body_of (key_set keys) = print (map jwk_members keys)
  body_of r = other_body r

  abbrev decode : Bytes → Option (List CachedJwk)
  decode = decode_jwks parse

  -- Decoding what was printed gives the same objects, if all texts are UTF-8.
  abbrev pub ReadsBack : Type 0
  ReadsBack = (l : List (Map Bytes)) → All (AreTexts p sound) l → parse (print l) ≡ some l

  decode-print :
      (m : Manager)
      → ReadsBack
      → IsManaged p m
      → decode (print (map jwk_members (jwks p m))) ≡ some (map cached (jwks p m))
  unfolding decode_jwks
  decode-print m back h =
      ap (λ o. elim o [ none ↦ none | some objects ↦ some (map cached_jwk objects) ])
        (back (map jwk_members (jwks p m)) (jwks-AreTexts p sound m h))
      ∙ ap some (cached_jwk-map p sound (jwks p m))

  -- If a lookup refreshes a stale cache from a sidecar whose keys are in order, then it and every
  -- lookup up to the ttl later give, for any id and without another fetch, a JWK that by the standards
  -- stands for exactly the key with which the sidecar verified tokens of that id when it was asked,
  -- and none where it had none: the names and encodings of the two programs fit. The platform is
  -- sound, the GET reaches the sidecar and what it writes comes back, and encoding/json reads back the
  -- objects of valid strings that it prints.
  pub keys_at-verifier :
      (now : ℕ) (kid : Bytes) (v : LocalValidator) (r : Request) (st : State B) (later : ℕ)
      (other : Bytes)
      → ReadsBack
      → IsManaged p st.world.keys
      → stale now v ≡ true
      → IsFetched p body_of server is_url fetch decode v r st
      → later ≤ now + v.ttl
      → (as_key p sound (keys_at is_url fetch decode now kid v).1
          ≡ ok (verifier p st.world.keys kid))
        × ((keys_at is_url fetch decode later other (keys_at is_url fetch decode now kid v).0).0
            ≡ (keys_at is_url fetch decode now kid v).0)
        × (as_key p sound
              (keys_at is_url fetch decode later other (keys_at is_url fetch decode now kid v).0).1
            ≡ ok (verifier p st.world.keys other))
  keys_at-verifier now kid v r st later other back managed old h soon =
      let m : Manager = st.world.keys in
      let (first, second) =
        keys_at-cached p body_of server is_url fetch decode now kid v r st later other
          (decode-print m back managed) managed old h soon in
      (
        ap (as_key p sound) first ∙ ap ok (key_if-verifier p sound m kid managed),
        ap (λ q. q.0) second,
        ap (λ q. as_key p sound q.1) second ∙ ap ok (key_if-verifier p sound m other managed),
      )
