-- ===== src/Keys/Jwks.antt =====
-- manager.go: the published key set against the keys that verify.
use mathlib.Core.List.{flat_map}
use micro_identity_sidecar.Prelude.{
  ℕ, ◌≡◌, refl, Option, none, some, List, [], ◌∷◌, arith, Bytes, ◌==◌, All, if◌then◌else◌, ◌∙◌,
}
use micro_identity_sidecar.Platform.{Platform}
use micro_identity_sidecar.Jwt.Token.{
  Signer, rsa_signer, ed_signer, Verifier, rsa_verifier, ed_verifier, verifier_of, kid_of,
}
use micro_identity_sidecar.Keys.Published.{Jwk, rsa_jwk, ed_jwk, jwk, jwks}
use micro_identity_sidecar.Keys.{Entry, Manager, entry_verifier, find, verifier}
use micro_identity_sidecar.Keys.Kid.{Distinct}
use micro_identity_sidecar.Keys.Generation.{IsKey}
use micro_identity_sidecar.Keys.Invariant.{IsManaged}

-- The JWK that publishes what a verifier checks with.
abbrev pub published : Verifier → Jwk
published (rsa_verifier kid key) = rsa_jwk kid key
published (ed_verifier kid key) = ed_jwk kid key

-- The first key that is listed under an id.
unfoldable pub jwk_at : Bytes → List Jwk → Option Jwk
jwk_at kid [] = none
jwk_at kid (k ∷ l) = if k.kid == kid then some k else jwk_at kid l

-- No id is listed twice.
abbrev pub IsDistinct : List Jwk → Type 0
IsDistinct [] = Unit
IsDistinct (k ∷ l) = (jwk_at k.kid l ≡ none) × IsDistinct l

abbrev pub verifier_jwk : Option (Option Verifier) → Option Jwk
verifier_jwk none = none
verifier_jwk (some none) = none
verifier_jwk (some (some v)) = some (published v)

module _ (p : Platform) where
  pub jwk-published :
      (e : Entry) (v : Verifier) → entry_verifier p e ≡ some v → jwk p e ≡ published v ∷ []
  unfolding jwk entry_verifier
  jwk-published e v h = ground (arith)

  published_kid : (k : Signer) → (published (verifier_of p k)).kid ≡ kid_of k
  unfolding verifier_of rsa_jwk ed_jwk
  published_kid (rsa_signer kid key) = refl
  published_kid (ed_signer kid key) = refl

  abbrev entry_jwk : Option Entry → Option Jwk
  entry_jwk none = none
  entry_jwk (some e) = elim (entry_verifier p e) [ none ↦ none | some v ↦ some (published v) ]

  jwk_at-flat_map :
      (alg : Bytes) (seq : ℕ) (kid : Bytes) (l : List Entry)
      → All (IsKey p alg seq) l
      → jwk_at kid (flat_map (jwk p) l) ≡ entry_jwk (find kid l)
  unfolding flat_map jwk_at find
  jwk_at-flat_map alg seq kid [] h = refl
  jwk_at-flat_map alg seq kid (e ∷ l) h = rw (jwk-published e _ h.0.verifies) (
      ground
        (arith, jwk_at-flat_map alg seq kid l h.1, published_kid h.0.key, h.0.kid, h.0.verifies))

  distinct-flat_map :
      (alg : Bytes) (seq : ℕ) (l : List Entry)
      → All (IsKey p alg seq) l
      → Distinct l
      → IsDistinct (flat_map (jwk p) l)
  unfolding flat_map
  distinct-flat_map alg seq [] h d = tt
  distinct-flat_map alg seq (e ∷ l) h d = rw (jwk-published e _ h.0.verifies) (
      (
        ground (arith, d.0, jwk_at-flat_map alg seq e.kid l h.1, published_kid h.0.key, h.0.kid),
        distinct-flat_map alg seq l h.1 d.1,
      ))

  -- No id is published twice.
  pub jwks-IsDistinct : (m : Manager) → IsManaged p m → IsDistinct (jwks p m)
  unfolding jwks
  jwks-IsDistinct m h =
      distinct-flat_map m.alg m.seq (m.active ∷ m.retired) (h.active, h.retired) h.distinct

  -- For a manager in order, the published set lists, under every id, the public half of the key
  -- that verifies tokens of that id, and nothing under an id that no token is verified by.
  pub jwks-verifier :
      (m : Manager) (kid : Bytes)
      → IsManaged p m
      → jwk_at kid (jwks p m) ≡ verifier_jwk (verifier p m kid)
  unfolding jwks verifier find
  jwks-verifier m kid h =
      jwk_at-flat_map m.alg m.seq kid (m.active ∷ m.retired) (h.active, h.retired) ∙ ground arith
