-- ===== src/Middleware/Local/Members.antt =====
-- manager.go, middleware.go: the members of a published key, and what the middleware takes of them.
use mathlib.Core.List.{flat_map}
use micro_identity_sidecar.Prelude.{
  ℕ, ◌<◌, ◌≡◌, refl, sym, subst, ◌∙◌, true, false, List, [], ◌∷◌, map, Bytes, ◌==◌, All, codes,
  arith, Bool-cases, eq_iff, inl, inr,
}
use micro_identity_sidecar.Prelude.Map.{Map, get}
use micro_identity_sidecar.Platform.{Platform, IsSound}
use micro_identity_sidecar.Go.Base64.RoundTrip.{IsBytes, encode-ascii}
use micro_identity_sidecar.Jwt.Exponent.{
  encode_mod_exp, big64, big_bytes, big64-value, big_bytes-value,
}
use micro_identity_sidecar.Jwt.Token.{Signer, rsa_signer, ed_signer, verifier_of, kid_of, b64}
use micro_identity_sidecar.Keys.{Entry, Manager}
use micro_identity_sidecar.Keys.Generation.{IsKey}
use micro_identity_sidecar.Keys.Invariant.{IsManaged}
use micro_identity_sidecar.Keys.Published.{
  Jwk, rsa_jwk, ed_jwk, jwk, jwks, unless_empty, jwk_members,
}
use micro_identity_sidecar.Keys.Jwks.{jwk-published, published}
use micro_identity_sidecar.Session.Stateless.RoundTrip.{alg-ascii, kid_for-utf8}
use micro_identity_sidecar.Middleware.Local.{text_of, cached_jwk}
use micro_identity_sidecar.Middleware.Local.Freshness.{cached}

text_here : (k s : Bytes) (m : Map Bytes) → text_of k m ≡ [] → text_of k (unless_empty k s m) ≡ s
unfolding text_of get
text_here k s m absent = ground (arith, absent, eq_iff s [], eq_iff k k)

text_there :
    (j k s : Bytes) (m : Map Bytes)
    → (j == k) ≡ false
    → text_of k (unless_empty j s m) ≡ text_of k m
unfolding text_of get
text_there j k s m apart = ground (arith, apart)

-- The tags of the two programs fit.
cached_jwk-members : (k : Jwk) → cached_jwk (jwk_members k) ≡ cached k
unfolding cached_jwk jwk_members text_of get ◌==◌
cached_jwk-members k =
    let x : Bytes = codes "x" in
    let crv : Bytes = codes "crv" in
    let n : Bytes = codes "n" in
    let e : Bytes = codes "e" in
    let m3 : Map Bytes = unless_empty x k.x [] in
    let m2 : Map Bytes = unless_empty crv k.crv m3 in
    let m1 : Map Bytes = unless_empty e k.e m2 in
    let at_n : text_of n (unless_empty n k.n m1) ≡ k.n =
      text_here n k.n m1 (
        text_there e n k.e m2 refl ∙ text_there crv n k.crv m3 refl ∙ text_there x n k.x [] refl) in
    let at_e : text_of e (unless_empty n k.n m1) ≡ k.e =
      text_there n e k.n m1 refl
      ∙ text_here e k.e m2 (text_there crv e k.crv m3 refl ∙ text_there x e k.x [] refl) in
    let at_crv : text_of crv (unless_empty n k.n m1) ≡ k.crv =
      text_there n crv k.n m1 refl
      ∙ text_there e crv k.e m2 refl
      ∙ text_here crv k.crv m3 (text_there x crv k.x [] refl) in
    let at_x : text_of x (unless_empty n k.n m1) ≡ k.x =
      text_there n x k.n m1 refl
      ∙ text_there e x k.e m2 refl
      ∙ text_there crv x k.crv m3 refl
      ∙ text_here x k.x [] refl in
    λ i. record {
      kty = k.kty;
      kid = k.kid;
      alg = k.alg;
      n = at_n i;
      e = at_e i;
      crv = at_crv i;
      x = at_x i;
    }

module _ (p : Platform) (sound : IsSound p) where
  -- Names and texts that JSON carries unchanged.
  abbrev pub AreTexts : Map Bytes → Type 0
  AreTexts = All (λ e. (p.is_utf8 e.0 ≡ true) × (p.is_utf8 e.1 ≡ true))

  unless_empty-AreTexts :
      (key s : Bytes) (m : Map Bytes)
      → p.is_utf8 key ≡ true
      → p.is_utf8 s ≡ true
      → AreTexts m
      → AreTexts (unless_empty key s m)
  unless_empty-AreTexts key s m named text h = elim (Bool-cases (s == [])) [
    | inl empty ↦ rw empty h
    | inr full ↦ rw full ((named, text), h)
  ]

  b64-text : (bs : Bytes) → IsBytes bs → p.is_utf8 (b64 bs) ≡ true
  unfolding b64
  b64-text bs h = sound.utf8_ascii _ (encode-ascii bs h)

  ascii : (s : Bytes) → All (λ c. c < 128) s → p.is_utf8 s ≡ true
  ascii = sound.utf8_ascii

  members-AreTexts :
      (k : Jwk)
      → p.is_utf8 k.kty ≡ true
      → p.is_utf8 k.use_for ≡ true
      → p.is_utf8 k.alg ≡ true
      → p.is_utf8 k.kid ≡ true
      → p.is_utf8 k.n ≡ true
      → p.is_utf8 k.e ≡ true
      → p.is_utf8 k.crv ≡ true
      → p.is_utf8 k.x ≡ true
      → AreTexts (jwk_members k)
  unfolding jwk_members
  members-AreTexts k kty purpose alg kid n e crv x = (
    (ascii _ (omega arith), kty),
    (
      (ascii _ (omega arith), purpose),
      (
        (ascii _ (omega arith), alg),
        (
          (ascii _ (omega arith), kid),
          unless_empty-AreTexts _ k.n _ (ascii _ (omega arith)) n (
              unless_empty-AreTexts _ k.e _ (ascii _ (omega arith)) e (
                unless_empty-AreTexts _ k.crv _ (ascii _ (omega arith)) crv
                  (unless_empty-AreTexts _ k.x _ (ascii _ (omega arith)) x tt))),
        ),
      ),
    ),
  )

  published-AreTexts :
      (k : Signer)
      → p.is_utf8 (kid_of k) ≡ true
      → AreTexts (jwk_members (published (verifier_of p k)))
  unfolding verifier_of rsa_jwk ed_jwk encode_mod_exp
  published-AreTexts (rsa_signer kid key) text =
      members-AreTexts (rsa_jwk kid key.public_key) (ascii _ (omega arith)) (ascii _ (omega arith))
        (ascii _ (omega arith)) text
        (b64-text (big_bytes key.public_key.n) (big_bytes-value key.public_key.n).1)
        (b64-text (big64 key.public_key.e) (big64-value key.public_key.e).1) (ascii [] tt)
        (ascii [] tt)
  published-AreTexts (ed_signer kid key) text =
      members-AreTexts (ed_jwk kid (p.ed_public key)) (ascii _ (omega arith))
        (ascii _ (omega arith)) (ascii _ (omega arith)) text (ascii [] tt) (ascii [] tt)
        (ascii _ (omega arith)) (b64-text (p.ed_public key) (sound.ed_public_bytes key))

  -- The ids that the manager makes are ASCII.
  kid-text :
      (alg : Bytes) (seq : ℕ) (e : Entry) (h : IsKey p alg seq e) → p.is_utf8 (kid_of h.key) ≡ true
  kid-text alg seq e h =
      let named : All (λ c. c < 128) alg = elim (alg-ascii p sound e h.key h.signs) [
        | inl is_rsa ↦ subst (All (λ c. c < 128)) (sym is_rsa ∙ h.same_alg) (omega arith)
        | inr is_ed ↦ subst (All (λ c. c < 128)) (sym is_ed ∙ h.same_alg) (omega arith)
      ] in
      rw h.kid (rw h.numbered.printed (kid_for-utf8 p sound alg _ _ named))

  flat_map-AreTexts :
      (alg : Bytes) (seq : ℕ) (l : List Entry)
      → All (IsKey p alg seq) l
      → All AreTexts (map jwk_members (flat_map (jwk p) l))
  unfolding flat_map
  flat_map-AreTexts alg seq [] h = tt
  flat_map-AreTexts alg seq (e ∷ l) h =
      rw (jwk-published p e _ h.0.verifies)
        (published-AreTexts h.0.key (kid-text alg seq e h.0), flat_map-AreTexts alg seq l h.1)

  pub jwks-AreTexts : (m : Manager) → IsManaged p m → All AreTexts (map jwk_members (jwks p m))
  unfolding jwks
  jwks-AreTexts m h = flat_map-AreTexts m.alg m.seq (m.active ∷ m.retired) (h.active, h.retired)

  pub cached_jwk-map : (l : List Jwk) → map cached_jwk (map jwk_members l) ≡ map cached l
  cached_jwk-map [] = refl
  cached_jwk-map (k ∷ l) = λ i. cached_jwk-members k i ∷ cached_jwk-map l i
