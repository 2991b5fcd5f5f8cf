-- ===== src/Keys/Generation.antt =====
-- manager.go: the entries that generate makes, and what retirement leaves of them.
use micro_identity_sidecar.Prelude.{
  ℕ, ◌+◌, ◌≡◌, ◌⊎◌, refl, sym, subst, none, some, List, [], ◌∷◌, ◌++◌, arith, Bytes, ◌==◌, eq_iff,
  All, Bool-cases, Option-cases, inl, inr, ok,
}
use micro_identity_sidecar.Platform.{Platform, RsaPrivateKey}
use micro_identity_sidecar.Jwt.Token.{
  Signer, rs256, eddsa, verifier_of, kid_of, rsa_signer, ed_signer,
}
use micro_identity_sidecar.Jwt.Token.Signing.{IsGenerated}
use micro_identity_sidecar.Keys.{Entry, Random, signer, entry_verifier, kid_for, blank, generate}
use micro_identity_sidecar.Keys.Kid.{IsNumbered, IsNumbered-next}

-- An entry holds a generated key of its algorithm under an id of its own.
pub record IsKey (p : Platform) (alg : Bytes) (seq : ℕ) (e : Entry) : Type 0 where
  pub same_alg : e.alg ≡ alg
  pub key : Signer
  pub signs : signer e ≡ some key
  pub verifies : entry_verifier p e ≡ some (verifier_of p key)
  pub kid : kid_of key ≡ e.kid
  pub generated : IsGenerated p key
  pub numbered : IsNumbered alg seq e

abbrev pub IsRetired : Entry → Type 0
IsRetired e = (t : ℕ) × (e.retired_at ≡ some t)

pub IsKey-next :
    (p : Platform) (alg : Bytes) (seq : ℕ) (e : Entry) → IsKey p alg seq e → IsKey p alg (seq + 1) e
IsKey-next p alg seq e h = record {
  same_alg = h.same_alg;
  key = h.key;
  signs = h.signs;
  verifies = h.verifies;
  kid = h.kid;
  generated = h.generated;
  numbered = IsNumbered-next alg seq e h.numbered;
}

pub All-next :
    (p : Platform) (alg : Bytes) (seq : ℕ) (l : List Entry)
    → All (IsKey p alg seq) l
    → All (IsKey p alg (seq + 1)) l
All-next p alg seq [] h = tt
All-next p alg seq (e ∷ l) h = (IsKey-next p alg seq e h.0, All-next p alg seq l h.1)

pub All-append :
    (P : Entry → Type 0) (l : List Entry) (e : Entry) → All P l → P e → All P (l ++ e ∷ [])
All-append P [] e h he = (he, tt)
All-append P (x ∷ l) e h he = (h.0, All-append P l e h.1 he)

-- Retirement changes nothing that signing or verification reads.
pub retire-IsKey :
    (p : Platform) (alg : Bytes) (seq t : ℕ) (e : Entry)
    → IsKey p alg seq e
    → IsKey p alg seq (record e { retired_at = some t })
unfolding signer entry_verifier
retire-IsKey p alg seq t e h = record {
  same_alg = h.same_alg;
  key = h.key;
  signs = h.signs;
  verifies = h.verifies;
  kid = h.kid;
  generated = h.generated;
  numbered = record {
    made_at = h.numbered.made_at;
    number = h.numbered.number;
    printed = h.numbered.printed;
    bounded = h.numbered.bounded;
  };
}

-- A fresh key, by either algorithm.
pub record IsFresh (p : Platform) (alg : Bytes) (now seq : ℕ) (e : Entry) : Type 0 where
  pub key : IsKey p alg seq e
  pub kid : e.kid ≡ kid_for alg now seq
  pub in_use : e.retired_at ≡ none

module _ (p : Platform) (now seq : ℕ) where
  rsa-IsFresh :
      (r : Bytes) (k : RsaPrivateKey)
      → p.rsa_generate r ≡ some k
      → IsFresh p rs256 now seq (record (blank rs256 now seq) { rsa_priv = some k })
  unfolding signer entry_verifier verifier_of ◌==◌
  rsa-IsFresh r k made = record {
    key = record {
      same_alg = refl;
      key = rsa_signer (kid_for rs256 now seq) k;
      signs = refl;
      verifies = refl;
      kid = refl;
      generated = (r, made);
      numbered = record { made_at = now; number = seq; printed = refl; bounded = omega arith };
    };
    kid = refl;
    in_use = refl;
  }

  ed-IsFresh :
      (r : Bytes)
      → IsFresh p eddsa now seq (record (blank eddsa now seq) { ed_priv = some (p.ed_generate r) })
  unfolding signer entry_verifier verifier_of ◌==◌
  ed-IsFresh r = record {
    key = record {
      same_alg = refl;
      key = ed_signer (kid_for eddsa now seq) (p.ed_generate r);
      signs = refl;
      verifies = refl;
      kid = refl;
      generated = (r, refl);
      numbered = record { made_at = now; number = seq; printed = refl; bounded = omega arith };
    };
    kid = refl;
    in_use = refl;
  }

  -- What `generate` gives, by the algorithm.
  generate-cases :
      (random : Random) (alg : Bytes) (e : Entry)
      → generate p now random alg seq ≡ ok e
      → ((r : Bytes) × (k : RsaPrivateKey) × (p.rsa_generate r ≡ some k)
          × (alg ≡ rs256)
          × (record (blank alg now seq) { rsa_priv = some k } ≡ e))
        ⊎ ((r : Bytes) × (alg ≡ eddsa)
            × (record (blank alg now seq) { ed_priv = some (p.ed_generate r) } ≡ e))
  unfolding generate
  generate-cases none alg e h = ground (arith, eq_iff alg rs256, eq_iff alg eddsa)
  generate-cases (some r) alg e h = elim (Bool-cases (alg == rs256)) [
    | inl is_rsa ↦ elim (Option-cases (p.rsa_generate r)) [
      | inl failed ↦ absurd (ground arith)
      | inr (k, made) ↦ inl (r, k, made, (eq_iff alg rs256).0 is_rsa, ground arith)
    ]
    | inr not_rsa ↦ elim (Bool-cases (alg == eddsa)) [
      | inl is_ed ↦ inr (r, (eq_iff alg eddsa).0 is_ed, ground arith)
      | inr not_ed ↦ absurd (ground arith)
    ]
  ]

  pub generate-IsFresh :
      (random : Random) (alg : Bytes) (e : Entry)
      → generate p now random alg seq ≡ ok e
      → IsFresh p alg now seq e
  generate-IsFresh random alg e h = elim (generate-cases random alg e h) [
    | inl (r, k, made, is_rsa, same) ↦ subst (IsFresh p alg now seq) same (
        subst (λ a. IsFresh p a now seq (record (blank a now seq) { rsa_priv = some k }))
          (sym is_rsa) (rsa-IsFresh r k made))
    | inr (r, is_ed, same) ↦ subst (IsFresh p alg now seq) same (
        subst
          (λ a. IsFresh p a now seq (record (blank a now seq) { ed_priv = some (p.ed_generate r) }))
          (sym is_ed) (ed-IsFresh r))
  ]
