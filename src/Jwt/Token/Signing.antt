-- ===== src/Jwt/Token/Signing.antt =====
-- What the holder of a public key makes of a token that the private key signed.
use micro_identity_sidecar.Prelude.{
  ℕ, ◌≡◌, true, none, some, ◌∷◌, ◌++◌, arith, Bytes, Option, subst, codes, eq_refl, Option-cases,
  inl, inr, ok, ◌>>=◌, or_fail,
}
use micro_identity_sidecar.Platform.{Platform, IsSound, RsaPrivateKey}
use micro_identity_sidecar.Jwt.Claims.{Claims}
use micro_identity_sidecar.Jwt.Claims.RoundTrip.{SameClaims, IsWritable}
use micro_identity_sidecar.Jwt.Token.{
  Header, Signer, rsa_signer, ed_signer, b64, sign, check_times, verify, peek_kid, verifier_of,
  kid_of, alg_of, cannot_sign,
}
use micro_identity_sidecar.Jwt.Token.RoundTrip.{
  IsReadable, carried, input, signing_input-eq, split_token-input, peek_kid-input,
}

-- A key that its package generated.
abbrev pub IsGenerated : Platform → Signer → Type 0
IsGenerated p (rsa_signer kid key) = (r : Bytes) × (p.rsa_generate r ≡ some key)
IsGenerated p (ed_signer kid key) = (r : Bytes) × (p.ed_generate r ≡ key)

-- The public key's holder reads the claims and the kid back, and is left with the check of the times.
pub record IsReadAs (p : Platform) (s : Signer) (c : Claims) (token : Bytes) : Type 0 where
  pub read : Claims
  pub same : SameClaims c read
  pub verified : (now : ℕ) → verify p now (verifier_of p s) token ≡ check_times now read
  pub peeked : peek_kid p token ≡ ok (kid_of s, alg_of s)

abbrev header_for : Signer → Header
header_for s = record { alg = alg_of s; typ = codes "JWT"; kid = kid_of s }

module _ (p : Platform) (sound : IsSound p) where
  header_for-IsReadable :
      (s : Signer) → p.is_utf8 (kid_of s) ≡ true → IsReadable p sound (header_for s)
  header_for-IsReadable (rsa_signer kid key) utf8 =
      (sound.utf8_ascii _ (omega arith), sound.utf8_ascii _ (omega arith), utf8)
  header_for-IsReadable (ed_signer kid key) utf8 =
      (sound.utf8_ascii _ (omega arith), sound.utf8_ascii _ (omega arith), utf8)

  module _ (s : Signer) (utf8 : p.is_utf8 (kid_of s) ≡ true) (c : Claims) (w : IsWritable p c) where
    abbrev readable : IsReadable p sound (header_for s)
    readable = header_for-IsReadable s utf8

    abbrev signed_text : Bytes
    signed_text = input p sound (header_for s) readable c w

    abbrev read_claims : Claims
    read_claims = (carried p sound (header_for s) readable c w).back

    token-IsReadAs :
        (sig : Bytes)
        → ((now : ℕ)
            → verify p now (verifier_of p s) (signed_text ++ b'.' ∷ b64 sig)
              ≡ check_times now read_claims)
        → IsReadAs p s c (signed_text ++ b'.' ∷ b64 sig)
    token-IsReadAs sig accepted = record {
      read = read_claims;
      same = (carried p sound (header_for s) readable c w).same;
      verified = accepted;
      peeked = peek_kid-input p sound (header_for s) readable c w (b64 sig);
    }

  rsa-IsReadAs :
      (kid : Bytes) (key : RsaPrivateKey) (utf8 : p.is_utf8 kid ≡ true) (c : Claims)
      (w : IsWritable p c) (r sig : Bytes)
      → p.rsa_generate r ≡ some key
      → p.rsa_sign key (p.sha256 (signed_text (rsa_signer kid key) utf8 c w)) ≡ some sig
      → IsReadAs p
          (rsa_signer kid key)
          c
          (signed_text (rsa_signer kid key) utf8 c w ++ b'.' ∷ b64 sig)
  unfolding verify verifier_of
  rsa-IsReadAs kid key utf8 c w r sig made signed =
      token-IsReadAs (rsa_signer kid key) utf8 c w sig λ now. rw (
        split_token-input p sound _ _ c w sig (sound.rsa_bytes key _ sig signed),
        sound.rsa_correct r key _ sig made signed,
        eq_refl,
      )

  ed-IsReadAs :
      (kid key : Bytes) (utf8 : p.is_utf8 kid ≡ true) (c : Claims) (w : IsWritable p c) (r : Bytes)
      → p.ed_generate r ≡ key
      → IsReadAs p (ed_signer kid key) c (
          signed_text (ed_signer kid key) utf8 c w
          ++ b'.' ∷ b64 (p.ed_sign key (signed_text (ed_signer kid key) utf8 c w)))
  unfolding verify verifier_of
  ed-IsReadAs kid key utf8 c w r made =
      token-IsReadAs (ed_signer kid key) utf8 c w
        (p.ed_sign key (signed_text (ed_signer kid key) utf8 c w))
        λ now. rw (
          split_token-input p sound _ _ c w _ (sound.ed_bytes key _),
          ← made,
          sound.ed_correct r,
          eq_refl,
        )

  sign_rsa-eq :
      (kid : Bytes) (key : RsaPrivateKey) (utf8 : p.is_utf8 kid ≡ true) (c : Claims)
      (w : IsWritable p c) (o : Option Bytes)
      → p.rsa_sign key (p.sha256 (signed_text (rsa_signer kid key) utf8 c w)) ≡ o
      → sign p (rsa_signer kid key) c ≡ (
          or_fail o cannot_sign >>= λ sig.
          ok (signed_text (rsa_signer kid key) utf8 c w ++ b'.' ∷ b64 sig))
  unfolding sign
  sign_rsa-eq kid key utf8 c w o signed =
      rw (signing_input-eq p sound _ (readable (rsa_signer kid key) utf8 c w) c w, signed)

  sign_ed-eq :
      (kid key : Bytes) (utf8 : p.is_utf8 kid ≡ true) (c : Claims) (w : IsWritable p c)
      → sign p (ed_signer kid key) c
        ≡ ok (
            signed_text (ed_signer kid key) utf8 c w
            ++ b'.' ∷ b64 (p.ed_sign key (signed_text (ed_signer kid key) utf8 c w)))
  unfolding sign
  sign_ed-eq kid key utf8 c w =
      rw (signing_input-eq p sound _ (readable (ed_signer kid key) utf8 c w) c w)

  -- On a sound platform, whatever token a generated key with a valid id signs over a writable claim
  -- set, the holder of its public key reads the claims back from it and accepts it as long as its
  -- times allow; the kid and algorithm can be read off unverified.
  pub sign-IsReadAs :
      (s : Signer) (c : Claims) (token : Bytes)
      → IsGenerated p s
      → p.is_utf8 (kid_of s) ≡ true
      → IsWritable p c
      → sign p s c ≡ ok token
      → IsReadAs p s c token
  sign-IsReadAs (rsa_signer kid key) c token (r, made) utf8 w signed =
      elim (Option-cases (p.rsa_sign key (p.sha256 (signed_text (rsa_signer kid key) utf8 c w)))) [
        | inl failed ↦ absurd (cc (sign_rsa-eq kid key utf8 c w none failed))
        | inr (sig, done) ↦
            let e : signed_text (rsa_signer kid key) utf8 c w ++ b'.' ∷ b64 sig ≡ token =
              cc (sign_rsa-eq kid key utf8 c w (some sig) done) in
            subst (IsReadAs p (rsa_signer kid key) c) e
              (rsa-IsReadAs kid key utf8 c w r sig made done)
      ]
  sign-IsReadAs (ed_signer kid key) c token (r, made) utf8 w signed =
      let e : signed_text (ed_signer kid key) utf8 c w
            ++ b'.' ∷ b64 (p.ed_sign key (signed_text (ed_signer kid key) utf8 c w))
          ≡ token =
        cc (sign_ed-eq kid key utf8 c w) in
      subst (IsReadAs p (ed_signer kid key) c) e (ed-IsReadAs kid key utf8 c w r made)

  -- On a sound platform, an Ed25519 key with a valid id signs every writable claim set.
  pub sign_ed-total :
      (kid key : Bytes) (c : Claims)
      → p.is_utf8 kid ≡ true
      → IsWritable p c
      → (token : Bytes) × (sign p (ed_signer kid key) c ≡ ok token)
  sign_ed-total kid key c utf8 w = (_, sign_ed-eq kid key utf8 c w)
