-- ===== src/Keys/Reading.antt =====
-- manager.go, jwt.go: the published members of a key, read by the standards.
use micro_identity_sidecar.Prelude.{
  ◌≡◌, refl, Option, none, some, Bytes, ◌==◌, codes, if◌then◌else◌, arith, Bool-cases, inl, inr,
  ◌⊎◌, Option-cases,
}
use micro_identity_sidecar.Go.Base64.RoundTrip.{IsBytes}
use micro_identity_sidecar.Platform.{Platform, IsSound, RsaPublicKey}
use micro_identity_sidecar.Jwt.Token.{
  Signer, rsa_signer, ed_signer, Verifier, rsa_verifier, ed_verifier, verifier_of, unb64,
}
use micro_identity_sidecar.Jwt.Token.RoundTrip.{unb64-b64}
use micro_identity_sidecar.Jwt.Exponent.{
  encode_mod_exp, big64, big_bytes, value_from, big64-value, big_bytes-value,
}
use micro_identity_sidecar.Keys.{Manager, find, verifier}
use micro_identity_sidecar.Keys.Kid.{find-All}
use micro_identity_sidecar.Keys.Generation.{IsKey}
use micro_identity_sidecar.Keys.Invariant.{IsManaged}
use micro_identity_sidecar.Keys.Published.{Jwk, rsa_jwk, ed_jwk}
use micro_identity_sidecar.Keys.Jwks.{published}

-- The public key that the members of a JWK stand for: by RFC 8037 an Ed25519 key in `x`, by RFC 7518
-- an RSA key whose modulus and exponent are big-endian numbers in `n` and `e`, all in base64url.
abbrev pub key_from : Bytes → Bytes → Bytes → Bytes → Bytes → Bytes → Bytes → Option Verifier
key_from kty alg kid n e crv x =
    if kty == codes "OKP"
    then if alg == codes "EdDSA"
      then if crv == codes "Ed25519"
        then elim (unb64 x) [ none ↦ none | some key ↦ some (ed_verifier kid key) ]
        else none
      else none
    else if kty == codes "RSA"
    then if alg == codes "RS256"
      then elim (unb64 n) [
        | none ↦ none
        | some modulus ↦ elim (unb64 e) [
          | none ↦ none
          | some exponent ↦
              some
                (rsa_verifier kid (record { n = value_from 0 modulus; e = value_from 0 exponent }))
        ]
      ]
      else none
    else none

abbrev pub jwk_key : Jwk → Option Verifier
jwk_key k = key_from k.kty k.alg k.kid k.n k.e k.crv k.x

rsa_jwk-key :
    (kid : Bytes) (key : RsaPublicKey) → jwk_key (rsa_jwk kid key) ≡ some (rsa_verifier kid key)
unfolding rsa_jwk encode_mod_exp ◌==◌
rsa_jwk-key kid key =
    let (n, n_bytes) = big_bytes-value key.n in
    let (e, e_bytes) = big64-value key.e in
    rw (unb64-b64 (big_bytes key.n) n_bytes, unb64-b64 (big64 key.e) e_bytes, n, e) refl

ed_jwk-key : (kid key : Bytes) → IsBytes key → jwk_key (ed_jwk kid key) ≡ some (ed_verifier kid key)
unfolding ed_jwk ◌==◌
ed_jwk-key kid key h = rw (unb64-b64 key h) refl

-- What is published for a key is the key that verifies.
pub jwk_key-published :
    (p : Platform)
    → IsSound p
    → (k : Signer) → jwk_key (published (verifier_of p k)) ≡ some (verifier_of p k)
unfolding verifier_of
jwk_key-published p sound (rsa_signer kid key) = rsa_jwk-key kid key.public_key
jwk_key-published p sound (ed_signer kid key) =
    ed_jwk-key kid (p.ed_public key) (sound.ed_public_bytes key)

-- In a manager in order, an id resolves to no key or to one that signs.
pub verifier-known :
    (p : Platform) (m : Manager) (kid : Bytes)
    → IsManaged p m
    → (verifier p m kid ≡ none)
      ⊎ ((k : Signer) × (verifier p m kid ≡ some (some (verifier_of p k))))
unfolding verifier
verifier-known p m kid h = elim (Bool-cases (m.active.kid == kid)) [
  | inl here ↦ inr (h.active.key, ground (arith, here, h.active.verifies))
  | inr other ↦ elim (Option-cases (find kid m.retired)) [
    | inl absent ↦ inl (ground (arith, other, absent))
    | inr (e, found) ↦
        let old = find-All (IsKey p m.alg m.seq) kid m.retired h.retired found in
        inr (old.key, ground (arith, other, found, old.verifies))
  ]
]
