-- ===== src/Jwt/Token.antt =====
-- jwt.go: headers, signers and verifiers, and the three segments of a token.
pub mod RoundTrip
pub mod Signing
pub mod Soundness
use micro_identity_sidecar.Prelude.{
  ℕ, ◌/◌, ◌&&◌, not, Option, some, List, [], ◌∷◌, ◌++◌, Bytes, ◌==◌, codes, ltb, eqb, Result, ok,
  err, ◌>>=◌, or_fail, if◌then◌else◌,
}
use micro_identity_sidecar.Prelude.Map.{Map, get}
use micro_identity_sidecar.Go.Base64
use micro_identity_sidecar.Go.Strings.{split, before}
use micro_identity_sidecar.Platform.{Json, str, Platform, RsaPublicKey, RsaPrivateKey}
use micro_identity_sidecar.Jwt.Claims as C
use micro_identity_sidecar.Jwt.Claims.{Claims, marshal, unmarshal, to_text, object_of}

abbrev pub rs256 : Bytes
rs256 = codes "RS256"

abbrev pub eddsa : Bytes
eddsa = codes "EdDSA"

pub record Header : Type 0 where
  pub alg : Bytes
  pub typ : Bytes
  pub kid : Bytes

pub data Error : Type 0 where
  cannot_encode cannot_sign : Error
  malformed bad_header_encoding bad_header_json bad_claims_encoding bad_claims_json : Error
  bad_signature_encoding bad_signature expired not_yet_valid : Error
  unexpected_alg : Bytes → Error

-- b64 and unb64
unfoldable pub b64 : Bytes → Bytes
unfolding Base64.encode
b64 bs = Base64.encode bs

unfoldable pub unb64 : Bytes → Option Bytes
unfolding Base64.decode
unb64 s = Base64.decode s

-- json.Marshal of a header.
unfoldable pub header_object : Header → Map Json
header_object h =
    (codes "alg", str h.alg) ∷ (codes "typ", str h.typ) ∷ (codes "kid", str h.kid) ∷ []

-- json.Unmarshal into a header.
unfoldable pub header_of : Map Json → Option Header
header_of m = C.◌>>=◌ (to_text (get (codes "alg") m)) λ alg.
    C.◌>>=◌ (to_text (get (codes "typ") m)) λ typ.
      C.◌>>=◌ (to_text (get (codes "kid") m))
        λ kid. some (record { alg = alg; typ = typ; kid = kid })

unfoldable pub unmarshal_header : Platform → Bytes → Option Header
unmarshal_header p text = C.◌>>=◌ (p.parse text) λ doc. C.◌>>=◌ (object_of doc) header_of

unfoldable pub signing_input : Platform → Header → Claims → Result Error Bytes
signing_input p header claims = do
  h ← or_fail (p.render (header_object header)) cannot_encode
  c ← or_fail (marshal p claims) cannot_encode
  ok (b64 h ++ b'.' ∷ b64 c)

-- The Signer interface, with its two implementations: a kid and a private key.
pub data Signer : Type 0 where
  rsa_signer : Bytes → RsaPrivateKey → Signer
  ed_signer : Bytes → Bytes → Signer

unfoldable pub sign : Platform → Signer → Claims → Result Error Bytes
sign p (rsa_signer kid key) claims = do
  input ← signing_input p (record { alg = rs256; typ = codes "JWT"; kid = kid }) claims
  sig ← or_fail (p.rsa_sign key (p.sha256 input)) cannot_sign
  ok (input ++ b'.' ∷ b64 sig)
sign p (ed_signer kid key) claims = do
  input ← signing_input p (record { alg = eddsa; typ = codes "JWT"; kid = kid }) claims
  ok (input ++ b'.' ∷ b64 (p.ed_sign key input))

-- The Verifier interface: a kid and a public key.
pub data Verifier : Type 0 where
  rsa_verifier : Bytes → RsaPublicKey → Verifier
  ed_verifier : Bytes → Bytes → Verifier

-- The verifier of a signer's public half, as a key manager pairs them.
unfoldable pub verifier_of : Platform → Signer → Verifier
verifier_of p (rsa_signer kid key) = rsa_verifier kid key.public_key
verifier_of p (ed_signer kid key) = ed_verifier kid (p.ed_public key)

-- Signer.Kid and Signer.Alg
abbrev pub kid_of : Signer → Bytes
kid_of (rsa_signer kid key) = kid
kid_of (ed_signer kid key) = kid

abbrev pub alg_of : Signer → Bytes
alg_of (rsa_signer kid key) = rs256
alg_of (ed_signer kid key) = eddsa

pub record Parts : Type 0 where
  pub header : Header
  pub claims : Claims
  pub input : Bytes
  pub sig : Bytes

unfoldable pub read_segments : Platform → List Bytes → Result Error Parts
read_segments p (h ∷ c ∷ s ∷ []) = do
  hb ← or_fail (unb64 h) bad_header_encoding
  header ← or_fail (unmarshal_header p hb) bad_header_json
  cb ← or_fail (unb64 c) bad_claims_encoding
  claims ← or_fail (unmarshal p cb) bad_claims_json
  sig ← or_fail (unb64 s) bad_signature_encoding
  ok (record { header = header; claims = claims; input = h ++ b'.' ∷ c; sig = sig })
read_segments p _ = err malformed

unfoldable pub split_token : Platform → Bytes → Result Error Parts
split_token p token = read_segments p (split token b'.')

-- The clock counts nanoseconds since 1970.
abbrev pub second : ℕ
second = 1_000_000_000

-- time.Time.Unix
abbrev pub unix : ℕ → ℕ
unix t = t / second

unfoldable pub check_times : ℕ → Claims → Result Error Claims
check_times now claims =
    if not (eqb claims.expires_at 0) && ltb claims.expires_at (unix now)
    then err expired
    else if not (eqb claims.not_before 0) && ltb (unix now) claims.not_before
    then err not_yet_valid
    else ok claims

unfoldable pub verify : Platform → ℕ → Verifier → Bytes → Result Error Claims
verify p now (rsa_verifier kid key) token = do
  t ← split_token p token
  if t.header.alg == rs256
      then if p.rsa_verify key (p.sha256 t.input) t.sig
        then check_times now t.claims
        else err bad_signature
      else err (unexpected_alg t.header.alg)
verify p now (ed_verifier kid key) token = do
  t ← split_token p token
  if t.header.alg == eddsa
      then if p.ed_verify key t.input t.sig then check_times now t.claims else err bad_signature
      else err (unexpected_alg t.header.alg)

-- PeekKid: the kid and the algorithm that the first segment names.
unfoldable pub peek_kid : Platform → Bytes → Result Error (Bytes × Bytes)
peek_kid p token = do
  hb ← or_fail (unb64 (before token b'.')) bad_header_encoding
  header ← or_fail (unmarshal_header p hb) bad_header_json
  ok (header.kid, header.alg)
