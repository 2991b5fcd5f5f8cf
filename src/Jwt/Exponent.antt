-- ===== src/Jwt/Exponent.antt =====
-- jwt.go: the RSA exponent and modulus as JWKS members.
use micro_identity_sidecar.Prelude.{
  ℕ, zero, suc, ◌+◌, ◌*◌, ◌/◌, ◌%◌, ◌≤◌, ◌≡◌, [], ◌∷◌, arith, Bytes, eqb, if◌then◌else◌, Bool-cases,
  inl, inr, refl,
}
use micro_identity_sidecar.Go.Base64.RoundTrip.{IsBytes}
use micro_identity_sidecar.Platform.{RsaPublicKey}
use micro_identity_sidecar.Jwt.Token.{b64}

-- The loop of big64, at most `fuel` times.
unfoldable pub low_first : ℕ → ℕ → Bytes → Bytes
low_first zero v out = out
low_first (suc fuel) v out =
    let rest = low_first fuel (v / 256) ((v % 256) ∷ out) in if eqb v 0 then out else rest

-- Each round divides by 256, so `v` rounds are enough.
unfoldable pub big64 : ℕ → Bytes
unfolding low_first
big64 v = if eqb v 0 then 0 ∷ [] else low_first v v []

-- big.Int.Bytes has no byte for 0.
unfoldable pub big_bytes : ℕ → Bytes
unfolding low_first
big_bytes n = low_first n n []

-- EncodeRSAPublicKeyModExp
unfoldable pub encode_mod_exp : RsaPublicKey → Bytes × Bytes
encode_mod_exp pub_key = (b64 (big_bytes pub_key.n), b64 (big64 pub_key.e))

-- The number that bytes stand for, the most significant first, after `acc`.
abbrev pub value_from : ℕ → Bytes → ℕ
value_from acc [] = acc
value_from acc (b ∷ bs) = value_from (acc * 256 + b) bs

value-low_first :
    (fuel v : ℕ) (out : Bytes) → v ≤ fuel → value_from 0 (low_first fuel v out) ≡ value_from v out
unfolding low_first
value-low_first zero v out h = let e : v ≡ 0 = omega arith in rw e
value-low_first (suc fuel) v out h = elim (Bool-cases (eqb v 0)) [
  | inl done ↦ let e : v ≡ 0 = ground arith in rw e
  | inr more ↦
      let e : v / 256 * 256 + v % 256 ≡ v = omega arith in
      rw more (rw e at (value-low_first fuel (v / 256) ((v % 256) ∷ out) (ground arith)))
]

low_first-IsBytes : (fuel v : ℕ) (out : Bytes) → IsBytes out → IsBytes (low_first fuel v out)
unfolding low_first
low_first-IsBytes zero v out h = h
low_first-IsBytes (suc fuel) v out h =
    ground (arith, low_first-IsBytes fuel (v / 256) ((v % 256) ∷ out))

-- The exponent and the modulus are written in bytes that stand for them.
pub big64-value : (v : ℕ) → (value_from 0 (big64 v) ≡ v) × IsBytes (big64 v)
unfolding big64
big64-value v = elim (Bool-cases (eqb v 0)) [
  | inl is_zero ↦ let e : v ≡ 0 = ground arith in rw e (refl, (omega arith, tt))
  | inr more ↦ rw more (value-low_first v v [] (omega arith), low_first-IsBytes v v [] tt)
]

pub big_bytes-value : (n : ℕ) → (value_from 0 (big_bytes n) ≡ n) × IsBytes (big_bytes n)
unfolding big_bytes
big_bytes-value n = (value-low_first n n [] (omega arith), low_first-IsBytes n n [] tt)
