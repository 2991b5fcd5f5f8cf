-- ===== src/Platform.antt =====
-- What the program calls and does not implement: crypto/sha256, crypto/rsa, crypto/ed25519 and the
-- text of encoding/json. It is a record of functions, which every definition that needs it takes,
-- and a record of what their documentation promises.
use micro_identity_sidecar.Prelude.{ℕ, ◌^◌, ◌<◌, ◌≡◌, Bool, true, Option, some, List, Bytes, All}
use micro_identity_sidecar.Prelude.Map.{Map, get, IsMap, All-get}
use micro_identity_sidecar.Go.Base64.RoundTrip.{IsBytes}

-- A JSON value. `num` is a whole number below 2^53, which a float64 holds exactly; `strs` is an array
-- of strings, and `raw` any other value, as its text.
pub data Json : Type 0 where
  null : Json
  bool : Bool → Json
  num : ℕ → Json
  str : Bytes → Json
  strs : List Bytes → Json
  raw : Bytes → Json

-- What a text holds that json.Unmarshal accepts.
pub data Document : Type 0 where
  nothing : Document
  object : Map Json → Document
  other : Document

-- rsa.PublicKey
pub record RsaPublicKey : Type 0 where
  pub n : ℕ
  pub e : ℕ

-- rsa.PrivateKey, its primes and exponent as `secret`
pub record RsaPrivateKey : Type 0 where
  pub public_key : RsaPublicKey
  pub secret : Bytes

pub record Platform : Type 0 where
  -- sha256.Sum256
  pub sha256 : Bytes → Bytes
  -- rsa.GenerateKey on what the random source gives, SignPKCS1v15 and VerifyPKCS1v15 on a digest
  pub rsa_generate : Bytes → Option RsaPrivateKey
  pub rsa_sign : RsaPrivateKey → Bytes → Option Bytes
  pub rsa_verify : RsaPublicKey → Bytes → Bytes → Bool
  -- ed25519.GenerateKey on what the random source gives, PrivateKey.Public, Sign and Verify
  pub ed_generate : Bytes → Bytes
  pub ed_public : Bytes → Bytes
  pub ed_sign : Bytes → Bytes → Bytes
  pub ed_verify : Bytes → Bytes → Bytes → Bool
  -- json.Marshal of an object, json.Unmarshal
  pub render : Map Json → Option Bytes
  pub parse : Bytes → Option Document
  -- utf8.ValidString
  pub is_utf8 : Bytes → Bool

module _ (p : Platform) where
  -- A value that json.Marshal writes so that json.Unmarshal reads it back.
  abbrev pub Fits : Json → Type 0
  Fits null = Unit
  Fits (bool b) = Unit
  Fits (num n) = n < 2 ^ 53
  Fits (str s) = p.is_utf8 s ≡ true
  Fits (strs l) = All (λ s. p.is_utf8 s ≡ true) l
  Fits (raw s) = ⊥

  pub record IsEncodable (m : Map Json) : Type 0 where
    pub distinct : IsMap m
    pub fits : (k : Bytes) (v : Json) → get k m ≡ some v → (p.is_utf8 k ≡ true) × Fits v

  pub IsEncodable-All :
      (m : Map Json) → IsMap m → All (λ e. (p.is_utf8 e.0 ≡ true) × Fits e.1) m → IsEncodable m
  IsEncodable-All m distinct h = record {
    distinct = distinct;
    fits = λ k v found. All-get (λ e. (p.is_utf8 e.0 ≡ true) × Fits e.1) m k v h found;
  }

  -- The text of an object, and what is read from it: the same values, in any order.
  pub record Encodes (m : Map Json) : Type 0 where
    pub text : Bytes
    pub rendered : p.render m ≡ some text
    pub bytes : IsBytes text
    pub back : Map Json
    pub parsed : p.parse text ≡ some (object back)
    pub back_distinct : IsMap back
    pub same : (k : Bytes) → get k back ≡ get k m

-- The documented behaviour: signatures by generated keys verify, digests, signatures and
-- Ed25519 keys are bytes,
-- and an object of valid text and exact numbers survives encoding.
pub record IsSound (p : Platform) : Type 0 where
  pub sha256_bytes : (m : Bytes) → IsBytes (p.sha256 m)
  pub rsa_correct :
      (r : Bytes) (k : RsaPrivateKey) (digest sig : Bytes)
      → p.rsa_generate r ≡ some k
      → p.rsa_sign k digest ≡ some sig
      → p.rsa_verify k.public_key digest sig ≡ true
  pub rsa_bytes :
      (k : RsaPrivateKey) (digest sig : Bytes) → p.rsa_sign k digest ≡ some sig → IsBytes sig
  pub ed_correct :
      (r m : Bytes)
      → p.ed_verify (p.ed_public (p.ed_generate r)) m (p.ed_sign (p.ed_generate r) m) ≡ true
  pub ed_bytes : (k m : Bytes) → IsBytes (p.ed_sign k m)
  pub ed_public_bytes : (k : Bytes) → IsBytes (p.ed_public k)
  pub utf8_ascii : (s : Bytes) → All (λ c. c < 128) s → p.is_utf8 s ≡ true
  pub codec : (m : Map Json) → IsEncodable p m → Encodes p m
