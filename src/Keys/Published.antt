-- ===== src/Keys/Published.antt =====
-- internal/keys/manager.go: the published key set.
use mathlib.Core.List.{flat_map}
use micro_identity_sidecar.Prelude.{none, some, List, [], ◌∷◌, Bytes, ◌==◌, codes, if◌then◌else◌}
use micro_identity_sidecar.Prelude.Map.{Map}
use micro_identity_sidecar.Platform.{Platform, RsaPublicKey}
use micro_identity_sidecar.Jwt.Exponent.{encode_mod_exp}
use micro_identity_sidecar.Jwt.Token.{rs256, eddsa, b64}
use micro_identity_sidecar.Keys.{Entry, Manager}

-- jwk; a member that is empty is left out of the JSON.
pub record Jwk : Type 0 where
  pub kty : Bytes
  pub use_for : Bytes
  pub alg : Bytes
  pub kid : Bytes
  pub n : Bytes
  pub e : Bytes
  pub crv : Bytes
  pub x : Bytes

unfoldable pub rsa_jwk : Bytes → RsaPublicKey → Jwk
rsa_jwk kid key =
    let (n, e) = encode_mod_exp key in
    record {
      kty = codes "RSA";
      use_for = codes "sig";
      alg = rs256;
      kid = kid;
      n = n;
      e = e;
      crv = [];
      x = [];
    }

unfoldable pub ed_jwk : Bytes → Bytes → Jwk
ed_jwk kid key = record {
  kty = codes "OKP";
  use_for = codes "sig";
  alg = eddsa;
  kid = kid;
  n = [];
  e = [];
  crv = codes "Ed25519";
  x = b64 key;
}

-- The entry's JWK; the switch has no case for another algorithm.
unfoldable pub jwk : Platform → Entry → List Jwk
jwk p e =
    if e.alg == rs256
    then elim e.rsa_priv [ none ↦ [] | some key ↦ rsa_jwk e.kid key.public_key ∷ [] ]
    else if e.alg == eddsa
    then elim e.ed_priv [ none ↦ [] | some key ↦ ed_jwk e.kid (p.ed_public key) ∷ [] ]
    else []

-- The keys of Manager.JWKS, before they are printed.
unfoldable pub jwks : Platform → Manager → List Jwk
jwks p m = flat_map (jwk p) (m.active ∷ m.retired)

-- A member with omitempty, before the others.
abbrev pub unless_empty : Bytes → Bytes → Map Bytes → Map Bytes
unless_empty key s m = if s == [] then m else (key, s) ∷ m

-- The members that the tags of jwk give a key in the JSON of Manager.JWKS.
unfoldable pub jwk_members : Jwk → Map Bytes
jwk_members k =
    (codes "kty", k.kty)
    ∷ (codes "use", k.use_for)
    ∷ (codes "alg", k.alg)
    ∷ (codes "kid", k.kid)
    ∷ unless_empty (codes "n") k.n (
        unless_empty (codes "e") k.e
          (unless_empty (codes "crv") k.crv (unless_empty (codes "x") k.x [])))
