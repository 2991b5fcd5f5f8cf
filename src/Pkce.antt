-- ===== src/Pkce.antt =====
-- internal/pkce/pkce.go: Proof Key for Code Exchange.
pub mod Check
use micro_identity_sidecar.Prelude.{
  ℕ, Bool, true, ◌&&◌, ◌||◌, not, Option, none, some, List, [], ◌∷◌, Bytes, ◌==◌, codes, String,
  eqb, leb, length, if◌then◌else◌,
}
use micro_identity_sidecar.Platform.{Platform}
use micro_identity_sidecar.Jwt.Token.{b64}

abbrev pub method_s256 : Bytes
method_s256 = codes "S256"

-- [A-Za-z0-9\-._~]
unfoldable pub unreserved : ℕ → Bool
unreserved c =
    (leb 65 c && leb c 90)
    || (leb 97 c && leb c 122)
    || (leb 48 c && leb c 57)
    || eqb c 45
    || eqb c 46
    || eqb c 95
    || eqb c 126

unfoldable pub all_unreserved : Bytes → Bool
all_unreserved [] = true
all_unreserved (c ∷ s) = unreserved c && all_unreserved s

-- verifierPattern.MatchString
unfoldable pub matches : Bytes → Bool
matches v = all_unreserved v && leb 43 (length v) && leb (length v) 128

unfoldable pub validate_verifier_format : Bytes → Option String
validate_verifier_format v =
    if matches v then none else some "code_verifier does not match RFC 7636 charset/length rules"

unfoldable pub challenge : Platform → Bytes → Bytes
challenge p v = b64 (p.sha256 v)

unfoldable pub verify_method : Bytes → Option String
verify_method m =
    if m == method_s256
    then none
    else some "unsupported code_challenge_method: only S256 is accepted under OAuth 2.1"

unfoldable pub verify : Platform → Bytes → Bytes → Option String
verify p v stored = elim (validate_verifier_format v) [
  | some e ↦ some e
  | none ↦
      if challenge p v == stored
      then none
      else some "PKCE verification failed: code_verifier does not match code_challenge"
]
