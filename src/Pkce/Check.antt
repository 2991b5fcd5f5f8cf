-- ===== src/Pkce/Check.antt =====
-- pkce.go: which verifiers pass.
use micro_identity_sidecar.Prelude.{
  ℕ, ◌≤◌, ◌≡◌, ◌≢◌, refl, ◌⊎◌, ◌↔◌, true, none, [], ◌∷◌, Bytes, eq_iff, length, All, arith,
}
use micro_identity_sidecar.Platform.{Platform}
use micro_identity_sidecar.Pkce.{
  unreserved, all_unreserved, matches, validate_verifier_format, challenge, verify,
}

-- RFC 7636's unreserved characters: letters, digits, and the four marks "-", ".", "_", "~".
abbrev pub IsUnreserved : ℕ → Type 0
IsUnreserved c =
    ((b'A' ≤ c) × (c ≤ b'Z'))
    ⊎ ((b'a' ≤ c) × (c ≤ b'z'))
    ⊎ ((b'0' ≤ c) × (c ≤ b'9'))
    ⊎ (c ≡ b'-')
    ⊎ (c ≡ b'.')
    ⊎ (c ≡ b'_')
    ⊎ (c ≡ b'~')

pub record IsVerifier (v : Bytes) : Type 0 where
  pub characters : All IsUnreserved v
  pub long : 43 ≤ length v
  pub short : length v ≤ 128

unreserved_iff : (c : ℕ) → (unreserved c ≡ true) ↔ IsUnreserved c
unfolding unreserved
unreserved_iff c = (λ h. ground arith, λ h. ground arith)

all_unreserved_iff : (v : Bytes) → (all_unreserved v ≡ true) ↔ All IsUnreserved v
unfolding all_unreserved
all_unreserved_iff [] = (λ h. tt, λ h. refl)
all_unreserved_iff (c ∷ v) = (
  λ h. ((unreserved_iff c).0 (ground arith), (all_unreserved_iff v).0 (ground arith)),
  λ h. let a = (unreserved_iff c).1 h.0 in let b = (all_unreserved_iff v).1 h.1 in ground arith,
)

-- PKCE accepts a verifier exactly if it has the characters and the length that RFC 7636 asks for and
-- its challenge is the one that was stored.
pub verify_iff :
    (p : Platform) (v stored : Bytes)
    → (verify p v stored ≡ none) ↔ (IsVerifier v × (challenge p v ≡ stored))
unfolding verify validate_verifier_format matches
verify_iff p v stored = (
  λ h. (
    record {
      characters = (all_unreserved_iff v).0 (ground arith);
      long = ground arith;
      short = ground arith;
    },
    (ground (arith, eq_iff (challenge p v) stored)),
  ),
  λ (h, same).
      let a = (all_unreserved_iff v).1 h.characters in
      let l = h.long in let m = h.short in ground (arith, eq_iff (challenge p v) stored),
)

pub IsVerifier-ne-nil : (v : Bytes) → IsVerifier v → v ≢ []
IsVerifier-ne-nil [] h = absurd (let long = h.long in omega arith)
IsVerifier-ne-nil (c ∷ v) h = λ e. cc
