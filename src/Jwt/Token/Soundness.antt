-- ===== src/Jwt/Token/Soundness.antt =====
-- What an accepted token shows: its shape, its algorithm, its signature and its times.
use mathlib.Core.List.{append_assoc}
use micro_identity_sidecar.Prelude.{
  ℕ, ◌≤◌, ◌≡◌, ◌⊎◌, refl, sym, subst, Bool, true, some, List, [], ◌∷◌, ◌++◌, arith, Bytes, ◌==◌,
  eq_iff, Result, ok, err, ◌>>=◌, or_fail-eq-ok, ok_injective, >>=-eq-ok, if◌then◌else◌, ◌∙◌, ap,
}
use micro_identity_sidecar.Go.Strings.{Lacks, split, split_of_Lacks, join, join-split}
use micro_identity_sidecar.Platform.{Platform}
use micro_identity_sidecar.Jwt.Claims.{Claims, unmarshal}
use micro_identity_sidecar.Jwt.Token.{
  malformed, Error, Verifier, rsa_verifier, ed_verifier, rs256, eddsa, Parts, unb64,
  unmarshal_header, read_segments, split_token, unix, check_times, verify, bad_signature,
  unexpected_alg,
}

-- Neither past its expiry nor before its start; 0 stands for no limit.
pub record InTime (now : ℕ) (c : Claims) : Type 0 where
  pub not_expired : (c.expires_at ≡ 0) ⊎ (unix now ≤ c.expires_at)
  pub started : (c.not_before ≡ 0) ⊎ (c.not_before ≤ unix now)

check_times_sound : (now : ℕ) (c d : Claims) → check_times now c ≡ ok d → (c ≡ d) × InTime now c
unfolding check_times
check_times_sound now c d h = ground arith

pub check_times_complete : (now : ℕ) (c : Claims) → InTime now c → check_times now c ≡ ok c
unfolding check_times
check_times_complete now c h = ground arith

-- The algorithm that a verifier wants, and its test of a signature.
abbrev pub wanted : Verifier → Bytes
wanted (rsa_verifier kid key) = rs256
wanted (ed_verifier kid key) = eddsa

abbrev pub signed_by : Platform → Verifier → Bytes → Bytes → Bool
signed_by p (rsa_verifier kid key) input sig = p.rsa_verify key (p.sha256 input) sig
signed_by p (ed_verifier kid key) input sig = p.ed_verify key input sig

-- The three segments of a token, and what each of them encodes.
pub record IsTokenOf (p : Platform) (token : Bytes) (t : Parts) : Type 0 where
  pub first : Bytes
  pub second : Bytes
  third : Bytes
  shape : token ≡ t.input ++ b'.' ∷ third
  pub signed : t.input ≡ first ++ b'.' ∷ second
  header_bytes : Bytes
  claims_bytes : Bytes
  header_decoded : unb64 first ≡ some header_bytes
  pub header_read : unmarshal_header p header_bytes ≡ some t.header
  claims_decoded : unb64 second ≡ some claims_bytes
  claims_read : unmarshal p claims_bytes ≡ some t.claims
  sig_decoded : unb64 third ≡ some t.sig

read_segments-IsTokenOf :
    (p : Platform) (l : List Bytes) (t : Parts)
    → read_segments p l ≡ ok t
    → IsTokenOf p (join l b'.') t
unfolding read_segments join
read_segments-IsTokenOf p [] t h = cc
read_segments-IsTokenOf p (a ∷ []) t h = cc
read_segments-IsTokenOf p (a ∷ b ∷ []) t h = cc
read_segments-IsTokenOf p (a ∷ b ∷ c ∷ d ∷ l) t h = cc
read_segments-IsTokenOf p (a ∷ b ∷ c ∷ []) t h =
    let (hb, e1, h1) = or_fail-eq-ok (unb64 a) _ _ h in
    let (header, e2, h2) = or_fail-eq-ok (unmarshal_header p hb) _ _ h1 in
    let (cb, e3, h3) = or_fail-eq-ok (unb64 b) _ _ h2 in
    let (claims, e4, h4) = or_fail-eq-ok (unmarshal p cb) _ _ h3 in
    let (sig, e5, h5) = or_fail-eq-ok (unb64 c) _ _ h4 in
    subst (IsTokenOf p (a ++ (b'.' ∷ (b ++ b'.' ∷ c)))) (ok_injective h5) (record {
      first = a;
      second = b;
      third = c;
      shape = sym (append_assoc a (b'.' ∷ b) (b'.' ∷ c));
      signed = refl;
      header_bytes = hb;
      claims_bytes = cb;
      header_decoded = e1;
      header_read = e2;
      claims_decoded = e3;
      claims_read = e4;
      sig_decoded = e5;
    })

split_token-IsTokenOf :
    (p : Platform) (token : Bytes) (t : Parts) → split_token p token ≡ ok t → IsTokenOf p token t
unfolding split_token
split_token-IsTokenOf p token t h =
    subst (λ s. IsTokenOf p s t) (join-split token b'.')
      (read_segments-IsTokenOf p (split token b'.') t h)

-- The token's segments are `parts`, its header names the algorithm of the verifier, its signature is
-- one of the first two segments by the verifier's key, and its claims are `c`, in time.
pub record IsAccepted (p : Platform) (now : ℕ) (v : Verifier) (token : Bytes) (c : Claims)
    : Type 0 where
  pub parts : Parts
  pub segments : IsTokenOf p token parts
  pub alg : parts.header.alg ≡ wanted v
  pub signature : signed_by p v parts.input parts.sig ≡ true
  pub claims : parts.claims ≡ c
  pub in_time : InTime now c

-- What the verifiers do with the segments.
abbrev judge : Platform → ℕ → Verifier → Parts → Result Error Claims
judge p now v t =
    if t.header.alg == wanted v
    then if signed_by p v t.input t.sig then check_times now t.claims else err bad_signature
    else err (unexpected_alg t.header.alg)

verify-eq-judge :
    (p : Platform) (now : ℕ) (v : Verifier) (token : Bytes)
    → verify p now v token ≡ (split_token p token >>= judge p now v)
unfolding verify
verify-eq-judge p now (rsa_verifier kid key) token = refl
verify-eq-judge p now (ed_verifier kid key) token = refl

-- A text without a dot is no token.
pub verify_dotless :
    (p : Platform) (now : ℕ) (v : Verifier) (token : Bytes)
    → Lacks b'.' token
    → verify p now v token ≡ err malformed
unfolding split_token read_segments
verify_dotless p now v token plain =
    verify-eq-judge p now v token
    ∙ ap (λ l. read_segments p l >>= judge p now v) (split_of_Lacks token b'.' plain)

judge_sound :
    (p : Platform) (now : ℕ) (v : Verifier) (t : Parts) (c : Claims)
    → judge p now v t ≡ ok c
    → (t.header.alg ≡ wanted v)
      × (signed_by p v t.input t.sig ≡ true)
      × (check_times now t.claims ≡ ok c)
judge_sound p now v t c h = ground (arith, eq_iff t.header.alg (wanted v))

-- A token that a verifier accepts has three segments, names the verifier's algorithm, carries a
-- signature of its first two segments by the verifier's key, and is in time; the result is the claims
-- of its second segment.
pub verify-IsAccepted :
    (p : Platform) (now : ℕ) (v : Verifier) (token : Bytes) (c : Claims)
    → verify p now v token ≡ ok c
    → IsAccepted p now v token c
verify-IsAccepted p now v token c h =
    let (t, split_ok, judged) =
      >>=-eq-ok (split_token p token) _ (sym (verify-eq-judge p now v token) ∙ h) in
    let (alg, signature, timed) = judge_sound p now v t c judged in
    let (same, in_time) = check_times_sound now t.claims c timed in
    record {
      parts = t;
      segments = split_token-IsTokenOf p token t split_ok;
      alg = alg;
      signature = signature;
      claims = same;
      in_time = subst (InTime now) same in_time;
    }
