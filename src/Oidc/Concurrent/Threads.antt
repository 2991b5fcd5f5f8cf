-- ===== src/Oidc/Concurrent/Threads.antt =====
-- token.go: the threads of a system, and how many of them have come how far.
use micro_identity_sidecar.Prelude.{
  ℕ, zero, suc, ◌+◌, ◌≤◌, ◌≡◌, subst, Bool, true, false, ◌&&◌, none, some, List, [], ◌∷◌, Bytes,
  ◌==◌, arith, All,
}
use micro_identity_sidecar.Oidc.Server.{Response, token_set}
use micro_identity_sidecar.Oidc.Concurrent.{
  Thread, redeeming, took, redeemed, refreshing, validated, revoked, refreshed, nth, set_nth,
}

-- The threads that have taken the code `k`.
abbrev pub has_taken : Bytes → Thread → Bool
has_taken k (took j (some ac)) = j.credential == k
has_taken k (took j none) = false
has_taken k (redeemed j (some ac) answer) = j.credential == k
has_taken k (redeemed j none answer) = false
has_taken k (redeeming j) = false
has_taken k (refreshing j) = false
has_taken k (validated j found) = false
has_taken k (revoked j s) = false
has_taken k (refreshed j answer) = false

-- The threads that answered the code with tokens.
abbrev pub is_token_set : Response → Bool
is_token_set (token_set t) = true
is_token_set _ = false

abbrev pub got_tokens : Bytes → Thread → Bool
got_tokens k (redeemed j o answer) = j.credential == k && is_token_set answer
got_tokens k (took j o) = false
got_tokens k (redeeming j) = false
got_tokens k (refreshing j) = false
got_tokens k (validated j found) = false
got_tokens k (revoked j s) = false
got_tokens k (refreshed j answer) = false

abbrev pub bit : Bool → ℕ
bit true = 1
bit false = 0

abbrev pub count : (Thread → Bool) → List Thread → ℕ
count q [] = 0
count q (t ∷ ts) = bit (q t) + count q ts

pub count-set_nth :
    (q : Thread → Bool) (i : ℕ) (t u : Thread) (ts : List Thread)
    → nth i ts ≡ some t
    → count q (set_nth i u ts) + bit (q t) ≡ count q ts + bit (q u)
unfolding nth set_nth
count-set_nth q i t u [] h = cc
count-set_nth q zero t u (x ∷ ts) h =
    let same : x ≡ t = ground arith in
    subst (λ y. count q (u ∷ ts) + bit (q y) ≡ count q (x ∷ ts) + bit (q u)) same (omega arith)
count-set_nth q (suc i) t u (x ∷ ts) h = omega (arith, count-set_nth q i t u ts h)

-- Whoever was refused for want of a code got no tokens.
abbrev pub IsHonest : Thread → Type 0
IsHonest (redeemed j none answer) = is_token_set answer ≡ false
IsHonest (redeemed j (some ac) answer) = Unit
IsHonest (took j o) = Unit
IsHonest (redeeming j) = Unit
IsHonest (refreshing j) = Unit
IsHonest (validated j found) = Unit
IsHonest (revoked j s) = Unit
IsHonest (refreshed j answer) = Unit

got_tokens-has_taken :
    (k : Bytes) (t : Thread) → IsHonest t → bit (got_tokens k t) ≤ bit (has_taken k t)
got_tokens-has_taken k (redeemed j none answer) h = ground (arith, h)
got_tokens-has_taken k (redeemed j (some ac) answer) h = ground arith
got_tokens-has_taken k (took j none) h = omega arith
got_tokens-has_taken k (took j (some ac)) h = ground arith
got_tokens-has_taken k (redeeming j) h = omega arith
got_tokens-has_taken k (refreshing j) h = omega arith
got_tokens-has_taken k (validated j found) h = omega arith
got_tokens-has_taken k (revoked j s) h = omega arith
got_tokens-has_taken k (refreshed j answer) h = omega arith

pub count-got_tokens :
    (k : Bytes) (ts : List Thread)
    → All IsHonest ts
    → count (got_tokens k) ts ≤ count (has_taken k) ts
count-got_tokens k [] h = omega arith
count-got_tokens k (t ∷ ts) h =
    omega (arith, got_tokens-has_taken k t h.0, count-got_tokens k ts h.1)

pub set_nth-IsHonest :
    (i : ℕ) (u : Thread) (ts : List Thread)
    → IsHonest u
    → All IsHonest ts
    → All IsHonest (set_nth i u ts)
unfolding set_nth
set_nth-IsHonest i u [] h all = tt
set_nth-IsHonest zero u (t ∷ ts) h all = (h, all.1)
set_nth-IsHonest (suc i) u (t ∷ ts) h all = (all.0, set_nth-IsHonest i u ts h all.1)

pub nth-IsHonest :
    (i : ℕ) (t : Thread) (ts : List Thread) → nth i ts ≡ some t → All IsHonest ts → IsHonest t
unfolding nth
nth-IsHonest i t [] h all = cc
nth-IsHonest zero t (x ∷ ts) h all = let same : x ≡ t = ground arith in subst IsHonest same all.0
nth-IsHonest (suc i) t (x ∷ ts) h all = nth-IsHonest i t ts h all.1
