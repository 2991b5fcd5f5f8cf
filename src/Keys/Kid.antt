-- ===== src/Keys/Kid.antt =====
-- manager.go: the key ids that generate prints, and the search for one among the entries.
use mathlib.Core.List.{append_cancel_left, tail-eq_of_cons-eq}
use micro_identity_sidecar.Prelude.{
  ℕ, ◌+◌, ◌≤◌, ◌≡◌, ◌≢◌, refl, sym, subst, ap, Option, none, some, List, [], ◌∷◌, ◌++◌, arith,
  Bytes, ◌==◌, eq_iff, All, if◌then◌else◌, ◌∙◌, Bool-cases, inl, inr,
}
use micro_identity_sidecar.Go.Decimal.{decimal, decimal_injective, decimal-IsDigit, Lacks-of_digits}
use micro_identity_sidecar.Go.Strings.{split, Lacks, split-append, split_of_Lacks}
use micro_identity_sidecar.Jwt.Token.{unix}
use micro_identity_sidecar.Keys.{Entry, kid_for, find, keep, in_grace}

dash-Lacks : (n : ℕ) → Lacks b'-' (decimal n)
dash-Lacks n = Lacks-of_digits b'-' (decimal n) (λ h. omega arith) (decimal-IsDigit n)

split_kid : (u n : ℕ) → split (decimal u ++ b'-' ∷ decimal n) b'-' ≡ decimal u ∷ decimal n ∷ []
split_kid u n = rw (split-append _ _ _ (dash-Lacks u), split_of_Lacks _ _ (dash-Lacks n))

-- Two ids of one algorithm differ where the counters differ, whatever the times.
kid_for_injective : (alg : Bytes) (t u m n : ℕ) → kid_for alg t m ≡ kid_for alg u n → m ≡ n
unfolding kid_for
kid_for_injective alg t u m n h =
    let tails : b'-' ∷ (decimal (unix t) ++ b'-' ∷ decimal m)
        ≡ b'-' ∷ (decimal (unix u) ++ b'-' ∷ decimal n) =
      append_cancel_left alg _ _ h in
    let parts : decimal (unix t) ∷ decimal m ∷ [] ≡ decimal (unix u) ∷ decimal n ∷ [] =
      sym (split_kid (unix t) m)
      ∙ ap (λ s. split s b'-') (tail-eq_of_cons-eq tails)
      ∙ split_kid (unix u) n in
    decimal_injective m n (cc)

-- An id that generate made of `alg` at a counter of at most `seq`.
pub record IsNumbered (alg : Bytes) (seq : ℕ) (e : Entry) : Type 0 where
  pub made_at : ℕ
  pub number : ℕ
  pub printed : e.kid ≡ kid_for alg made_at number
  pub bounded : number ≤ seq

pub IsNumbered-next :
    (alg : Bytes) (seq : ℕ) (e : Entry) → IsNumbered alg seq e → IsNumbered alg (seq + 1) e
IsNumbered-next alg seq e h = record {
  made_at = h.made_at;
  number = h.number;
  printed = h.printed;
  bounded = omega arith;
}

-- The next id is new.
next_kid-ne :
    (alg : Bytes) (now seq : ℕ) (e : Entry)
    → IsNumbered alg seq e
    → e.kid ≢ kid_for alg now (seq + 1)
next_kid-ne alg now seq e h same =
    let n : h.number ≡ seq + 1 = kid_for_injective alg _ _ _ _ (sym h.printed ∙ same) in omega arith

pub find_next_kid :
    (alg : Bytes) (now seq : ℕ) (l : List Entry)
    → All (IsNumbered alg seq) l
    → find (kid_for alg now (seq + 1)) l ≡ none
unfolding find
find_next_kid alg now seq [] h = refl
find_next_kid alg now seq (e ∷ l) h = ground (
  arith,
  find_next_kid alg now seq l h.1,
  next_kid-ne alg now seq e h.0,
  eq_iff e.kid (kid_for alg now (seq + 1)),
)

-- No id stands twice.
abbrev pub Distinct : List Entry → Type 0
Distinct [] = Unit
Distinct (e ∷ l) = (find e.kid l ≡ none) × Distinct l

pub find-append :
    (k : Bytes) (l : List Entry) (e : Entry)
    → find k (l ++ e ∷ [])
      ≡ (elim (find k l) [ none ↦ if e.kid == k then some e else none | some x ↦ some x ])
unfolding find
find-append k [] e = ground arith
find-append k (x ∷ l) e = ground (arith, find-append k l e)

pub Distinct-append :
    (l : List Entry) (e : Entry) → Distinct l → find e.kid l ≡ none → Distinct (l ++ e ∷ [])
unfolding find
Distinct-append [] e h fresh = (refl, tt)
Distinct-append (x ∷ l) e h fresh =
    ground (
      arith,
      Distinct-append l e h.1,
      find-append x.kid l e,
      eq_iff x.kid e.kid,
      eq_iff e.kid x.kid,
    )

abbrev pub if_kept : ℕ → ℕ → Option Entry → Option Entry
if_kept now grace none = none
if_kept now grace (some e) = if in_grace now grace e then some e else none

pub find_absent-keep :
    (now grace : ℕ) (k : Bytes) (l : List Entry)
    → find k l ≡ none
    → find k (keep now grace l) ≡ none
unfolding find keep
find_absent-keep now grace k [] h = refl
find_absent-keep now grace k (e ∷ l) h = ground (arith, find_absent-keep now grace k l)

-- Pruning keeps an entry exactly while it is in its grace period.
pub find-keep :
    (now grace : ℕ) (k : Bytes) (l : List Entry)
    → Distinct l
    → find k (keep now grace l) ≡ if_kept now grace (find k l)
unfolding find keep
find-keep now grace k [] h = refl
find-keep now grace k (e ∷ l) h =
    ground
      (arith, find-keep now grace k l h.1, find_absent-keep now grace e.kid l h.0, eq_iff e.kid k)

pub keep-Distinct : (now grace : ℕ) (l : List Entry) → Distinct l → Distinct (keep now grace l)
unfolding keep
keep-Distinct now grace [] h = tt
keep-Distinct now grace (e ∷ l) h =
    ground (arith, keep-Distinct now grace l h.1, find_absent-keep now grace e.kid l h.0)

pub keep-All :
    (P : Entry → Type 0) (now grace : ℕ) (l : List Entry) → All P l → All P (keep now grace l)
unfolding keep
keep-All P now grace [] h = tt
keep-All P now grace (e ∷ l) h = elim (Bool-cases (in_grace now grace e)) [
  | inl kept ↦ rw kept (h.0, keep-All P now grace l h.1)
  | inr dropped ↦ rw dropped (keep-All P now grace l h.1)
]

-- An entry that is found is in the list.
pub find-All :
    (P : Entry → Type 0) (k : Bytes) (l : List Entry) {e : Entry}
    → All P l
    → find k l ≡ some e
    → P e
unfolding find
find-All P k [] h f = cc
find-All P k (x ∷ l) h f = elim (Bool-cases (x.kid == k)) [
  | inl here ↦ let same : x ≡ _ = ground arith in subst P same h.0
  | inr there ↦ find-All P k l h.1 (ground arith)
]
