-- ===== src/Go/Strings.antt =====
-- Functions of package strings.
use micro_identity_sidecar.Prelude.{
  ℕ, ◌==◌, ◌≡◌, ◌≢◌, refl, Bool, true, false, ◌&&◌, List, [], ◌∷◌, ◌++◌, arith, Bytes, All, eqb,
  if◌then◌else◌, Bool-cases, inl, inr, ap, ◌∙◌,
}

-- The first part has one more byte in front.
unfoldable pub extend_first : ℕ → List Bytes → List Bytes
extend_first c [] = (c ∷ []) ∷ []
extend_first c (p ∷ ps) = (c ∷ p) ∷ ps

-- Split(s, sep), for a separator of one byte.
unfoldable pub split : Bytes → ℕ → List Bytes
unfolding extend_first
split [] sep = [] ∷ []
split (c ∷ s) sep = let rest = split s sep in if eqb c sep then [] ∷ rest else extend_first c rest

-- The first element of SplitN(s, sep, 2): what stands before the separator, or all.
unfoldable pub before : Bytes → ℕ → Bytes
before [] sep = []
before (c ∷ s) sep = let rest = before s sep in if eqb c sep then [] else c ∷ rest

-- HasPrefix(s, prefix)
unfoldable pub has_prefix : Bytes → Bytes → Bool
has_prefix s [] = true
has_prefix [] (p ∷ ps) = false
has_prefix (c ∷ s) (p ∷ ps) = eqb c p && has_prefix s ps

unfoldable pub drop_prefix : Bytes → Bytes → Bytes
drop_prefix s [] = s
drop_prefix [] (p ∷ ps) = []
drop_prefix (c ∷ s) (p ∷ ps) = drop_prefix s ps

-- TrimPrefix(s, prefix)
unfoldable pub trim_prefix : Bytes → Bytes → Bytes
unfolding has_prefix drop_prefix
trim_prefix s prefix = if has_prefix s prefix then drop_prefix s prefix else s

abbrev pub Lacks : ℕ → Bytes → Type 0
Lacks sep = All (λ c. c ≢ sep)

pub split-append :
    (a s : Bytes) (sep : ℕ) → Lacks sep a → split (a ++ sep ∷ s) sep ≡ a ∷ split s sep
unfolding split
split-append [] s sep h = ground arith
split-append (c ∷ a) s sep h = ground (arith, split-append a s sep h.1)

pub split_of_Lacks : (a : Bytes) (sep : ℕ) → Lacks sep a → split a sep ≡ a ∷ []
unfolding split
split_of_Lacks [] sep h = refl
split_of_Lacks (c ∷ a) sep h = ground (arith, split_of_Lacks a sep h.1)

pub before-append : (a s : Bytes) (sep : ℕ) → Lacks sep a → before (a ++ sep ∷ s) sep ≡ a
unfolding before
before-append [] s sep h = ground arith
before-append (c ∷ a) s sep h = ground (arith, before-append a s sep h.1)

pub has_prefix-append : (p s : Bytes) → has_prefix (p ++ s) p ≡ true
unfolding has_prefix
has_prefix-append [] s = refl
has_prefix-append (c ∷ p) s = ground (arith, has_prefix-append p s)

drop_prefix-append : (p s : Bytes) → drop_prefix (p ++ s) p ≡ s
unfolding drop_prefix
drop_prefix-append [] s = refl
drop_prefix-append (c ∷ p) s = drop_prefix-append p s

pub trim_prefix-append : (p s : Bytes) → trim_prefix (p ++ s) p ≡ s
unfolding trim_prefix
trim_prefix-append p s = rw has_prefix-append (drop_prefix-append p s)

-- Join(parts, sep), for a separator of one byte.
unfoldable pub join : List Bytes → ℕ → Bytes
join [] sep = []
join (p ∷ []) sep = p
join (p ∷ q ∷ ps) sep = p ++ sep ∷ join (q ∷ ps) sep

join-extend_first : (c sep : ℕ) (ps : List Bytes) → join (extend_first c ps) sep ≡ c ∷ join ps sep
unfolding join extend_first
join-extend_first c sep [] = refl
join-extend_first c sep (p ∷ []) = refl
join-extend_first c sep (p ∷ q ∷ ps) = refl

split-cons : (s : Bytes) (sep : ℕ) → (p : Bytes) × (ps : List Bytes) × (split s sep ≡ p ∷ ps)
unfolding split
split-cons [] sep = ([], [], refl)
split-cons (c ∷ s) sep =
    let (p, ps, e) = split-cons s sep in
    elim (Bool-cases (eqb c sep)) [
      | inl same ↦ ([], split s sep, rw same)
      | inr other ↦ (c ∷ p, ps, rw (other, e))
    ]

pub join-split : (s : Bytes) (sep : ℕ) → join (split s sep) sep ≡ s
unfolding split join
join-split [] sep = refl
join-split (c ∷ s) sep =
    let (p, ps, e) = split-cons s sep in
    elim (Bool-cases (eqb c sep)) [
      | inl same ↦ ground (arith, e, join-split s sep)
      | inr other ↦ rw other (join-extend_first c sep (split s sep) ∙ ap (◌∷◌ c) (join-split s sep))
    ]

-- TrimRight(s, cutset), for a cutset of one byte.
unfoldable pub trim_right : Bytes → ℕ → Bytes
trim_right [] cut = []
trim_right (c ∷ s) cut =
    let rest = trim_right s cut in if rest == [] && eqb c cut then [] else c ∷ rest
