-- ===== src/Jwt/Claims/Objects.antt =====
-- Members of the objects that the claims code builds: of the written fields, of an overlay, and of
-- what is left to Extra.
use micro_identity_sidecar.Prelude.{
  ℕ, zero, suc, ◌^◌, ◌<◌, ◌≡◌, refl, Bool, true, ◌&&◌, not, Option, none, some, List, [], ◌∷◌, map,
  arith, Bytes, ◌==◌, eq_iff, All, if◌then◌else◌, Bool-cases, inl, inr, subst,
}
use micro_identity_sidecar.Prelude.Map.{Map, get, put, IsMap, get-put, put-IsMap}
use micro_identity_sidecar.Platform.{Json, Platform, Fits}
use micro_identity_sidecar.Jwt.Claims.{
  present, overlay, known, unknown_only, text_field, list_field, number_field, to_text, to_list,
  to_number,
}

abbrev pub or_else {ℓ} : {A : Type ℓ} → Option A → Option A → Option A
or_else none d = d
or_else (some a) d = some a

pub or_else-none {ℓ} : {A : Type ℓ} (o : Option A) → or_else o none ≡ o
or_else-none none = refl
or_else-none (some a) = refl

pub get-present :
    (j k : Bytes) (o : Option Json) (l : List (Bytes × Option Json))
    → get j (present ((k, o) ∷ l))
      ≡ (if k == j then or_else o (get j (present l)) else get j (present l))
unfolding get present
get-present j k none l = ground arith
get-present j k (some v) l = ground arith

-- Whether a key is none of those listed, and whether all differ.
abbrev pub lacks : Bytes → List Bytes → Bool
lacks k [] = true
lacks k (j ∷ ks) = not (j == k) && lacks k ks

abbrev pub distinct : List Bytes → Bool
distinct [] = true
distinct (k ∷ ks) = lacks k ks && distinct ks

abbrev pub keys : List (Bytes × Option Json) → List Bytes
keys = map (λ e. e.0)

pub get-present-lacks :
    (k : Bytes) (l : List (Bytes × Option Json))
    → lacks k (keys l) ≡ true
    → get k (present l) ≡ none
unfolding get present
get-present-lacks k [] h = refl
get-present-lacks k ((j, none) ∷ l) h = ground (arith, get-present-lacks k l)
get-present-lacks k ((j, some v) ∷ l) h = ground (arith, get-present-lacks k l)

pub present-IsMap : (l : List (Bytes × Option Json)) → distinct (keys l) ≡ true → IsMap (present l)
unfolding get present
present-IsMap [] h = tt
present-IsMap ((j, none) ∷ l) h = ground (arith, present-IsMap l)
present-IsMap ((j, some v) ∷ l) h = ground (arith, present-IsMap l, get-present-lacks j l)

module _ (p : Platform) where
  abbrev pub FitsField : Option Json → Type 0
  FitsField none = Unit
  FitsField (some v) = Fits p v

  pub present-Fits :
      (l : List (Bytes × Option Json)) (k : Bytes) (v : Json)
      → All (λ e. (p.is_utf8 e.0 ≡ true) × FitsField e.1) l
      → get k (present l) ≡ some v
      → (p.is_utf8 k ≡ true) × Fits p v
  unfolding get present
  present-Fits [] k v h e = ground arith
  present-Fits ((j, none) ∷ l) k v h e = present-Fits l k v h.1 e
  present-Fits ((j, some w) ∷ l) k v h e = elim (Bool-cases (j == k)) [
    | inl same ↦
        let at_k : j ≡ k = (eq_iff j k).0 same in
        let is_v : w ≡ v = ground arith in
        (subst (λ t. p.is_utf8 t ≡ true) at_k h.0.0, subst (Fits p) is_v h.0.1)
    | inr other ↦ present-Fits l k v h.1 (ground arith)
  ]

  pub text_field-Fits : (s : Bytes) → p.is_utf8 s ≡ true → FitsField (text_field s)
  unfolding text_field
  text_field-Fits [] h = tt
  text_field-Fits (c ∷ s) h = h

  pub list_field-Fits :
      (l : List Bytes) → All (λ s. p.is_utf8 s ≡ true) l → FitsField (list_field l)
  unfolding list_field
  list_field-Fits [] h = tt
  list_field-Fits (s ∷ l) h = h

  pub number_field-Fits : (n : ℕ) → n < 2 ^ 53 → FitsField (number_field n)
  unfolding number_field
  number_field-Fits zero h = tt
  number_field-Fits (suc n) h = h

pub to_text-text_field : (s : Bytes) → to_text (text_field s) ≡ some s
unfolding to_text text_field
to_text-text_field [] = refl
to_text-text_field (c ∷ s) = refl

pub to_list-list_field : (l : List Bytes) → to_list (list_field l) ≡ some l
unfolding to_list list_field
to_list-list_field [] = refl
to_list-list_field (s ∷ l) = refl

pub to_number-number_field : (n : ℕ) → to_number (number_field n) ≡ some n
unfolding to_number number_field
to_number-number_field zero = refl
to_number-number_field (suc n) = refl

-- A member of the overlay comes first; the rest is as before.
pub get-overlay :
    (j : Bytes) (e m : Map Json) → IsMap e → get j (overlay e m) ≡ or_else (get j e) (get j m)
unfolding get overlay
get-overlay j [] m h = refl
get-overlay j ((k, v) ∷ e) m h =
    ground (arith, get-overlay j e (put k v m) h.1, get-put k j v m, eq_iff k j)

pub overlay-IsMap : (e m : Map Json) → IsMap m → IsMap (overlay e m)
unfolding overlay
overlay-IsMap [] m h = h
overlay-IsMap ((k, v) ∷ e) m h = overlay-IsMap e (put k v m) (put-IsMap k v m h)

pub get-unknown_only :
    (j : Bytes) (m : Map Json) → get j (unknown_only m) ≡ (if known j then none else get j m)
unfolding get unknown_only
get-unknown_only j [] = ground arith
get-unknown_only j ((k, v) ∷ m) = ground (arith, get-unknown_only j m, eq_iff k j)

pub unknown_only-IsMap : (m : Map Json) → IsMap m → IsMap (unknown_only m)
unfolding unknown_only
unknown_only-IsMap [] h = tt
unknown_only-IsMap ((k, v) ∷ m) h = ground (arith, unknown_only-IsMap m h.1, get-unknown_only k m)
