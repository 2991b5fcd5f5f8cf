-- ===== src/Prelude/Map.antt =====
-- A Go map keyed by strings, as an association list that holds a key at most once. The program
-- never depends on the order in which it ranges over a map.
use Prim.Native.Nat.{ℕ, suc}
use mathlib.Core.Path.{◌≡◌, refl, subst}
use mathlib.Core.Logic.{inl, inr}
use mathlib.Core.Bool.{Bool, false}
use mathlib.Core.Option.{Option, none, some}
use mathlib.Core.List.{List, [], ◌∷◌}
use native.Mathlib.Omega.{arith}
use micro_identity_sidecar.Prelude.Lists.{All}
use micro_identity_sidecar.Prelude.Tests.{Bytes, ◌==◌, eq_iff, if◌then◌else◌, Bool-cases}

abbrev pub Map {ℓ} : Type ℓ → Type ℓ
Map V = List (Bytes × V)

abbrev pub holds {ℓ} : {V : Type ℓ} → (V → Bool) → Option V → Bool
holds p none = false
holds p (some v) = p v

module _ {ℓ} {V : Type ℓ} where
  -- m[k]
  unfoldable pub get : Bytes → Map V → Option V
  get k [] = none
  get k ((j, v) ∷ m) = if j == k then some v else get k m

  -- delete(m, k)
  unfoldable pub delete : Bytes → Map V → Map V
  delete k [] = []
  delete k ((j, v) ∷ m) = let rest = delete k m in if j == k then rest else (j, v) ∷ rest

  -- m[k] = v
  unfoldable pub put : Bytes → V → Map V → Map V
  unfolding delete
  put k v m = (k, v) ∷ delete k m

  -- for k, v := range m { if p(v) { delete(m, k) } }
  unfoldable pub delete_where : (V → Bool) → Map V → Map V
  delete_where p [] = []
  delete_where p ((j, v) ∷ m) = let rest = delete_where p m in if p v then rest else (j, v) ∷ rest

  -- The number of entries that such a loop deletes.
  unfoldable pub count_where : (V → Bool) → Map V → ℕ
  count_where p [] = 0
  count_where p ((j, v) ∷ m) = if p v then suc (count_where p m) else count_where p m

  -- No key stands twice.
  abbrev pub IsMap : Map V → Type ℓ
  IsMap [] = Unit
  IsMap ((j, v) ∷ m) = (get j m ≡ none) × IsMap m

  pub get-delete :
      (k j : Bytes) (m : Map V) → get j (delete k m) ≡ (if k == j then none else get j m)
  unfolding get delete
  get-delete k j [] = ground arith
  get-delete k j ((i, v) ∷ m) = ground (arith, get-delete k j m, eq_iff i k, eq_iff i j, eq_iff k j)

  pub get-put :
      (k j : Bytes) (v : V) (m : Map V) → get j (put k v m) ≡ (if k == j then some v else get j m)
  unfolding get put
  get-put k j v m = ground (arith, get-delete k j m)

  pub get-put_self : (k : Bytes) (v : V) (m : Map V) → get k (put k v m) ≡ some v
  get-put_self k v m = ground (arith, get-put k k v m, eq_iff k k)

  pub delete-IsMap : (k : Bytes) (m : Map V) → IsMap m → IsMap (delete k m)
  unfolding delete
  delete-IsMap k [] h = tt
  delete-IsMap k ((j, v) ∷ m) h = ground (arith, delete-IsMap k m h.1, get-delete k j m)

  pub put-IsMap : (k : Bytes) (v : V) (m : Map V) → IsMap m → IsMap (put k v m)
  unfolding put
  put-IsMap k v m h = (ground (arith, get-delete k k m, eq_iff k k), delete-IsMap k m h)

  pub get-delete_where-none :
      (p : V → Bool) (j : Bytes) (m : Map V) → get j m ≡ none → get j (delete_where p m) ≡ none
  unfolding get delete_where
  get-delete_where-none p j [] h = refl
  get-delete_where-none p j ((i, v) ∷ m) h = ground (arith, get-delete_where-none p j m)

  -- What is left at a key is what was there, if the test spares it.
  pub get-delete_where :
      (p : V → Bool) (j : Bytes) (m : Map V)
      → IsMap m
      → get j (delete_where p m) ≡ (if holds p (get j m) then none else get j m)
  unfolding get delete_where
  get-delete_where p j [] h = refl
  get-delete_where p j ((i, v) ∷ m) h =
      ground (arith, get-delete_where p j m h.1, get-delete_where-none p i m h.0, eq_iff i j)

  pub delete_where-IsMap : (p : V → Bool) (m : Map V) → IsMap m → IsMap (delete_where p m)
  unfolding delete_where
  delete_where-IsMap p [] h = tt
  delete_where-IsMap p ((j, v) ∷ m) h =
      ground (arith, delete_where-IsMap p m h.1, get-delete_where-none p j m h.0)

  -- Where nothing is counted, nothing is deleted.
  pub delete_where_none : (p : V → Bool) (m : Map V) → count_where p m ≡ 0 → delete_where p m ≡ m
  unfolding delete_where count_where
  delete_where_none p [] h = refl
  delete_where_none p ((j, v) ∷ m) h = ground (arith, delete_where_none p m)

-- What holds of every entry holds of one that is found.
pub All-get {ℓ κ} :
    {V : Type ℓ} (P : Bytes × V → Type κ) (m : Map V) (k : Bytes) (v : V)
    → All P m
    → get k m ≡ some v
    → P (k, v)
unfolding get
All-get P [] k v h found = cc
All-get P ((j, w) ∷ m) k v h found = elim (Bool-cases (j == k)) [
  | inl same ↦
      let key : j ≡ k = (eq_iff j k).0 same in
      let held : w ≡ v = ground arith in subst (λ x. P (x, v)) key (subst (λ x. P (j, x)) held h.0)
  | inr other ↦ All-get P m k v h.1 (ground arith)
]
