-- ===== src/Session/Memory.antt =====
-- backend_memory.go: the table in memory.
use micro_identity_sidecar.Prelude.{
  ℕ, ◌≡◌, refl, ap, Option, none, some, [], Bytes, ◌==◌, Result, ok, if◌then◌else◌,
}
use micro_identity_sidecar.Prelude.Map
use micro_identity_sidecar.Prelude.Map.{
  Map, IsMap, count_where, delete_where, get-put, get-delete, get-delete_where, put-IsMap,
  delete-IsMap, delete_where-IsMap,
}
use micro_identity_sidecar.Session.{Session, Row, Error, Backend, expired}
use micro_identity_sidecar.Session.Table.{live, IsTable}

-- MemoryBackend
pub record MemoryBackend : Type 0 where
  pub rows : Map Row

-- NewMemoryBackend
abbrev pub new_memory_backend : MemoryBackend
new_memory_backend = record { rows = [] }

unfoldable pub put : ℕ → Bytes → Session → MemoryBackend → MemoryBackend × Option Error
put now k s b =
    (record { rows = Map.put k (record { session = s; created_at = now }) b.rows }, none)

abbrev found : ℕ → Option Row → Option Session
found now none = none
found now (some r) = if expired r.session now then none else some r.session

unfoldable pub get : ℕ → Bytes → MemoryBackend → Result Error (Option Session)
get now k b = ok (found now (Map.get k b.rows))

unfoldable pub delete : Bytes → MemoryBackend → MemoryBackend × Option Error
delete k b = (record { rows = Map.delete k b.rows }, none)

unfoldable pub delete_where_subject : Bytes → MemoryBackend → MemoryBackend × ℕ × Option Error
delete_where_subject u b =
    let p = λ (r : Row). r.subject == u in
    (record { rows = delete_where p b.rows }, count_where p b.rows, none)

unfoldable pub sweep : ℕ → MemoryBackend → MemoryBackend × ℕ × Option Error
sweep now b =
    let p = λ (r : Row). expired r.session now in
    (record { rows = delete_where p b.rows }, count_where p b.rows, none)

-- The methods of MemoryBackend as a Backend.
abbrev pub memory_ops : Backend MemoryBackend
memory_ops = record {
  put = put;
  get = get;
  delete = delete;
  delete_where_subject = delete_where_subject;
  sweep = sweep;
}

abbrev pub find : Bytes → MemoryBackend → Option Row
find k b = Map.get k b.rows

abbrev pub IsValid : MemoryBackend → Type 0
IsValid b = IsMap b.rows

found-eq-live : (now : ℕ) (o : Option Row) → found now o ≡ live now o
found-eq-live now none = refl
found-eq-live now (some r) = refl

-- MemoryBackend keeps the promise of Backend, with no key twice in its map.
pub memory-IsTable : IsTable memory_ops find IsValid
unfolding put get delete delete_where_subject sweep
memory-IsTable = record {
  put_valid = λ now k s b h. put-IsMap k _ b.rows h;
  delete_valid = λ k b h. delete-IsMap k b.rows h;
  subject_valid = λ u b h. delete_where-IsMap _ b.rows h;
  sweep_valid = λ now b h. delete_where-IsMap _ b.rows h;
  get_find = λ now k b. ap ok (found-eq-live now (Map.get k b.rows));
  put_find = λ now k s b j. get-put k j _ b.rows;
  delete_find = λ k b j. get-delete k j b.rows;
  subject_find = λ u b j h. get-delete_where _ j b.rows h;
  sweep_find = λ now b j h. get-delete_where _ j b.rows h;
}
