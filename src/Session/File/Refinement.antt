-- ===== src/Session/File/Refinement.antt =====
-- backend_file.go: the file backend keeps the promise of Backend, whatever the disk does.
use micro_identity_sidecar.Prelude.{
  ℕ, zero, suc, ◌≡◌, refl, ap, Option, none, some, Bytes, ◌==◌, eq_iff, ok, if◌then◌else◌, arith,
  Option-cases, inl, inr,
}
use micro_identity_sidecar.Prelude.Map
use micro_identity_sidecar.Prelude.Map.{
  Map, IsMap, count_where, delete_where, get-put, get-delete, get-delete_where, put-IsMap,
  delete-IsMap, delete_where-IsMap,
}
use micro_identity_sidecar.Session.{Row}
use micro_identity_sidecar.Session.Table.{live, IsTable}
use micro_identity_sidecar.Session.File.{
  FileBackend, snapshot, snapshot_if, put, get, delete, delete_where_subject, sweep, file_ops,
  found,
}

abbrev pub find : Bytes → FileBackend → Option Row
find k b = Map.get k b.rows

abbrev pub IsValid : FileBackend → Type 0
IsValid b = IsMap b.rows

rows-snapshot : (b : FileBackend) → (snapshot b).0.rows ≡ b.rows
unfolding snapshot
rows-snapshot b = refl

rows-snapshot_if : (n : ℕ) (b : FileBackend) → (snapshot_if n b).0.rows ≡ b.rows
unfolding snapshot_if
rows-snapshot_if zero b = refl
rows-snapshot_if (suc n) b = rows-snapshot b

found-eq-live : (now : ℕ) (o : Option Row) → found now o ≡ live now o
found-eq-live now none = refl
found-eq-live now (some r) = refl

delete-IsValid : (k : Bytes) (b : FileBackend) → IsValid b → IsValid (delete k b).0
unfolding delete
delete-IsValid k b h = elim (Option-cases (Map.get k b.rows)) [
  | inl absent ↦ rw (absent, delete) h
  | inr (r, there) ↦ rw (there, delete) (rw rows-snapshot (delete-IsMap k b.rows h))
]

delete_find :
    (k : Bytes) (b : FileBackend) (j : Bytes)
    → find j (delete k b).0 ≡ (if k == j then none else find j b)
unfolding delete
delete_find k b j = elim (Option-cases (Map.get k b.rows)) [
  | inl absent ↦ rw (absent, delete) (ground (arith, eq_iff k j, absent))
  | inr (r, there) ↦ rw (there, delete) (rw rows-snapshot (get-delete k j b.rows))
]

-- FileBackend keeps the promise of Backend on the rows in memory, also when a snapshot fails.
pub file-IsTable : IsTable file_ops find IsValid
unfolding put get delete_where_subject sweep
file-IsTable = record {
  put_valid = λ now k s b h. rw rows-snapshot (put-IsMap k _ b.rows h);
  delete_valid = delete-IsValid;
  subject_valid = λ u b h. rw rows-snapshot_if (delete_where-IsMap _ b.rows h);
  sweep_valid = λ now b h. rw rows-snapshot_if (delete_where-IsMap _ b.rows h);
  get_find = λ now k b. ap ok (found-eq-live now (Map.get k b.rows));
  put_find = λ now k s b j. rw rows-snapshot (get-put k j _ b.rows);
  delete_find = delete_find;
  subject_find = λ u b j h. rw rows-snapshot_if (get-delete_where _ j b.rows h);
  sweep_find = λ now b j h. rw rows-snapshot_if (get-delete_where _ j b.rows h);
}
