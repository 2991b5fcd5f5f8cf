-- ===== src/Session/Any.antt =====
-- backend.go: a value of the interface Backend, by the type that it holds, and the dispatch of its
-- methods.
use micro_identity_sidecar.Prelude.{
  ℕ, ◌≡◌, none, some, ◌==◌, if◌then◌else◌, Option, Bytes, Result, ok,
}
use micro_identity_sidecar.Session.{Session, Row, Error, Backend}
use micro_identity_sidecar.Session.Table.{live, row, unless, has_subject, row_expired, IsTable}
use micro_identity_sidecar.Session.Memory as Memory
use micro_identity_sidecar.Session.Memory.{MemoryBackend, memory_ops, memory-IsTable}
use micro_identity_sidecar.Session.File.{FileBackend, file_ops}
use micro_identity_sidecar.Session.File.Refinement as Refinement
use micro_identity_sidecar.Session.File.Refinement.{file-IsTable}

pub data AnyBackend : Type 0 where
  in_memory : MemoryBackend → AnyBackend
  in_file : FileBackend → AnyBackend

unfoldable pub put : ℕ → Bytes → Session → AnyBackend → AnyBackend × Option Error
put now k s (in_memory b) = let (b', failed) = memory_ops.put now k s b in (in_memory b', failed)
put now k s (in_file b) = let (b', failed) = file_ops.put now k s b in (in_file b', failed)

unfoldable pub get : ℕ → Bytes → AnyBackend → Result Error (Option Session)
get now k (in_memory b) = memory_ops.get now k b
get now k (in_file b) = file_ops.get now k b

unfoldable pub delete : Bytes → AnyBackend → AnyBackend × Option Error
delete k (in_memory b) = let (b', failed) = memory_ops.delete k b in (in_memory b', failed)
delete k (in_file b) = let (b', failed) = file_ops.delete k b in (in_file b', failed)

unfoldable pub delete_where_subject : Bytes → AnyBackend → AnyBackend × ℕ × Option Error
delete_where_subject u (in_memory b) =
    let (b', n, failed) = memory_ops.delete_where_subject u b in (in_memory b', n, failed)
delete_where_subject u (in_file b) =
    let (b', n, failed) = file_ops.delete_where_subject u b in (in_file b', n, failed)

unfoldable pub sweep : ℕ → AnyBackend → AnyBackend × ℕ × Option Error
sweep now (in_memory b) = let (b', n, failed) = memory_ops.sweep now b in (in_memory b', n, failed)
sweep now (in_file b) = let (b', n, failed) = file_ops.sweep now b in (in_file b', n, failed)

abbrev pub any_ops : Backend AnyBackend
any_ops = record {
  put = put;
  get = get;
  delete = delete;
  delete_where_subject = delete_where_subject;
  sweep = sweep;
}

abbrev pub find : Bytes → AnyBackend → Option Row
find k (in_memory b) = Memory.find k b
find k (in_file b) = Refinement.find k b

abbrev pub IsValid : AnyBackend → Type 0
IsValid (in_memory b) = Memory.IsValid b
IsValid (in_file b) = Refinement.IsValid b

any_put_valid :
    (now : ℕ) (k : Bytes) (s : Session) (b : AnyBackend) → IsValid b → IsValid (put now k s b).0
unfolding put
any_put_valid now k s (in_memory b) h = memory-IsTable.put_valid now k s b h
any_put_valid now k s (in_file b) h = file-IsTable.put_valid now k s b h

any_delete_valid : (k : Bytes) (b : AnyBackend) → IsValid b → IsValid (delete k b).0
unfolding delete
any_delete_valid k (in_memory b) h = memory-IsTable.delete_valid k b h
any_delete_valid k (in_file b) h = file-IsTable.delete_valid k b h

any_subject_valid : (u : Bytes) (b : AnyBackend) → IsValid b → IsValid (delete_where_subject u b).0
unfolding delete_where_subject
any_subject_valid u (in_memory b) h = memory-IsTable.subject_valid u b h
any_subject_valid u (in_file b) h = file-IsTable.subject_valid u b h

any_sweep_valid : (now : ℕ) (b : AnyBackend) → IsValid b → IsValid (sweep now b).0
unfolding sweep
any_sweep_valid now (in_memory b) h = memory-IsTable.sweep_valid now b h
any_sweep_valid now (in_file b) h = file-IsTable.sweep_valid now b h

any_get_find : (now : ℕ) (k : Bytes) (b : AnyBackend) → get now k b ≡ ok (live now (find k b))
unfolding get
any_get_find now k (in_memory b) = memory-IsTable.get_find now k b
any_get_find now k (in_file b) = file-IsTable.get_find now k b

any_put_find :
    (now : ℕ) (k : Bytes) (s : Session) (b : AnyBackend) (j : Bytes)
    → find j (put now k s b).0 ≡ (if k == j then some (row s now) else find j b)
unfolding put
any_put_find now k s (in_memory b) j = memory-IsTable.put_find now k s b j
any_put_find now k s (in_file b) j = file-IsTable.put_find now k s b j

any_delete_find :
    (k : Bytes) (b : AnyBackend) (j : Bytes)
    → find j (delete k b).0 ≡ (if k == j then none else find j b)
unfolding delete
any_delete_find k (in_memory b) j = memory-IsTable.delete_find k b j
any_delete_find k (in_file b) j = file-IsTable.delete_find k b j

any_subject_find :
    (u : Bytes) (b : AnyBackend) (j : Bytes)
    → IsValid b
    → find j (delete_where_subject u b).0 ≡ unless (has_subject u) (find j b)
unfolding delete_where_subject
any_subject_find u (in_memory b) j h = memory-IsTable.subject_find u b j h
any_subject_find u (in_file b) j h = file-IsTable.subject_find u b j h

any_sweep_find :
    (now : ℕ) (b : AnyBackend) (j : Bytes)
    → IsValid b
    → find j (sweep now b).0 ≡ unless (row_expired now) (find j b)
unfolding sweep
any_sweep_find now (in_memory b) j h = memory-IsTable.sweep_find now b j h
any_sweep_find now (in_file b) j h = file-IsTable.sweep_find now b j h

-- Whichever backend it holds, the value keeps the promise of Backend.
pub any-IsTable : IsTable any_ops find IsValid
any-IsTable = record {
  put_valid = any_put_valid;
  delete_valid = any_delete_valid;
  subject_valid = any_subject_valid;
  sweep_valid = any_sweep_valid;
  get_find = any_get_find;
  put_find = any_put_find;
  delete_find = any_delete_find;
  subject_find = any_subject_find;
  sweep_find = any_sweep_find;
}
