-- ===== src/Session/File.antt =====
-- backend_file.go: the table in memory, and a snapshot of it in a file.
pub mod Refinement
pub mod Recovery
use micro_identity_sidecar.Prelude.{
  ℕ, zero, suc, Bool, Option, none, some, List, [], ◌∷◌, Bytes, ◌==◌, Result, ok, err,
  if◌then◌else◌,
}
use micro_identity_sidecar.Prelude.Map
use micro_identity_sidecar.Prelude.Map.{Map, count_where, delete_where}
use micro_identity_sidecar.Session.{Session, Row, Error, disk, wrapped, Backend, expired}

-- A file that gob.Decoder reads as a table, or one that was not written to its end.
pub data Content : Type 0 where
  table : Map Row → Content
  cut_short : Content

-- What goes wrong in one call of snapshot.
pub data Fault : Type 0 where
  create_fails encode_fails close_fails rename_fails : Fault

-- The file at `path` and the one at `path.tmp`; `faults` says what happens to each coming snapshot,
-- and no more goes wrong after it.
pub record Disk : Type 0 where
  pub file : Option Content
  pub tmp : Option Content
  pub faults : List (Option Fault)

-- FileBackend, with the part of the disk that it works on.
pub record FileBackend : Type 0 where
  pub rows : Map Row
  pub drive : Disk

-- One run of os.Create, Encode, Close and os.Rename over the temporary file.
unfoldable pub write : Map Row → Option Fault → Disk → Disk × Option Error
write rows none d = (record d { file = some (table rows); tmp = none }, none)
write rows (some create_fails) d = (d, some (disk "create"))
write rows (some encode_fails) d = (record d { tmp = some cut_short }, some (disk "encode"))
write rows (some close_fails) d = (record d { tmp = some cut_short }, some (disk "close"))
write rows (some rename_fails) d = (record d { tmp = some (table rows) }, some (disk "rename"))

abbrev pub next_fault : List (Option Fault) → Option Fault
next_fault [] = none
next_fault (f ∷ fs) = f

abbrev later_faults : List (Option Fault) → List (Option Fault)
later_faults [] = []
later_faults (f ∷ fs) = fs

-- FileBackend.snapshot
unfoldable pub snapshot : FileBackend → FileBackend × Option Error
snapshot b =
    let (d, failed) =
      write b.rows (next_fault b.drive.faults)
        (record b.drive { faults = later_faults b.drive.faults }) in
    (record b { drive = d }, failed)

-- FileBackend.load; `unreadable` is an error of os.Open other than a missing file.
unfoldable pub load : Bool → Disk → Result Error (Map Row)
load unreadable d = if unreadable then err (disk "open") else elim d.file [
  | none ↦ ok []
  | some (table rows) ↦ ok rows
  | some cut_short ↦ err (disk "decode")
]

-- NewFileBackend
unfoldable pub new_file_backend : Bool → Disk → Result Error FileBackend
new_file_backend unreadable d = elim (load unreadable d) [
  | ok rows ↦ ok (record { rows = rows; drive = d })
  | err e ↦ err (wrapped "load session file" e)
]

unfoldable pub put : ℕ → Bytes → Session → FileBackend → FileBackend × Option Error
put now k s b =
    snapshot (record b { rows = Map.put k (record { session = s; created_at = now }) b.rows })

abbrev found : ℕ → Option Row → Option Session
found now none = none
found now (some r) = if expired r.session now then none else some r.session

unfoldable pub get : ℕ → Bytes → FileBackend → Result Error (Option Session)
get now k b = ok (found now (Map.get k b.rows))

unfoldable pub delete : Bytes → FileBackend → FileBackend × Option Error
delete k b = elim (Map.get k b.rows) [
  | none ↦ (b, none)
  | some r ↦ snapshot (record b { rows = Map.delete k b.rows })
]

-- A snapshot, where the loop has deleted some row.
unfoldable pub snapshot_if : ℕ → FileBackend → FileBackend × ℕ × Option Error
snapshot_if zero b = (b, 0, none)
snapshot_if (suc n) b = let (b', failed) = snapshot b in (b', suc n, failed)

unfoldable pub delete_where_subject : Bytes → FileBackend → FileBackend × ℕ × Option Error
delete_where_subject u b =
    let p = λ (r : Row). r.subject == u in
    snapshot_if (count_where p b.rows) (record b { rows = delete_where p b.rows })

unfoldable pub sweep : ℕ → FileBackend → FileBackend × ℕ × Option Error
sweep now b =
    let p = λ (r : Row). expired r.session now in
    snapshot_if (count_where p b.rows) (record b { rows = delete_where p b.rows })

-- The methods of FileBackend as a Backend.
abbrev pub file_ops : Backend FileBackend
file_ops = record {
  put = put;
  get = get;
  delete = delete;
  delete_where_subject = delete_where_subject;
  sweep = sweep;
}
