-- ===== src/Session/File/Recovery.antt =====
-- backend_file.go: what a restart finds in the file, after any calls and any failures of the disk.
use micro_identity_sidecar.Prelude.{
  ℕ, zero, suc, ◌≡◌, refl, sym, subst, ap, false, Option, none, some, List, [], ◌∷◌, Bytes, ok,
  arith, Option-cases, inl, inr,
}
use micro_identity_sidecar.Prelude.Map
use micro_identity_sidecar.Prelude.Map.{Map, count_where, delete_where, delete_where_none}
use micro_identity_sidecar.Session.{Session, Row, Error}
use micro_identity_sidecar.Session.File.{
  Content, table, Fault, create_fails, encode_fails, close_fails, rename_fails, Disk, FileBackend,
  write, next_fault, snapshot, load, new_file_backend, put, delete, snapshot_if,
  delete_where_subject, sweep,
}

-- The calls that may write.
pub data Call : Type 0 where
  puts : ℕ → Bytes → Session → Call
  deletes deletes_subject : Bytes → Call
  sweeps : ℕ → Call

abbrev forget_count : FileBackend × ℕ × Option Error → FileBackend × Option Error
forget_count (b, n, failed) = (b, failed)

unfoldable pub call : Call → FileBackend → FileBackend × Option Error
call (puts now k s) b = put now k s b
call (deletes k) b = delete k b
call (deletes_subject u) b = forget_count (delete_where_subject u b)
call (sweeps now) b = forget_count (sweep now b)

unfoldable pub run : List Call → FileBackend → FileBackend
run [] b = b
run (c ∷ cs) b = run cs (call c b).0

-- How a call ends: the file holds the new rows; or nothing was to be done; or the call reports an
-- error, and the file is what it was.
pub data Outcome (b b' : FileBackend) (failed : Option Error) : Type 0 where
  saved : failed ≡ none → b'.drive.file ≡ some (table b'.rows) → Outcome b b' failed
  untouched : failed ≡ none → b' ≡ b → Outcome b b' failed
  lost : (e : Error) → failed ≡ some e → b'.drive.file ≡ b.drive.file → Outcome b b' failed

write-Outcome :
    (rows : Map Row) (f : Option Fault) (d : Disk) (b : FileBackend)
    → d.file ≡ b.drive.file
    → Outcome b (record { rows = rows; drive = (write rows f d).0 }) (write rows f d).1
unfolding write
write-Outcome rows none d b same = saved refl refl
write-Outcome rows (some create_fails) d b same = lost _ refl same
write-Outcome rows (some encode_fails) d b same = lost _ refl same
write-Outcome rows (some close_fails) d b same = lost _ refl same
write-Outcome rows (some rename_fails) d b same = lost _ refl same

snapshot-Outcome :
    (rows : Map Row) (b : FileBackend)
    → Outcome b (snapshot (record b { rows = rows })).0 (snapshot (record b { rows = rows })).1
unfolding snapshot
snapshot-Outcome rows b = write-Outcome rows (next_fault b.drive.faults) _ b refl

snapshot_if-Outcome :
    (n : ℕ) (rows : Map Row) (b : FileBackend)
    → (n ≡ 0 → rows ≡ b.rows)
    → Outcome b
        (snapshot_if n (record b { rows = rows })).0
        (snapshot_if n (record b { rows = rows })).2
unfolding snapshot_if
snapshot_if-Outcome zero rows b same = untouched refl (ap (λ r. record b { rows = r }) (same refl))
snapshot_if-Outcome (suc n) rows b same = snapshot-Outcome rows b

delete-Outcome : (k : Bytes) (b : FileBackend) → Outcome b (delete k b).0 (delete k b).1
unfolding delete
delete-Outcome k b = elim (Option-cases (Map.get k b.rows)) [
  | inl absent ↦ rw (absent, delete) (untouched refl refl)
  | inr (r, there) ↦ rw (there, delete) (snapshot-Outcome (Map.delete k b.rows) b)
]

-- Each call either leaves its rows in the file, or changes nothing at all, or reports an error and
-- leaves the file as it was; a half written table never takes the file's place.
call-Outcome : (c : Call) (b : FileBackend) → Outcome b (call c b).0 (call c b).1
unfolding call put delete_where_subject sweep
call-Outcome (puts now k s) b = snapshot-Outcome _ b
call-Outcome (deletes k) b = delete-Outcome k b
call-Outcome (deletes_subject u) b = snapshot_if-Outcome _ _ b (delete_where_none _ b.rows)
call-Outcome (sweeps now) b = snapshot_if-Outcome _ _ b (delete_where_none _ b.rows)

-- The file is missing or holds a whole table.
pub data IsIntact : Option Content → Type 0 where
  missing : IsIntact none
  whole : (rows : Map Row) → IsIntact (some (table rows))

call-IsIntact :
    (c : Call) (b : FileBackend) → IsIntact b.drive.file → IsIntact (call c b).0.drive.file
call-IsIntact c b h = elim (call-Outcome c b) [
  | saved _ e ↦ subst IsIntact (sym e) (whole _)
  | untouched _ e ↦ subst (λ x. IsIntact x.drive.file) (sym e) h
  | lost _ _ e ↦ subst IsIntact (sym e) h
]

run-IsIntact :
    (cs : List Call) (b : FileBackend) → IsIntact b.drive.file → IsIntact (run cs b).drive.file
unfolding run
run-IsIntact [] b h = h
run-IsIntact (c ∷ cs) b h = run-IsIntact cs (call c b).0 (call-IsIntact c b h)

opens : (d : Disk) → IsIntact d.file → (b : FileBackend) × (new_file_backend false d ≡ ok b)
unfolding new_file_backend load
opens d h = open_as d.file refl h
  where
    open_as :
        (f : Option Content)
        → d.file ≡ f
        → IsIntact f
        → (b : FileBackend) × (new_file_backend false d ≡ ok b)
    open_as _ e missing = (record { rows = []; drive = d }, ground arith)
    open_as _ e (whole rows) = (record { rows = rows; drive = d }, ground arith)

-- After any calls, with any failures of the disk, a file that was missing or whole can be opened
-- again.
pub run_reopens :
    (cs : List Call) (b : FileBackend)
    → IsIntact b.drive.file
    → (b' : FileBackend) × (new_file_backend false (run cs b).drive ≡ ok b')
run_reopens cs b h = opens (run cs b).drive (run-IsIntact cs b h)

-- A restart finds the rows that were in memory.
abbrev pub InSync : FileBackend → Type 0
InSync b = new_file_backend false b.drive ≡ ok b

reopened : (b : FileBackend) → b.drive.file ≡ some (table b.rows) → InSync b
unfolding new_file_backend load
reopened b e = ground (arith, e)

-- If a restart finds what is in memory, it does so too after a call without an error.
pub call_durable :
    (c : Call) (b : FileBackend) → InSync b → (call c b).1 ≡ none → InSync (call c b).0
call_durable c b sync no_error = elim (call-Outcome c b) [
  | saved _ e ↦ reopened (call c b).0 e
  | untouched _ e ↦ subst InSync (sym e) sync
  | lost _ failed _ ↦ absurd (cc)
]

same_file : (d d' : Disk) → d'.file ≡ d.file → load false d' ≡ load false d
unfolding load
same_file d d' e = ground (arith, e)

-- A call that reports an error is undone by a restart: it finds what it would have found before.
pub call_undone :
    (c : Call) (b : FileBackend) (e : Error)
    → (call c b).1 ≡ some e
    → load false (call c b).0.drive ≡ load false b.drive
call_undone c b e failed = elim (call-Outcome c b) [
  | saved good _ ↦ absurd (cc)
  | untouched good _ ↦ absurd (cc)
  | lost _ _ same ↦ same_file b.drive (call c b).0.drive same
]
