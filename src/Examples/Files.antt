-- ===== src/Examples/Files.antt =====
-- The theorems on the file backend, applied to a file whose next snapshot cannot be renamed.
use micro_identity_sidecar.Prelude.{◌*◌, ◌≡◌, refl, false, none, some, [], ◌∷◌, ok}
use micro_identity_sidecar.Jwt.Token.{second}
use micro_identity_sidecar.Session.{disk}
use micro_identity_sidecar.Session.File as File
use micro_identity_sidecar.Session.File.Recovery as Recovery
use micro_identity_sidecar.Examples.Sessions.{session, token}

-- A table in a file whose next snapshot cannot be renamed.
abbrev file : File.FileBackend
file = record {
  rows = [];
  drive = record {
    file = some (File.table []);
    tmp = none;
    faults = none ∷ some File.rename_fails ∷ [];
  };
}

in_sync : Recovery.InSync file
unfolding File.new_file_backend File.load
in_sync = refl

abbrev a_put : Recovery.Call
a_put = Recovery.puts (6 * second) token session

call_durable_example : Recovery.InSync (Recovery.call a_put file).0
call_durable_example =
    Recovery.call_durable a_put file in_sync
      (unfold Recovery.call File.put File.snapshot File.write in refl)

abbrev failing : File.FileBackend
failing = record file { drive = record file.drive { faults = some File.rename_fails ∷ [] } }

call_undone_example :
    File.load false (Recovery.call a_put failing).0.drive ≡ File.load false failing.drive
call_undone_example =
    Recovery.call_undone a_put failing (disk "rename")
      (unfold Recovery.call File.put File.snapshot File.write in refl)

run_reopens_example :
    (b : File.FileBackend) × (File.new_file_backend false
        (Recovery.run (a_put ∷ Recovery.deletes token ∷ []) file).drive
      ≡ ok b)
run_reopens_example =
    Recovery.run_reopens (a_put ∷ Recovery.deletes token ∷ []) file (Recovery.whole [])
