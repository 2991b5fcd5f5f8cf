-- ===== src/Session/Table.antt =====
-- backend.go: what a backend promises. A table is a function from token hashes to rows, and each
-- method is an update of that function.
use micro_identity_sidecar.Prelude.{
  ℕ, ◌≡◌, Bool, Option, none, some, Bytes, ◌==◌, ok, if◌then◌else◌,
}
use micro_identity_sidecar.Prelude.Map.{holds}
use micro_identity_sidecar.Session.{Session, Row, Backend, expired}

abbrev pub row : Session → ℕ → Row
row s now = record { session = s; created_at = now }

-- The session of a row that is there and has not expired.
abbrev pub live : ℕ → Option Row → Option Session
live now none = none
live now (some r) = if expired r.session now then none else some r.session

abbrev pub has_subject : Bytes → Row → Bool
has_subject u r = r.subject == u

abbrev pub row_expired : ℕ → Row → Bool
row_expired now r = expired r.session now

-- The row, unless the test holds of it.
abbrev pub unless : (Row → Bool) → Option Row → Option Row
unless p o = if holds p o then none else o

module _ {B : Type 0} (ops : Backend B) (find : Bytes → B → Option Row) (IsValid : B → Type 0) where
  -- A backend whose rows are `find`, in the states that are `IsValid`, whether a method succeeds or
  -- reports an error.
  pub record IsTable : Type 0 where
    pub put_valid :
        (now : ℕ) (k : Bytes) (s : Session) (b : B) → IsValid b → IsValid (ops.put now k s b).0
    pub delete_valid : (k : Bytes) (b : B) → IsValid b → IsValid (ops.delete k b).0
    pub subject_valid : (u : Bytes) (b : B) → IsValid b → IsValid (ops.delete_where_subject u b).0
    pub sweep_valid : (now : ℕ) (b : B) → IsValid b → IsValid (ops.sweep now b).0
    pub get_find : (now : ℕ) (k : Bytes) (b : B) → ops.get now k b ≡ ok (live now (find k b))
    pub put_find :
        (now : ℕ) (k : Bytes) (s : Session) (b : B) (j : Bytes)
        → find j (ops.put now k s b).0 ≡ (if k == j then some (row s now) else find j b)
    pub delete_find :
        (k : Bytes) (b : B) (j : Bytes)
        → find j (ops.delete k b).0 ≡ (if k == j then none else find j b)
    pub subject_find :
        (u : Bytes) (b : B) (j : Bytes)
        → IsValid b
        → find j (ops.delete_where_subject u b).0 ≡ unless (has_subject u) (find j b)
    pub sweep_find :
        (now : ℕ) (b : B) (j : Bytes)
        → IsValid b
        → find j (ops.sweep now b).0 ≡ unless (row_expired now) (find j b)
