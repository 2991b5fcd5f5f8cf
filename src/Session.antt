-- ===== src/Session.antt =====
-- internal/session: sessions, and the two interfaces that connect its parts.
pub mod Table
pub mod Memory
pub mod File
pub mod Any
pub mod Opaque
pub mod Stateless
pub mod Bridge
use micro_identity_sidecar.Prelude.{
  ℕ, Bool, Option, none, some, List, Bytes, String, ltb, Result, ok, err, if◌then◌else◌,
}
use micro_identity_sidecar.Prelude.Map.{Map}
use micro_identity_sidecar.Keys.{Manager, Random}
use micro_identity_sidecar.Jwt.Token as Token

-- session.go: Session
pub record Session : Type 0 where
  pub id : Bytes
  pub subject : Bytes
  pub client_id : Bytes
  pub scope : Bytes
  pub issued_at : ℕ
  pub expires_at : ℕ
  pub extra : Map Bytes

-- now.After(s.ExpiresAt)
unfoldable pub expired : Session → ℕ → Bool
expired s now = ltb s.expires_at now

-- The errors of the package. `wrapped` is fmt.Errorf with a prefix, `disk` an error of package os or
-- encoding/gob, and `no_signer` stands for the panic on a nil signer.
pub data Error : Type 0 where
  not_found revocation_unsupported no_random no_signer : Error
  unknown_mode : Bytes → Error
  unsigned : Token.Error → Error
  disk : String → Error
  wrapped : String → Error → Error

-- backend.go: row
pub record Row : Type 0 where
  pub session : Session
  pub open session use *
  pub created_at : ℕ

-- backend.go: Backend, over the backend's state. The clock is an argument where a method reads it.
pub record Backend (B : Type 0) : Type 0 where
  pub put : ℕ → Bytes → Session → B → B × Option Error
  pub get : ℕ → Bytes → B → Result Error (Option Session)
  pub delete : Bytes → B → B × Option Error
  pub delete_where_subject : Bytes → B → B × ℕ × Option Error
  pub sweep : ℕ → B → B × ℕ × Option Error

-- What the stores share: the keys, and one table for all stateful sessions.
pub record World (B : Type 0) : Type 0 where
  pub keys : Manager
  pub table : B

-- session.go: Store, over the world; creation reads the clock and the random source.
pub record Store (W : Type 0) : Type 0 where
  pub kind : String
  pub create : ℕ → Random → Session → W → W × Result Error Bytes
  pub validate : ℕ → Bytes → W → Result Error Session
  pub revoke : Bytes → W → W × Option Error
  pub revoke_all_for_subject : Bytes → W → W × ℕ × Option Error
