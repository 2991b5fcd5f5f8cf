-- ===== src/Oidc/Users.antt =====
-- internal/oidc/users.go: the identity source, and the demo users.
use micro_identity_sidecar.Prelude.{Option, none, some, [], ◌∷◌, Bytes, ◌==◌, codes, if◌then◌else◌}
use micro_identity_sidecar.Prelude.Map.{Map, get}
use micro_identity_sidecar.Platform.{Platform, Json, str}

-- UserStore
pub record UserStore : Type 0 where
  pub authenticate : Bytes → Bytes → Option Bytes
  pub profile : Bytes → Map Json

-- demoUser
pub record DemoUser : Type 0 where
  pub subject : Bytes
  pass_hash : Bytes
  pub name : Bytes
  pub email : Bytes

module _ (p : Platform) where
  abbrev make : Bytes → Bytes → Bytes → Bytes → DemoUser
  make subject password name email = record {
    subject = subject;
    pass_hash = p.sha256 password;
    name = name;
    email = email;
  }

  -- NewDemoUserStore
  unfoldable pub by_username : Map DemoUser
  by_username =
      (
        codes "alice",
        make (codes "user-alice") (codes "password123") (codes "Alice Anderson")
            (codes "alice@example.com"),
      )
      ∷ (
        codes "bob",
        make (codes "user-bob") (codes "password123") (codes "Bob Barker")
            (codes "bob@example.com"),
      )
      ∷ (
        codes "guest",
        make (codes "user-guest") (codes "guest") (codes "Guest") (codes "guest@example.com"),
      )
      ∷ []

  unfoldable pub authenticate : Bytes → Bytes → Option Bytes
  authenticate username password = elim (get username by_username) [
    | none ↦ none
    | some u ↦ if p.sha256 password == u.pass_hash then some u.subject else none
  ]

  -- The loop of Profile; no two users share a subject, so that the order does not matter.
  unfoldable pub profile_of : Bytes → Map DemoUser → Map Json
  profile_of subject [] = (codes "sub", str subject) ∷ []
  profile_of subject ((username, u) ∷ users) =
      if u.subject == subject
      then (codes "sub", str u.subject)
        ∷ (codes "name", str u.name)
        ∷ (codes "email", str u.email)
        ∷ []
      else profile_of subject users

  unfoldable pub profile : Bytes → Map Json
  profile subject = profile_of subject by_username

  abbrev pub demo_user_store : UserStore
  demo_user_store = record { authenticate = authenticate; profile = profile }
