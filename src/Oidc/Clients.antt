-- ===== src/Oidc/Clients.antt =====
-- internal/oidc/clients.go: registered clients.
use micro_identity_sidecar.Prelude.{
  Bool, true, false, Option, List, [], ◌∷◌, Bytes, ◌==◌, if◌then◌else◌,
}
use micro_identity_sidecar.Prelude.Map.{Map, get, put}

pub record Client : Type 0 where
  pub id : Bytes
  pub secret : Bytes
  pub public : Bool
  pub redirect_uris : List Bytes
  pub session_mode : Bytes

-- Whether a list of strings has the element.
unfoldable pub contains : List Bytes → Bytes → Bool
contains [] uri = false
contains (r ∷ l) uri = if r == uri then true else contains l uri

unfoldable pub redirect_allowed : Client → Bytes → Bool
redirect_allowed c uri = contains c.redirect_uris uri

-- ClientRegistry
abbrev pub ClientRegistry : Type 0
ClientRegistry = Map Client

unfoldable pub register : Client → ClientRegistry → ClientRegistry
register c r = put c.id c r

unfoldable pub lookup : Bytes → ClientRegistry → Option Client
lookup id r = get id r
