-- ===== src/ExampleApp.antt =====
-- examples/exampleapp/main.go: an application that leaves authentication to the sidecar.
pub mod Whoami
use micro_identity_sidecar.Prelude.{
  ℕ, Bool, true, false, Option, none, some, [], Bytes, ◌==◌, codes, String, if◌then◌else◌,
}
use micro_identity_sidecar.Prelude.Map.{Map}
use micro_identity_sidecar.Platform.{Json, Document}
use micro_identity_sidecar.Oidc.Wire.{HttpAnswer}
use micro_identity_sidecar.Middleware.{
  Principal, RemoteValidator, new_remote_validator, middleware, from_context,
}

-- envOr, over os.Getenv
unfoldable pub env_or : (Bytes → Bytes) → Bytes → Bytes → Bytes
env_or env key default = if env key == [] then default else env key

-- What the application answers; `whoami` has the members of its object that depend on the request.
pub data AppReply : Type 0 where
  healthy no_principal not_found : AppReply
  whoami : Bytes → Map Json → AppReply
  unauthorized : String → AppReply

-- The protected handler.
unfoldable pub protected : Option Principal → AppReply
protected context =
    let (found, present) = from_context context in
    elim found [
      | none ↦ no_principal
      | some who ↦ if present then whoami who.subject who.claims else no_principal
    ]

module _ (is_url : Bytes → Bool) (send : Bytes → Bytes → Option HttpAnswer)
    (decode : Bytes → Option Document) (env : Bytes → Bytes) where
  abbrev pub validator : RemoteValidator
  validator =
      new_remote_validator (env_or env (codes "SIDECAR_URL") (codes "http://127.0.0.1:9091"))

  -- The mux of main, on a path and an Authorization header.
  unfoldable pub serve_app : Bytes → Bytes → AppReply
  serve_app path authorization =
      if path == codes "/api/health"
      then healthy
      else if path == codes "/api/whoami"
      then middleware is_url send decode unauthorized protected validator authorization
      else not_found
