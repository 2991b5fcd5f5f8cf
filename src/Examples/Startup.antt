-- ===== src/Examples/Startup.antt =====
-- The theorems on configuration and start, applied to an environment with a long sweep interval and to
-- one with none.
use micro_identity_sidecar.Prelude.{
  ℕ, ◌*◌, ◌-◌, ◌^◌, ◌≡◌, ◌≢◌, refl, List, inr, true, false, none, some, [], ◌∷◌, Bytes, ◌==◌, codes,
  arith, ok, ltb, if◌then◌else◌, ◌⊎◌, ◌++◌,
}
use micro_identity_sidecar.Prelude.Map as Map
use micro_identity_sidecar.Go.Duration.{pos}
use micro_identity_sidecar.Config.{load, get_duration, seconds}
use micro_identity_sidecar.Config.Ranges.{whole_text, get_duration-whole}
use micro_identity_sidecar.Jwt.Token.{second, b64}
use micro_identity_sidecar.Go.Base64.{encode, digit, sextet}
use micro_identity_sidecar.Session.File.{Disk}
use micro_identity_sidecar.Session.Any.{any_ops, find, IsValid, any-IsTable}
use micro_identity_sidecar.Oidc.Clients.{lookup, register, contains, redirect_allowed}
use micro_identity_sidecar.Oidc.Server.{Request, redirect, value, form_value}
use micro_identity_sidecar.Oidc.Authorize.{
  parameter, random_token, validate_auth_request, grant, authorize_process_login, handle_authorize,
}
use micro_identity_sidecar.Oidc.Users as Users
use micro_identity_sidecar.Pkce as Pkce
use micro_identity_sidecar.Oidc.History.{Call, sidecar_server, sweeps, rotates, run}
use micro_identity_sidecar.Oidc.History.Order.{InOrder}
use micro_identity_sidecar.Main.{
  Process, assemble, start, demo_clients, demo_spa, demo_confidential_app, demo_spa_redirect_uris,
}
use micro_identity_sidecar.Main.Running.{IsReadable, started-InOrder, started_redirects}
use micro_identity_sidecar.Main.Defaults.{
  no_interval-no_start, defaults_serve, default_process, unset,
}
use micro_identity_sidecar.Examples.Toy.{toy, bytes_of}
use micro_identity_sidecar.Examples.Rotation.{events}

-- Whole fractions, as the floating point numbers compute them where they are exact.
abbrev fraction : ℕ → ℕ → ℕ → ℕ
fraction f unit scale = 0

-- A sweep every 90 minutes, and none.
abbrev slow : Bytes → Bytes
slow key = if key == codes "SIDECAR_SWEEP_EVERY" then whole_text false 90 (codes "m") else []

abbrev never : Bytes → Bytes
never key = if key == codes "SIDECAR_SWEEP_EVERY" then whole_text false 0 (codes "s") else []

get_duration-whole_example :
    get_duration fraction slow (codes "SIDECAR_SWEEP_EVERY") (seconds 60)
    ≡ (if ltb (2 ^ 63 - 1) (90 * 60000000000) then seconds 60 else pos (90 * 60000000000))
unfolding ◌==◌ Map.get
get_duration-whole_example =
    get_duration-whole fraction slow (codes "SIDECAR_SWEEP_EVERY") (seconds 60) false 90 (codes "m")
      60000000000 refl refl

abbrev disk : Disk
disk = record { file = none; tmp = none; faults = [] }

readable : IsReadable disk
readable rows e = cc

abbrev process : Process
process = default_process toy fraction (6 * second) (7 ∷ [])

started : start toy fraction unset (6 * second) (some (7 ∷ [])) false disk ≡ ok process
started = defaults_serve toy fraction (6 * second) (7 ∷ []) false disk

no_interval-no_start_example :
    start toy fraction never (6 * second) (some (7 ∷ [])) false disk ≢ ok process
unfolding ◌==◌ Map.get
no_interval-no_start_example =
    no_interval-no_start toy fraction never (6 * second) (some (7 ∷ [])) false disk process
      (codes "SIDECAR_SWEEP_EVERY") false 0 (codes "s") 1000000000 readable (inr refl) refl refl
      (omega arith) (inr refl)

abbrev day : List Call
day = rotates events ∷ sweeps (30 * second) ∷ []

started-InOrder_example :
    InOrder toy any_ops find IsValid any-IsTable
      (run toy any_ops process.server day process.state).world
started-InOrder_example =
    started-InOrder toy fraction unset (6 * second) (some (7 ∷ [])) false disk process day readable
      started

abbrev callback : Bytes
callback = codes "http://localhost:9091/demo/callback"

-- A guest signs in to the demo.
abbrev login_request : Request
login_request = record {
  method = codes "POST";
  post_form =
      (codes "client_id", codes "demo-spa")
      ∷ (codes "redirect_uri", callback)
      ∷ (codes "response_type", codes "code")
      ∷ (codes "scope", codes "openid")
      ∷ (codes "code_challenge", codes "c")
      ∷ (codes "code_challenge_method", codes "S256")
      ∷ (codes "username", codes "guest")
      ∷ (codes "password", codes "guest")
      ∷ [];
  query = [];
  parses = true;
  basic_auth = none;
  authorization = [];
}

logged_in :
    (handle_authorize process.server (9 * second) (some (4 ∷ 5 ∷ [])) login_request process.state).1
    ≡ redirect callback (b64 (4 ∷ 5 ∷ [])) []
unfolding handle_authorize authorize_process_login validate_auth_request parameter form_value value
    Map.get Map.put Map.delete lookup redirect_allowed contains random_token grant sidecar_server
    Users.authenticate Users.by_username bytes_of Pkce.verify_method b64 encode sextet digit ◌==◌
    assemble demo_clients register demo_spa demo_confidential_app demo_spa_redirect_uris
logged_in = refl

started_redirects_example :
    (callback ≡ codes "http://127.0.0.1:9091/demo/callback")
    ⊎ (callback ≡ codes "http://localhost:9091/demo/callback")
    ⊎ (((load fraction unset).issuer ≢ [])
        × (callback ≡ (load fraction unset).issuer ++ codes "/demo/callback"))
started_redirects_example =
    started_redirects toy fraction unset (6 * second) (some (7 ∷ [])) false disk process
      (9 * second) (some (4 ∷ 5 ∷ [])) login_request process.state callback (b64 (4 ∷ 5 ∷ [])) []
      readable started logged_in
