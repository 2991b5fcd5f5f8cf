-- ===== src/Main.antt =====
-- cmd/sidecar/main.go: what main makes of a configuration, before the server listens.
pub mod Running
pub mod Defaults
use micro_identity_sidecar.Prelude.{
  ℕ, zero, suc, Bool, true, false, Option, none, some, List, [], ◌∷◌, ◌++◌, Bytes, ◌==◌, codes,
  String, Result, ok, err, ◌>>=◌, or_fail, if◌then◌else◌,
}
use micro_identity_sidecar.Go.Duration.{ℤ, pos, negsuc}
use micro_identity_sidecar.Platform.{Platform}
use micro_identity_sidecar.Config.{Config, load}
use micro_identity_sidecar.Jwt.Token.{rs256, eddsa}
use micro_identity_sidecar.Keys as Keys
use micro_identity_sidecar.Keys.{Random, Manager, new_manager}
use micro_identity_sidecar.Session as Session
use micro_identity_sidecar.Session.Memory.{new_memory_backend}
use micro_identity_sidecar.Session.File.{Disk, new_file_backend}
use micro_identity_sidecar.Session.Any.{AnyBackend, in_memory, in_file, any_ops}
use micro_identity_sidecar.Session.Bridge.{mode_stateless, mode_stateful}
use micro_identity_sidecar.Oidc.Clients.{Client, ClientRegistry, register}
use micro_identity_sidecar.Oidc.Users.{demo_user_store}
use micro_identity_sidecar.Oidc.Server as Oidc
use micro_identity_sidecar.Oidc.Server.{Server, State}
use micro_identity_sidecar.Oidc.History.{sidecar_server}

-- The switch on cfg.KeyAlgorithm.
unfoldable pub algorithm : Config → Bytes
algorithm cfg = if cfg.key_algorithm == rs256 then rs256 else eddsa

-- How main ends before the server listens: log.Fatalf on an error of the keys or of the session
-- file, or time.NewTicker's panic on an interval that is not positive, in the goroutine that rotates
-- the keys or in the one that sweeps the table. `unclocked` is no behaviour of main: it stands for a
-- configuration with a negative period, with which the process runs too, but whose times the natural
-- numbers of this model cannot tell.
pub data Failure : Type 0 where
  no_keys : Keys.Error → Failure
  no_file : Session.Error → Failure
  rotation_panics sweeper_panics unclocked : Failure

-- The periods of a configuration, where none is negative.
pub record Periods : Type 0 where
  pub grace : ℕ
  pub stateless : ℕ
  pub stateful : ℕ
  pub code : ℕ
  pub refresh : ℕ

abbrev pub natural : ℤ → Option ℕ
natural (pos n) = some n
natural (negsuc n) = none

abbrev pub natural_or_fail : ℤ → Result Failure ℕ
natural_or_fail d = or_fail (natural d) unclocked

unfoldable pub periods : Config → Result Failure Periods
periods cfg = do
  grace ← natural_or_fail cfg.key_grace_period
  stateless ← natural_or_fail cfg.stateless_session_ttl
  stateful ← natural_or_fail cfg.stateful_session_ttl
  code ← natural_or_fail cfg.auth_code_ttl
  refresh ← natural_or_fail cfg.refresh_token_ttl
  ok (record {
    grace = grace;
    stateless = stateless;
    stateful = stateful;
    code = code;
    refresh = refresh;
  })

-- An interval as NewManager stores it; one below zero is as good as 0 until the ticker refuses it.
abbrev pub magnitude : ℤ → ℕ
magnitude (pos n) = n
magnitude (negsuc n) = 0

-- time.NewTicker accepts an interval above zero.
abbrev pub interval : ℤ → Failure → Result Failure ℕ
interval (pos zero) e = err e
interval (pos (suc n)) e = ok (suc n)
interval (negsuc n) e = err e

abbrev pub keys_or_fail : Result Keys.Error Manager → Result Failure Manager
keys_or_fail (ok m) = ok m
keys_or_fail (err e) = err (no_keys e)

-- The switch on cfg.SessionBackend; `unreadable` and the disk are the file system's.
unfoldable pub open_backend : Config → Bool → Disk → Result Failure AnyBackend
open_backend cfg unreadable disk =
    if cfg.session_backend == codes "file"
    then elim (new_file_backend unreadable disk) [ ok b ↦ ok (in_file b) | err e ↦ err (no_file e) ]
    else ok (in_memory new_memory_backend)

-- demoSPARedirectURIs
unfoldable pub demo_spa_redirect_uris : Config → List Bytes
demo_spa_redirect_uris cfg =
    codes "http://127.0.0.1:9091/demo/callback"
    ∷ codes "http://localhost:9091/demo/callback"
    ∷ (if cfg.issuer == [] then [] else (cfg.issuer ++ codes "/demo/callback") ∷ [])

unfoldable pub demo_spa : Config → Client
demo_spa cfg = record {
  id = codes "demo-spa";
  secret = [];
  public = true;
  redirect_uris = demo_spa_redirect_uris cfg;
  session_mode = mode_stateless;
}

unfoldable pub demo_confidential_app : Client
demo_confidential_app = record {
  id = codes "demo-confidential-app";
  secret = codes "demo-client-secret-change-me";
  public = false;
  redirect_uris = codes "http://127.0.0.1:9091/demo/callback" ∷ [];
  session_mode = mode_stateful;
}

unfoldable pub demo_clients : Config → ClientRegistry
demo_clients cfg = register demo_confidential_app (register (demo_spa cfg) [])

-- The oidc.Config that main passes on.
unfoldable pub oidc_config : Config → Periods → Oidc.Config
oidc_config cfg t = record {
  issuer = cfg.issuer;
  auth_code_ttl = t.code;
  refresh_token_ttl = t.refresh;
  default_session_mode = mode_stateless;
  stateless_ttl = t.stateless;
  stateful_ttl = t.stateful;
}

-- What runs: the address, the server with its state, and the two tickers.
pub record Process : Type 0 where
  pub listen_addr : Bytes
  pub server : Server AnyBackend
  pub state : State AnyBackend
  pub sweep_every : ℕ

module _ (p : Platform) (fraction : ℕ → ℕ → ℕ → ℕ) where
  -- What main has put together when it serves.
  unfoldable pub assemble : Config → Periods → Manager → AnyBackend → ℕ → Process
  assemble cfg t keys table sweep_every = record {
    listen_addr = cfg.listen_addr;
    server = sidecar_server p any_ops (oidc_config cfg t) (demo_clients cfg) (demo_user_store p);
    state = record { codes = []; world = record { keys = keys; table = table } };
    sweep_every = sweep_every;
  }

  -- main, at `now`, with what rand.Reader gives.
  unfoldable pub start_with : Config → ℕ → Random → Bool → Disk → Result Failure Process
  start_with cfg now random unreadable disk = do
    t ← periods cfg
    keys ←
        keys_or_fail
          (new_manager p now random (algorithm cfg) (magnitude cfg.key_rotate_every) t.grace)
    _ ← interval cfg.key_rotate_every rotation_panics
    table ← open_backend cfg unreadable disk
    sweep_every ← interval cfg.stateful_sweep_every sweeper_panics
    ok (assemble cfg t keys table sweep_every)

  unfoldable pub start : (Bytes → Bytes) → ℕ → Random → Bool → Disk → Result Failure Process
  start env = start_with (load fraction env)
