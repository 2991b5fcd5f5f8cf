-- ===== src/Main/Defaults.antt =====
-- cmd/sidecar/main.go: the configurations with which main serves, and some with which it does not.
use micro_identity_sidecar.Prelude.{
  ℕ, zero, suc, ◌*◌, ◌^◌, ◌≤◌, ◌≡◌, ◌≢◌, ◌⊎◌, refl, subst, Bool, true, false, some, [], Bytes, ◌==◌,
  codes, ok, arith, if◌then◌else◌, inl, inr,
}
use micro_identity_sidecar.Prelude.Map.{get}
use micro_identity_sidecar.Go.Duration.{ℤ, pos, negate, unit_map}
use micro_identity_sidecar.Platform.{Platform}
use micro_identity_sidecar.Config.{Config, load, get_env, get_duration, seconds}
use micro_identity_sidecar.Config.Ranges.{whole_text, get_duration-whole}
use micro_identity_sidecar.Jwt.Token.{eddsa}
use micro_identity_sidecar.Keys.{Random, Manager, blank, new_manager, generate}
use micro_identity_sidecar.Session.Memory.{new_memory_backend}
use micro_identity_sidecar.Session.File.{Disk}
use micro_identity_sidecar.Session.Any.{in_memory}
use micro_identity_sidecar.Main.{
  Failure, Process, Periods, interval, rotation_panics, sweeper_panics, start, start_with, assemble,
  algorithm, periods, open_backend,
}
use micro_identity_sidecar.Main.Running.{IsReadable, start-IsStarted}

interval_refuses-negate : (m : ℕ) (e : Failure) (every : ℕ) → interval (negate m) e ≢ ok every
interval_refuses-negate zero e every h = ground arith
interval_refuses-negate (suc m) e every h = ground arith

-- Zero, or the negation of anything, is no interval.
interval_refuses :
    (neg : Bool) (n unit : ℕ) (d : ℤ) (e : Failure) (every : ℕ)
    → (neg ≡ true) ⊎ (n ≡ 0)
    → d ≡ (if neg then negate (n * unit) else pos (n * unit))
    → interval d e ≢ ok every
interval_refuses true n unit d e every low same h =
    interval_refuses-negate (n * unit) e every (subst (λ x. interval x e ≡ ok every) same h)
interval_refuses false n unit d e every (inl negative) same h = ground arith
interval_refuses false n unit d e every (inr is_zero) same h =
    let product : n * unit ≡ 0 = ground (arith, is_zero) in ground (arith, same, product)

-- A number that is not positive, or else small enough, is what the variable sets.
whole_set :
    (fraction : ℕ → ℕ → ℕ → ℕ) (env : Bytes → Bytes) (key : Bytes) (default : ℤ) (neg : Bool)
    (n : ℕ) (u : Bytes) (unit : ℕ)
    → get u unit_map ≡ some unit
    → env key ≡ whole_text neg n u
    → n * unit ≤ 2 ^ 63
    → (neg ≡ true) ⊎ (n ≡ 0)
    → get_duration fraction env key default ≡ (if neg then negate (n * unit) else pos (n * unit))
whole_set fraction env key default true n u unit known set fits low =
    ground (arith, get_duration-whole fraction env key default true n u unit known set)
whole_set fraction env key default false n u unit known set fits (inl negative) = ground arith
whole_set fraction env key default false n u unit known set fits (inr is_zero) =
    let none_at_all : n * unit ≡ 0 = ground (arith, is_zero) in
    ground
      (arith, get_duration-whole fraction env key default false n u unit known set, none_at_all)

-- The environment with no variable set.
abbrev pub unset : Bytes → Bytes
unset key = []

-- The configuration of an environment with no variable set.
abbrev pub default_config : Config
default_config = record {
  listen_addr = codes "127.0.0.1:9091";
  issuer = codes "http://127.0.0.1:9091";
  key_algorithm = codes "EdDSA";
  key_rotate_every = seconds 86400;
  key_grace_period = seconds 172800;
  stateless_session_ttl = seconds 300;
  stateful_session_ttl = seconds 43200;
  stateful_sweep_every = seconds 60;
  session_backend = codes "memory";
  session_file_path = codes "sessions.db";
  auth_code_ttl = seconds 60;
  refresh_token_ttl = seconds 2592000;
}

load-default : (fraction : ℕ → ℕ → ℕ → ℕ) → load fraction unset ≡ default_config
unfolding load get_env get_duration ◌==◌
load-default fraction = refl

module _ (p : Platform) (fraction : ℕ → ℕ → ℕ → ℕ) where
  -- main never serves with a rotation or a sweep interval that is zero or negative, of whole units in
  -- an int64: the ticker panics, if nothing else has stopped the process before.
  pub no_interval-no_start :
      (env : Bytes → Bytes) (now : ℕ) (random : Random) (unreadable : Bool) (d : Disk)
      (proc : Process) (key : Bytes) (neg : Bool) (n : ℕ) (u : Bytes) (unit : ℕ)
      → IsReadable d
      → (key ≡ codes "SIDECAR_KEY_ROTATE_EVERY") ⊎ (key ≡ codes "SIDECAR_SWEEP_EVERY")
      → get u unit_map ≡ some unit
      → env key ≡ whole_text neg n u
      → n * unit ≤ 2 ^ 63
      → (neg ≡ true) ⊎ (n ≡ 0)
      → start p fraction env now random unreadable d ≢ ok proc
  unfolding load
  no_interval-no_start env now random unreadable d proc key neg n u unit h which known set fits low
        started =
      let it = start-IsStarted p fraction env now random unreadable d proc h started in
      elim which [
        | inl rotation ↦
            interval_refuses neg n unit _ rotation_panics it.rotate_every low
              (whole_set fraction env (codes "SIDECAR_KEY_ROTATE_EVERY") (seconds 86400) neg n u
                unit known (subst (λ k. env k ≡ whole_text neg n u) rotation set) fits low)
              it.rotates
        | inr sweeping ↦
            interval_refuses neg n unit _ sweeper_panics it.sweep_every low
              (whole_set fraction env (codes "SIDECAR_SWEEP_EVERY") (seconds 60) neg n u unit known
                (subst (λ k. env k ≡ whole_text neg n u) sweeping set) fits low)
              it.sweeps
      ]

  abbrev pub default_periods : Periods
  default_periods = record {
    grace = 172800000000000;
    stateless = 300000000000;
    stateful = 43200000000000;
    code = 60000000000;
    refresh = 2592000000000000;
  }

  -- The manager of one Ed25519 key that NewManager makes of `r`.
  abbrev pub default_keys : ℕ → Bytes → Manager
  default_keys now r = record {
    alg = eddsa;
    rotate_every = 86400000000000;
    grace_period = 172800000000000;
    active = record (blank eddsa now 1) { ed_priv = some (p.ed_generate r) };
    retired = [];
    seq = 1;
  }

  abbrev pub default_process : ℕ → Bytes → Process
  default_process now r =
      assemble p fraction default_config default_periods (default_keys now r)
        (in_memory new_memory_backend) 60000000000

  -- With no variable set, and a random source that answers, main serves: on loopback, with an EdDSA
  -- key and an empty table in memory, whatever the disk holds.
  pub defaults_serve :
      (now : ℕ) (r : Bytes) (unreadable : Bool) (d : Disk)
      → start p fraction unset now (some r) unreadable d ≡ ok (default_process now r)
  unfolding start start_with periods algorithm new_manager generate open_backend ◌==◌
  defaults_serve now r unreadable d = rw (load-default fraction) refl
