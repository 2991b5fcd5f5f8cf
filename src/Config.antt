-- ===== src/Config.antt =====
-- internal/config/config.go: the configuration, from environment variables.
pub mod Ranges
use micro_identity_sidecar.Prelude.{
  ℕ, ◌*◌, Bool, true, false, Option, none, some, [], ◌∷◌, ◌||◌, Bytes, ◌==◌, codes, if◌then◌else◌,
}
use micro_identity_sidecar.Go.Duration.{ℤ, pos, parse_duration}

pub record Config : Type 0 where
  pub listen_addr : Bytes
  pub issuer : Bytes
  pub key_algorithm : Bytes
  pub key_rotate_every : ℤ
  pub key_grace_period : ℤ
  pub stateless_session_ttl : ℤ
  pub stateful_session_ttl : ℤ
  pub stateful_sweep_every : ℤ
  pub session_backend : Bytes
  pub session_file_path : Bytes
  pub auth_code_ttl : ℤ
  pub refresh_token_ttl : ℤ

-- Multiples of a second, in nanoseconds.
abbrev pub seconds : ℕ → ℤ
seconds n = pos (n * 1000000000)

-- strconv.ParseBool
unfoldable pub parse_bool : Bytes → Option Bool
parse_bool s =
    if s == codes "1"
      || s == codes "t"
      || s == codes "T"
      || s == codes "true"
      || s == codes "TRUE"
      || s == codes "True"
    then some true
    else if s == codes "0"
        || s == codes "f"
        || s == codes "F"
        || s == codes "false"
        || s == codes "FALSE"
        || s == codes "False"
    then some false
    else none

-- `env` is os.Getenv, empty for a variable that is not set; `fraction` is the arithmetic on floating
-- point numbers in ParseDuration.
module _ (fraction : ℕ → ℕ → ℕ → ℕ) (env : Bytes → Bytes) where
  unfoldable pub get_env : Bytes → Bytes → Bytes
  get_env key default = if env key == [] then default else env key

  unfoldable pub get_duration : Bytes → ℤ → ℤ
  get_duration key default =
      if env key == []
      then default
      else elim (parse_duration fraction (env key)) [ none ↦ default | some d ↦ d ]

  unfoldable pub get_bool : Bytes → Bool → Bool
  get_bool key default =
      if env key == [] then default else elim (parse_bool (env key)) [ none ↦ default | some b ↦ b ]

  unfoldable pub load : Config
  load = record {
    listen_addr = get_env (codes "SIDECAR_LISTEN_ADDR") (codes "127.0.0.1:9091");
    issuer = get_env (codes "SIDECAR_ISSUER") (codes "http://127.0.0.1:9091");
    key_algorithm = get_env (codes "SIDECAR_KEY_ALG") (codes "EdDSA");
    key_rotate_every = get_duration (codes "SIDECAR_KEY_ROTATE_EVERY") (seconds 86400);
    key_grace_period = get_duration (codes "SIDECAR_KEY_GRACE_PERIOD") (seconds 172800);
    stateless_session_ttl = get_duration (codes "SIDECAR_STATELESS_TTL") (seconds 300);
    stateful_session_ttl = get_duration (codes "SIDECAR_STATEFUL_TTL") (seconds 43200);
    stateful_sweep_every = get_duration (codes "SIDECAR_SWEEP_EVERY") (seconds 60);
    session_backend = get_env (codes "SIDECAR_SESSION_BACKEND") (codes "memory");
    session_file_path = get_env (codes "SIDECAR_SESSION_FILE") (codes "sessions.db");
    auth_code_ttl = get_duration (codes "SIDECAR_AUTHCODE_TTL") (seconds 60);
    refresh_token_ttl = get_duration (codes "SIDECAR_REFRESH_TTL") (seconds 2592000);
  }
