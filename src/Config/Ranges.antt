-- ===== src/Config/Ranges.antt =====
-- config.go: the texts that set the durations of a configuration.
use micro_identity_sidecar.Prelude.{
  refl, ℕ, ◌*◌, ◌-◌, ◌^◌, ◌≡◌, Bool, true, false, some, [], ◌∷◌, ◌++◌, Bytes, ◌==◌, ltb, arith,
  if◌then◌else◌,
}
use micro_identity_sidecar.Prelude.Map.{get}
use micro_identity_sidecar.Go.Decimal.{decimal}
use micro_identity_sidecar.Go.Duration.{ℤ, pos, negate, unit_map}
use micro_identity_sidecar.Go.Duration.Whole.{parse-whole, decimal-cons}
use micro_identity_sidecar.Config.{get_duration}

-- The text that sets a duration of whole units.
abbrev pub whole_text : Bool → ℕ → Bytes → Bytes
whole_text neg n u = if neg then b'-' ∷ decimal n ++ u else decimal n ++ u

module _ (fraction : ℕ → ℕ → ℕ → ℕ) (env : Bytes → Bytes) where
  whole_text-set : (neg : Bool) (n : ℕ) (u : Bytes) → (whole_text neg n u == []) ≡ false
  unfolding ◌==◌
  whole_text-set true n u = refl
  whole_text-set false n u = let (d, ds, e) = decimal-cons n in rw e

  -- A variable that holds a whole number with a unit of package time sets the duration to that many
  -- nanoseconds exactly, negative after a minus sign, if an int64 can hold them; if not, the
  -- duration silently keeps its default.
  pub get_duration-whole :
      (key : Bytes) (default : ℤ) (neg : Bool) (n : ℕ) (u : Bytes) (unit : ℕ)
      → get u unit_map ≡ some unit
      → env key ≡ whole_text neg n u
      → get_duration fraction env key default ≡ (
          if ltb (if neg then 2 ^ 63 else 2 ^ 63 - 1) (n * unit)
          then default
          else if neg
          then negate (n * unit)
          else pos (n * unit))
  unfolding get_duration
  get_duration-whole key default neg n u unit known set =
      rw (set, whole_text-set neg n u, parse-whole fraction neg n u unit known) (ground arith)
