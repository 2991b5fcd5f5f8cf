-- ===== src/Go/Duration/Whole.antt =====
-- Package time: what ParseDuration gives for a whole number of one unit.
use micro_identity_sidecar.Prelude.{
  ap, ◌∙◌, ℕ, suc, ◌+◌, ◌-◌, ◌*◌, ◌/◌, ◌%◌, ◌^◌, ◌≤◌, ◌≡◌, refl, sym, subst, Bool, true, false,
  none, some, [], ◌∷◌, ◌++◌, Bytes, eqb, ltb, length, All, arith, if◌then◌else◌, Bool-cases, inl,
  inr, length-append,
}
use micro_identity_sidecar.Prelude.Map.{get, All-get}
use micro_identity_sidecar.Go.Decimal.{decimal, IsDigit, value_from, value-decimal, decimal-IsDigit}
use micro_identity_sidecar.Go.Duration.{
  pos, negate, is_digit, begins_number, leading_int, fraction_of, span_unit, unit_map, signed,
  scaled, measured, component, components, parse_duration, unsigned,
}
use micro_identity_sidecar.Go.Duration.Bounds.{leading_int-fits, leading_int-over}

decimal_is-cons :
    (n : ℕ) (s : Bytes) → decimal n ≡ s → (d : ℕ) × (ds : Bytes) × (decimal n ≡ d ∷ ds)
unfolding decimal
decimal_is-cons n [] e =
    let is_zero : n ≡ 0 = sym (value-decimal n) ∙ ap (value_from 0) e in
    absurd (ground (arith, is_zero))
decimal_is-cons n (d ∷ ds) e = (d, ds, e)

pub decimal-cons : (n : ℕ) → (d : ℕ) × (ds : Bytes) × (decimal n ≡ d ∷ ds)
decimal-cons n = decimal_is-cons n (decimal n) refl

-- What an entry of unitMap has: its name is no number, and products with it are bounded as the
-- quotients are.
record IsUnit (entry : Bytes × ℕ) : Type 0 where
  first : ℕ
  others : Bytes
  name : entry.0 ≡ first ∷ others
  no_digit : is_digit first ≡ false
  no_point : eqb first b'.' ≡ false
  spans : span_unit entry.0 ≡ (entry.0, [])
  bounds : (v : ℕ) → ltb (2 ^ 63 / entry.1) v ≡ ltb (2 ^ 63) (v * entry.1)
  grows : (v : ℕ) → v ≤ v * entry.1

IsUnit-of :
    (c : ℕ) (s : Bytes) (unit : ℕ)
    → is_digit c ≡ false
    → eqb c b'.' ≡ false
    → span_unit (c ∷ s) ≡ (c ∷ s, [])
    → ((v : ℕ) → ltb (2 ^ 63 / unit) v ≡ ltb (2 ^ 63) (v * unit))
    → ((v : ℕ) → v ≤ v * unit)
    → IsUnit (c ∷ s, unit)
IsUnit-of c s unit no_digit no_point spans bounds grows = record {
  first = c;
  others = s;
  name = refl;
  no_digit = no_digit;
  no_point = no_point;
  spans = spans;
  bounds = bounds;
  grows = grows;
}

unit_map-IsUnit : All IsUnit unit_map
unfolding span_unit
unit_map-IsUnit = (
  IsUnit-of _ _ _ refl refl refl (λ v. ground arith) (λ v. omega arith),
  (
    IsUnit-of _ _ _ refl refl refl (λ v. ground arith) (λ v. omega arith),
    (
      IsUnit-of _ _ _ refl refl refl (λ v. ground arith) (λ v. omega arith),
      (
        IsUnit-of _ _ _ refl refl refl (λ v. ground arith) (λ v. omega arith),
        (
          IsUnit-of _ _ _ refl refl refl (λ v. ground arith) (λ v. omega arith),
          (
            IsUnit-of _ _ _ refl refl refl (λ v. ground arith) (λ v. omega arith),
            (
              IsUnit-of _ _ _ refl refl refl (λ v. ground arith) (λ v. omega arith),
              (IsUnit-of _ _ _ refl refl refl (λ v. ground arith) (λ v. omega arith), tt),
            ),
          ),
        ),
      ),
    ),
  ),
)

fraction_of_unit : (u : Bytes) (unit : ℕ) → IsUnit (u, unit) → fraction_of u ≡ (0, 1, false, u)
unfolding fraction_of
fraction_of_unit u unit h = rw h.name (ground (arith, h.no_point))

module _ (fraction : ℕ → ℕ → ℕ → ℕ) where
  scaled_whole :
      (v : ℕ) (u : Bytes) (unit : ℕ)
      → IsUnit (u, unit)
      → scaled fraction v 0 1 unit ≡ (if ltb (2 ^ 63) (v * unit) then none else some (v * unit))
  unfolding scaled
  scaled_whole v u unit h = rw (h.bounds v) (ground arith)

  measured_whole :
      (v : ℕ) (u : Bytes) (unit : ℕ)
      → get u unit_map ≡ some unit
      → IsUnit (u, unit)
      → measured fraction v 0 1 false u
        ≡ (if ltb (2 ^ 63) (v * unit) then none else some (v * unit, []))
  unfolding measured
  measured_whole v u unit known h = rw (h.spans, known) (ground (arith, scaled_whole v u unit h))

  -- One round on digits that a unit follows.
  component_whole :
      (d : ℕ) (ds u : Bytes) (unit : ℕ)
      → All IsDigit (d ∷ ds)
      → get u unit_map ≡ some unit
      → IsUnit (u, unit)
      → component fraction (d ∷ ds ++ u) ≡ (
          if ltb (2 ^ 63) (value_from 0 (d ∷ ds) * unit)
          then none
          else some (value_from 0 (d ∷ ds) * unit, []))
  unfolding component
  component_whole d ds u unit digits known h =
      let v : ℕ = value_from 0 (d ∷ ds) in
      let starts : begins_number (d ∷ ds ++ u) ≡ true = ground arith in
      elim (Bool-cases (ltb (2 ^ 63) v)) [
        | inl big ↦
            let over : leading_int 0 (d ∷ ds ++ u) ≡ none =
              leading_int-over 0 (d ∷ ds) u digits (omega arith) (ground arith) in
            let over_too : ltb (2 ^ 63) (v * unit) ≡ true = ground (arith, h.grows v) in
            rw (starts, over, over_too)
        | inr small ↦
            let read : leading_int 0 (d ∷ ds ++ u) ≡ some (v, u) =
              rw h.name
                (leading_int-fits 0 (d ∷ ds) h.first h.others digits h.no_digit (ground arith)) in
            let taken : eqb (suc (length (ds ++ u))) (length u) ≡ false =
              ground (arith, length-append ds u) in
            rw (starts, read, fraction_of_unit u unit h, taken) (measured_whole v u unit known h)
      ]

  -- The loop ends behind the unit.
  components_whole :
      (d : ℕ) (ds u : Bytes) (unit : ℕ)
      → All IsDigit (d ∷ ds)
      → get u unit_map ≡ some unit
      → IsUnit (u, unit)
      → components fraction (length (d ∷ ds ++ u)) 0 (d ∷ ds ++ u) ≡ (
          if ltb (2 ^ 63) (value_from 0 (d ∷ ds) * unit)
          then none
          else some (value_from 0 (d ∷ ds) * unit))
  unfolding components
  components_whole d ds u unit digits known h =
      let whole : ℕ = value_from 0 (d ∷ ds) * unit in
      let first : component fraction (d ∷ ds ++ u)
          ≡ (if ltb (2 ^ 63) whole then none else some (whole, [])) =
        component_whole d ds u unit digits known h in
      elim (Bool-cases (ltb (2 ^ 63) whole)) [
        | inl over ↦ rw (first, over, components)
        | inr fits ↦
            let kept : (0 + whole) % 2 ^ 64 ≡ whole = ground arith in
            let fits_too : ltb (2 ^ 63) ((0 + whole) % 2 ^ 64) ≡ false = ground arith in
            rw (first, fits, components) (rw fits_too (ap some kept))
      ]

  unsigned_whole :
      (neg : Bool) (d : ℕ) (ds u : Bytes) (unit : ℕ)
      → All IsDigit (d ∷ ds)
      → get u unit_map ≡ some unit
      → IsUnit (u, unit)
      → unsigned fraction neg (d ∷ ds ++ u) ≡ (
          if ltb (2 ^ 63) (value_from 0 (d ∷ ds) * unit)
          then none
          else signed neg (value_from 0 (d ∷ ds) * unit))
  unsigned_whole neg d ds u unit digits known h =
      let more : eqb (length (ds ++ u)) 0 ≡ false = ground (arith, length-append ds u, h.name) in
      let loop : components fraction (suc (length (ds ++ u))) 0 (d ∷ ds ++ u) ≡ (
          if ltb (2 ^ 63) (value_from 0 (d ∷ ds) * unit)
          then none
          else some (value_from 0 (d ∷ ds) * unit)) =
        components_whole d ds u unit digits known h in
      ground (arith, more, loop)

  -- An unsigned number in decimal, with its unit.
  unsigned-decimal :
      (neg : Bool) (n : ℕ) (u : Bytes) (unit : ℕ)
      → get u unit_map ≡ some unit
      → unsigned fraction neg (decimal n ++ u)
        ≡ (if ltb (2 ^ 63) (n * unit) then none else signed neg (n * unit))
  unsigned-decimal neg n u unit known =
      let h : IsUnit (u, unit) = All-get IsUnit unit_map u unit unit_map-IsUnit known in
      let (d, ds, e) = decimal-cons n in
      let same : value_from 0 (d ∷ ds) ≡ n = subst (λ s. value_from 0 s ≡ n) e (value-decimal n) in
      rw e (
        subst
          (λ v.
            unsigned fraction neg (d ∷ ds ++ u)
            ≡ (if ltb (2 ^ 63) (v * unit) then none else signed neg (v * unit)))
          same (unsigned_whole neg d ds u unit (subst (All IsDigit) e (decimal-IsDigit n)) known h))

  -- Whatever a whole number stands for in a unit of ParseDuration, the parse of the number, in
  -- decimal, and the unit gives it exactly, after a minus sign its negation; and if an int64 cannot
  -- hold it, the parse fails.
  pub parse-whole :
      (neg : Bool) (n : ℕ) (u : Bytes) (unit : ℕ)
      → get u unit_map ≡ some unit
      → parse_duration fraction (if neg then b'-' ∷ decimal n ++ u else decimal n ++ u) ≡ (
          if ltb (if neg then 2 ^ 63 else 2 ^ 63 - 1) (n * unit)
          then none
          else some (if neg then negate (n * unit) else pos (n * unit)))
  unfolding parse_duration signed
  parse-whole true n u unit known = unsigned-decimal true n u unit known
  parse-whole false n u unit known =
      let (d, ds, e) = decimal-cons n in
      let digits : All IsDigit (d ∷ ds) = subst (All IsDigit) e (decimal-IsDigit n) in
      let parsed : unsigned fraction false (d ∷ ds ++ u)
          ≡ (if ltb (2 ^ 63) (n * unit) then none else signed false (n * unit)) =
        subst
          (λ s.
            unsigned fraction false (s ++ u)
            ≡ (if ltb (2 ^ 63) (n * unit) then none else signed false (n * unit)))
          e (unsigned-decimal false n u unit known) in
      let no_minus : eqb d b'-' ≡ false = ground (arith, digits) in
      let no_plus : eqb d b'+' ≡ false = ground (arith, digits) in
      rw (e, no_minus, no_plus) (ground (arith, parsed))
