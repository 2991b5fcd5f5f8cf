-- ===== src/Go/Duration/Fuel.antt =====
-- Package time: the loop of ParseDuration takes a part of the text in each round.
use micro_identity_sidecar.Prelude.{
  ℕ, zero, suc, ◌+◌, ◌-◌, ◌*◌, ◌/◌, ◌%◌, ◌^◌, ◌≤◌, ◌<◌, ◌≡◌, refl, subst, Bool, true, false, ◌&&◌,
  ◌||◌, not, some, [], ◌∷◌, Bytes, ◌==◌, eqb, ltb, length, arith, if◌then◌else◌, Bool-cases,
  Option-cases, inl, inr,
}
use micro_identity_sidecar.Prelude.Map.{get}
use micro_identity_sidecar.Go.Duration.{
  is_digit, begins_number, leading_int, leading_fraction, fraction_of, span_unit, unit_map, scaled,
  measured, component, components,
}

leading_int_shortens :
    (x : ℕ) (s : Bytes) (v : ℕ) (rest : Bytes)
    → leading_int x s ≡ some (v, rest)
    → length rest ≤ length s
unfolding leading_int
leading_int_shortens x [] v rest h = let e : [] ≡ rest = ground arith in ground (arith, e)
leading_int_shortens x (c ∷ s) v rest h = elim (Bool-cases (is_digit c)) [
  | inl digit ↦
      let y : ℕ = x * 10 + (c - b'0') in
      let later : leading_int y s ≡ some (v, rest) = ground (arith, digit) in
      omega (arith, leading_int_shortens y s v rest later)
  | inr stop ↦ let e : c ∷ s ≡ rest = ground (arith, stop) in ground (arith, e)
]

leading_fraction_shortens :
    (x scale : ℕ) (over : Bool) (s : Bytes) → length (leading_fraction x scale over s).2 ≤ length s
unfolding leading_fraction
leading_fraction_shortens x scale over [] = omega arith
leading_fraction_shortens x scale over (c ∷ s) =
    let y : ℕ = x * 10 + (c - b'0') in
    let o : Bool = over || ltb ((2 ^ 63 - 1) / 10) x || ltb (2 ^ 63) y in
    let later =
      leading_fraction_shortens (if o then x else y) (if o then scale else scale * 10) o s in
    elim (Bool-cases (is_digit c)) [
      | inl digit ↦ rw digit (omega (arith, later))
      | inr stop ↦ rw stop (omega arith)
    ]

fraction_of_shortens : (s : Bytes) → length (fraction_of s).3 ≤ length s
unfolding fraction_of
fraction_of_shortens [] = omega arith
fraction_of_shortens (c ∷ s) = elim (Bool-cases (eqb c b'.')) [
  | inl point ↦ rw point (omega (arith, leading_fraction_shortens 0 1 false s))
  | inr other ↦ rw other (omega arith)
]

span_unit_parts : (s : Bytes) → length (span_unit s).0 + length (span_unit s).1 ≡ length s
unfolding span_unit
span_unit_parts [] = omega arith
span_unit_parts (c ∷ s) = elim (Bool-cases (eqb c b'.' || is_digit c)) [
  | inl stop ↦ rw stop (omega arith)
  | inr goes_on ↦ rw goes_on (omega (arith, span_unit_parts s))
]

-- No unit is empty.
unit_named : (u : Bytes) (unit : ℕ) → get u unit_map ≡ some unit → 0 < length u
unfolding get ◌==◌
unit_named [] unit known = cc
unit_named (c ∷ u) unit known = omega arith

module _ (fraction : ℕ → ℕ → ℕ → ℕ) where
  measured_shortens :
      (v f scale : ℕ) (missing : Bool) (s : Bytes) (w : ℕ) (rest : Bytes)
      → measured fraction v f scale missing s ≡ some (w, rest)
      → length rest < length s
  unfolding measured
  measured_shortens v f scale true s w rest h = cc
  measured_shortens v f scale false s w rest h =
      elim (Option-cases (get (span_unit s).0 unit_map)) [
        | inl unknown ↦ absurd (ground (arith, unknown, h))
        | inr (unit, known) ↦ elim (Option-cases (scaled fraction v f scale unit)) [
          | inl over ↦ absurd (ground (arith, known, over, h))
          | inr (total, fits) ↦
              let same : (span_unit s).1 ≡ rest = ground (arith, known, fits, h) in
              let named : 0 < length (span_unit s).0 = unit_named (span_unit s).0 unit known in
              subst (λ t. length t < length s) same (omega (arith, named, span_unit_parts s))
        ]
      ]

  component_shortens :
      (s : Bytes) (w : ℕ) (rest : Bytes)
      → component fraction s ≡ some (w, rest)
      → length rest < length s
  unfolding component
  component_shortens s w rest h = elim (Bool-cases (begins_number s)) [
    | inr other ↦ absurd (ground (arith, other, h))
    | inl number ↦ elim (Option-cases (leading_int 0 s)) [
      | inl over ↦ absurd (ground (arith, number, over, h))
      | inr ((v, s1), read) ↦
          let q = fraction_of s1 in
          let m : measured fraction v q.0 q.1 (eqb (length s) (length s1) && not q.2) q.3
              ≡ some (w, rest) =
            rw (number, read, component) at h in
          omega (
            arith,
            measured_shortens v q.0 q.1 (eqb (length s) (length s1) && not q.2) q.3 w rest m,
            fraction_of_shortens s1,
            leading_int_shortens 0 s v s1 read,
          )
    ]
  ]

  any_fuel :
      (fuel more d : ℕ) (s : Bytes)
      → length s ≤ fuel
      → length s ≤ more
      → components fraction fuel d s ≡ components fraction more d s
  unfolding components
  any_fuel fuel more d [] h k = refl
  any_fuel zero more d (c ∷ s) h k = absurd (omega (arith, h))
  any_fuel (suc fuel) zero d (c ∷ s) h k = absurd (omega (arith, k))
  any_fuel (suc fuel) (suc more) d (c ∷ s) h k = elim (Option-cases (component fraction (c ∷ s))) [
    | inl failed ↦ rw (failed, components) refl
    | inr ((v, rest), read) ↦
        let shorter = component_shortens (c ∷ s) v rest read in
        let sum : ℕ = (d + v) % 2 ^ 64 in
        let same : components fraction fuel sum rest ≡ components fraction more sum rest =
          any_fuel fuel more sum rest (omega (arith, shorter, h)) (omega (arith, shorter, k)) in
        rw (read, components)
          (elim (Bool-cases (ltb (2 ^ 63) sum)) [
            | inl over ↦ rw over refl
            | inr fits ↦ rw fits same
          ])
  ]

  -- Fuel of the length of the text is enough: with more, the loop gives the same.
  components-fuel :
      (fuel d : ℕ) (s : Bytes)
      → length s ≤ fuel
      → components fraction fuel d s ≡ components fraction (length s) d s
  components-fuel fuel d s h = any_fuel fuel (length s) d s h (omega arith)
