-- ===== src/Go/Decimal.antt =====
-- The verb %d of package fmt, for a number that is not negative.
use micro_identity_sidecar.Prelude.{
  ℕ, zero, suc, ◌+◌, ◌-◌, ◌*◌, ◌/◌, ◌%◌, ◌≤◌, ◌≡◌, sym, ap, ◌∙◌, [], ◌∷◌, arith, Bytes, All, eqb,
  if◌then◌else◌, Bool-cases, inl, inr,
}
use micro_identity_sidecar.Go.Strings.{Lacks}

unfoldable pub digits_before : ℕ → ℕ → Bytes → Bytes
digits_before zero n out = out
digits_before (suc fuel) n out =
    let rest = digits_before fuel (n / 10) ((b'0' + n % 10) ∷ out) in if eqb n 0 then out else rest

-- Each round divides by 10, so `n` rounds are enough.
unfoldable pub decimal : ℕ → Bytes
unfolding digits_before
decimal n = if eqb n 0 then b'0' ∷ [] else digits_before n n []

-- The number that digits stand for, after `acc`.
abbrev pub value_from : ℕ → Bytes → ℕ
value_from acc [] = acc
value_from acc (c ∷ s) = value_from (acc * 10 + (c - b'0')) s

value-digits_before :
    (fuel n : ℕ) (out : Bytes)
    → n ≤ fuel
    → value_from 0 (digits_before fuel n out) ≡ value_from n out
unfolding digits_before
value-digits_before zero n out h = let e : n ≡ 0 = omega arith in rw e
value-digits_before (suc fuel) n out h = elim (Bool-cases (eqb n 0)) [
  | inl done ↦ let e : n ≡ 0 = ground arith in rw e
  | inr more ↦
      let e : n / 10 * 10 + (b'0' + n % 10 - b'0') ≡ n = omega arith in
      rw more (rw e at (value-digits_before fuel (n / 10) ((b'0' + n % 10) ∷ out) (ground arith)))
]

pub value-decimal : (n : ℕ) → value_from 0 (decimal n) ≡ n
unfolding decimal
value-decimal n = elim (Bool-cases (eqb n 0)) [
  | inl is_zero ↦ rw is_zero (ground arith)
  | inr more ↦ rw more (value-digits_before n n [] (omega arith))
]

-- Different numbers are printed differently.
pub decimal_injective : (m n : ℕ) → decimal m ≡ decimal n → m ≡ n
decimal_injective m n h = sym (value-decimal m) ∙ ap (value_from 0) h ∙ value-decimal n

-- A byte that is a digit.
abbrev pub IsDigit : ℕ → Type 0
IsDigit c = (b'0' ≤ c) × (c ≤ b'9')

digits_before-IsDigit :
    (fuel n : ℕ) (out : Bytes) → All IsDigit out → All IsDigit (digits_before fuel n out)
unfolding digits_before
digits_before-IsDigit zero n out h = h
digits_before-IsDigit (suc fuel) n out h =
    ground (arith, digits_before-IsDigit fuel (n / 10) ((b'0' + n % 10) ∷ out))

pub decimal-IsDigit : (n : ℕ) → All IsDigit (decimal n)
unfolding decimal
decimal-IsDigit n = elim (Bool-cases (eqb n 0)) [
  | inl is_zero ↦ rw is_zero (omega arith)
  | inr more ↦ rw more (digits_before-IsDigit n n [] tt)
]

pub Lacks-of_digits : (sep : ℕ) (s : Bytes) → ¬ IsDigit sep → All IsDigit s → Lacks sep s
Lacks-of_digits sep [] no_digit h = tt
Lacks-of_digits sep (c ∷ s) no_digit h =
    ((λ e. no_digit (rw (← e) h.0)), Lacks-of_digits sep s no_digit h.1)
