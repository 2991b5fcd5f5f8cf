-- ===== src/Go/Duration/Bounds.antt =====
-- Package time: the range of leadingInt.
use micro_identity_sidecar.Prelude.{
  ℕ, ◌+◌, ◌-◌, ◌*◌, ◌/◌, ◌^◌, ◌≤◌, ◌<◌, ◌≡◌, true, false, none, some, [], ◌∷◌, ◌++◌, Bytes, ltb,
  All, arith, Bool-cases, inl, inr,
}
use micro_identity_sidecar.Go.Decimal.{IsDigit, value_from}
use micro_identity_sidecar.Go.Duration.{is_digit, leading_int}

value_from_grows : (x : ℕ) (ds : Bytes) → x ≤ value_from x ds
value_from_grows x [] = omega arith
value_from_grows x (c ∷ ds) = omega (arith, value_from_grows (x * 10 + (c - b'0')) ds)

-- leadingInt reads digits that stand for at most 2^63, up to a byte that is none.
pub leading_int-fits :
    (x : ℕ) (ds : Bytes) (c : ℕ) (s : Bytes)
    → All IsDigit ds
    → is_digit c ≡ false
    → value_from x ds ≤ 2 ^ 63
    → leading_int x (ds ++ c ∷ s) ≡ some (value_from x ds, c ∷ s)
unfolding leading_int
leading_int-fits x [] c s h stop fits = ground arith
leading_int-fits x (d ∷ ds) c s h stop fits =
    let y : ℕ = x * 10 + (d - b'0') in
    let later : leading_int y (ds ++ c ∷ s) ≡ some (value_from y ds, c ∷ s) =
      leading_int-fits y ds c s h.1 stop fits in
    let grows : y ≤ value_from y ds = value_from_grows y ds in
    let digit : is_digit d ≡ true = ground arith in
    let small : ltb (2 ^ 63 / 10) x ≡ false = ground arith in
    let small_too : ltb (2 ^ 63) y ≡ false = ground arith in rw (digit, small, small_too) later

-- More are too many.
pub leading_int-over :
    (x : ℕ) (ds : Bytes) (s : Bytes)
    → All IsDigit ds
    → x ≤ 2 ^ 63
    → 2 ^ 63 < value_from x ds
    → leading_int x (ds ++ s) ≡ none
unfolding leading_int
leading_int-over x [] s h small over = absurd (ground arith)
leading_int-over x (d ∷ ds) s h small over =
    let y : ℕ = x * 10 + (d - b'0') in
    let digit : is_digit d ≡ true = ground arith in
    rw digit (elim (Bool-cases (ltb (2 ^ 63) y)) [
      | inl big ↦ ground (arith, big)
      | inr fits ↦
          let later : leading_int y (ds ++ s) ≡ none =
            leading_int-over y ds s h.1 (ground arith) over in
          ground (arith, later)
    ])
