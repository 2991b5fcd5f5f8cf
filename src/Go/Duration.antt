-- ===== src/Go/Duration.antt =====
-- Package time: durations and ParseDuration.
pub mod Fuel
pub mod Bounds
pub mod Whole
use micro_identity_sidecar.Prelude.{
  ℕ, zero, suc, ◌+◌, ◌-◌, ◌*◌, ◌/◌, ◌%◌, ◌^◌, ◌<◌, Bool, true, false, ◌&&◌, ◌||◌, not, Option, none,
  some, List, [], ◌∷◌, Bytes, codes, eqb, leb, ltb, length, if◌then◌else◌,
}
use micro_identity_sidecar.Prelude.Map.{Map, get}

-- A signed number: `negsuc n` is -1 - n.
pub data ℤ : Type 0 where
  pos : ℕ → ℤ
  negsuc : ℕ → ℤ

-- A time.Duration counts nanoseconds in an int64.
abbrev pub IsInt64 : ℤ → Type 0
IsInt64 (pos n) = n < 2 ^ 63
IsInt64 (negsuc n) = n < 2 ^ 63

abbrev pub negate : ℕ → ℤ
negate zero = pos 0
negate (suc n) = negsuc n

abbrev pub is_digit : ℕ → Bool
is_digit c = leb b'0' c && leb c b'9'

-- leadingInt, behind the digits that make `x`; `none` is errLeadingInt.
unfoldable pub leading_int : ℕ → Bytes → Option (ℕ × Bytes)
leading_int x [] = some (x, [])
leading_int x (c ∷ s) =
    let y : ℕ = x * 10 + (c - b'0') in
    let rest = leading_int y s in
    if is_digit c
    then if ltb (2 ^ 63 / 10) x then none else if ltb (2 ^ 63) y then none else rest
    else some (x, c ∷ s)

-- leadingFraction: the digits that fit, the scale that belongs to them, and the rest.
unfoldable pub leading_fraction : ℕ → ℕ → Bool → Bytes → ℕ × ℕ × Bytes
leading_fraction x scale overflow [] = (x, scale, [])
leading_fraction x scale overflow (c ∷ s) =
    let y : ℕ = x * 10 + (c - b'0') in
    let over = overflow || ltb ((2 ^ 63 - 1) / 10) x || ltb (2 ^ 63) y in
    let rest =
      leading_fraction (if over then x else y) (if over then scale else scale * 10) over s in
    if is_digit c then rest else (x, scale, c ∷ s)

-- The `.` and the digits behind it, if there are any; the flag is `post`.
unfoldable pub fraction_of : Bytes → ℕ × ℕ × Bool × Bytes
fraction_of [] = (0, 1, false, [])
fraction_of (c ∷ s) =
    let (f, scale, rest) = leading_fraction 0 1 false s in
    if eqb c b'.'
    then (f, scale, not (eqb (length s) (length rest)), rest)
    else (0, 1, false, c ∷ s)

-- The bytes up to the next `.` or digit, and the rest.
unfoldable pub span_unit : Bytes → Bytes × Bytes
span_unit [] = ([], [])
span_unit (c ∷ s) =
    let (u, rest) = span_unit s in if eqb c b'.' || is_digit c then ([], c ∷ s) else (c ∷ u, rest)

-- unitMap; both spellings of the micro sign are there.
abbrev pub unit_map : Map ℕ
unit_map =
    (codes "ns", 1)
    ∷ (codes "us", 1000)
    ∷ (194 ∷ 181 ∷ b's' ∷ [], 1000)
    ∷ (206 ∷ 188 ∷ b's' ∷ [], 1000)
    ∷ (codes "ms", 1000000)
    ∷ (codes "s", 1000000000)
    ∷ (codes "m", 60000000000)
    ∷ (codes "h", 3600000000000)
    ∷ []

-- Whether a byte can begin a number.
abbrev pub begins_number : Bytes → Bool
begins_number [] = false
begins_number (c ∷ s) = eqb c b'.' || is_digit c

-- The total of a parse, in an int64.
unfoldable pub signed : Bool → ℕ → Option ℤ
signed neg d = if neg then some (negate d) else if ltb (2 ^ 63 - 1) d then none else some (pos d)

-- `fraction f unit scale` is uint64(float64(f) * (float64(unit) / scale)).
module _ (fraction : ℕ → ℕ → ℕ → ℕ) where
  -- One number in its unit, as nanoseconds.
  unfoldable pub scaled : ℕ → ℕ → ℕ → ℕ → Option ℕ
  scaled v f scale unit =
      let whole = v * unit in
      let sum = (v * unit + fraction f unit scale) % 2 ^ 64 in
      if ltb (2 ^ 63 / unit) v
      then none
      else if eqb f 0
      then some whole
      else if ltb (2 ^ 63) sum
      then none
      else some sum

  -- A number behind which `s` begins with its unit; `missing` if it had no digit. A
  -- unit of no bytes is not in the map.
  unfoldable pub measured : ℕ → ℕ → ℕ → Bool → Bytes → Option (ℕ × Bytes)
  measured v f scale missing s = if missing then none else elim (get (span_unit s).0 unit_map) [
    | none ↦ none
    | some unit ↦ elim (scaled v f scale unit) [ none ↦ none | some w ↦ some (w, (span_unit s).1) ]
  ]

  -- One round of the loop: the nanoseconds of a number with its unit, and the rest.
  unfoldable pub component : Bytes → Option (ℕ × Bytes)
  component s = if not (begins_number s) then none else elim (leading_int 0 s) [
    | none ↦ none
    | some (v, s1) ↦
        let (f, scale, post, s2) = fraction_of s1 in
        measured v f scale (eqb (length s) (length s1) && not post) s2
  ]

  -- The loop; each round takes at least one byte, so the length is enough fuel.
  unfoldable pub components : ℕ → ℕ → Bytes → Option ℕ
  components fuel d [] = some d
  components zero d (c ∷ s) = none
  components (suc fuel) d (c ∷ s) = elim (component (c ∷ s)) [
    | none ↦ none
    | some (v, rest) ↦
        let sum = (d + v) % 2 ^ 64 in
        elim (ltb (2 ^ 63) sum) [ true ↦ none | false ↦ components fuel sum rest ]
  ]

  abbrev pub unsigned : Bool → Bytes → Option ℤ
  unsigned neg [] = none
  unsigned neg (c ∷ s) =
      if eqb c b'0' && eqb (length s) 0
      then some (pos 0)
      else elim (components (length (c ∷ s)) 0 (c ∷ s)) [ none ↦ none | some d ↦ signed neg d ]

  -- ParseDuration
  unfoldable pub parse_duration : Bytes → Option ℤ
  parse_duration [] = none
  parse_duration (c ∷ s) =
      if eqb c b'-'
      then unsigned true s
      else if eqb c b'+'
      then unsigned false s
      else unsigned false (c ∷ s)
