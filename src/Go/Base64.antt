-- ===== src/Go/Base64.antt =====
-- base64.RawURLEncoding of encoding/base64: the URL alphabet, with no padding.
pub mod RoundTrip
use micro_identity_sidecar.Prelude.{
  ℕ, ◌+◌, ◌-◌, ◌*◌, ◌/◌, ◌%◌, Option, none, some, List, [], ◌∷◌, Bool, true, false, ◌&&◌, ◌||◌,
  Bytes, ltb, leb, eqb, if◌then◌else◌,
}

-- The digit of a sextet: A-Z, a-z, 0-9, '-' and '_'.
unfoldable pub digit : ℕ → ℕ
digit x =
    if ltb x 26
    then x + 65
    else if ltb x 52
    then x + 71
    else if ltb x 62
    then x - 4
    else if eqb x 62
    then b'-'
    else b'_'

unfoldable pub sextet : ℕ → Option ℕ
sextet c =
    if leb b'A' c && leb c b'Z'
    then some (c - 65)
    else if leb b'a' c && leb c b'z'
    then some (c - 71)
    else if leb b'0' c && leb c b'9'
    then some (c + 4)
    else if eqb c b'-'
    then some 62
    else if eqb c b'_'
    then some 63
    else none

-- EncodeToString
unfoldable pub encode : Bytes → Bytes
encode [] = []
encode (a ∷ []) = digit (a / 4) ∷ digit (a % 4 * 16) ∷ []
encode (a ∷ b ∷ []) = digit (a / 4) ∷ digit (a % 4 * 16 + b / 16) ∷ digit (b % 16 * 4) ∷ []
encode (a ∷ b ∷ c ∷ rest) =
    digit (a / 4)
    ∷ digit (a % 4 * 16 + b / 16)
    ∷ digit (b % 16 * 4 + c / 64)
    ∷ digit (c % 64)
    ∷ encode rest

infixl 5 ◌>>=◌
abbrev ◌>>=◌ : {A B : Type 0} → Option A → (A → Option B) → Option B
none >>= f = none
some a >>= f = f a

-- Groups of four digits; a last group of one is refused, one of two or three gives one or two bytes
-- and its unused bits are dropped.
unfoldable pub decode_groups : Bytes → Option Bytes
decode_groups [] = some []
decode_groups (a ∷ []) = none
decode_groups (a ∷ b ∷ []) = do x ← sextet a; y ← sextet b; some ((x * 4 + y / 16) ∷ [])
decode_groups (a ∷ b ∷ c ∷ []) = do
  x ← sextet a
  y ← sextet b
  z ← sextet c
  some ((x * 4 + y / 16) ∷ (y % 16 * 16 + z / 4) ∷ [])
decode_groups (a ∷ b ∷ c ∷ d ∷ rest) = do
  x ← sextet a
  y ← sextet b
  z ← sextet c
  w ← sextet d
  more ← decode_groups rest
  some ((x * 4 + y / 16) ∷ (y % 16 * 16 + z / 4) ∷ (z % 4 * 64 + w) ∷ more)

-- The decoder passes over line ends wherever they stand.
unfoldable pub drop_line_ends : Bytes → Bytes
drop_line_ends [] = []
drop_line_ends (c ∷ s) =
    let rest = drop_line_ends s in if eqb c 10 || eqb c 13 then rest else c ∷ rest

-- DecodeString
unfoldable pub decode : Bytes → Option Bytes
unfolding drop_line_ends decode_groups sextet
decode s = decode_groups (drop_line_ends s)
