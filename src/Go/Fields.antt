-- ===== src/Go/Fields.antt =====
-- strings.Fields: the words of a text.
use micro_identity_sidecar.Prelude.{
  ℕ, zero, suc, ◌&&◌, Bool, List, [], ◌∷◌, ◌++◌, Bytes, eqb, leb, if◌then◌else◌,
}

abbrev between : ℕ → ℕ → ℕ → Bool
between a b c = leb a c && leb c b

-- How many bytes of UTF-8 the white space at the head takes: 0 if there is none. White space is what
-- unicode.IsSpace accepts: U+0009 to U+000D, U+0020, U+0085, U+00A0, U+1680, U+2000 to U+200A, U+2028,
-- U+2029, U+202F, U+205F and U+3000.
unfoldable pub space : Bytes → ℕ
space [] = 0
space (a ∷ []) = if between 9 13 a then 1 else if eqb a 32 then 1 else 0
space (a ∷ b ∷ []) =
    if between 9 13 a
    then 1
    else if eqb a 32
    then 1
    else if eqb a 194 && eqb b 133
    then 2
    else if eqb a 194 && eqb b 160
    then 2
    else 0
space (a ∷ b ∷ c ∷ s) =
    if between 9 13 a
    then 1
    else if eqb a 32
    then 1
    else if eqb a 194 && eqb b 133
    then 2
    else if eqb a 194 && eqb b 160
    then 2
    else if eqb a 225 && eqb b 154 && eqb c 128
    then 3
    else if eqb a 226 && eqb b 128 && between 128 138 c
    then 3
    else if eqb a 226 && eqb b 128 && between 168 169 c
    then 3
    else if eqb a 226 && eqb b 128 && eqb c 175
    then 3
    else if eqb a 226 && eqb b 129 && eqb c 159
    then 3
    else if eqb a 227 && eqb b 128 && eqb c 128
    then 3
    else 0

-- A word that has come to its end is listed unless it is empty.
unfoldable pub listed : Bytes → List Bytes → List Bytes
listed [] words = words
listed (c ∷ w) words = (c ∷ w) ∷ words

-- The words of `s` after `skip` more bytes of white space and the bytes `word` of a word.
unfoldable pub fields_from : ℕ → Bytes → Bytes → List Bytes
fields_from skip word [] = listed word []
fields_from zero word (c ∷ s) = elim (space (c ∷ s)) [
  | zero ↦ fields_from 0 (word ++ c ∷ []) s
  | suc n ↦ listed word (fields_from n [] s)
]
fields_from (suc n) word (c ∷ s) = fields_from n word s

unfoldable pub fields : Bytes → List Bytes
fields s = fields_from 0 [] s
