-- ===== src/Examples/KeySets.antt =====
-- A codec for lists of objects of ASCII text: a machine that reads from the right.
use micro_identity_sidecar.Prelude.{
  ℕ, ◌≡◌, refl, ap, true, Option, some, List, [], ◌∷◌, ◌++◌, Bytes, ltb, eqb, All, arith,
  if◌then◌else◌,
}
use micro_identity_sidecar.Prelude.Map.{Map}
use micro_identity_sidecar.Examples.Codec.{IsAscii, append_nil}
use micro_identity_sidecar.Examples.Toy.{all_ascii, all_ascii-IsAscii}

record Reading : Type 0 where
  chars : Bytes
  value : Bytes
  entries : Map Bytes
  objects : List (Map Bytes)

abbrev clean : Map Bytes → List (Map Bytes) → Reading
clean m l = record { chars = []; value = []; entries = m; objects = l }

read : ℕ → Reading → Reading
read c st =
    if ltb c 128
    then record st { chars = c ∷ st.chars }
    else if eqb c 128
    then record st { value = st.chars; chars = [] }
    else if eqb c 129
    then record st { entries = (st.chars, st.value) ∷ st.entries; chars = []; value = [] }
    else record st { objects = st.entries ∷ st.objects; entries = [] }

read_all : Bytes → Reading
read_all [] = clean [] []
read_all (c ∷ s) = read c (read_all s)

print_entries : Map Bytes → Bytes → Bytes
print_entries [] rest = rest
print_entries ((k, v) ∷ m) rest = 129 ∷ (k ++ 128 ∷ (v ++ print_entries m rest))

unfoldable pub print_objects : List (Map Bytes) → Bytes
unfolding print_entries
print_objects [] = []
print_objects (m ∷ l) = 130 ∷ print_entries m (print_objects l)

unfoldable pub parse_objects : Bytes → Option (List (Map Bytes))
unfolding read_all read
parse_objects s = some (read_all s).objects

read_chars :
    (s rest : Bytes)
    → IsAscii s
    → read_all (s ++ rest) ≡ record (read_all rest) { chars = s ++ (read_all rest).chars }
unfolding read_all read
read_chars [] rest h = refl
read_chars (c ∷ s) rest h = ground (arith, read_chars s rest h.1)

read_entries :
    (m : Map Bytes) (rest : Bytes) (l : List (Map Bytes))
    → All (λ e. (all_ascii e.0 ≡ true) × (all_ascii e.1 ≡ true)) m
    → read_all rest ≡ clean [] l
    → read_all (print_entries m rest) ≡ clean m l
unfolding read_all read print_entries
read_entries [] rest l h e = e
read_entries ((k, v) ∷ m) rest l h e =
    rw
      (
        read_chars k (128 ∷ (v ++ print_entries m rest)) (all_ascii-IsAscii k h.0.0),
        read_chars v (print_entries m rest) (all_ascii-IsAscii v h.0.1),
        read_entries m rest l h.1 e,
      )
      (λ i. clean ((append_nil k i, append_nil v i) ∷ m) l)

read_objects :
    (l : List (Map Bytes))
    → All (All (λ e. (all_ascii e.0 ≡ true) × (all_ascii e.1 ≡ true))) l
    → read_all (print_objects l) ≡ clean [] l
unfolding read_all read print_objects
read_objects [] h = refl
read_objects (m ∷ l) h = rw (read_entries m (print_objects l) l h.0 (read_objects l h.1)) refl

pub parse_objects-print_objects :
    (l : List (Map Bytes))
    → All (All (λ e. (all_ascii e.0 ≡ true) × (all_ascii e.1 ≡ true))) l
    → parse_objects (print_objects l) ≡ some l
unfolding parse_objects
parse_objects-print_objects l h = ap (λ st. some st.objects) (read_objects l h)
