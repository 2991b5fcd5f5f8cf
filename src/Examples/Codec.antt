-- ===== src/Examples/Codec.antt =====
-- A codec for objects of ASCII text: a machine that reads from the right.
use micro_identity_sidecar.Prelude.{
  ℕ, zero, suc, ◌<◌, ◌≡◌, refl, true, false, List, [], ◌∷◌, ◌++◌, Bytes, ltb, eqb, All, arith,
  if◌then◌else◌, ap,
}
use micro_identity_sidecar.Prelude.Map.{Map}
use micro_identity_sidecar.Platform.{Json, null, bool, num, str, strs, raw}
use micro_identity_sidecar.Go.Base64.RoundTrip.{IsBytes}

-- What has been read: the bytes of a text, the texts of a list, a number, a value, and entries.
pub record Reading : Type 0 where
  chars : Bytes
  items : List Bytes
  pub count : ℕ
  pub value : Json
  pub entries : Map Json

unfoldable pub read : ℕ → Reading → Reading
read c st =
    if ltb c 128
    then record st { chars = c ∷ st.chars }
    else if eqb c 128
    then record st { items = st.chars ∷ st.items; chars = [] }
    else if eqb c 129
    then record st { count = suc st.count }
    else if eqb c 130
    then record st { value = str st.chars; chars = [] }
    else if eqb c 131
    then record st { value = strs st.items; items = [] }
    else if eqb c 132
    then record st { value = num st.count; count = 0 }
    else if eqb c 133
    then record st { value = null }
    else if eqb c 134
    then record st { value = bool true }
    else if eqb c 135
    then record st { value = bool false }
    else record st { entries = (st.chars, st.value) ∷ st.entries; chars = [] }

abbrev pub clean : Json → Map Json → Reading
clean v m = record { chars = []; items = []; count = 0; value = v; entries = m }

unfoldable pub read_all : Bytes → Reading
read_all [] = clean null []
read_all (c ∷ s) = read c (read_all s)

unfoldable pub write_items : List Bytes → Bytes → Bytes
write_items [] rest = rest
write_items (s ∷ l) rest = 128 ∷ (s ++ write_items l rest)

unfoldable pub write_count : ℕ → Bytes → Bytes
write_count zero rest = rest
write_count (suc n) rest = 129 ∷ write_count n rest

unfoldable pub write : Json → Bytes → Bytes
write null rest = 133 ∷ rest
write (bool true) rest = 134 ∷ rest
write (bool false) rest = 135 ∷ rest
write (num n) rest = 132 ∷ write_count n rest
write (str s) rest = 130 ∷ (s ++ rest)
write (strs l) rest = 131 ∷ write_items l rest
write (raw s) rest = 133 ∷ rest

unfoldable pub write_all : Map Json → Bytes
write_all [] = []
write_all ((k, v) ∷ m) = 136 ∷ (k ++ write v (write_all m))

unfoldable pub entries_of : Bytes → Map Json
entries_of s = (read_all s).entries

abbrev pub IsAscii : Bytes → Type 0
IsAscii s = All (λ c. c < 128) s

-- A value of ASCII text.
abbrev pub IsPlainValue : Json → Type 0
IsPlainValue null = Unit
IsPlainValue (bool b) = Unit
IsPlainValue (num n) = Unit
IsPlainValue (str s) = IsAscii s
IsPlainValue (strs l) = All IsAscii l
IsPlainValue (raw s) = ⊥

abbrev pub IsPlainEntry : Bytes × Json → Type 0
IsPlainEntry e = IsAscii e.0 × IsPlainValue e.1

pub append_nil : (s : Bytes) → s ++ [] ≡ s
append_nil [] = refl
append_nil (c ∷ s) = ap (λ t. c ∷ t) (append_nil s)

read_chars :
    (s rest : Bytes)
    → IsAscii s
    → read_all (s ++ rest) ≡ record (read_all rest) { chars = s ++ (read_all rest).chars }
unfolding read_all read
read_chars [] rest h = refl
read_chars (c ∷ s) rest h = ground (arith, read_chars s rest h.1)

read_items :
    (l : List Bytes) (rest : Bytes) (v : Json) (m : Map Json)
    → All IsAscii l
    → read_all rest ≡ clean v m
    → read_all (write_items l rest) ≡ record (clean v m) { items = l }
unfolding read_all read write_items
read_items [] rest v m h e = e
read_items (s ∷ l) rest v m h e =
    rw (read_chars s (write_items l rest) h.0, read_items l rest v m h.1 e)
      (ap (λ t. record (clean v m) { items = t ∷ l }) (append_nil s))

read_count :
    (n : ℕ) (rest : Bytes) (v : Json) (m : Map Json)
    → read_all rest ≡ clean v m
    → read_all (write_count n rest) ≡ record (clean v m) { count = n }
unfolding read_all read write_count
read_count zero rest v m e = e
read_count (suc n) rest v m e = rw (read_count n rest v m e) refl

read_value :
    (v : Json) (rest : Bytes) (u : Json) (m : Map Json)
    → IsPlainValue v
    → read_all rest ≡ clean u m
    → read_all (write v rest) ≡ clean v m
unfolding read_all read write
read_value null rest u m h e = rw e refl
read_value (bool true) rest u m h e = rw e refl
read_value (bool false) rest u m h e = rw e refl
read_value (num n) rest u m h e = rw (read_count n rest u m e) refl
read_value (str s) rest u m h e =
    rw (read_chars s rest h, e) (ap (λ t. clean (str t) m) (append_nil s))
read_value (strs l) rest u m h e = rw (read_items l rest u m h e) refl
read_value (raw s) rest u m h e = absurd h

read_write : (m : Map Json) → All IsPlainEntry m → (u : Json) × (read_all (write_all m) ≡ clean u m)
unfolding read_all read write_all
read_write [] h = (null, refl)
read_write ((k, v) ∷ m) h =
    let (u, e) = read_write m h.1 in
    (
      v,
      rw (read_chars k (write v (write_all m)) h.0.0, read_value v (write_all m) u m h.0.1 e)
          (ap (λ t. clean v ((t, v) ∷ m)) (append_nil k)),
    )

pub entries_of-write_all : (m : Map Json) → All IsPlainEntry m → entries_of (write_all m) ≡ m
unfolding entries_of
entries_of-write_all m h = ap (λ r. r.entries) (read_write m h).1

bytes-append : (s rest : Bytes) → IsAscii s → IsBytes rest → IsBytes (s ++ rest)
bytes-append [] rest h r = r
bytes-append (c ∷ s) rest h r = (omega arith, bytes-append s rest h.1 r)

write_items-IsBytes :
    (l : List Bytes) (rest : Bytes) → All IsAscii l → IsBytes rest → IsBytes (write_items l rest)
unfolding write_items
write_items-IsBytes [] rest h r = r
write_items-IsBytes (s ∷ l) rest h r =
    (omega arith, bytes-append s _ h.0 (write_items-IsBytes l rest h.1 r))

write_count-IsBytes : (n : ℕ) (rest : Bytes) → IsBytes rest → IsBytes (write_count n rest)
unfolding write_count
write_count-IsBytes zero rest r = r
write_count-IsBytes (suc n) rest r = (omega arith, write_count-IsBytes n rest r)

write-IsBytes : (v : Json) (rest : Bytes) → IsPlainValue v → IsBytes rest → IsBytes (write v rest)
unfolding write
write-IsBytes null rest h r = (omega arith, r)
write-IsBytes (bool true) rest h r = (omega arith, r)
write-IsBytes (bool false) rest h r = (omega arith, r)
write-IsBytes (num n) rest h r = (omega arith, write_count-IsBytes n rest r)
write-IsBytes (str s) rest h r = (omega arith, bytes-append s rest h r)
write-IsBytes (strs l) rest h r = (omega arith, write_items-IsBytes l rest h r)
write-IsBytes (raw s) rest h r = absurd h

pub write_all-IsBytes : (m : Map Json) → All IsPlainEntry m → IsBytes (write_all m)
unfolding write_all
write_all-IsBytes [] h = tt
write_all-IsBytes ((k, v) ∷ m) h =
    (omega arith, bytes-append k _ h.0.0 (write-IsBytes v _ h.0.1 (write_all-IsBytes m h.1)))
