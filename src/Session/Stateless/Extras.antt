-- ===== src/Session/Stateless/Extras.antt =====
-- stateless.go: the extra claims of a session, on their way through the token.
use micro_identity_sidecar.Prelude.{◌≡◌, refl, Option, none, some, [], ◌∷◌, Bytes, eq_iff, arith}
use micro_identity_sidecar.Prelude.Map.{Map, get, IsMap}
use micro_identity_sidecar.Platform.{Json, null, bool, num, str, strs, raw}
use micro_identity_sidecar.Session.Stateless.{json_values, text_values}

abbrev as_json : Option Bytes → Option Json
as_json none = none
as_json (some v) = some (str v)

abbrev as_text : Option Json → Option Bytes
as_text none = none
as_text (some (str v)) = some v
as_text (some null) = none
as_text (some (bool b)) = none
as_text (some (num n)) = none
as_text (some (strs l)) = none
as_text (some (raw s)) = none

pub get-json_values : (k : Bytes) (m : Map Bytes) → get k (json_values m) ≡ as_json (get k m)
unfolding get json_values
get-json_values k [] = refl
get-json_values k ((j, v) ∷ m) = ground (arith, get-json_values k m)

pub json_values-IsMap : (m : Map Bytes) → IsMap m → IsMap (json_values m)
unfolding json_values
json_values-IsMap [] h = tt
json_values-IsMap ((j, v) ∷ m) h = ground (arith, json_values-IsMap m h.1, get-json_values j m)

absent : (k : Bytes) (m : Map Json) → get k m ≡ none → get k (text_values m) ≡ none
unfolding get text_values
absent k [] h = refl
absent k ((j, str v) ∷ m) h = ground (arith, absent k m)
absent k ((j, null) ∷ m) h = ground (arith, absent k m)
absent k ((j, bool b) ∷ m) h = ground (arith, absent k m)
absent k ((j, num n) ∷ m) h = ground (arith, absent k m)
absent k ((j, strs l) ∷ m) h = ground (arith, absent k m)
absent k ((j, raw s) ∷ m) h = ground (arith, absent k m)

get-text_values : (k : Bytes) (m : Map Json) → IsMap m → get k (text_values m) ≡ as_text (get k m)
unfolding get text_values
get-text_values k [] h = refl
get-text_values k ((j, str v) ∷ m) h = ground (arith, get-text_values k m h.1)
get-text_values k ((j, null) ∷ m) h =
    ground (arith, get-text_values k m h.1, absent j m h.0, eq_iff j k)
get-text_values k ((j, bool b) ∷ m) h =
    ground (arith, get-text_values k m h.1, absent j m h.0, eq_iff j k)
get-text_values k ((j, num n) ∷ m) h =
    ground (arith, get-text_values k m h.1, absent j m h.0, eq_iff j k)
get-text_values k ((j, strs l) ∷ m) h =
    ground (arith, get-text_values k m h.1, absent j m h.0, eq_iff j k)
get-text_values k ((j, raw s) ∷ m) h =
    ground (arith, get-text_values k m h.1, absent j m h.0, eq_iff j k)

-- What is read back from the values that were written.
pub text_values-json_values :
    (k : Bytes) (extra : Map Bytes) (back : Map Json)
    → IsMap back
    → get k back ≡ get k (json_values extra)
    → get k (text_values back) ≡ get k extra
text_values-json_values k extra back once same =
    ground (arith, get-text_values k back once, get-json_values k extra)
