-- ===== src/Jwt/Claims.antt =====
-- jwt.go: the claim set, and how it is flattened into one JSON object and read back.
pub mod Objects
pub mod RoundTrip
use micro_identity_sidecar.Prelude.{
  ℕ, zero, suc, Bool, ◌||◌, Option, none, some, List, [], ◌∷◌, Bytes, ◌==◌, codes, if◌then◌else◌,
}
use micro_identity_sidecar.Prelude.Map.{Map, put, get}
use micro_identity_sidecar.Platform.{
  Json, null, bool, num, str, strs, raw, Document, nothing, object, other, Platform,
}

-- The Extra map holds the claims that have no field.
pub record Claims : Type 0 where
  pub issuer : Bytes
  pub subject : Bytes
  pub audience : List Bytes
  pub expires_at : ℕ
  pub not_before : ℕ
  pub issued_at : ℕ
  pub jwt_id : Bytes
  pub scope : Bytes
  pub extra : Map Json

abbrev pub iss : Bytes
iss = codes "iss"

abbrev pub sub : Bytes
sub = codes "sub"

abbrev pub aud : Bytes
aud = codes "aud"

abbrev pub exp : Bytes
exp = codes "exp"

abbrev pub nbf : Bytes
nbf = codes "nbf"

abbrev pub iat : Bytes
iat = codes "iat"

abbrev pub jti : Bytes
jti = codes "jti"

abbrev pub scope_key : Bytes
scope_key = codes "scope"

-- `omitempty`: a field's value, if it is not the zero value.
unfoldable pub text_field : Bytes → Option Json
text_field [] = none
text_field (c ∷ s) = some (str (c ∷ s))

unfoldable pub list_field : List Bytes → Option Json
list_field [] = none
list_field (s ∷ l) = some (strs (s ∷ l))

unfoldable pub number_field : ℕ → Option Json
number_field zero = none
number_field (suc n) = some (num (suc n))

-- The fields that are written.
unfoldable pub present : List (Bytes × Option Json) → Map Json
present [] = []
present ((k, none) ∷ l) = present l
present ((k, some v) ∷ l) = (k, v) ∷ present l

unfoldable pub named : Claims → List (Bytes × Option Json)
named c =
    (iss, text_field c.issuer)
    ∷ (sub, text_field c.subject)
    ∷ (aud, list_field c.audience)
    ∷ (exp, number_field c.expires_at)
    ∷ (nbf, number_field c.not_before)
    ∷ (iat, number_field c.issued_at)
    ∷ (jti, text_field c.jwt_id)
    ∷ (scope_key, text_field c.scope)
    ∷ []

-- json.Marshal of the struct alone.
unfoldable pub base : Claims → Map Json
base c = present (named c)

-- for k, v := range extra { m[k] = v }
unfoldable pub overlay : Map Json → Map Json → Map Json
overlay [] m = m
overlay ((k, v) ∷ e) m = overlay e (put k v m)

infixl 5 ◌>>=◌
abbrev pub ◌>>=◌ {ℓ} : {A B : Type ℓ} → Option A → (A → Option B) → Option B
none >>= f = none
some a >>= f = f a

-- json.Unmarshal into a map.
unfoldable pub object_of : Document → Option (Map Json)
object_of nothing = some []
object_of (object m) = some m
object_of other = none

-- Claims.MarshalJSON
unfoldable pub marshal : Platform → Claims → Option Bytes
marshal p c = do
  text ← p.render (base c)
  elim c.extra [
    | [] ↦ some text
    | e ∷ es ↦ do doc ← p.parse text; m ← object_of doc; p.render (overlay c.extra m)
  ]

-- json.Unmarshal of one member into a field of the struct: an absent member and null leave the zero
-- value, and a value of another type is an error.
unfoldable pub to_text : Option Json → Option Bytes
to_text none = some []
to_text (some null) = some []
to_text (some (str s)) = some s
to_text (some (bool b)) = none
to_text (some (num n)) = none
to_text (some (strs l)) = none
to_text (some (raw s)) = none

unfoldable pub to_list : Option Json → Option (List Bytes)
to_list none = some []
to_list (some null) = some []
to_list (some (strs l)) = some l
to_list (some (bool b)) = none
to_list (some (num n)) = none
to_list (some (str s)) = none
to_list (some (raw s)) = none

unfoldable pub to_number : Option Json → Option ℕ
to_number none = some 0
to_number (some null) = some 0
to_number (some (num n)) = some n
to_number (some (bool b)) = none
to_number (some (str s)) = none
to_number (some (strs l)) = none
to_number (some (raw s)) = none

unfoldable pub known : Bytes → Bool
known k =
    iss == k
    || sub == k
    || aud == k
    || exp == k
    || nbf == k
    || iat == k
    || jti == k
    || scope_key == k

unfoldable pub unknown_only : Map Json → Map Json
unknown_only [] = []
unknown_only ((k, v) ∷ m) = let rest = unknown_only m in if known k then rest else (k, v) ∷ rest

unfoldable pub claims_of : Map Json → Option Claims
claims_of m = do
  issuer ← to_text (get iss m)
  subject ← to_text (get sub m)
  audience ← to_list (get aud m)
  expires_at ← to_number (get exp m)
  not_before ← to_number (get nbf m)
  issued_at ← to_number (get iat m)
  jwt_id ← to_text (get jti m)
  scope ← to_text (get scope_key m)
  some (record {
    issuer = issuer;
    subject = subject;
    audience = audience;
    expires_at = expires_at;
    not_before = not_before;
    issued_at = issued_at;
    jwt_id = jwt_id;
    scope = scope;
    extra = unknown_only m;
  })

-- Claims.UnmarshalJSON
unfoldable pub unmarshal : Platform → Bytes → Option Claims
unmarshal p text = do doc ← p.parse text; m ← object_of doc; claims_of m
