-- ===== src/Jwt/Claims/RoundTrip.antt =====
-- What UnmarshalJSON reads from the text that MarshalJSON writes.
use micro_identity_sidecar.Prelude.{
  ℕ, ◌^◌, ◌<◌, ◌≡◌, refl, ap, sym, ◌∙◌, true, false, none, some, [], ◌∷◌, arith, Bytes, ◌==◌, All,
  Option-cases, inl, inr,
}
use micro_identity_sidecar.Prelude.Map.{Map, get, IsMap}
use micro_identity_sidecar.Go.Base64.RoundTrip.{IsBytes}
use micro_identity_sidecar.Platform.{Json, Platform, IsEncodable, Encodes, IsSound}
use micro_identity_sidecar.Jwt.Claims.{
  Claims, iss, sub, aud, exp, nbf, iat, jti, scope_key, present, named, base, overlay, object_of,
  marshal, unmarshal, known, unknown_only, claims_of, text_field, list_field, number_field,
}
use micro_identity_sidecar.Jwt.Claims.Objects.{
  or_else, or_else-none, get-present, present-IsMap, present-Fits, get-present-lacks, FitsField,
  text_field-Fits, list_field-Fits, number_field-Fits, to_text-text_field, to_list-list_field,
  to_number-number_field, get-overlay, overlay-IsMap, get-unknown_only, unknown_only-IsMap,
}

-- Claims `d` with the fields of `c` and the same extra claims, in any order, each once.
pub record SameClaims (c d : Claims) : Type 0 where
  pub issuer : d.issuer ≡ c.issuer
  pub subject : d.subject ≡ c.subject
  pub audience : d.audience ≡ c.audience
  pub expires_at : d.expires_at ≡ c.expires_at
  pub not_before : d.not_before ≡ c.not_before
  pub issued_at : d.issued_at ≡ c.issued_at
  pub jwt_id : d.jwt_id ≡ c.jwt_id
  pub scope : d.scope ≡ c.scope
  pub extra : (k : Bytes) → get k d.extra ≡ get k c.extra
  pub distinct : IsMap d.extra

-- Valid text, exact numbers, and extra claims that are none of the named ones.
pub record IsWritable (p : Platform) (c : Claims) : Type 0 where
  pub issuer : p.is_utf8 c.issuer ≡ true
  pub subject : p.is_utf8 c.subject ≡ true
  pub audience : All (λ s. p.is_utf8 s ≡ true) c.audience
  pub expires_at : c.expires_at < 2 ^ 53
  pub not_before : c.not_before < 2 ^ 53
  pub issued_at : c.issued_at < 2 ^ 53
  pub jwt_id : p.is_utf8 c.jwt_id ≡ true
  pub scope : p.is_utf8 c.scope ≡ true
  pub extra : IsEncodable p c.extra
  pub unnamed : (k : Bytes) → known k ≡ true → get k c.extra ≡ none

base-IsEncodable :
    (p : Platform) → IsSound p → (c : Claims) → IsWritable p c → IsEncodable p (base c)
unfolding base named
base-IsEncodable p sound c w = record {
  distinct = present-IsMap (named c) (unfold ◌==◌ in refl);
  fits = λ k v. present-Fits p (named c) k v (
    text iss (omega arith) w.issuer,
    (
      text sub (omega arith) w.subject,
      (
        (sound.utf8_ascii aud (omega arith), list_field-Fits p c.audience w.audience),
        (
          number exp (omega arith) w.expires_at,
          (
            number nbf (omega arith) w.not_before,
            (
              number iat (omega arith) w.issued_at,
              (text jti (omega arith) w.jwt_id, (text scope_key (omega arith) w.scope, tt)),
            ),
          ),
        ),
      ),
    ),
  );
}
  where
    text :
        (k : Bytes) {s : Bytes}
        → All (λ b. b < 128) k
        → p.is_utf8 s ≡ true
        → (p.is_utf8 k ≡ true) × FitsField p (text_field s)
    text k {s} ascii h = (sound.utf8_ascii k ascii, text_field-Fits p s h)

    number :
        (k : Bytes) {n : ℕ}
        → All (λ b. b < 128) k
        → n < 2 ^ 53
        → (p.is_utf8 k ≡ true) × FitsField p (number_field n)
    number k {n} ascii h = (sound.utf8_ascii k ascii, number_field-Fits p n h)

-- An object with the members of the fields of `c`, absent where `omitempty` leaves them out.
record HasFields (m : Map Json) (c : Claims) : Type 0 where
  issuer : get iss m ≡ text_field c.issuer
  subject : get sub m ≡ text_field c.subject
  audience : get aud m ≡ list_field c.audience
  expires_at : get exp m ≡ number_field c.expires_at
  not_before : get nbf m ≡ number_field c.not_before
  issued_at : get iat m ≡ number_field c.issued_at
  jwt_id : get jti m ≡ text_field c.jwt_id
  scope : get scope_key m ≡ text_field c.scope
  rest : (k : Bytes) → known k ≡ false → get k m ≡ get k c.extra

get-base_unknown : (c : Claims) (k : Bytes) → known k ≡ false → get k (base c) ≡ none
unfolding base named known
get-base_unknown c k h = get-present-lacks k (named c) (ground arith)

-- The members of any object that overlays the extra claims on the fields.
or_else-HasFields :
    (p : Platform) (c : Claims) (m : Map Json)
    → IsWritable p c
    → ((k : Bytes) → get k m ≡ or_else (get k c.extra) (get k (base c)))
    → HasFields m c
unfolding base named present get ◌==◌ known text_field
or_else-HasFields p c m w same = record {
  issuer = simp (same, w.unnamed iss refl, get-present, or_else-none);
  subject = simp (same, w.unnamed sub refl, get-present, or_else-none);
  audience = simp (same, w.unnamed aud refl, get-present, or_else-none);
  expires_at = simp (same, w.unnamed exp refl, get-present, or_else-none);
  not_before = simp (same, w.unnamed nbf refl, get-present, or_else-none);
  issued_at = simp (same, w.unnamed iat refl, get-present, or_else-none);
  jwt_id = simp (same, w.unnamed jti refl, get-present, or_else-none);
  scope = simp (same, w.unnamed scope_key refl, get-present, or_else-none);
  rest = λ k h. same k ∙ rw (get-base_unknown c k h) (or_else-none (get k c.extra));
}

unknown_extra :
    (p : Platform) (c : Claims) (m : Map Json)
    → IsWritable p c
    → HasFields m c
    → (k : Bytes) → get k (unknown_only m) ≡ get k c.extra
unknown_extra p c m w h k = ground (arith, get-unknown_only k m, w.unnamed k, h.rest k)

claims_of-SameClaims :
    (p : Platform) (c : Claims) (m : Map Json) (once : IsMap m)
    → IsWritable p c
    → HasFields m c
    → (d : Claims) × (claims_of m ≡ some d) × SameClaims c d
unfolding claims_of
claims_of-SameClaims p c m once w h = (
  record c { extra = unknown_only m },
  simp (
    h.issuer, h.subject, h.audience, h.expires_at, h.not_before, h.issued_at, h.jwt_id, h.scope,
    to_text-text_field, to_list-list_field, to_number-number_field,
  ),
  record {
    issuer = refl;
    subject = refl;
    audience = refl;
    expires_at = refl;
    not_before = refl;
    issued_at = refl;
    jwt_id = refl;
    scope = refl;
    extra = unknown_extra p c m w h;
    distinct = unknown_only-IsMap m once;
  },
)

-- The text of a claim set, and what is read from it.
pub record IsCarried (p : Platform) (c : Claims) : Type 0 where
  pub text : Bytes
  pub marshalled : marshal p c ≡ some text
  pub bytes : IsBytes text
  pub back : Claims
  pub unmarshalled : unmarshal p text ≡ some back
  pub same : SameClaims c back

module _ (p : Platform) (sound : IsSound p) (c : Claims) (w : IsWritable p c) where
  -- The text of the struct alone, and of the overlay where there are extra claims.
  plain : Encodes p (base c)
  plain = sound.codec (base c) (base-IsEncodable p sound c w)

  overlay-IsEncodable : IsEncodable p (overlay c.extra plain.back)
  overlay-IsEncodable = record {
    distinct = overlay-IsMap c.extra plain.back plain.back_distinct;
    fits = λ k v e. elim (Option-cases (get k c.extra)) [
      | inl absent ↦
          (base-IsEncodable p sound c w).fits k v
            (ground (arith, get-overlay k c.extra plain.back w.extra.distinct, plain.same k))
      | inr (x, found) ↦
          w.extra.fits k v (ground (arith, get-overlay k c.extra plain.back w.extra.distinct))
    ];
  }

  full : Encodes p (overlay c.extra plain.back)
  full = sound.codec _ overlay-IsEncodable

  read_back :
      (m : Map Json)
      → IsMap m
      → ((k : Bytes) → get k m ≡ or_else (get k c.extra) (get k (base c)))
      → (d : Claims) × (claims_of m ≡ some d) × SameClaims c d
  read_back m once same = claims_of-SameClaims p c m once w (or_else-HasFields p c m w same)

  plain_same :
      c.extra ≡ [] → (k : Bytes) → get k plain.back ≡ or_else (get k c.extra) (get k (base c))
  unfolding get
  plain_same is_nil k = plain.same k ∙ ap (λ e. or_else (get k e) (get k (base c))) (sym is_nil)

  full_same : (k : Bytes) → get k full.back ≡ or_else (get k c.extra) (get k (base c))
  full_same k =
      full.same k
      ∙ get-overlay k c.extra plain.back w.extra.distinct
      ∙ ap (or_else (get k c.extra)) (plain.same k)

  carried_plain : c.extra ≡ [] → IsCarried p c
  unfolding marshal unmarshal object_of
  carried_plain is_nil =
      let (d, read, same) = read_back plain.back plain.back_distinct (plain_same is_nil) in
      record {
        text = plain.text;
        marshalled = ground (arith, plain.rendered);
        bytes = plain.bytes;
        back = d;
        unmarshalled = rw plain.parsed read;
        same = same;
      }

  carried_full : (x : Bytes × Json) (e : Map Json) → c.extra ≡ x ∷ e → IsCarried p c
  unfolding marshal unmarshal object_of
  carried_full x e is_cons =
      let (d, read, same) = read_back full.back full.back_distinct full_same in
      record {
        text = full.text;
        marshalled = ground (arith, plain.rendered, plain.parsed, full.rendered);
        bytes = full.bytes;
        back = d;
        unmarshalled = rw full.parsed read;
        same = same;
      }

  carried : (e : Map Json) → c.extra ≡ e → IsCarried p c
  carried [] is_nil = carried_plain is_nil
  carried (x ∷ e) is_cons = carried_full x e is_cons

  -- On a sound platform, a writable claim set is written, and is read back with the same fields and
  -- extra claims.
  pub marshal-IsCarried : IsCarried p c
  marshal-IsCarried = carried c.extra refl
