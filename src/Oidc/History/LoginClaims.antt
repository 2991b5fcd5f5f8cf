-- ===== src/Oidc/History/LoginClaims.antt =====
-- token.go: the claims of an id_token.
use micro_identity_sidecar.Prelude.{
  ℕ, ◌+◌, ◌≡◌, ap, ◌∙◌, none, some, [], Bytes, if◌then◌else◌, codes, arith, inl, inr, ◌==◌, ◌&&◌,
  not, eq_iff, Bool-cases, ◌∷◌, Option,
}
use micro_identity_sidecar.Prelude.Map.{Map, get, put, get-put, IsMap}
use micro_identity_sidecar.Platform.{Json, str, num}
use micro_identity_sidecar.Jwt.Claims.{Claims}
use micro_identity_sidecar.Jwt.Claims.RoundTrip.{SameClaims}
use micro_identity_sidecar.Jwt.Token.{unix}
use micro_identity_sidecar.Oidc.Users.{UserStore}
use micro_identity_sidecar.Oidc.Server.{Config}
use micro_identity_sidecar.Oidc.Issue.{with_profile, id_claims}

-- The extra claim that an id_token makes under a name: of the profile, which has the last word, of
-- the nonce unless it is empty, or of the time of the login. The profile says nothing about `sub`.
abbrev pub said : Map Json → Bytes → ℕ → Bytes → Option Json
said profile nonce auth_time k = elim (if k == codes "sub" then none else get k profile) [
  | some v ↦ some v
  | none ↦
      if k == codes "nonce" && not (nonce == [])
      then some (str nonce)
      else if k == codes "auth_time"
      then some (num (unix auth_time))
      else none
]

-- What an id_token of the login says.
pub record IsIdToken (cfg : Config) (users : UserStore) (now : ℕ) (client_id subject nonce : Bytes)
    (auth_time : ℕ) (c : Claims) : Type 0 where
  pub issuer : c.issuer ≡ cfg.issuer
  pub subject_claim : c.subject ≡ subject
  pub audience : c.audience ≡ client_id ∷ []
  pub issued_at : c.issued_at ≡ unix now
  pub expires_at : c.expires_at ≡ unix now + 600
  pub not_before : c.not_before ≡ 0
  pub jwt_id : c.jwt_id ≡ []
  pub scope : c.scope ≡ []
  pub extra : (k : Bytes) → get k c.extra ≡ said (users.profile subject) nonce auth_time k

get-with_profile :
    (k : Bytes) (extra m : Map Json)
    → IsMap m
    → get k (with_profile extra m)
      ≡ (elim (if k == codes "sub" then none else get k m) [ some v ↦ some v | none ↦ get k extra ])
unfolding with_profile get
get-with_profile k extra [] h = ground arith
get-with_profile k extra ((j, v) ∷ m) h = elim (Bool-cases (j == codes "sub")) [
  | inl is_sub ↦ rw is_sub (
      ground (
        arith,
        get-with_profile k extra m h.1,
        is_sub,
        eq_iff j k,
        eq_iff j (codes "sub"),
        eq_iff k (codes "sub"),
      ))
  | inr other ↦ rw other (
      ground (
        arith,
        get-with_profile k (put j v extra) m h.1,
        other,
        get-put j k v extra,
        h.0,
        eq_iff j k,
        eq_iff j (codes "sub"),
        eq_iff k (codes "sub"),
      ))
]

-- The extra claims before the profile.
abbrev said_base : Bytes → ℕ → Map Json
said_base nonce auth_time =
    let extra = (codes "auth_time", num (unix auth_time)) ∷ [] in
    if nonce == [] then extra else put (codes "nonce") (str nonce) extra

get-said_base :
    (nonce : Bytes) (auth_time : ℕ) (k : Bytes)
    → get k (said_base nonce auth_time) ≡ (
        if k == codes "nonce" && not (nonce == [])
        then some (str nonce)
        else if k == codes "auth_time"
        then some (num (unix auth_time))
        else none)
unfolding get
get-said_base nonce auth_time k =
    let time : Map Json = (codes "auth_time", num (unix auth_time)) ∷ [] in
    elim (Bool-cases (nonce == [])) [
      | inl without ↦
          ground (arith, without, eq_iff (codes "auth_time") k, eq_iff k (codes "auth_time"))
      | inr given ↦ ground (
        arith,
        given,
        get-put (codes "nonce") k (str nonce) time,
        eq_iff (codes "nonce") k,
        eq_iff k (codes "nonce"),
        eq_iff (codes "auth_time") k,
        eq_iff k (codes "auth_time"),
      )
    ]

extra-said :
    (users : UserStore) (subject nonce : Bytes) (auth_time : ℕ) (k : Bytes)
    → IsMap (users.profile subject)
    → get k (with_profile (said_base nonce auth_time) (users.profile subject))
      ≡ said (users.profile subject) nonce auth_time k
extra-said users subject nonce auth_time k h =
    get-with_profile k (said_base nonce auth_time) (users.profile subject) h
    ∙ ap
        (λ o. elim (if k == codes "sub" then none else get k (users.profile subject)) [
          | some v ↦ some v
          | none ↦ o
        ])
        (get-said_base nonce auth_time k)

pub id_claims-IsIdToken :
    (cfg : Config) (users : UserStore) (now : ℕ) (id subject nonce : Bytes) (auth_time : ℕ)
    (c : Claims)
    → IsMap (users.profile subject)
    → SameClaims (id_claims cfg users now id subject nonce auth_time) c
    → IsIdToken cfg users now id subject nonce auth_time c
unfolding id_claims
id_claims-IsIdToken cfg users now id subject nonce auth_time c profile same = record {
  issuer = same.issuer;
  subject_claim = same.subject;
  audience = same.audience;
  issued_at = same.issued_at;
  expires_at = same.expires_at ∙ omega arith;
  not_before = same.not_before;
  jwt_id = same.jwt_id;
  scope = same.scope;
  extra = λ k. same.extra k ∙ extra-said users subject nonce auth_time k profile;
}
