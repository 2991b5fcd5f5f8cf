-- ===== src/Session/Stateless.antt =====
-- stateless.go: JWTStore.
pub mod Extras
pub mod RoundTrip
use micro_identity_sidecar.Prelude.{
  ℕ, ◌+◌, ◌*◌, Option, none, some, List, [], ◌∷◌, Bytes, ◌==◌, Result, ok, err, ◌>>=◌, or_fail,
  if◌then◌else◌,
}
use micro_identity_sidecar.Prelude.Map.{Map}
use micro_identity_sidecar.Platform.{Json, null, bool, num, str, strs, raw, Platform}
use micro_identity_sidecar.Jwt.Claims.{Claims}
use micro_identity_sidecar.Jwt.Token.{Signer, Verifier, sign, verify, peek_kid, b64, unix, second}
use micro_identity_sidecar.Keys.{Random, Manager, active_signer, verifier}
use micro_identity_sidecar.Session.{
  Session, Error, not_found, no_random, no_signer, unsigned, wrapped, revocation_unsupported, World,
  Store,
}

-- randomID
unfoldable pub random_id : Random → Option Bytes
random_id none = none
random_id (some r) = some (b64 r)

-- for k, v := range sess.Extra { claims.Extra[k] = v }
unfoldable pub json_values : Map Bytes → Map Json
json_values [] = []
json_values ((k, v) ∷ m) = (k, str v) ∷ json_values m

-- if str, ok := v.(string); ok { sess.Extra[k] = str }
unfoldable pub text_values : Map Json → Map Bytes
text_values [] = []
text_values ((k, str v) ∷ m) = (k, v) ∷ text_values m
text_values ((k, null) ∷ m) = text_values m
text_values ((k, bool b) ∷ m) = text_values m
text_values ((k, num n) ∷ m) = text_values m
text_values ((k, strs l) ∷ m) = text_values m
text_values ((k, raw s) ∷ m) = text_values m

-- The id that a session comes with, or a fresh one.
unfoldable pub id_for : Random → Session → Option Bytes
id_for random s = if s.id == [] then random_id random else some s.id

-- The claims of a new session with the id `id`.
unfoldable pub claims_for : Bytes → ℕ → ℕ → Bytes → Session → Claims
claims_for issuer ttl now id s = record {
  issuer = issuer;
  subject = s.subject;
  audience = s.client_id ∷ [];
  expires_at = unix (now + ttl);
  not_before = 0;
  issued_at = unix now;
  jwt_id = id;
  scope = s.scope;
  extra = json_values s.extra;
}

unfoldable pub first_or_empty : List Bytes → Bytes
first_or_empty [] = []
first_or_empty (a ∷ l) = a

-- The session that verified claims stand for.
unfoldable pub session_of : Claims → Session
session_of c = record {
  id = c.jwt_id;
  subject = c.subject;
  client_id = first_or_empty c.audience;
  scope = c.scope;
  issued_at = c.issued_at * second;
  expires_at = c.expires_at * second;
  extra = text_values c.extra;
}

module _ (p : Platform) {B : Type 0} (issuer : Bytes) (ttl : ℕ) where
  unfoldable pub create : ℕ → Random → Session → World B → World B × Result Error Bytes
  create now random s w = elim (id_for random s) [
    | none ↦ (w, err no_random)
    | some id ↦ elim (active_signer w.keys) [
      | none ↦ (w, err no_signer)
      | some signer ↦ elim (sign p signer (claims_for issuer ttl now id s)) [
        | ok token ↦ (w, ok token)
        | err e ↦ (w, err (wrapped "sign session jwt" (unsigned e)))
      ]
    ]
  ]

  -- The verifier of the key that the token names; a nil verifier would panic.
  unfoldable pub verifier_for : Bytes → World B → Result Error Verifier
  verifier_for token w = elim (peek_kid p token) [
    | err e ↦ err not_found
    | ok (kid, alg) ↦ elim (verifier p w.keys kid) [
      | none ↦ err not_found
      | some none ↦ err no_signer
      | some (some v) ↦ ok v
    ]
  ]

  unfoldable pub validate : ℕ → Bytes → World B → Result Error Session
  validate now token w = elim (verifier_for token w) [
    | err e ↦ err e
    | ok v ↦ elim (verify p now v token) [
      | err e ↦ err not_found
      | ok claims ↦ ok (session_of claims)
    ]
  ]

  unfoldable pub revoke : Bytes → World B → World B × Option Error
  revoke token w = (w, some revocation_unsupported)

  unfoldable pub revoke_all_for_subject : Bytes → World B → World B × ℕ × Option Error
  revoke_all_for_subject u w = (w, 0, some revocation_unsupported)

  -- JWTStore as a Store.
  abbrev pub jwt_store : Store (World B)
  jwt_store = record {
    kind = "stateless-jwt";
    create = create;
    validate = validate;
    revoke = revoke;
    revoke_all_for_subject = revoke_all_for_subject;
  }
