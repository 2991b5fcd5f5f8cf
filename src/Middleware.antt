-- ===== src/Middleware.antt =====
-- examples/middleware/middleware.go: the validator that asks the sidecar about every token.
pub mod Agreement
pub mod Local
use micro_identity_sidecar.Prelude.{
  ℕ, Bool, not, Option, none, some, List, [], ◌∷◌, ◌++◌, Bytes, eqb, codes, String, Result, ok, err,
  if◌then◌else◌,
}
use micro_identity_sidecar.Prelude.Map.{Map, get}
use micro_identity_sidecar.Go.Strings.{has_prefix, trim_prefix, trim_right}
use micro_identity_sidecar.Platform.{Json, str, Document, nothing, object, other}
use micro_identity_sidecar.Oidc.Resources.{bearer}
use micro_identity_sidecar.Oidc.Wire.{HttpAnswer}

pub record Principal : Type 0 where
  pub subject : Bytes
  pub claims : Map Json

-- RemoteValidator; its HTTP client is the function `send` below.
pub record RemoteValidator : Type 0 where
  pub base_url : Bytes

-- NewRemoteValidator
unfoldable pub new_remote_validator : Bytes → RemoteValidator
new_remote_validator base_url = record { base_url = trim_right base_url b'/' }

-- What goes wrong in Validate.
pub data RemoteError : Type 0 where
  bad_url unreachable undecodable : RemoteError
  rejected : ℕ → RemoteError

-- Decode into a map: null leaves it nil, and other values are refused.
abbrev pub claims_of : Option Document → Option (Map Json)
claims_of none = none
claims_of (some nothing) = some []
claims_of (some (object m)) = some m
claims_of (some other) = none

-- claims["sub"].(string), empty if it is no string.
abbrev pub string_or_empty : Option Json → Bytes
string_or_empty (some (str s)) = s
string_or_empty _ = []

unfoldable pub principal : Map Json → Principal
principal claims = record { subject = string_or_empty (get (codes "sub") claims); claims = claims }

-- `is_url` is whether NewRequest accepts a URL, `send` what Do gives for a GET of a URL with an
-- Authorization header, and `decode` json.Decoder.Decode of a body.
module _ (is_url : Bytes → Bool) (send : Bytes → Bytes → Option HttpAnswer)
    (decode : Bytes → Option Document) where
  -- RemoteValidator.Validate
  unfoldable pub validate : RemoteValidator → Bytes → Result RemoteError Principal
  validate v token =
      if not (is_url (v.base_url ++ codes "/userinfo"))
      then err bad_url
      else elim (send (v.base_url ++ codes "/userinfo") (bearer ++ token)) [
        | none ↦ err unreachable
        | some a ↦
            if not (eqb a.status 200)
            then err (rejected a.status)
            else elim (claims_of (decode a.body)) [
              | none ↦ err undecodable
              | some claims ↦ ok (principal claims)
            ]
      ]

  -- RemoteValidator.Middleware around a handler, which reads the principal from the context of the
  -- request; an unauthorized reply carries its WWW-Authenticate header.
  module _ {R : Type 0} (unauthorized : String → R) (next : Option Principal → R) where
    unfoldable pub middleware : RemoteValidator → Bytes → R
    middleware v authorization =
        if not (has_prefix authorization bearer)
        then unauthorized "Bearer realm=\"app\""
        else elim (validate v (trim_prefix authorization bearer)) [
          | err e ↦ unauthorized "Bearer error=\"invalid_token\""
          | ok found ↦ next (some found)
        ]

-- FromContext: the principal, and whether there is one.
unfoldable pub from_context : Option Principal → Option Principal × Bool
from_context none = (none, Bool.false)
from_context (some found) = (some found, Bool.true)
