-- ===== src/Middleware/Agreement.antt =====
-- middleware.go: the remote validator against the sidecar's own judgement of a token.
use micro_identity_sidecar.Prelude.{
  ℕ, ◌≡◌, refl, ◌∙◌, Bool, true, Option, none, some, [], ◌∷◌, ◌++◌, Bytes, codes, Result, ok, err,
  arith, Result-cases, inl, inr,
}
use micro_identity_sidecar.Prelude.Map.{Map, get, put, get-put_self}
use micro_identity_sidecar.Platform.{Platform, IsSound, IsEncodable, Json, str, Document}
use micro_identity_sidecar.Session.{Session, Error}
use micro_identity_sidecar.Session.Bridge.{validate_any}
use micro_identity_sidecar.Oidc.Server.{Server, State, Request, Response}
use micro_identity_sidecar.Oidc.Resources.{bearer, handle_userinfo}
use micro_identity_sidecar.Oidc.Resources.Bearer.{userinfo-eq}
use micro_identity_sidecar.Oidc.Wire.{HttpAnswer, write_json, wire}
use micro_identity_sidecar.Middleware.{
  Principal, RemoteValidator, RemoteError, principal, validate, claims_of,
}

-- Whom a validation names.
abbrev pub principal_subject : Result RemoteError Principal → Option Bytes
principal_subject (ok who) = some who.subject
principal_subject (err e) = none

abbrev pub session_subject : Result Error (Session × Bytes) → Option Bytes
session_subject (ok (s, mode)) = some s.subject
session_subject (err e) = none

-- json.Decoder reads what json.Encoder wrote, up to the newline behind it, as json.Unmarshal does.
abbrev pub ReadsLines : Platform → (Bytes → Option Document) → Type 0
ReadsLines p decode =
    (m : Map Json) (text : Bytes) → p.render m ≡ some text → decode (text ++ 10 ∷ []) ≡ p.parse text

module _ (p : Platform) (sound : IsSound p) (other_body : Response → Bytes) {B : Type 0}
    (server : Server B) (is_url : Bytes → Bool) (send : Bytes → Bytes → Option HttpAnswer)
    (decode : Bytes → Option Document) (reads : ReadsLines p decode) where
  -- The claims that /userinfo answers for a session.
  abbrev pub userinfo_claims : Session → Map Json
  userinfo_claims s = put (codes "sub") (str s.subject) (server.users.profile s.subject)

  -- A request reaches the sidecar with its token, and what the sidecar writes comes back.
  pub record IsDelivered (v : RemoteValidator) (token : Bytes) (now : ℕ) (r : Request)
      (st : State B) : Type 0 where
    pub url : is_url (v.base_url ++ codes "/userinfo") ≡ true
    pub received : r.authorization ≡ bearer ++ token
    pub returned :
        send (v.base_url ++ codes "/userinfo") (bearer ++ token)
        ≡ some (wire p other_body (handle_userinfo p server now r st))

  decoded :
      (s : Session)
      → IsEncodable p (userinfo_claims s)
      → (back : Map Json) × (claims_of
            (decode (write_json p other_body 200 (userinfo_claims s)).body)
          ≡ some back)
        × (get (codes "sub") back ≡ some (str s.subject))
  unfolding write_json
  decoded s h =
      let c = sound.codec (userinfo_claims s) h in
      (
        c.back,
        rw (c.rendered, reads (userinfo_claims s) c.text c.rendered, c.parsed) refl,
        c.same (codes "sub")
            ∙ get-put_self (codes "sub") (str s.subject) (server.users.profile s.subject),
      )

  -- On a sound platform, with claims that JSON can carry, the remote validator accepts exactly the
  -- tokens that the bridge accepts, of either mode, and names the same subject.
  pub validate-agrees :
      (v : RemoteValidator) (token : Bytes) (now : ℕ) (r : Request) (st : State B)
      → IsDelivered v token now r st
      → ((s : Session) (mode : Bytes)
          → validate_any server.bridge now token st.world ≡ ok (s, mode)
          → IsEncodable p (userinfo_claims s))
      → principal_subject (validate is_url send decode v token)
        ≡ session_subject (validate_any server.bridge now token st.world)
  unfolding validate wire write_json principal
  validate-agrees v token now r st h encodable =
      let answer = userinfo-eq server p now r token st h.received in
      elim (Result-cases (validate_any server.bridge now token st.world)) [
        | inl ((s, mode), accepted) ↦
            let (back, read, named) = decoded s (encodable s mode accepted) in
            rw (h.url, h.returned, answer, accepted, validate) (rw read (ground (arith, named)))
        | inr (e, refused) ↦ rw (h.url, h.returned, answer, refused, validate)
      ]
