-- ===== src/ExampleApp/Whoami.antt =====
-- exampleapp/main.go: whom the application takes a caller for.
use micro_identity_sidecar.Prelude.{
  ℕ, ◌≡◌, ap, ◌∙◌, Bool, Option, none, some, Bytes, codes, ok, if◌then◌else◌, Bool-cases,
  Result-cases, inl, inr, ◌==◌,
}
use micro_identity_sidecar.Go.Strings.{has_prefix, trim_prefix}
use micro_identity_sidecar.Platform.{Platform, IsSound, IsEncodable, Document}
use micro_identity_sidecar.Session.{Session}
use micro_identity_sidecar.Session.Bridge.{validate_any}
use micro_identity_sidecar.Oidc.Server.{Server, State, Request, Response}
use micro_identity_sidecar.Oidc.Resources.{bearer}
use micro_identity_sidecar.Oidc.Wire.{HttpAnswer}
use micro_identity_sidecar.Middleware.{RemoteValidator, validate, middleware, from_context}
use micro_identity_sidecar.Middleware.Agreement.{
  principal_subject, session_subject, ReadsLines, IsDelivered, userinfo_claims, validate-agrees,
}
use micro_identity_sidecar.ExampleApp.{
  AppReply, healthy, no_principal, not_found, whoami, unauthorized, protected, validator, serve_app,
}

-- The subject that a reply shows.
abbrev pub whoami_subject : AppReply → Option Bytes
whoami_subject (whoami subject claims) = some subject
whoami_subject healthy = none
whoami_subject no_principal = none
whoami_subject not_found = none
whoami_subject (unauthorized why) = none

module _ (p : Platform) (sound : IsSound p) (other_body : Response → Bytes) {B : Type 0}
    (server : Server B) (is_url : Bytes → Bool) (send : Bytes → Bytes → Option HttpAnswer)
    (decode : Bytes → Option Document) (reads : ReadsLines p decode) (env : Bytes → Bytes) where
  guarded :
      (v : RemoteValidator) (authorization : Bytes)
      → whoami_subject (middleware is_url send decode unauthorized protected v authorization) ≡ (
          if has_prefix authorization bearer
          then principal_subject (validate is_url send decode v (trim_prefix authorization bearer))
          else none)
  unfolding middleware protected from_context
  guarded v authorization = elim (Bool-cases (has_prefix authorization bearer)) [
    | inr bare ↦ rw (bare, middleware)
    | inl prefixed ↦
        elim (Result-cases (validate is_url send decode v (trim_prefix authorization bearer))) [
          | inl (who, found) ↦ rw (prefixed, found, middleware)
          | inr (e, failed) ↦ rw (prefixed, failed, middleware)
        ]
  ]

  -- The example application shows its caller as a subject exactly if the Authorization header
  -- carries a bearer token that the sidecar's bridge accepts, in either mode, and as that token's
  -- subject, if the application reaches a sound sidecar and JSON can carry the subject's claims.
  pub whoami-agrees :
      (authorization : Bytes) (now : ℕ) (r : Request) (st : State B)
      → IsDelivered p sound other_body server is_url send decode reads
          (validator is_url send decode env)
          (trim_prefix authorization bearer)
          now
          r
          st
      → ((s : Session) (mode : Bytes)
          → validate_any server.bridge now (trim_prefix authorization bearer) st.world
            ≡ ok (s, mode)
          → IsEncodable p (userinfo_claims p sound other_body server is_url send decode reads s))
      → whoami_subject (serve_app is_url send decode env (codes "/api/whoami") authorization) ≡ (
          if has_prefix authorization bearer
          then session_subject
              (validate_any server.bridge now (trim_prefix authorization bearer) st.world)
          else none)
  unfolding serve_app ◌==◌
  whoami-agrees authorization now r st delivered encodable =
      guarded (validator is_url send decode env) authorization
      ∙ ap (λ o. if has_prefix authorization bearer then o else none)
          (validate-agrees p sound other_body server is_url send decode reads
            (validator is_url send decode env) (trim_prefix authorization bearer) now r st delivered
            encodable)
