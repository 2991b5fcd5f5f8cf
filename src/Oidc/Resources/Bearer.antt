-- ===== src/Oidc/Resources/Bearer.antt =====
-- userinfo.go: the answer to a bearer token.
use micro_identity_sidecar.Prelude.{
  ℕ, ◌≡◌, true, ◌++◌, Bytes, codes, Result, ok, err, arith, ap, ◌∙◌, Result-cases, inl, inr,
}
use micro_identity_sidecar.Prelude.Map.{put}
use micro_identity_sidecar.Go.Strings.{
  has_prefix, trim_prefix, has_prefix-append, trim_prefix-append,
}
use micro_identity_sidecar.Platform.{Platform, str}
use micro_identity_sidecar.Session.{Session, Error}
use micro_identity_sidecar.Session.Bridge.{validate_any}
use micro_identity_sidecar.Oidc.Server.{Server, State, Request, Response, oauth_error, userinfo}
use micro_identity_sidecar.Oidc.Resources.{bearer, handle_userinfo}

module _ {B : Type 0} (server : Server B) where
  -- The answer of /userinfo to the session that the bridge finds, if any.
  abbrev pub answer_to : Result Error (Session × Bytes) → Response
  answer_to (ok (s, mode)) =
      userinfo (put (codes "sub") (str s.subject) (server.users.profile s.subject))
  answer_to (err e) = oauth_error 401 "invalid_token" "access token is invalid, expired, or revoked"

  pub userinfo-eq :
      (p : Platform) (now : ℕ) (r : Request) (token : Bytes) (st : State B)
      → r.authorization ≡ bearer ++ token
      → handle_userinfo p server now r st
        ≡ answer_to (validate_any server.bridge now token st.world)
  unfolding handle_userinfo
  userinfo-eq p now r token st sent =
      let prefixed : has_prefix r.authorization bearer ≡ true =
        ap (λ a. has_prefix a bearer) sent ∙ has_prefix-append bearer token in
      let trimmed : trim_prefix r.authorization bearer ≡ token =
        ap (λ a. trim_prefix a bearer) sent ∙ trim_prefix-append bearer token in
      elim (Result-cases (validate_any server.bridge now token st.world)) [
        | inl (s, known) ↦ ground (arith, known)
        | inr (e, unknown) ↦ ground (arith, unknown)
      ]
