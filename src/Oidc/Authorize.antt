-- ===== src/Oidc/Authorize.antt =====
-- internal/oidc/authorize.go: the authorization endpoint.
pub mod Grants
use micro_identity_sidecar.Prelude.{
  ℕ, ◌+◌, not, Bool, false, Option, none, some, List, [], Bytes, ◌==◌, codes, String, Result, ok,
  err, if◌then◌else◌,
}
use micro_identity_sidecar.Prelude.Map.{put}
use micro_identity_sidecar.Jwt.Token.{b64}
use micro_identity_sidecar.Keys.{Random}
use micro_identity_sidecar.Pkce.{verify_method}
use micro_identity_sidecar.Oidc.Clients.{Client, redirect_allowed, lookup}
use micro_identity_sidecar.Oidc.Server.{
  AuthCode, Server, State, Request, LoginPage, Response, oauth_error, login, redirect, value,
  form_value, prune_expired_codes,
}

-- validatedAuthRequest
pub record AuthRequest : Type 0 where
  pub client : Client
  pub redirect_uri : Bytes
  pub scope : Bytes
  pub state : Bytes
  pub nonce : Bytes
  pub code_challenge : Bytes
  pub code_challenge_method : Bytes

-- q.Get, for the values of a POST and of any other method
unfoldable pub parameter : Request → Bytes → Bytes
parameter r k = if r.method == codes "POST" then form_value r k else value r.query k

-- randomToken
unfoldable pub random_token : Random → Option Bytes
random_token none = none
random_token (some r) = some (b64 r)

abbrev page : AuthRequest → String → LoginPage
page req error = record {
  client_id = req.client.id;
  redirect_uri = req.redirect_uri;
  response_type = codes "code";
  scope = req.scope;
  state = req.state;
  nonce = req.nonce;
  code_challenge = req.code_challenge;
  code_challenge_method = req.code_challenge_method;
  error = error;
}

-- The code that a login of `subject` gets.
abbrev pub granted_code : AuthRequest → Bytes → Bytes → ℕ → ℕ → AuthCode
granted_code req code subject now ttl = record {
  code = code;
  client_id = req.client.id;
  redirect_uri = req.redirect_uri;
  subject = subject;
  scope = req.scope;
  code_challenge = req.code_challenge;
  code_challenge_method = req.code_challenge_method;
  nonce = req.nonce;
  auth_time = now;
  expires_at = now + ttl;
  used = false;
}

-- The request that passed every check.
abbrev valid_request : Client → Request → AuthRequest
valid_request client r = record {
  client = client;
  redirect_uri = parameter r (codes "redirect_uri");
  scope = parameter r (codes "scope");
  state = parameter r (codes "state");
  nonce = parameter r (codes "nonce");
  code_challenge = parameter r (codes "code_challenge");
  code_challenge_method = parameter r (codes "code_challenge_method");
}

module _ {B : Type 0} (server : Server B) where
  -- validateAuthRequest; the status of every refusal is 400.
  unfoldable pub validate_auth_request : Request → Result String AuthRequest
  validate_auth_request r = elim (lookup (parameter r (codes "client_id")) server.clients) [
    | none ↦ err "unknown client_id"
    | some client ↦
        if not (redirect_allowed client (parameter r (codes "redirect_uri")))
        then err "redirect_uri is not registered for this client"
        else if not (parameter r (codes "response_type") == codes "code")
        then err
            "unsupported_response_type: only 'code' is supported (OAuth 2.1 removes the implicit grant)"
        else if parameter r (codes "code_challenge") == []
        then err
            "code_challenge is required (OAuth 2.1 mandates PKCE for every authorization code grant)"
        else elim (verify_method (parameter r (codes "code_challenge_method"))) [
          | some e ↦ err e
          | none ↦ ok (valid_request client r)
        ]
  ]

  unfoldable pub authorize_show_login : Request → Response
  authorize_show_login r = elim (validate_auth_request r) [
    | err e ↦ oauth_error 400 "invalid_request" e
    | ok req ↦ login 200 (page req "")
  ]

  -- The codes, pruned, with a new one; the answer carries it and the state of the request.
  unfoldable pub grant : ℕ → Bytes → Bytes → AuthRequest → State B → State B × Response
  grant now code subject req st = (
    record st {
      codes =
          put code (granted_code req code subject now server.cfg.auth_code_ttl)
            (prune_expired_codes now st.codes);
    },
    redirect req.redirect_uri code req.state,
  )

  unfoldable pub authorize_process_login : ℕ → Random → Request → State B → State B × Response
  authorize_process_login now random r st = elim (validate_auth_request r) [
    | err e ↦ (st, oauth_error 400 "invalid_request" e)
    | ok req ↦
        elim (server.users.authenticate (form_value r (codes "username"))
          (form_value r (codes "password"))) [
            | none ↦ (st, login 401 (page req "Invalid username or password."))
            | some subject ↦ elim (random_token random) [
              | none ↦ (st, oauth_error 500 "server_error" "failed to generate authorization code")
              | some code ↦ grant now code subject req st
            ]
          ]
  ]

  unfoldable pub handle_authorize : ℕ → Random → Request → State B → State B × Response
  handle_authorize now random r st =
      if r.method == codes "GET"
      then (st, authorize_show_login r)
      else if r.method == codes "POST"
      then authorize_process_login now random r st
      else (st, oauth_error 405 "invalid_request" "GET or POST only")
