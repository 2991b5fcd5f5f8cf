-- ===== src/Oidc/Issue.antt =====
-- internal/oidc/token.go: the authentication of clients, and the tokens of a response.
use micro_identity_sidecar.Prelude.{
  ℕ, ◌+◌, ◌*◌, ◌/◌, Bool, none, some, [], ◌∷◌, Bytes, ◌==◌, codes, String, Result, ok, err,
  if◌then◌else◌,
}
use micro_identity_sidecar.Prelude.Map.{Map, put}
use micro_identity_sidecar.Go.Fields.{fields}
use micro_identity_sidecar.Platform.{Platform, Json, num, str}
use micro_identity_sidecar.Jwt.Claims.{Claims}
use micro_identity_sidecar.Jwt.Token.{sign, second, unix}
use micro_identity_sidecar.Keys.{Random, active_signer}
use micro_identity_sidecar.Session.{Session, Error, no_signer, unsigned, World}
use micro_identity_sidecar.Session.Bridge as Bridge
use micro_identity_sidecar.Session.Bridge.{mode_stateless, mode_stateful}
use micro_identity_sidecar.Oidc.Clients.{Client, lookup, contains}
use micro_identity_sidecar.Oidc.Users.{UserStore}
use micro_identity_sidecar.Oidc.Server.{
  Config, Server, Request, Response, oauth_error, token_set, value,
}

-- The refusals that several branches share.
abbrev pub unauthorized : String → Response
unauthorized code = oauth_error 401 code "client authentication failed"

abbrev pub invalid_grant : String → Response
invalid_grant why = oauth_error 400 "invalid_grant" why

abbrev pub server_error : String → Response
server_error why = oauth_error 500 "server_error" why

-- The id and the secret that a request presents: of its basic authentication, or of its form.
unfoldable pub credentials : Request → Bytes → Bytes × Bytes
credentials r id = elim r.basic_auth [
  | none ↦ (id, value r.post_form (codes "client_secret"))
  | some basic ↦ basic
]

unfoldable pub has_scope : Bytes → Bytes → Bool
has_scope scope want = contains (fields scope) want

unfoldable pub session_mode_for : Config → Client → Bytes
session_mode_for cfg c =
    if c.session_mode == mode_stateful
    then mode_stateful
    else if c.session_mode == mode_stateless
    then mode_stateless
    else cfg.default_session_mode

unfoldable pub access_token_ttl : Config → Bytes → ℕ
access_token_ttl cfg mode = if mode == mode_stateful then cfg.stateful_ttl else cfg.stateless_ttl

-- for k, v := range profile { if k != "sub" { extra[k] = v } }
unfoldable pub with_profile : Map Json → Map Json → Map Json
with_profile extra [] = extra
with_profile extra ((k, v) ∷ m) = with_profile (if k == codes "sub" then extra else put k v extra) m

-- The claims of an id_token.
unfoldable pub id_claims : Config → UserStore → ℕ → Bytes → Bytes → Bytes → ℕ → Claims
id_claims cfg users now client_id subject nonce auth_time =
    let extra = (codes "auth_time", num (unix auth_time)) ∷ [] in
    record {
      issuer = cfg.issuer;
      subject = subject;
      audience = client_id ∷ [];
      expires_at = unix (now + 600 * second);
      not_before = 0;
      issued_at = unix now;
      jwt_id = [];
      scope = [];
      extra =
          with_profile (if nonce == [] then extra else put (codes "nonce") (str nonce) extra)
            (users.profile subject);
    }

-- The session that a grant stands for, before a store completes it.
abbrev pub granted : Client → Bytes → Bytes → Session
granted client subject scope = record {
  id = [];
  subject = subject;
  client_id = client.id;
  scope = scope;
  issued_at = 0;
  expires_at = 0;
  extra = [];
}

module _ (p : Platform) {B : Type 0} (server : Server B) where
  unfoldable pub authenticate_client : Request → Bytes → Result String Client
  authenticate_client r body_id =
      let (id, secret) = credentials r body_id in
      elim (lookup id server.clients) [
        | none ↦ err "invalid_client"
        | some client ↦
            if client.public
            then ok client
            else if secret == client.secret
            then ok client
            else err "invalid_client"
      ]

  unfoldable pub mint_id_token : ℕ → Bytes → Bytes → Bytes → ℕ → World B → Result Error Bytes
  mint_id_token now client_id subject nonce auth_time w = elim (active_signer w.keys) [
    | none ↦ err no_signer
    | some signer ↦
        elim (sign p signer
          (id_claims server.cfg server.users now client_id subject nonce auth_time)) [
            | ok token ↦ ok token
            | err e ↦ err (unsigned e)
          ]
  ]

  -- The id_token of a response, empty if the scope does not ask for one.
  unfoldable pub id_token_for :
      ℕ → Client → Bytes → Bytes → Bytes → ℕ → World B → Result Error Bytes
  id_token_for now client subject scope nonce auth_time w =
      if has_scope scope (codes "openid")
      then mint_id_token now client.id subject nonce auth_time w
      else ok []

  -- The refresh token of a response, empty if the scope does not ask for one.
  unfoldable pub refresh_token_for :
      ℕ → Random → Client → Bytes → Bytes → World B → World B × Result Error Bytes
  refresh_token_for now random client subject scope w =
      if has_scope scope (codes "offline_access")
      then server.refresh_store.create now random (granted client subject scope) w
      else (w, ok [])

  -- The tail of issueTokenSet, from the access token on.
  unfoldable pub finish_token_set :
      ℕ → Random → Client → Bytes → Bytes → Bytes → ℕ → Bytes → World B → World B × Response
  finish_token_set now random client subject scope nonce auth_time access w =
      elim (id_token_for now client subject scope nonce auth_time w) [
        | err e ↦ (w, server_error "failed to mint id_token")
        | ok id_token ↦
            let (w', refreshed) = refresh_token_for now random client subject scope w in
            (
              w',
              elim refreshed [
                | err e ↦ server_error "failed to mint refresh_token"
                | ok refresh ↦ token_set (record {
                  access_token = access;
                  token_type = codes "Bearer";
                  expires_in =
                      access_token_ttl server.cfg (session_mode_for server.cfg client) / second;
                  id_token = id_token;
                  refresh_token = refresh;
                  scope = scope;
                })
              ],
            )
      ]

  -- issueTokenSet, on what the random source gives for the access and for the refresh token.
  unfoldable pub issue_token_set :
      ℕ → Random → Random → Client → Bytes → Bytes → Bytes → ℕ → World B → World B × Response
  issue_token_set now for_access for_refresh client subject scope nonce auth_time w =
      let (w', made) =
        Bridge.create server.bridge (session_mode_for server.cfg client) now for_access
          (granted client subject scope) w in
      elim made [
        | err e ↦ (w', server_error "failed to mint access token")
        | ok access ↦
            finish_token_set now for_refresh client subject scope nonce auth_time access w'
      ]
