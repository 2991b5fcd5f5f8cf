-- ===== src/Examples/Exchanges.antt =====
-- The theorems on the exchange of a code for tokens, applied to a code that a login gave.
use micro_identity_sidecar.Prelude.{false, ◌*◌, ◌≡◌, refl, some, [], ◌∷◌, ◌==◌, codes}
use micro_identity_sidecar.Prelude.Map as Map
use micro_identity_sidecar.Prelude.Map.{Map}
use micro_identity_sidecar.Go.Base64.{encode, digit, sextet}
use micro_identity_sidecar.Jwt.Token.{second, b64}
use micro_identity_sidecar.Pkce as Pkce
use micro_identity_sidecar.Pkce.{challenge}
use micro_identity_sidecar.Session.Bridge.{mode_stateful}
use micro_identity_sidecar.Session.Memory as Memory
use micro_identity_sidecar.Session.Memory.{MemoryBackend, memory_ops, memory-IsTable}
use micro_identity_sidecar.Session.Opaque as Opaque
use micro_identity_sidecar.Oidc.Clients.{lookup, contains, redirect_allowed}
use micro_identity_sidecar.Oidc.Users as Users
use micro_identity_sidecar.Oidc.Users.{UserStore, demo_user_store}
use micro_identity_sidecar.Oidc.Server.{
  AuthCode, State, TokenResponse, token_set, value, form_value, prune_expired_codes,
}
use micro_identity_sidecar.Oidc.Issue.{
  credentials, authenticate_client, issue_token_set, finish_token_set, id_token_for,
  refresh_token_for, has_scope, session_mode_for, access_token_ttl,
}
use micro_identity_sidecar.Oidc.Token.{check_code, exchange, token_authorization_code, handle_token}
use micro_identity_sidecar.Go.Fields.{fields, fields_from, listed, space}
use micro_identity_sidecar.Session.Bridge as Bridge
use micro_identity_sidecar.Session.Bridge.{store_for, sidecar_bridge}
use micro_identity_sidecar.Oidc.Token.Exchange.{IsExchange, handle_token-IsExchange}
use micro_identity_sidecar.Oidc.Authorize.{
  parameter, random_token, validate_auth_request, grant, authorize_process_login, handle_authorize,
}
use micro_identity_sidecar.Oidc.History.{sidecar_server}
use micro_identity_sidecar.Examples.Toy.{toy, bytes_of}
use micro_identity_sidecar.Examples.Requests.{
  server, start, code_challenge, code, code_request, logged, is_code_request,
}

abbrev response : TokenResponse
response = record {
  access_token = b64 (1 ∷ 2 ∷ []);
  token_type = codes "Bearer";
  expires_in = 60;
  id_token = [];
  refresh_token = b64 (3 ∷ []);
  scope = codes "offline_access";
}

exchanged :
    (handle_token toy server (9 * second) (some (1 ∷ 2 ∷ [])) (some (3 ∷ [])) code_request logged).1
    ≡ token_set response
unfolding handle_authorize authorize_process_login validate_auth_request parameter form_value value
    Map.get Map.put Map.delete Map.delete_where prune_expired_codes lookup redirect_allowed contains
    random_token grant sidecar_server Users.authenticate Users.by_username bytes_of
    Pkce.verify_method Pkce.challenge b64 encode sextet digit ◌==◌ handle_token
    token_authorization_code authenticate_client credentials exchange check_code issue_token_set
    finish_token_set id_token_for refresh_token_for has_scope fields fields_from listed space
    session_mode_for access_token_ttl Bridge.create store_for sidecar_bridge Opaque.create
    Opaque.store Memory.put Pkce.verify Pkce.validate_verifier_format Pkce.matches
    Pkce.all_unreserved Pkce.unreserved
exchanged = refl

handle_token-IsExchange_example :
    IsExchange toy server
      (9 * second)
      (some (1 ∷ 2 ∷ []))
      (some (3 ∷ []))
      code_request
      logged
      (handle_token toy server
        (9 * second)
        (some (1 ∷ 2 ∷ []))
        (some (3 ∷ []))
        code_request
        logged).0
      (token_set response)
handle_token-IsExchange_example =
    handle_token-IsExchange toy server (9 * second) (some (1 ∷ 2 ∷ [])) (some (3 ∷ [])) code_request
      logged response is_code_request exchanged

abbrev pub issued_code : AuthCode
issued_code = record {
  code = code;
  client_id = codes "app";
  redirect_uri = codes "https://app/cb";
  subject = codes "user-guest";
  scope = codes "read";
  code_challenge = code_challenge;
  code_challenge_method = codes "S256";
  nonce = [];
  auth_time = 6 * second;
  expires_at = 66 * second;
  used = false;
}

abbrev pub issued_state : State MemoryBackend
issued_state = record start { codes = (code, issued_code) ∷ [] }
