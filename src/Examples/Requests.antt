-- ===== src/Examples/Requests.antt =====
-- The theorems on the server, applied to a login and the requests after it.
use micro_identity_sidecar.Prelude.{
  ◌*◌, ◌≡◌, refl, inl, true, none, some, [], ◌∷◌, Bytes, ◌==◌, codes, arith,
}
use micro_identity_sidecar.Prelude.Map as Map
use micro_identity_sidecar.Prelude.Map.{Map}
use micro_identity_sidecar.Go.Base64.{encode, digit, sextet}
use micro_identity_sidecar.Jwt.Token.{second, b64}
use micro_identity_sidecar.Pkce as Pkce
use micro_identity_sidecar.Pkce.{challenge}
use micro_identity_sidecar.Pkce.Check.{IsVerifier}
use micro_identity_sidecar.Session.Bridge.{mode_stateful}
use micro_identity_sidecar.Session.Memory.{MemoryBackend, memory_ops}
use micro_identity_sidecar.Oidc.Clients.{Client, ClientRegistry, lookup, contains, redirect_allowed}
use micro_identity_sidecar.Oidc.Users as Users
use micro_identity_sidecar.Oidc.Users.{UserStore, demo_user_store}
use micro_identity_sidecar.Oidc.Server.{Config, Server, State, Request, redirect, value, form_value}
use micro_identity_sidecar.Oidc.Issue.{credentials, issue_token_set}
use micro_identity_sidecar.Oidc.Token.{handle_token}
use micro_identity_sidecar.Oidc.Token.Conditions.{IsCodeRequest, IsAuthenticated}
use micro_identity_sidecar.Oidc.Authorize.{
  parameter, random_token, validate_auth_request, grant, authorize_process_login, handle_authorize,
}
use micro_identity_sidecar.Oidc.Authorize.Grants.{IsLogin, handle_authorize-IsLogin}
use micro_identity_sidecar.Oidc.History.{sidecar_server}
use micro_identity_sidecar.Oidc.History.Flow.{IsFollowUp, login_then_tokens}
use micro_identity_sidecar.Examples.Toy.{toy, bytes_of}
use micro_identity_sidecar.Examples.Sessions.{issuer, world}

abbrev pub cfg : Config
cfg = record {
  issuer = issuer;
  auth_code_ttl = 60 * second;
  refresh_token_ttl = 900 * second;
  default_session_mode = mode_stateful;
  stateless_ttl = 60 * second;
  stateful_ttl = 60 * second;
}

-- A public client with one redirect URI.
abbrev pub app : Client
app = record {
  id = codes "app";
  secret = [];
  public = true;
  redirect_uris = codes "https://app/cb" ∷ [];
  session_mode = mode_stateful;
}

abbrev pub clients : ClientRegistry
clients = (codes "app", app) ∷ []

abbrev pub server : Server MemoryBackend
server = sidecar_server toy memory_ops cfg clients (demo_user_store toy)

abbrev pub start : State MemoryBackend
start = record { codes = []; world = world }

-- 43 unreserved characters
abbrev pub verifier : Bytes
verifier = codes "abcdefghijklmnopqrstuvwxyz0123456789-._~ABC"

abbrev pub code_challenge : Bytes
code_challenge = challenge toy verifier

abbrev login_request : Request
login_request = record {
  method = codes "POST";
  post_form =
      (codes "client_id", codes "app")
      ∷ (codes "redirect_uri", codes "https://app/cb")
      ∷ (codes "response_type", codes "code")
      ∷ (codes "scope", codes "offline_access")
      ∷ (codes "code_challenge", code_challenge)
      ∷ (codes "code_challenge_method", codes "S256")
      ∷ (codes "username", codes "guest")
      ∷ (codes "password", codes "guest")
      ∷ [];
  query = [];
  parses = true;
  basic_auth = none;
  authorization = [];
}

abbrev pub code : Bytes
code = b64 (4 ∷ 5 ∷ [])

logged_in :
    (handle_authorize server (6 * second) (some (4 ∷ 5 ∷ [])) login_request start).1
    ≡ redirect (codes "https://app/cb") code []
unfolding handle_authorize authorize_process_login validate_auth_request parameter form_value value
    Map.get lookup redirect_allowed contains random_token grant sidecar_server Users.authenticate
    Users.by_username bytes_of Pkce.verify_method Pkce.challenge b64 encode sextet digit ◌==◌
logged_in = refl

handle_authorize-IsLogin_example :
    IsLogin server
      (6 * second)
      (some (4 ∷ 5 ∷ []))
      login_request
      start
      (handle_authorize server (6 * second) (some (4 ∷ 5 ∷ [])) login_request start).0
      (codes "https://app/cb")
      code
      []
handle_authorize-IsLogin_example =
    handle_authorize-IsLogin server (6 * second) (some (4 ∷ 5 ∷ [])) login_request start
      (codes "https://app/cb") code [] logged_in

abbrev pub code_request : Request
code_request = record {
  method = codes "POST";
  post_form =
      (codes "grant_type", codes "authorization_code")
      ∷ (codes "code", code)
      ∷ (codes "redirect_uri", codes "https://app/cb")
      ∷ (codes "code_verifier", verifier)
      ∷ (codes "client_id", codes "app")
      ∷ [];
  query = [];
  parses = true;
  basic_auth = none;
  authorization = [];
}

abbrev pub logged : State MemoryBackend
logged = (handle_authorize server (6 * second) (some (4 ∷ 5 ∷ [])) login_request start).0

pub is_code_request : IsCodeRequest code_request
unfolding value Map.get ◌==◌
is_code_request = record { posted = refl; parsed = refl; grant_type = refl }

pub authenticated : IsAuthenticated toy server code_request app
unfolding value Map.get ◌==◌ credentials lookup sidecar_server
authenticated = record { registered = refl; secret = inl refl }

pub is_verifier : IsVerifier verifier
is_verifier = record { characters = omega arith; long = omega arith; short = omega arith }

follow_up : IsFollowUp toy server login_request code_request (codes "https://app/cb") code app
unfolding value Map.get ◌==◌ credentials lookup sidecar_server parameter form_value
follow_up = record {
  code_request = is_code_request;
  registered = refl;
  authenticated = authenticated;
  same_code = refl;
  named = unfold b64 encode digit sextet in λ e. cc;
  same_redirect = refl;
  verifier = is_verifier;
  proven = refl;
}

login_then_tokens_example :
    (subject : Bytes) × (Users.authenticate toy
        (form_value login_request (codes "username"))
        (form_value login_request (codes "password"))
      ≡ some subject)
    × ((handle_token toy server
          (9 * second)
          (some (1 ∷ 2 ∷ []))
          (some (3 ∷ []))
          code_request
          logged).1
        ≡ (issue_token_set toy server
            (9 * second)
            (some (1 ∷ 2 ∷ []))
            (some (3 ∷ []))
            app
            subject
            (parameter login_request (codes "scope"))
            (parameter login_request (codes "nonce"))
            (6 * second)
            world).1)
unfolding sidecar_server
login_then_tokens_example =
    login_then_tokens toy server (6 * second) (9 * second) (some (4 ∷ 5 ∷ [])) (some (1 ∷ 2 ∷ []))
      (some (3 ∷ [])) login_request code_request start (codes "https://app/cb") code [] app
      logged_in follow_up (omega arith)
