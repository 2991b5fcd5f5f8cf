-- ===== src/Examples/Replays.antt =====
-- The theorems on codes and refresh tokens that come a second time.
use micro_identity_sidecar.Prelude.{
  ◌*◌, ◌≡◌, ◌≢◌, refl, true, none, some, List, [], ◌∷◌, ◌++◌, Bytes, ◌==◌, codes,
}
use micro_identity_sidecar.Prelude.Map as Map
use micro_identity_sidecar.Go.Base64.{encode, digit, sextet}
use micro_identity_sidecar.Go.Fields.{fields, fields_from, listed, space}
use micro_identity_sidecar.Jwt.Token.{second, b64}
use micro_identity_sidecar.Session.{expired}
use micro_identity_sidecar.Session.Bridge as Bridge
use micro_identity_sidecar.Session.Bridge.{store_for, sidecar_bridge}
use micro_identity_sidecar.Session.Memory as Memory
use micro_identity_sidecar.Session.Memory.{MemoryBackend, memory_ops, memory-IsTable}
use micro_identity_sidecar.Session.Opaque as Opaque
use micro_identity_sidecar.Session.Opaque.{hash_token}
use micro_identity_sidecar.Oidc.Clients.{lookup, contains}
use micro_identity_sidecar.Oidc.Users.{demo_user_store}
use micro_identity_sidecar.Oidc.Server.{State, Request, TokenResponse, token_set, value}
use micro_identity_sidecar.Oidc.Issue.{
  credentials, authenticate_client, issue_token_set, finish_token_set, id_token_for,
  refresh_token_for, has_scope, session_mode_for, access_token_ttl,
}
use micro_identity_sidecar.Oidc.Token.{token_refresh, rotate_refresh, renew, handle_token}
use micro_identity_sidecar.Oidc.Authorize.{random_token}
use micro_identity_sidecar.Oidc.Resources.{bearer}
use micro_identity_sidecar.Oidc.History.{Call, authorizes, sweeps, run, sidecar_server}
use micro_identity_sidecar.Oidc.History.Codes.{code_used_once}
use micro_identity_sidecar.Oidc.History.Refresh.{IsRefreshRequest, IsRenewal, refresh-IsRenewal}
use micro_identity_sidecar.Oidc.History.Replay.{refresh_used_once}
use micro_identity_sidecar.Examples.Toy.{toy, bytes_of}
use micro_identity_sidecar.Examples.Sessions.{session, world}
use micro_identity_sidecar.Examples.Requests.{
  cfg, app, clients, server, start, code, code_request, logged, is_code_request, authenticated,
}

-- A sweep, and a login attempt with another code.
abbrev calls : List Call
calls = sweeps (30 * second) ∷ authorizes (31 * second) (some (9 ∷ [])) code_request ∷ []

other_code : random_token (some (9 ∷ [])) ≢ some code
unfolding random_token b64 encode digit sextet
other_code = λ e. cc

code_used_once_example :
    (handle_token toy server (40 * second) none none code_request (
      run toy memory_ops server calls
        (handle_token toy server (9 * second) none none code_request logged).0)).1
    ≢ token_set (record {
      access_token = [];
      token_type = codes "Bearer";
      expires_in = 60;
      id_token = [];
      refresh_token = [];
      scope = [];
    })
unfolding value b64 Map.get ◌==◌
code_used_once_example =
    code_used_once toy memory_ops server (9 * second) (40 * second) none none none none code_request
      code_request logged app calls _ is_code_request
      (unfold value Map.get ◌==◌ b64 encode digit sextet in λ e. cc)
      (unfold value Map.get ◌==◌ in λ e. cc) authenticated (tt, (other_code, tt)) is_code_request
      refl

-- A refresh token in the table.
abbrev pub token : Bytes
token = b64 (3 ∷ [])

abbrev pub holding : State MemoryBackend
holding = record start {
  world =
      (Opaque.create toy memory_ops (900 * second) (6 * second) (some (3 ∷ [])) session world).0;
}

holding-IsValid : Memory.IsValid holding.world.table
unfolding Opaque.create Opaque.store
holding-IsValid = memory-IsTable.put_valid (6 * second) _ _ world.table tt

abbrev pub refresh_request : Request
refresh_request = record {
  method = codes "POST";
  post_form =
      (codes "grant_type", codes "refresh_token")
      ∷ (codes "refresh_token", token)
      ∷ (codes "token", token)
      ∷ (codes "client_id", codes "app")
      ∷ [];
  query = [];
  parses = true;
  basic_auth = none;
  authorization = bearer ++ token;
}

is_refresh_request : IsRefreshRequest refresh_request
unfolding value Map.get ◌==◌
is_refresh_request = record { posted = refl; parsed = refl; grant_type = refl }

abbrev response : TokenResponse
response = record {
  access_token = b64 (1 ∷ 2 ∷ []);
  token_type = codes "Bearer";
  expires_in = 60;
  id_token = [];
  refresh_token = [];
  scope = codes "read";
}

renewed :
    (handle_token toy server (20 * second) (some (1 ∷ 2 ∷ [])) none refresh_request holding).1
    ≡ token_set response
unfolding value Map.get Map.put Map.delete lookup sidecar_server bytes_of b64 encode sextet digit
    ◌==◌ handle_token token_refresh rotate_refresh renew authenticate_client credentials
    issue_token_set finish_token_set id_token_for refresh_token_for has_scope fields fields_from
    listed space session_mode_for access_token_ttl Bridge.create store_for sidecar_bridge
    Opaque.create Opaque.store Opaque.stamp Opaque.hash_token Opaque.validate Opaque.revoke
    Memory.put Memory.get Memory.delete expired contains
renewed = refl

refresh-IsRenewal_example :
    IsRenewal toy memory_ops cfg clients
      (demo_user_store toy)
      (20 * second)
      (some (1 ∷ 2 ∷ []))
      none
      refresh_request
      holding
      (handle_token toy server (20 * second) (some (1 ∷ 2 ∷ [])) none refresh_request holding).0
      (token_set response)
refresh-IsRenewal_example =
    refresh-IsRenewal toy memory_ops cfg clients (demo_user_store toy) (20 * second)
      (some (1 ∷ 2 ∷ [])) none refresh_request holding response is_refresh_request renewed

other_hash : hash_token toy (b64 (1 ∷ 2 ∷ [])) ≢ hash_token toy token
unfolding hash_token b64 encode digit bytes_of sextet
other_hash = λ e. cc

refresh_used_once_example :
    (handle_token toy server (40 * second) (some (8 ∷ [])) none refresh_request (
      run toy memory_ops server calls
        (handle_token toy server
          (20 * second)
          (some (1 ∷ 2 ∷ []))
          none
          refresh_request
          holding).0)).1
    ≢ token_set response
unfolding value Map.get ◌==◌
refresh_used_once_example =
    refresh_used_once toy memory_ops Memory.find Memory.IsValid memory-IsTable cfg clients
      (demo_user_store toy) (20 * second) (40 * second) (some (1 ∷ 2 ∷ [])) none (some (8 ∷ []))
      none refresh_request refresh_request holding calls response response holding-IsValid
      is_refresh_request renewed (other_hash, tt) (tt, (tt, tt)) is_refresh_request refl
