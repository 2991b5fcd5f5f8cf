-- ===== src/Examples/Opens.antt =====
-- The theorems on the tokens of an exchange, applied to JWTs that outlive a rotation.
use micro_identity_sidecar.Prelude.{
  ◌*◌, ◌≡◌, refl, inl, inr, true, some, [], ◌∷◌, ◌++◌, ◌==◌, codes, arith, ◌+◌,
}
use micro_identity_sidecar.Prelude.Map as Map
use micro_identity_sidecar.Prelude.Map.{IsMap}
use micro_identity_sidecar.Jwt.Claims.{Claims}
use micro_identity_sidecar.Go.Fields.{fields, fields_from, listed, space}
use micro_identity_sidecar.Go.Base64.{encode, digit, sextet}
use micro_identity_sidecar.Platform.{str}
use micro_identity_sidecar.Jwt.Token.{second, unix, b64}
use micro_identity_sidecar.Keys.{start_rotation}
use micro_identity_sidecar.Session.Memory.{MemoryBackend, memory_ops, memory-IsTable}
use micro_identity_sidecar.Session.Memory as Memory
use micro_identity_sidecar.Session.Opaque as Opaque
use micro_identity_sidecar.Session.Bridge.{mode_stateless}
use micro_identity_sidecar.Oidc.Clients.{Client, ClientRegistry, lookup, contains}
use micro_identity_sidecar.Oidc.Users as Users
use micro_identity_sidecar.Oidc.Users.{demo_user_store}
use micro_identity_sidecar.Oidc.Server.{Server, Request, TokenResponse, token_set, userinfo, value}
use micro_identity_sidecar.Oidc.Issue.{has_scope, credentials, session_mode_for, access_token_ttl}
use micro_identity_sidecar.Oidc.Token.{handle_token}
use micro_identity_sidecar.Oidc.Token.Conditions.{IsAuthenticated, IsRedeemable}
use micro_identity_sidecar.Oidc.Resources.{bearer, handle_userinfo}
use micro_identity_sidecar.Oidc.History.{sidecar_server, rotates, step}
use micro_identity_sidecar.Oidc.History.Always.{redeeming_succeeds}
use micro_identity_sidecar.Oidc.History.Opens.{access_token_opens_userinfo}
use micro_identity_sidecar.Oidc.History.LoginClaims.{IsIdToken}
use micro_identity_sidecar.Oidc.History.IdToken.{IsVerifiable, id_token-IsVerifiable}
use micro_identity_sidecar.Examples.Toy.{toy, toy-IsSound}
use micro_identity_sidecar.Examples.Rotation.{events, manager, managed}
use micro_identity_sidecar.Examples.Requests.{cfg, app, code_request, is_code_request, is_verifier}
use micro_identity_sidecar.Examples.Succeeding.{accepts, issuable, writable, rich_code, rich_state}

-- The client in stateless mode.
abbrev jwt_client : Client
jwt_client = record app { session_mode = mode_stateless }

abbrev jwt_clients : ClientRegistry
jwt_clients = (codes "app", jwt_client) ∷ []

abbrev jwt_server : Server MemoryBackend
jwt_server = sidecar_server toy memory_ops cfg jwt_clients (demo_user_store toy)

authenticated : IsAuthenticated toy jwt_server code_request jwt_client
unfolding value Map.get ◌==◌ credentials lookup sidecar_server
authenticated = record { registered = refl; secret = inl refl }

redeemable : IsRedeemable toy jwt_server (9 * second) code_request rich_state jwt_client rich_code
unfolding value Map.get ◌==◌ b64 encode digit sextet
redeemable = record {
  known = refl;
  in_time = omega arith;
  same_client = refl;
  same_redirect = refl;
  verifier = is_verifier;
  proven = refl;
}

tokens :
    (t : TokenResponse) × ((handle_token toy jwt_server
        (9 * second)
        (some (1 ∷ 2 ∷ []))
        (some (3 ∷ []))
        code_request
        rich_state).1
      ≡ token_set t)
tokens =
    redeeming_succeeds toy toy-IsSound memory_ops accepts cfg jwt_clients (demo_user_store toy)
      (9 * second) (1 ∷ 2 ∷ []) (3 ∷ []) code_request rich_state jwt_client rich_code
      is_code_request (unfold value Map.get ◌==◌ b64 encode digit sextet in λ e. cc) authenticated
      redeemable (managed, refl) (omega arith) issuable (inr refl) (λ openid. writable)

abbrev resource_request : Request
resource_request = record code_request { authorization = bearer ++ tokens.0.access_token }

access_token_opens_userinfo_example :
    handle_userinfo toy jwt_server (60 * second) resource_request (
      step toy memory_ops jwt_server
        (rotates events)
        (handle_token toy jwt_server
          (9 * second)
          (some (1 ∷ 2 ∷ []))
          (some (3 ∷ []))
          code_request
          rich_state).0)
    ≡ userinfo
        (Map.put (codes "sub") (str (codes "user-guest")) (Users.profile toy (codes "user-guest")))
unfolding Map.get Memory.get Opaque.validate session_mode_for access_token_ttl ◌==◌
access_token_opens_userinfo_example =
    access_token_opens_userinfo toy toy-IsSound memory_ops Memory.find Memory.IsValid memory-IsTable
      cfg jwt_clients (demo_user_store toy) events (9 * second) (60 * second) (some (1 ∷ 2 ∷ []))
      (some (3 ∷ [])) code_request resource_request rich_state jwt_client rich_code tokens.0
      is_code_request (unfold value Map.get ◌==◌ b64 encode digit sextet in λ e. cc) authenticated
      redeemable tokens.1 (inr refl) managed issuable (omega arith) (omega arith) (omega arith)
      (omega arith) refl refl

asks_openid : has_scope rich_code.scope (codes "openid") ≡ true
unfolding has_scope fields fields_from listed space ◌==◌ contains
asks_openid = refl

profile-IsMap : IsMap (Users.profile toy (codes "user-guest"))
unfolding Users.profile Users.profile_of Users.by_username Map.get ◌==◌
profile-IsMap = (refl, (refl, (refl, tt)))

id_token-IsVerifiable_example :
    (c : Claims) × IsIdToken cfg
      (demo_user_store toy)
      (9 * second)
      (codes "app")
      (codes "user-guest")
      rich_code.nonce
      rich_code.auth_time
      c
    × IsVerifiable toy toy-IsSound
        (start_rotation toy events manager)
        (unix (9 * second) + 600)
        c
        tokens.0.id_token
id_token-IsVerifiable_example =
    id_token-IsVerifiable toy toy-IsSound memory_ops cfg jwt_clients (demo_user_store toy)
      (9 * second) (some (1 ∷ 2 ∷ [])) (some (3 ∷ [])) code_request rich_state jwt_client rich_code
      tokens.0 events is_code_request (unfold value Map.get ◌==◌ b64 encode digit sextet in λ e. cc)
      authenticated redeemable tokens.1 asks_openid managed writable profile-IsMap (omega arith)
