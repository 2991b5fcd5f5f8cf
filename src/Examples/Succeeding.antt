-- ===== src/Examples/Succeeding.antt =====
-- The theorem on the success of an exchange, applied to a code with an id_token and a refresh token.
use micro_identity_sidecar.Prelude.{
  ◌*◌, ◌≡◌, refl, inr, true, false, All, eq_iff, some, [], ◌∷◌, Bytes, ◌==◌, codes, arith, none,
}
use micro_identity_sidecar.Prelude.Map as Map
use micro_identity_sidecar.Prelude.Map.{Map}
use micro_identity_sidecar.Platform.{Json, IsEncodable-All}
use micro_identity_sidecar.Go.Base64.{encode, digit, sextet}
use micro_identity_sidecar.Jwt.Token.{second, b64}
use micro_identity_sidecar.Jwt.Claims.{Claims, known}
use micro_identity_sidecar.Jwt.Claims.RoundTrip.{IsWritable}
use micro_identity_sidecar.Session.Memory.{MemoryBackend, memory_ops}
use micro_identity_sidecar.Session.Memory as Memory
use micro_identity_sidecar.Session.Stateless.RoundTrip.{IsIssuable}
use micro_identity_sidecar.Oidc.Users as Users
use micro_identity_sidecar.Oidc.Users.{demo_user_store}
use micro_identity_sidecar.Oidc.Server.{AuthCode, State, TokenResponse, token_set, value}
use micro_identity_sidecar.Oidc.Issue.{granted, id_claims, with_profile}
use micro_identity_sidecar.Oidc.Token.{handle_token}
use micro_identity_sidecar.Oidc.Token.Conditions.{IsRedeemable}
use micro_identity_sidecar.Oidc.History.Issuing.{Accepts}
use micro_identity_sidecar.Oidc.History.Always.{redeeming_succeeds}
use micro_identity_sidecar.Examples.Toy.{toy, toy-IsSound, all_ascii}
use micro_identity_sidecar.Examples.Rotation.{managed}
use micro_identity_sidecar.Examples.Exchanges.{issued_code}
use micro_identity_sidecar.Examples.Requests.{
  cfg, app, clients, server, start, code, code_request, is_code_request, authenticated, is_verifier,
}

abbrev pub rich_code : AuthCode
rich_code = record issued_code { scope = codes "openid offline_access" }

abbrev pub rich_state : State MemoryBackend
rich_state = record start { codes = (code, rich_code) ∷ [] }

redeemable : IsRedeemable toy server (9 * second) code_request rich_state app rich_code
unfolding value Map.get ◌==◌ b64 encode digit sextet
redeemable = record {
  known = refl;
  in_time = omega arith;
  same_client = refl;
  same_redirect = refl;
  verifier = is_verifier;
  proven = refl;
}

pub accepts : Accepts memory_ops
unfolding Memory.put
accepts now k s b = refl

pub issuable :
    IsIssuable toy cfg.issuer cfg.stateless_ttl
      (9 * second)
      (granted app rich_code.subject rich_code.scope)
unfolding all_ascii Map.get
issuable = record {
  issuer_text = refl;
  id = refl;
  subject = refl;
  client_id = refl;
  scope = refl;
  extra_map = tt;
  extra_text = λ k v e. cc;
  extra_unnamed = λ k e. refl;
  times = omega arith;
  dated = omega arith;
}

absent_if_known :
    (m : Map Json)
    → All (λ e. known e.0 ≡ false) m
    → (k : Bytes) → known k ≡ true
    → Map.get k m ≡ none
unfolding Map.get
absent_if_known [] h k named = refl
absent_if_known ((j, v) ∷ m) h k named =
    ground (arith, h.0, absent_if_known m h.1 k named, eq_iff j k)

abbrev pub rich_claims : Claims
rich_claims =
    id_claims cfg (demo_user_store toy) (9 * second) app.id rich_code.subject rich_code.nonce
      rich_code.auth_time

pub writable : IsWritable toy rich_claims
unfolding id_claims with_profile Users.profile Users.profile_of Users.by_username all_ascii Map.get
    Map.put Map.delete ◌==◌ known
writable = record {
  issuer = refl;
  subject = refl;
  audience = (refl, tt);
  expires_at = omega arith;
  not_before = omega arith;
  issued_at = omega arith;
  jwt_id = refl;
  scope = refl;
  extra =
      IsEncodable-All toy rich_claims.extra (refl, (refl, (refl, tt)))
        ((refl, refl), ((refl, refl), ((refl, omega arith), tt)));
  unnamed = absent_if_known rich_claims.extra (refl, (refl, (refl, tt)));
}

redeeming_succeeds_example :
    (t : TokenResponse) × ((handle_token toy server
        (9 * second)
        (some (1 ∷ 2 ∷ []))
        (some (3 ∷ []))
        code_request
        rich_state).1
      ≡ token_set t)
redeeming_succeeds_example =
    redeeming_succeeds toy toy-IsSound memory_ops accepts cfg clients (demo_user_store toy)
      (9 * second) (1 ∷ 2 ∷ []) (3 ∷ []) code_request rich_state app rich_code is_code_request
      (unfold value Map.get ◌==◌ b64 encode digit sextet in λ e. cc) authenticated redeemable
      (managed, refl) (omega arith) issuable (inr refl) (λ openid. writable)
