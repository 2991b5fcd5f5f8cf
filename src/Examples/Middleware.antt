-- ===== src/Examples/Middleware.antt =====
-- The theorems on routing and on the middleware, applied to a sidecar that holds one stateful token.
use micro_identity_sidecar.Prelude.{
  ℕ, ◌*◌, ◌≡◌, refl, ap, sym, subst, ◌∙◌, ok_injective, Bool, true, Option, none, some, List, [],
  ◌∷◌, ◌++◌, Bytes, ◌==◌, codes, arith, ok, if◌then◌else◌,
}
use micro_identity_sidecar.Prelude.Map as Map
use micro_identity_sidecar.Prelude.Map.{Map, get, IsMap}
use micro_identity_sidecar.Platform.{IsEncodable, IsEncodable-All, Document}
use micro_identity_sidecar.Go.Strings.{has_prefix, trim_prefix, drop_prefix}
use micro_identity_sidecar.Jwt.Token.{second, b64}
use micro_identity_sidecar.Go.Base64.{encode, digit, sextet}
use micro_identity_sidecar.Keys.{active_alg, verifier}
use micro_identity_sidecar.Session.{Session, expired}
use micro_identity_sidecar.Session.Opaque as Opaque
use micro_identity_sidecar.Session.Bridge.{mode_stateful, validate_any, sidecar_bridge}
use micro_identity_sidecar.Session.Memory as Memory
use micro_identity_sidecar.Session.Memory.{memory_ops}
use micro_identity_sidecar.Oidc.Users as Users
use micro_identity_sidecar.Oidc.Server.{Request, Response}
use micro_identity_sidecar.Oidc.Resources.{
  bearer, discovery_doc, handle_discovery, handle_userinfo, handle_jwks,
}
use micro_identity_sidecar.Oidc.Wire.{HttpAnswer, wire}
use micro_identity_sidecar.Oidc.History.{run, sidecar_server}
use micro_identity_sidecar.Oidc.Routes.{Incoming, answered, routes, handle, serve, serve_all}
use micro_identity_sidecar.Oidc.Routes.Served.{
  all_calls, serve_all-run, serve-discovery, userinfo_endpoint,
}
use micro_identity_sidecar.Middleware.Agreement.{
  session_subject, ReadsLines, IsDelivered, userinfo_claims,
}
use micro_identity_sidecar.Middleware.Local.{
  LocalValidator, new_local_validator, stale, decode_jwks, keys_at,
}
use micro_identity_sidecar.Middleware.Local.Freshness.{IsFetched}
use micro_identity_sidecar.Middleware.Local.Printed.{body_of, as_key, keys_at-verifier}
use micro_identity_sidecar.Examples.KeySets.{
  print_objects, parse_objects, parse_objects-print_objects,
}
use micro_identity_sidecar.ExampleApp.{validator, serve_app}
use micro_identity_sidecar.ExampleApp.Whoami.{whoami_subject, whoami-agrees}
use micro_identity_sidecar.Examples.Toy.{toy, toy-IsSound, all_ascii, bytes_of}
use micro_identity_sidecar.Examples.Sessions.{session}
use micro_identity_sidecar.Examples.Rotation.{first, managed}
use micro_identity_sidecar.Examples.Requests.{server, code_request}
use micro_identity_sidecar.Examples.Replays.{token, holding, refresh_request}

-- A look at the health and a refresh.
abbrev incoming : List Incoming
incoming =
    record {
      path = codes "/healthz";
      now = 8 * second;
      random = none;
      more_random = none;
      request = code_request;
    }
    ∷ record {
      path = codes "/token";
      now = 9 * second;
      random = some (1 ∷ []);
      more_random = none;
      request = refresh_request;
    }
    ∷ []

serve_all-run_example :
    serve_all toy server incoming holding ≡ run toy memory_ops server (all_calls incoming) holding
serve_all-run_example = serve_all-run toy memory_ops server incoming holding

abbrev key_request : Request
key_request = record {
  method = codes "GET";
  post_form = [];
  query = [];
  parses = true;
  basic_auth = none;
  authorization = [];
}

-- A look at the discovery document, by GET.
abbrev asked : Incoming
asked = record {
  path = codes "/.well-known/openid-configuration";
  now = 8 * second;
  random = none;
  more_random = none;
  request = key_request;
}

abbrev lookup : Incoming
lookup = record asked { path = codes "/userinfo"; request = refresh_request }

serve-discovery_example :
    serve toy server lookup holding
    ≡ (holding, answered (handle_userinfo toy server (8 * second) refresh_request holding))
serve-discovery_example =
    serve-discovery toy server asked holding
      (discovery_doc server.cfg (active_alg holding.world.keys)) userinfo_endpoint lookup holding
      refl (unfold serve handle handle_discovery routes Map.get ◌==◌ in refl)
      (unfold discovery_doc in refl)

-- No body but the JSON objects', and every URL is one.
abbrev no_body : Response → Bytes
no_body response = []

abbrev is_url : Bytes → Bool
is_url url = true

abbrev without_last : Bytes → Bytes
without_last [] = []
without_last (c ∷ []) = []
without_last (c ∷ d ∷ s) = c ∷ without_last (d ∷ s)

without_last-append : (s : Bytes) (c : ℕ) → without_last (s ++ c ∷ []) ≡ s
without_last-append [] c = refl
without_last-append (d ∷ []) c = refl
without_last-append (d ∷ e ∷ s) c = ap (◌∷◌ d) (without_last-append (e ∷ s) c)

abbrev decode : Bytes → Option Document
decode s = toy.parse (without_last s)

reads : ReadsLines toy decode
reads m text rendered = ap toy.parse (without_last-append text 10)

-- The sidecar, asked at second 9.
abbrev send : Bytes → Bytes → Option HttpAnswer
send url authorization = some (
    wire toy no_body (
      handle_userinfo toy server (9 * second)
        (record refresh_request { authorization = authorization }) holding))

abbrev env : Bytes → Bytes
env key = []

abbrev caller : Bytes
caller = bearer ++ token

delivered :
    IsDelivered toy toy-IsSound no_body server is_url send decode reads
      (validator is_url send decode env)
      (trim_prefix caller bearer)
      (9 * second)
      refresh_request
      holding
unfolding trim_prefix has_prefix drop_prefix
delivered = record { url = refl; received = refl; returned = refl }

-- Whom the token stands for.
abbrev alice : Session
alice = record session { issued_at = 6 * second; expires_at = 906 * second }

accepted_as_alice :
    validate_any server.bridge (9 * second) (trim_prefix caller bearer) holding.world
    ≡ ok (alice, mode_stateful)
unfolding trim_prefix has_prefix drop_prefix validate_any sidecar_server sidecar_bridge
    Opaque.validate Opaque.create Opaque.store Opaque.stamp Opaque.hash_token Memory.get Memory.put
    Map.get Map.put Map.delete expired bytes_of b64 encode sextet digit ◌==◌
accepted_as_alice = refl

alice-IsEncodable :
    IsEncodable toy (userinfo_claims toy toy-IsSound no_body server is_url send decode reads alice)
unfolding sidecar_server Users.profile Users.profile_of Users.by_username Map.put Map.delete
    all_ascii ◌==◌ Map.get
alice-IsEncodable = IsEncodable-All toy _ (refl, tt) ((refl, refl), tt)

encodable :
    (s : Session) (mode : Bytes)
    → validate_any server.bridge (9 * second) (trim_prefix caller bearer) holding.world
      ≡ ok (s, mode)
    → IsEncodable toy (userinfo_claims toy toy-IsSound no_body server is_url send decode reads s)
encodable s mode accepted =
    let same : alice ≡ s = ap (λ q. q.0) (ok_injective (sym accepted_as_alice ∙ accepted)) in
    subst
      (λ x.
        IsEncodable toy (userinfo_claims toy toy-IsSound no_body server is_url send decode reads x))
      same alice-IsEncodable

whoami-agrees_example :
    whoami_subject (serve_app is_url send decode env (codes "/api/whoami") caller) ≡ (
      if has_prefix caller bearer
      then session_subject
          (validate_any server.bridge (9 * second) (trim_prefix caller bearer) holding.world)
      else none)
whoami-agrees_example =
    whoami-agrees toy toy-IsSound no_body server is_url send decode reads env caller (9 * second)
      refresh_request holding delivered encodable

-- The key set of the sidecar, and a cache that has not asked yet.
abbrev fetch : Bytes → Option HttpAnswer
fetch url = some (
    wire toy (body_of toy toy-IsSound server is_url (λ u. none) print_objects parse_objects no_body)
      (handle_jwks toy server key_request holding))

abbrev local : LocalValidator
local = new_local_validator (codes "http://127.0.0.1:9091/") (codes "iss")

fetched :
    IsFetched toy
      (body_of toy toy-IsSound server is_url fetch print_objects parse_objects no_body)
      server
      is_url
      fetch
      (decode_jwks parse_objects)
      local
      key_request
      holding
fetched = record { url = refl; method = refl; returned = refl }

keys_at-verifier_example :
    (as_key toy toy-IsSound
        (keys_at is_url fetch (decode_jwks parse_objects) (9 * second) first.kid local).1
      ≡ ok (verifier toy holding.world.keys first.kid))
    × ((keys_at is_url fetch
          (decode_jwks parse_objects)
          (99 * second)
          (codes "x")
          (keys_at is_url fetch (decode_jwks parse_objects) (9 * second) first.kid local).0).0
        ≡ (keys_at is_url fetch (decode_jwks parse_objects) (9 * second) first.kid local).0)
    × (as_key toy toy-IsSound
          (keys_at is_url fetch
            (decode_jwks parse_objects)
            (99 * second)
            (codes "x")
            (keys_at is_url fetch (decode_jwks parse_objects) (9 * second) first.kid local).0).1
        ≡ ok (verifier toy holding.world.keys (codes "x")))
unfolding stale new_local_validator Opaque.create Opaque.store
keys_at-verifier_example =
    keys_at-verifier toy toy-IsSound server is_url fetch print_objects parse_objects no_body
      (9 * second) first.kid local key_request holding (99 * second) (codes "x")
      parse_objects-print_objects managed refl fetched (omega arith)
