-- ===== src/Oidc/Routes/Served.antt =====
-- server.go, discovery.go: served requests against the endpoints that the discovery document names.
use mathlib.Core.List.{append_cancel_left}
use micro_identity_sidecar.Prelude.{
  ◌≡◌, refl, sym, subst, ap, ◌∙◌, false, List, [], ◌∷◌, ◌++◌, Bytes, ◌==◌, eq_iff, codes,
  if◌then◌else◌, arith, Bool-cases, inl, inr,
}
use micro_identity_sidecar.Prelude.Map.{get}
use micro_identity_sidecar.Platform.{Platform}
use micro_identity_sidecar.Keys.{active_alg}
use micro_identity_sidecar.Session.{Backend}
use micro_identity_sidecar.Oidc.Server.{Config, Server, State, Response, DiscoveryDoc, discovery}
use micro_identity_sidecar.Oidc.Token.{handle_token}
use micro_identity_sidecar.Oidc.Authorize.{handle_authorize}
use micro_identity_sidecar.Oidc.Resources.{
  discovery_doc, handle_userinfo, handle_revoke, handle_jwks, handle_discovery,
}
use micro_identity_sidecar.Oidc.History.{Call, tokens, authorizes, revokes, step, run}
use micro_identity_sidecar.Oidc.Routes.{routes, answered, Incoming, handle, serve, serve_all}

-- The endpoints that OpenID Connect Discovery and RFC 8414 name in their metadata.
pub data Endpoint : Type 0 where
  authorization_endpoint token_endpoint userinfo_endpoint jwks_uri revocation_endpoint : Endpoint

abbrev pub url_of : DiscoveryDoc → Endpoint → Bytes
url_of d authorization_endpoint = d.authorization_endpoint
url_of d token_endpoint = d.token_endpoint
url_of d userinfo_endpoint = d.userinfo_endpoint
url_of d jwks_uri = d.jwks_uri
url_of d revocation_endpoint = d.revocation_endpoint

-- The paths, as they are written in the README.
abbrev path_of : Endpoint → Bytes
path_of authorization_endpoint = codes "/authorize"
path_of token_endpoint = codes "/token"
path_of userinfo_endpoint = codes "/userinfo"
path_of jwks_uri = codes "/.well-known/jwks.json"
path_of revocation_endpoint = codes "/revoke"

url_of-path_of :
    (cfg : Config) (alg : Bytes) (e : Endpoint)
    → url_of (discovery_doc cfg alg) e ≡ cfg.issuer ++ path_of e
unfolding discovery_doc
url_of-path_of cfg alg authorization_endpoint = refl
url_of-path_of cfg alg token_endpoint = refl
url_of-path_of cfg alg userinfo_endpoint = refl
url_of-path_of cfg alg jwks_uri = refl
url_of-path_of cfg alg revocation_endpoint = refl

-- The call of a request, by its path: one for the endpoints that change the state.
abbrev pub calls : Incoming → List Call
calls i =
    if codes "/token" == i.path
    then tokens i.now i.random i.more_random i.request ∷ []
    else if codes "/authorize" == i.path
    then authorizes i.now i.random i.request ∷ []
    else if codes "/revoke" == i.path
    then revokes i.request ∷ []
    else []

abbrev pub all_calls : List Incoming → List Call
all_calls [] = []
all_calls (i ∷ is) = calls i ++ all_calls is

module _ (p : Platform) {B : Type 0} (server : Server B) where
  -- What a client of an endpoint asks for.
  abbrev pub promised : Endpoint → Incoming → State B → State B × Response
  promised authorization_endpoint i st = handle_authorize server i.now i.random i.request st
  promised token_endpoint i st = handle_token p server i.now i.random i.more_random i.request st
  promised userinfo_endpoint i st = (st, handle_userinfo p server i.now i.request st)
  promised jwks_uri i st = (st, handle_jwks p server i.request st)
  promised revocation_endpoint i st = handle_revoke p server i.request st

  serve-promised :
      (e : Endpoint) (i : Incoming) (st : State B)
      → i.path ≡ path_of e
      → serve p server i st ≡ ((promised e i st).0, answered (promised e i st).1)
  unfolding serve handle routes get ◌==◌
  serve-promised authorization_endpoint i st at = rw at refl
  serve-promised token_endpoint i st at = rw at refl
  serve-promised userinfo_endpoint i st at = rw at refl
  serve-promised jwks_uri i st at = rw at refl
  serve-promised revocation_endpoint i st at = rw at refl

  shown_doc :
      (asked : Incoming) (before : State B) (d : DiscoveryDoc)
      → asked.path ≡ codes "/.well-known/openid-configuration"
      → (serve p server asked before).1 ≡ answered (discovery d)
      → discovery_doc server.cfg (active_alg before.world.keys) ≡ d
  unfolding handle_discovery
  shown_doc asked before d at found =
      let served : (serve p server asked before).1
          ≡ answered (handle_discovery p server asked.request before) =
        unfold serve handle routes get ◌==◌ in rw at refl in
      elim (Bool-cases (asked.request.method == codes "GET")) [
        | inl get ↦ ground (arith, get, found, served)
        | inr other ↦ absurd (ground (arith, other, found, served))
      ]

  -- Every endpoint that the discovery document names is served: if a GET of
  -- /.well-known/openid-configuration was answered with a document, then a request whose path, behind
  -- the configured issuer, is the document's URL of an endpoint is answered by that endpoint's
  -- handler, which alone changes the state.
  pub serve-discovery :
      (asked : Incoming) (before : State B) (d : DiscoveryDoc) (e : Endpoint) (i : Incoming)
      (st : State B)
      → asked.path ≡ codes "/.well-known/openid-configuration"
      → (serve p server asked before).1 ≡ answered (discovery d)
      → server.cfg.issuer ++ i.path ≡ url_of d e
      → serve p server i st ≡ ((promised e i st).0, answered (promised e i st).1)
  serve-discovery asked before d e i st at found url =
      let shown : discovery_doc server.cfg (active_alg before.world.keys) ≡ d =
        shown_doc asked before d at found in
      serve-promised e i st (
        append_cancel_left server.cfg.issuer i.path (path_of e) (
          url
          ∙ ap (λ x. url_of x e) (sym shown)
          ∙ url_of-path_of server.cfg (active_alg before.world.keys) e))

module _ (p : Platform) {B : Type 0} (ops : Backend B) (server : Server B) where
  -- The state that a request with the path leaves, against its calls.
  abbrev Runs : Bytes → Incoming → State B → Type 0
  Runs path i st =
      (serve p server (record i { path = path }) st).0
      ≡ run p ops server (calls (record i { path = path })) st

  at_path :
      (path : Bytes) (i : Incoming) (st : State B)
      → i.path ≡ path
      → Runs path i st
      → Runs i.path i st
  at_path path i st at = subst (λ s. Runs s i st) (sym at)

  at_no_endpoint :
      (i : Incoming) (st : State B)
      → (codes "/token" == i.path) ≡ false
      → (codes "/authorize" == i.path) ≡ false
      → (codes "/revoke" == i.path) ≡ false
      → Runs i.path i st
  unfolding serve run handle routes get
  at_no_endpoint i st a b c = rw (a, b, c) (ground (arith, a, b, c))

  serve-run :
      (i : Incoming) (st : State B) → (serve p server i st).0 ≡ run p ops server (calls i) st
  unfolding serve run step handle routes get ◌==◌
  serve-run i st = elim (Bool-cases (codes "/token" == i.path)) [
    | inl token ↦ at_path (codes "/token") i st (sym ((eq_iff _ i.path).0 token)) refl
    | inr a ↦ elim (Bool-cases (codes "/authorize" == i.path)) [
      | inl authorize ↦ at_path (codes "/authorize") i st (sym ((eq_iff _ i.path).0 authorize)) refl
      | inr b ↦ elim (Bool-cases (codes "/revoke" == i.path)) [
        | inl revoke ↦ at_path (codes "/revoke") i st (sym ((eq_iff _ i.path).0 revoke)) refl
        | inr c ↦ at_no_endpoint i st a b c
      ]
    ]
  ]

  run-append :
      (cs ds : List Call) (st : State B)
      → run p ops server (cs ++ ds) st ≡ run p ops server ds (run p ops server cs st)
  unfolding run
  run-append [] ds st = refl
  run-append (c ∷ cs) ds st = run-append cs ds (step p ops server c st)

  -- Whatever requests the mux serves, the state is that after a history of calls: a token call for
  -- each request to /token, an authorization for each to /authorize and a revocation for each to
  -- /revoke, in the order in which they came, and nothing for any other path.
  pub serve_all-run :
      (is : List Incoming) (st : State B)
      → serve_all p server is st ≡ run p ops server (all_calls is) st
  unfolding serve_all run
  serve_all-run [] st = refl
  serve_all-run (i ∷ is) st =
      ap (serve_all p server is) (serve-run i st)
      ∙ serve_all-run is (run p ops server (calls i) st)
      ∙ sym (run-append (calls i) (all_calls is) st)
