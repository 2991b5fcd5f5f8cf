-- ===== src/Oidc/Routes.antt =====
-- internal/oidc/server.go and cmd/sidecar/main.go: the routing table, and a served request.
pub mod Served
use micro_identity_sidecar.Prelude.{
  ℕ, ◌&&◌, ◌||◌, Option, none, some, List, [], ◌∷◌, Bytes, ◌==◌, codes, if◌then◌else◌,
}
use micro_identity_sidecar.Prelude.Map.{Map, get}
use micro_identity_sidecar.Platform.{Platform}
use micro_identity_sidecar.Keys.{Random}
use micro_identity_sidecar.Oidc.Server.{Server, State, Request, Response}
use micro_identity_sidecar.Oidc.Token.{handle_token}
use micro_identity_sidecar.Oidc.Authorize.{handle_authorize}
use micro_identity_sidecar.Oidc.Resources.{
  handle_userinfo, handle_revoke, handle_discovery, handle_jwks,
}

-- The handlers that main registers: those of the server, and its two pages.
pub data Handler : Type 0 where
  discovery_handler jwks_handler authorize_handler token_handler : Handler
  revoke_handler userinfo_handler healthz_handler callback_handler : Handler

-- Server.Routes, and the callback page that main adds. A pattern without a trailing slash is matched
-- by its path alone, by every method.
unfoldable pub routes : Map Handler
routes =
    (codes "/.well-known/openid-configuration", discovery_handler)
    ∷ (codes "/.well-known/jwks.json", jwks_handler)
    ∷ (codes "/authorize", authorize_handler)
    ∷ (codes "/token", token_handler)
    ∷ (codes "/revoke", revoke_handler)
    ∷ (codes "/userinfo", userinfo_handler)
    ∷ (codes "/healthz", healthz_handler)
    ∷ (codes "/demo/callback", callback_handler)
    ∷ []

-- What is written: an answer of a handler, the ok of handleHealthz, one of the two pages, or the
-- mux's own refusal.
pub data Reply : Type 0 where
  answered : Response → Reply
  healthy home_page callback_page not_found method_not_allowed : Reply

-- What comes in: a clean path, the time, what the random source gives, and the request.
pub record Incoming : Type 0 where
  pub path : Bytes
  pub now : ℕ
  pub random : Random
  pub more_random : Random
  pub request : Request

module _ (p : Platform) {B : Type 0} (server : Server B) where
  unfoldable pub handle : Handler → Incoming → State B → State B × Reply
  handle discovery_handler i st = (st, answered (handle_discovery p server i.request st))
  handle jwks_handler i st = (st, answered (handle_jwks p server i.request st))
  handle authorize_handler i st =
      let (st', response) = handle_authorize server i.now i.random i.request st in
      (st', answered response)
  handle token_handler i st =
      let (st', response) = handle_token p server i.now i.random i.more_random i.request st in
      (st', answered response)
  handle revoke_handler i st =
      let (st', response) = handle_revoke p server i.request st in (st', answered response)
  handle userinfo_handler i st = (st, answered (handle_userinfo p server i.now i.request st))
  handle healthz_handler i st = (st, healthy)
  handle callback_handler i st = (st, callback_page)

  -- The pattern "GET /{$}" of handleHome: the path / alone, by GET and with it by HEAD.
  abbrev pub at_home : Incoming → Reply
  at_home i =
      if i.request.method == codes "GET" || i.request.method == codes "HEAD"
      then home_page
      else method_not_allowed

  -- ServeHTTP of the mux.
  unfoldable pub serve : Incoming → State B → State B × Reply
  serve i st = elim (get i.path routes) [
    | some h ↦ handle h i st
    | none ↦ (st, if i.path == codes "/" then at_home i else not_found)
  ]

  unfoldable pub serve_all : List Incoming → State B → State B
  serve_all [] st = st
  serve_all (i ∷ is) st = serve_all is (serve i st).0
