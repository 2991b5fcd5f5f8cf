-- ===== src/Oidc/History.antt =====
-- cmd/sidecar/main.go: the server as main puts it together, and what happens to it over time.
pub mod Tables
pub mod Steps
pub mod Refresh
pub mod Order
pub mod Issuing
pub mod Always
pub mod Replay
pub mod Access
pub mod Admission
pub mod Opens
pub mod LoginClaims
pub mod IdToken
pub mod Flow
pub mod Restart
pub mod Codes
use micro_identity_sidecar.Prelude.{ℕ, List, [], ◌∷◌}
use micro_identity_sidecar.Platform.{Platform}
use micro_identity_sidecar.Keys as Keys
use micro_identity_sidecar.Keys.{Random, Event, start_rotation}
use micro_identity_sidecar.Session.{Backend, World}
use micro_identity_sidecar.Session.Opaque as Opaque
use micro_identity_sidecar.Session.Opaque.{opaque_store}
use micro_identity_sidecar.Session.Bridge.{sidecar_bridge}
use micro_identity_sidecar.Oidc.Clients.{ClientRegistry}
use micro_identity_sidecar.Oidc.Users.{UserStore}
use micro_identity_sidecar.Oidc.Server.{Config, Server, State, Request}
use micro_identity_sidecar.Oidc.Token.{handle_token}
use micro_identity_sidecar.Oidc.Authorize.{handle_authorize}
use micro_identity_sidecar.Oidc.Resources.{handle_revoke}

-- The server of main.go: the stateful store and the refresh store stand over the same table.
unfoldable pub sidecar_server :
    {B : Type 0} → Platform → Backend B → Config → ClientRegistry → UserStore → Server B
sidecar_server p ops cfg clients users = record {
  cfg = cfg;
  bridge = sidecar_bridge p ops cfg.issuer cfg.stateless_ttl cfg.stateful_ttl;
  clients = clients;
  users = users;
  refresh_store = opaque_store p ops cfg.refresh_token_ttl;
}

-- What changes the state: requests, sweeps of the table and rotations of the keys.
pub data Call : Type 0 where
  tokens : ℕ → Random → Random → Request → Call
  authorizes : ℕ → Random → Request → Call
  revokes : Request → Call
  sweeps : ℕ → Call
  rotates : List Event → Call

module _ (p : Platform) {B : Type 0} (ops : Backend B) (server : Server B) where
  unfoldable pub step : Call → State B → State B
  step (tokens now for_access for_refresh r) st =
      (handle_token p server now for_access for_refresh r st).0
  step (authorizes now random r) st = (handle_authorize server now random r st).0
  step (revokes r) st = (handle_revoke p server r st).0
  step (sweeps now) st = record st { world = Opaque.sweep p ops 0 now st.world }
  step (rotates events) st = record st {
    world = record { keys = start_rotation p events st.world.keys; table = st.world.table };
  }

  unfoldable pub run : List Call → State B → State B
  run [] st = st
  run (c ∷ cs) st = run cs (step c st)
