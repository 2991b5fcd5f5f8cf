-- ===== src/Examples/Concurrent.antt =====
-- The theorems on requests in flight, applied to two for one code and to two for one refresh token.
use micro_identity_sidecar.Prelude.{
  ◌*◌, ◌≤◌, ◌≡◌, refl, some, none, [], ◌∷◌, Bytes, ◌==◌, codes, ok,
}
use micro_identity_sidecar.Prelude.Map as Map
use micro_identity_sidecar.Go.Base64.{encode, digit, sextet}
use micro_identity_sidecar.Jwt.Token.{second, b64}
use micro_identity_sidecar.Session.{Session, World, expired}
use micro_identity_sidecar.Session.Memory as Memory
use micro_identity_sidecar.Session.Memory.{MemoryBackend, memory_ops}
use micro_identity_sidecar.Session.Opaque as Opaque
use micro_identity_sidecar.Oidc.History.{sweeps, sidecar_server}
use micro_identity_sidecar.Oidc.Concurrent.{
  Job, refreshing, refreshed, System, Move, advances, redeems, calls, move, Reaches, here, after,
}
use micro_identity_sidecar.Oidc.Concurrent.Threads.{has_taken, got_tokens, count}
use micro_identity_sidecar.Oidc.Concurrent.Codes.{Quiet, code_taken_once}
use micro_identity_sidecar.Oidc.Concurrent.Races.{renewed, refresh_race}
use micro_identity_sidecar.Examples.Toy.{toy, bytes_of}
use micro_identity_sidecar.Examples.Sessions.{session}
use micro_identity_sidecar.Examples.Exchanges.{issued_state}
use micro_identity_sidecar.Examples.Requests.{app, server, code, verifier}
use micro_identity_sidecar.Examples.Replays.{token, holding}

abbrev idle : System MemoryBackend
idle = record { state = issued_state; threads = [] }

abbrev redemption : Job
redemption = record {
  now = 9 * second;
  for_access = some (1 ∷ 2 ∷ []);
  for_refresh = none;
  client = app;
  credential = code;
  redirect_uri = codes "https://app/cb";
  verifier = verifier;
}

-- Two requests for the code come in, the second one takes it, the table is swept, and the first one
-- looks for it in vain.
abbrev then_move : Move → System MemoryBackend → System MemoryBackend
then_move m sys = move toy memory_ops server m sys

abbrev contended : System MemoryBackend
contended = then_move (advances 1) (
    then_move (calls (sweeps (9 * second))) (
      then_move (advances 0)
        (then_move (redeems redemption) (then_move (redeems redemption) idle))))

reached : Reaches toy memory_ops server (Quiet code) idle contended
reached =
    after _ (advances 1)
      (after _ (calls (sweeps (9 * second)))
        (after _ (advances 0)
          (after _ (redeems redemption) (after _ (redeems redemption) here tt) tt) tt)
        tt)
      tt

code_taken_once_example :
    (count (has_taken code) contended.threads ≤ 1) × (count (got_tokens code) contended.threads ≤ 1)
code_taken_once_example = code_taken_once toy memory_ops server code idle contended refl reached

abbrev refresh : Bytes → Job
refresh random = record {
  now = 20 * second;
  for_access = some random;
  for_refresh = none;
  client = app;
  credential = token;
  redirect_uri = [];
  verifier = [];
}

abbrev kept : Session
kept = record session { issued_at = 6 * second; expires_at = 906 * second }

found : server.refresh_store.validate (20 * second) token holding.world ≡ ok kept
unfolding sidecar_server Opaque.validate Opaque.create Opaque.store Opaque.stamp Opaque.hash_token
    Memory.get Memory.put Map.get Map.put Map.delete expired bytes_of b64 encode sextet digit ◌==◌
found = refl

abbrev revoked_twice : World MemoryBackend
revoked_twice =
    (server.refresh_store.revoke token (server.refresh_store.revoke token holding.world).0).0

refresh_race_example :
    (sys : System MemoryBackend) × Reaches toy memory_ops server
      (λ m. Unit)
      (record {
        state = holding;
        threads = refreshing (refresh (1 ∷ [])) ∷ refreshing (refresh (2 ∷ [])) ∷ [];
      })
      sys
    × (sys.threads
        ≡ refreshed
            (refresh (1 ∷ []))
            (renewed toy memory_ops server (refresh (1 ∷ [])) kept revoked_twice).1
          ∷ refreshed
              (refresh (2 ∷ []))
              (renewed toy memory_ops server
                (refresh (2 ∷ []))
                kept
                (renewed toy memory_ops server (refresh (1 ∷ [])) kept revoked_twice).0).1
          ∷ [])
refresh_race_example =
    refresh_race toy memory_ops server holding (refresh (1 ∷ [])) (refresh (2 ∷ [])) kept found
      found refl refl
