-- ===== src/Oidc/Concurrent.antt =====
-- internal/oidc/token.go: requests to /token that are in flight at once, over the state that they
-- share. A thread stands for a request that has passed authenticateClient, and moves from one access
-- of shared state to the next; between them the others may move.
pub mod Threads
pub mod Codes
pub mod Races
use micro_identity_sidecar.Prelude.{
  ℕ, zero, suc, Option, none, some, List, [], ◌∷◌, ◌++◌, Bytes, ◌==◌, Result, ok, err,
  if◌then◌else◌,
}
use micro_identity_sidecar.Prelude.Map.{get, delete}
use micro_identity_sidecar.Platform.{Platform}
use micro_identity_sidecar.Keys.{Random}
use micro_identity_sidecar.Session.{Session, Error, Backend}
use micro_identity_sidecar.Oidc.Clients.{Client}
use micro_identity_sidecar.Oidc.Server.{Server, State, AuthCode, Response}
use micro_identity_sidecar.Oidc.Issue.{issue_token_set, invalid_grant}
use micro_identity_sidecar.Oidc.Token.{check_code}
use micro_identity_sidecar.Oidc.History.{Call, step}

-- What a thread works on: its time and random bytes, the authenticated client, and the code or the
-- refresh token that was sent, with the redirect URI and the verifier of a code.
pub record Job : Type 0 where
  pub now : ℕ
  pub for_access : Random
  pub for_refresh : Random
  pub client : Client
  pub credential : Bytes
  pub redirect_uri : Bytes
  pub verifier : Bytes

-- How far a thread has come. In tokenAuthorizationCode: before s.mu.Lock, behind s.mu.Unlock with
-- what it took, and at its end. In tokenRefresh: before Validate, behind it, behind Revoke, and at
-- its end.
pub data Thread : Type 0 where
  redeeming : Job → Thread
  took : Job → Option AuthCode → Thread
  redeemed : Job → Option AuthCode → Response → Thread
  refreshing : Job → Thread
  validated : Job → Result Error Session → Thread
  revoked : Job → Session → Thread
  refreshed : Job → Response → Thread

-- The state that all threads share, and the threads.
pub record System (B : Type 0) : Type 0 where
  pub state : State B
  pub threads : List Thread

module _ (p : Platform) {B : Type 0} (server : Server B) where
  -- issueTokenSet for a job, as one move: it touches no code, and puts rows under fresh hashes only.
  unfoldable pub issue_for : Job → Bytes → Bytes → Bytes → ℕ → State B → State B × Response
  issue_for j subject scope nonce auth_time st =
      let (w, answer) =
        issue_token_set p server j.now j.for_access j.for_refresh j.client subject scope nonce
          auth_time st.world in
      (record st { world = w }, answer)

  -- The critical section of tokenAuthorizationCode.
  unfoldable pub take_code : Job → State B → State B × Thread
  take_code j st = elim (get j.credential st.codes) [
    | none ↦ (st, took j none)
    | some ac ↦ (record st { codes = delete j.credential st.codes }, took j (some ac))
  ]

  -- The rest of tokenAuthorizationCode, on the code that was taken.
  unfoldable pub redeem : Job → AuthCode → State B → State B × Thread
  redeem j ac st = elim (check_code p server j.now j.client j.redirect_uri j.verifier ac) [
    | some refusal ↦ (st, redeemed j (some ac) refusal)
    | none ↦
        let (st', answer) = issue_for j ac.subject ac.scope ac.nonce ac.auth_time st in
        (st', redeemed j (some ac) answer)
  ]

  -- tokenRefresh behind Validate, up to and with Revoke, whose error it drops.
  unfoldable pub revoke_validated : Job → Result Error Session → State B → State B × Thread
  revoke_validated j (err e) st =
      (st, refreshed j (invalid_grant "unknown, expired, or revoked refresh token"))
  revoke_validated j (ok s) st =
      if s.client_id == j.client.id
      then (
        record st { world = (server.refresh_store.revoke j.credential st.world).0 },
        revoked j s,
      )
      else (st, refreshed j (invalid_grant "refresh token was not issued to this client"))

  -- One move of a thread; a thread at its end stays.
  unfoldable pub advance : Thread → State B → State B × Thread
  advance (redeeming j) st = take_code j st
  advance (took j none) st =
      (st, redeemed j none (invalid_grant "unknown, expired, or already-used authorization code"))
  advance (took j (some ac)) st = redeem j ac st
  advance (redeemed j o answer) st = (st, redeemed j o answer)
  advance (refreshing j) st =
      (st, validated j (server.refresh_store.validate j.now j.credential st.world))
  advance (validated j found) st = revoke_validated j found st
  advance (revoked j s) st =
      let (st', answer) = issue_for j s.subject s.scope [] s.issued_at st in
      (st', refreshed j answer)
  advance (refreshed j answer) st = (st, refreshed j answer)

unfoldable pub nth : ℕ → List Thread → Option Thread
nth i [] = none
nth zero (t ∷ ts) = some t
nth (suc i) (t ∷ ts) = nth i ts

unfoldable pub set_nth : ℕ → Thread → List Thread → List Thread
set_nth i u [] = []
set_nth zero u (t ∷ ts) = u ∷ ts
set_nth (suc i) u (t ∷ ts) = t ∷ set_nth i u ts

-- What may happen next: a thread moves, a request for a code or a refresh arrives, or another call
-- runs from start to end.
pub data Move : Type 0 where
  advances : ℕ → Move
  redeems refreshes : Job → Move
  calls : Call → Move

module _ (p : Platform) {B : Type 0} (ops : Backend B) (server : Server B) where
  unfoldable pub move : Move → System B → System B
  move (advances i) sys = elim (nth i sys.threads) [
    | none ↦ sys
    | some t ↦
        let (st, t') = advance p server t sys.state in
        record { state = st; threads = set_nth i t' sys.threads }
  ]
  move (redeems j) sys = record sys { threads = redeeming j ∷ sys.threads }
  move (refreshes j) sys = record sys { threads = refreshing j ∷ sys.threads }
  move (calls c) sys = record sys { state = step p ops server c sys.state }

  -- What a system may become by moves that all satisfy `Q`, in any order.
  pub data Reaches (Q : Move → Type 0) (start : System B) : System B → Type 0 where
    here : Reaches Q start start
    after : (sys : System B) (m : Move) → Reaches Q start sys → Q m → Reaches Q start (move m sys)
