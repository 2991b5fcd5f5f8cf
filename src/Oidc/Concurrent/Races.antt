-- ===== src/Oidc/Concurrent/Races.antt =====
-- token.go: a refresh token under concurrent requests.
use micro_identity_sidecar.Prelude.{◌≡◌, refl, true, List, [], ◌∷◌, ◌==◌, eq_iff, ok}
use micro_identity_sidecar.Platform.{Platform}
use micro_identity_sidecar.Session.{Session, Backend, World}
use micro_identity_sidecar.Oidc.Server.{Server, State, Response}
use micro_identity_sidecar.Oidc.Issue.{issue_token_set}
use micro_identity_sidecar.Oidc.Concurrent.{
  Job, refreshing, refreshed, System, issue_for, revoke_validated, advance, nth, set_nth, Move,
  advances, move, Reaches, here, after,
}

module _ (p : Platform) {B : Type 0} (ops : Backend B) (server : Server B) where
  -- What issueTokenSet makes of a session for a job.
  abbrev pub renewed : Job → Session → World B → World B × Response
  renewed j s w =
      issue_token_set p server j.now j.for_access j.for_refresh j.client s.subject s.scope []
        s.issued_at w

  unfoldable moves : List Move → System B → System B
  moves [] sys = sys
  moves (m ∷ ms) sys = moves ms (move p ops server m sys)

  moves-Reaches :
      (start : System B) (ms : List Move) (sys : System B)
      → Reaches p ops server (λ m. Unit) start sys
      → Reaches p ops server (λ m. Unit) start (moves ms sys)
  unfolding moves
  moves-Reaches start [] sys r = r
  moves-Reaches start (m ∷ ms) sys r = moves-Reaches start ms _ (after sys m r tt)

  -- Refresh tokens are not single-use under concurrency: whenever the refresh store accepts the
  -- tokens of two requests of their client, and they may be one token, the system can get to where
  -- both have been answered with what issueTokenSet makes of the session, because Validate and
  -- Revoke are two accesses and Revoke does not tell whether it deleted anything.
  pub refresh_race :
      (st : State B) (j k : Job) (s : Session)
      → server.refresh_store.validate j.now j.credential st.world ≡ ok s
      → server.refresh_store.validate k.now k.credential st.world ≡ ok s
      → s.client_id ≡ j.client.id
      → s.client_id ≡ k.client.id
      → let w : World B =
          (server.refresh_store.revoke k.credential
            (server.refresh_store.revoke j.credential st.world).0).0 in
        (sys : System B) × Reaches p ops server
          (λ m. Unit)
          (record { state = st; threads = refreshing j ∷ refreshing k ∷ [] })
          sys
        × (sys.threads
            ≡ refreshed j (renewed j s w).1 ∷ refreshed k (renewed k s (renewed j s w).0).1 ∷ [])
  unfolding moves move advance nth set_nth revoke_validated issue_for
  refresh_race st j k s found found_too own own_too =
      let start : System B = record { state = st; threads = refreshing j ∷ refreshing k ∷ [] } in
      let schedule : List Move =
        advances 0 ∷ advances 1 ∷ advances 0 ∷ advances 1 ∷ advances 0 ∷ advances 1 ∷ [] in
      let mine : (s.client_id == j.client.id) ≡ true = (eq_iff s.client_id j.client.id).1 own in
      let mine_too : (s.client_id == k.client.id) ≡ true =
        (eq_iff s.client_id k.client.id).1 own_too in
      (
        moves schedule start,
        moves-Reaches start schedule start here,
        rw (found, found_too, mine, mine_too) refl,
      )
