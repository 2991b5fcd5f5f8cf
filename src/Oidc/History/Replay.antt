-- ===== src/Oidc/History/Replay.antt =====
-- token.go: a refresh token is used once.
use micro_identity_sidecar.Prelude.{
  ℕ, ◌≡◌, ◌≢◌, subst, Option, none, some, List, [], ◌∷◌, Bytes, eq_iff, err, arith, All, ap, ◌∙◌,
}
use micro_identity_sidecar.Platform.{Platform}
use micro_identity_sidecar.Jwt.Token.{b64}
use micro_identity_sidecar.Keys.{Random}
use micro_identity_sidecar.Session.{not_found, Row, Backend, World}
use micro_identity_sidecar.Session.Table.{live, IsTable}
use micro_identity_sidecar.Session.Opaque as Opaque
use micro_identity_sidecar.Session.Opaque.{hash_token, or_not_found}
use micro_identity_sidecar.Session.Opaque.Life.{validate-eq}
use micro_identity_sidecar.Session.Opaque.Revocation as Revocation
use micro_identity_sidecar.Session.Opaque.Revocation.{
  Op, creates, Avoids, step-absent, step-IsValid,
}
use micro_identity_sidecar.Oidc.Clients.{ClientRegistry}
use micro_identity_sidecar.Oidc.Users.{UserStore}
use micro_identity_sidecar.Oidc.Server.{Config, Server, State, Request, TokenResponse, token_set}
use micro_identity_sidecar.Oidc.Token.{handle_token}
use micro_identity_sidecar.Oidc.History.{
  sidecar_server, Call, tokens, authorizes, revokes, sweeps, rotates, run,
}
use micro_identity_sidecar.Oidc.History.Tables.{
  KeptByCreate, KeptByRevoke, KeptBySweep, issue-keeps,
}
use micro_identity_sidecar.Oidc.History.Refresh.{sent_refresh, IsRefreshRequest, refresh-IsRenewal}
use micro_identity_sidecar.Oidc.History.Steps.{KeptByRandom, run-keeps}

-- The random source does not spell a token of this hash.
abbrev pub AvoidsHash : Platform → Bytes → Random → Type 0
AvoidsHash p hash none = Unit
AvoidsHash p hash (some r) = hash_token p (b64 r) ≢ hash

abbrev pub AvoidsToken : Platform → Bytes → Call → Type 0
AvoidsToken p hash (tokens now for_access for_refresh r) =
    AvoidsHash p hash for_access × AvoidsHash p hash for_refresh
AvoidsToken p hash (authorizes now random r) = Unit
AvoidsToken p hash (revokes r) = Unit
AvoidsToken p hash (sweeps now) = Unit
AvoidsToken p hash (rotates events) = Unit

module _ (p : Platform) {B : Type 0} (ops : Backend B) (find : Bytes → B → Option Row)
    (IsValid : B → Type 0) (promise : IsTable ops find IsValid) (cfg : Config)
    (clients : ClientRegistry) (users : UserStore) where
  abbrev the_server : Server B
  the_server = sidecar_server p ops cfg clients users

  -- A valid table without a row of this hash.
  abbrev Lacking : Bytes → World B → Type 0
  Lacking hash w = IsValid w.table × (find hash w.table ≡ none)

  create-keeps :
      (hash : Bytes) (random : Random)
      → AvoidsHash p hash random
      → KeptByCreate p ops (Lacking hash) random
  create-keeps hash none a ttl now s w (valid, gone) = unfold Opaque.create in (valid, gone)
  create-keeps hash (some r) a ttl now s w (valid, gone) =
      let o : Op = creates ttl now (some r) s in
      unfold Revocation.step in
      (
        step-IsValid p ops find IsValid promise o w valid,
        step-absent p ops find IsValid promise hash o w valid a gone,
      )

  revoke-keeps : (hash : Bytes) → KeptByRevoke p ops (Lacking hash)
  unfolding Revocation.step Opaque.revoke
  revoke-keeps hash ttl token w (valid, gone) = (
    step-IsValid p ops find IsValid promise (Revocation.revokes token) w valid,
    step-absent p ops find IsValid promise hash (Revocation.revokes token) w valid tt gone,
  )

  sweep-keeps : (hash : Bytes) → KeptBySweep p ops (Lacking hash)
  unfolding Revocation.step
  sweep-keeps hash now w (valid, gone) = (
    step-IsValid p ops find IsValid promise (Revocation.sweeps now) w valid,
    step-absent p ops find IsValid promise hash (Revocation.sweeps now) w valid tt gone,
  )

  All-KeptByRandom :
      (hash : Bytes) (cs : List Call)
      → All (AvoidsToken p hash) cs
      → All (KeptByRandom p ops cfg clients users (Lacking hash)) cs
  All-KeptByRandom hash [] a = tt
  All-KeptByRandom hash (tokens now for_access for_refresh r ∷ cs) (a, rest) = (
    (create-keeps hash for_access a.0, create-keeps hash for_refresh a.1),
    All-KeptByRandom hash cs rest,
  )
  All-KeptByRandom hash (authorizes now random r ∷ cs) (a, rest) =
      (tt, All-KeptByRandom hash cs rest)
  All-KeptByRandom hash (revokes r ∷ cs) (a, rest) = (tt, All-KeptByRandom hash cs rest)
  All-KeptByRandom hash (sweeps now ∷ cs) (a, rest) = (tt, All-KeptByRandom hash cs rest)
  All-KeptByRandom hash (rotates events ∷ cs) (a, rest) = (λ w h. h, All-KeptByRandom hash cs rest)

  -- A revoked token has no row.
  revoke-Lacking :
      (ttl : ℕ) (token : Bytes) (w : World B)
      → IsValid w.table
      → Lacking (hash_token p token) (Opaque.revoke p ops ttl token w).0
  unfolding Opaque.revoke
  revoke-Lacking ttl token w valid = (
    promise.delete_valid (hash_token p token) w.table valid,
    ground (
      arith,
      promise.delete_find (hash_token p token) w.table (hash_token p token),
      eq_iff (hash_token p token) (hash_token p token),
    ),
  )

  -- A token without a row is refused.
  Lacking-validate :
      (ttl now : ℕ) (token : Bytes) (w : World B)
      → Lacking (hash_token p token) w
      → Opaque.validate p ops ttl now token w ≡ err not_found
  Lacking-validate ttl now token w (valid, gone) =
      validate-eq p ops find IsValid promise ttl now token w
      ∙ ap (λ o. or_not_found (live now o)) gone

  -- Over a table in order, a refresh token that was exchanged for tokens once is never answered
  -- with tokens again, after any history of requests, sweeps and rotations, if neither in the
  -- exchange nor in the history the random source spells a token of its hash.
  pub refresh_used_once :
      (now later : ℕ) (for_access for_refresh again_access again_refresh : Random)
      (r again : Request) (st : State B) (cs : List Call) (t u : TokenResponse)
      → IsValid st.world.table
      → IsRefreshRequest r
      → (handle_token p the_server now for_access for_refresh r st).1 ≡ token_set t
      → AvoidsToken p (hash_token p (sent_refresh r)) (tokens now for_access for_refresh r)
      → All (AvoidsToken p (hash_token p (sent_refresh r))) cs
      → IsRefreshRequest again
      → sent_refresh again ≡ sent_refresh r
      → (handle_token p the_server later again_access again_refresh again
          (run p ops the_server cs (handle_token p the_server now for_access for_refresh r st).0)).1
        ≢ token_set u
  refresh_used_once now later for_access for_refresh again_access again_refresh r again st cs t u
        valid c done a all c' same h =
      let hash = hash_token p (sent_refresh r) in
      let first =
        refresh-IsRenewal p ops cfg clients users now for_access for_refresh r st t c done in
      let gone : Lacking hash (handle_token p the_server now for_access for_refresh r st).0.world =
        subst (λ q. Lacking hash q.0) first.issued
          (issue-keeps p ops cfg clients users (Lacking hash) now for_access for_refresh
            first.client first.session.subject first.session.scope [] first.session.issued_at
            (Opaque.revoke p ops cfg.refresh_token_ttl (sent_refresh r) st.world).0
            (create-keeps hash for_access a.0) (create-keeps hash for_refresh a.1)
            (revoke-Lacking cfg.refresh_token_ttl (sent_refresh r) st.world valid)) in
      let spent : State B =
        run p ops the_server cs (handle_token p the_server now for_access for_refresh r st).0 in
      let still : Lacking hash spent.world =
        run-keeps p ops cfg clients users (Lacking hash) cs
          (handle_token p the_server now for_access for_refresh r st).0
          (All-KeptByRandom hash cs all) (revoke-keeps hash) (sweep-keeps hash) gone in
      let second =
        refresh-IsRenewal p ops cfg clients users later again_access again_refresh again spent u c'
          h in
      let refused =
        Lacking-validate cfg.refresh_token_ttl later (sent_refresh r) spent.world still in
      let accepted = second.validated in absurd (cc)
