-- ===== src/Oidc/History/Order.antt =====
-- main.go: what a history of calls keeps in order.
use micro_identity_sidecar.Prelude.{Option, none, some, List, [], ◌∷◌, Bytes, All}
use micro_identity_sidecar.Platform.{Platform}
use micro_identity_sidecar.Keys.{Random, Event}
use micro_identity_sidecar.Keys.Invariant.{IsManaged, start_rotation-IsManaged}
use micro_identity_sidecar.Session.{Row, Backend, World}
use micro_identity_sidecar.Session.Table.{IsTable}
use micro_identity_sidecar.Session.Opaque as Opaque
use micro_identity_sidecar.Session.Opaque.Revocation as Revocation
use micro_identity_sidecar.Session.Opaque.Revocation.{Op, creates, step-IsValid}
use micro_identity_sidecar.Oidc.Clients.{ClientRegistry}
use micro_identity_sidecar.Oidc.Users.{UserStore}
use micro_identity_sidecar.Oidc.Server.{Config, State}
use micro_identity_sidecar.Oidc.History.Tables.{
  KeptByCreate, KeptByRevoke, KeptBySweep, KeptByRotation,
}
use micro_identity_sidecar.Oidc.History.Steps.{KeptByRandom, run-keeps}
use micro_identity_sidecar.Oidc.History.{
  sidecar_server, Call, tokens, authorizes, revokes, sweeps, rotates, run,
}

module _ (p : Platform) {B : Type 0} (ops : Backend B) (find : Bytes → B → Option Row)
    (IsValid : B → Type 0) (promise : IsTable ops find IsValid) where
  -- The keys and the table are in order.
  abbrev pub InOrder : World B → Type 0
  InOrder w = IsManaged p w.keys × IsValid w.table

  create-keeps : (random : Random) → KeptByCreate p ops InOrder random
  create-keeps none ttl now s w h = unfold Opaque.create in h
  create-keeps (some r) ttl now s w (managed, valid) =
      let o : Op = creates ttl now (some r) s in
      unfold Opaque.create Opaque.store Revocation.step in
      (managed, step-IsValid p ops find IsValid promise o w valid)

  revoke-keeps : KeptByRevoke p ops InOrder
  unfolding Revocation.step Opaque.revoke
  revoke-keeps ttl token w (managed, valid) =
      (managed, step-IsValid p ops find IsValid promise (Revocation.revokes token) w valid)

  sweep-keeps : KeptBySweep p ops InOrder
  unfolding Revocation.step Opaque.sweep
  sweep-keeps now w (managed, valid) =
      (managed, step-IsValid p ops find IsValid promise (Revocation.sweeps now) w valid)

  rotation-keeps : (events : List Event) → KeptByRotation p ops InOrder events
  rotation-keeps events w (managed, valid) =
      (start_rotation-IsManaged p events w.keys managed, valid)

  module _ (cfg : Config) (clients : ClientRegistry) (users : UserStore) where
    All-KeptByRandom : (cs : List Call) → All (KeptByRandom p ops cfg clients users InOrder) cs
    All-KeptByRandom [] = tt
    All-KeptByRandom (tokens now for_access for_refresh r ∷ cs) =
        ((create-keeps for_access, create-keeps for_refresh), All-KeptByRandom cs)
    All-KeptByRandom (authorizes now random r ∷ cs) = (tt, All-KeptByRandom cs)
    All-KeptByRandom (revokes r ∷ cs) = (tt, All-KeptByRandom cs)
    All-KeptByRandom (sweeps now ∷ cs) = (tt, All-KeptByRandom cs)
    All-KeptByRandom (rotates events ∷ cs) = (rotation-keeps events, All-KeptByRandom cs)

    pub run-InOrder :
        (cs : List Call) (st : State B)
        → InOrder st.world
        → InOrder (run p ops (sidecar_server p ops cfg clients users) cs st).world
    run-InOrder cs st h =
        run-keeps p ops cfg clients users InOrder cs st (All-KeptByRandom cs) revoke-keeps
          sweep-keeps h
