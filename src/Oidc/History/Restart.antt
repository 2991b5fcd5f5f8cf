-- ===== src/Oidc/History/Restart.antt =====
-- revoke.go: a revocation that the file backend could not write.
use micro_identity_sidecar.Prelude.{
  ◌≡◌, refl, false, none, some, Bytes, ◌==◌, codes, arith, ap, ◌∙◌, eq_refl,
}
use micro_identity_sidecar.Prelude.Map as Map
use micro_identity_sidecar.Prelude.Map.{get-delete}
use micro_identity_sidecar.Platform.{Platform}
use micro_identity_sidecar.Session.{Error}
use micro_identity_sidecar.Session.File as File
use micro_identity_sidecar.Session.File.{FileBackend, file_ops, load}
use micro_identity_sidecar.Session.File.Refinement as Refinement
use micro_identity_sidecar.Session.File.Refinement.{file-IsTable}
use micro_identity_sidecar.Session.File.Recovery.{deletes, call, call_undone}
use micro_identity_sidecar.Session.Opaque as Opaque
use micro_identity_sidecar.Session.Opaque.{hash_token}
use micro_identity_sidecar.Session.Bridge as Bridge
use micro_identity_sidecar.Session.Bridge.{sidecar_bridge, store_for}
use micro_identity_sidecar.Oidc.Clients.{Client, ClientRegistry}
use micro_identity_sidecar.Oidc.Users.{UserStore}
use micro_identity_sidecar.Oidc.Server.{Config, Server, State, Request, empty_body, value}
use micro_identity_sidecar.Oidc.Token.Conditions.{IsAuthenticated}
use micro_identity_sidecar.Oidc.Resources.{revoke_everywhere, handle_revoke}
use micro_identity_sidecar.Oidc.History.{sidecar_server}
use micro_identity_sidecar.Oidc.History.Access.{IsRevocation, revocation-eq}

-- Deleting a row that is not there changes nothing.
delete_absent : (k : Bytes) (b : FileBackend) → Map.get k b.rows ≡ none → (File.delete k b).0 ≡ b
unfolding File.delete
delete_absent k b gone = ground arith

delete_twice :
    (k : Bytes) (b : FileBackend) → (File.delete k (File.delete k b).0).0 ≡ (File.delete k b).0
delete_twice k b =
    delete_absent k (File.delete k b).0 (file-IsTable.delete_find k b k ∙ rw (eq_refl k) refl)

module _ (p : Platform) (cfg : Config) (clients : ClientRegistry) (users : UserStore) where
  abbrev server : Server FileBackend
  server = sidecar_server p file_ops cfg clients users

  everywhere-table :
      (token : Bytes) (st : State FileBackend)
      → (revoke_everywhere p server token st).world.table
        ≡ (File.delete (hash_token p token) st.world.table).0
  unfolding revoke_everywhere sidecar_server sidecar_bridge Bridge.revoke store_for ◌==◌
      Opaque.revoke
  everywhere-table token st = delete_twice (hash_token p token) st.world.table

  -- If the file backend reports that it could not write the table without a revoked token, the
  -- revocation is answered with 200 all the same, and a restart finds the table with whatever it
  -- held before.
  pub revocation_undone_by_restart :
      (r : Request) (st : State FileBackend) (client : Client) (e : Error)
      → IsRevocation r
      → IsAuthenticated p server r client
      → (File.delete (hash_token p (value r.post_form (codes "token"))) st.world.table).1 ≡ some e
      → ((handle_revoke p server r st).1 ≡ empty_body 200)
        × (load false (handle_revoke p server r st).0.world.table.drive
            ≡ load false st.world.table.drive)
  revocation_undone_by_restart r st client e h auth failed =
      let token = value r.post_form (codes "token") in
      let same =
        revocation-eq p file_ops Refinement.find Refinement.IsValid file-IsTable cfg clients users r
          st client h auth in
      (
        ap (λ q. q.1) same,
        ap (λ q. load false q.0.world.table.drive) same
            ∙ ap (λ b. load false b.drive) (everywhere-table token st)
            ∙ (unfold call in call_undone (deletes (hash_token p token)) st.world.table e failed),
      )
