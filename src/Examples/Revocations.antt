-- ===== src/Examples/Revocations.antt =====
-- The theorems on revocation and on /userinfo, applied to a refresh token in a table.
use micro_identity_sidecar.Prelude.{
  false, eq_refl, ◌*◌, ◌≡◌, refl, inl, none, some, [], ◌∷◌, ◌++◌, Bytes, ◌==◌, codes, arith, ok,
  err, if◌then◌else◌,
}
use micro_identity_sidecar.Prelude.Map as Map
use micro_identity_sidecar.Go.Base64.{encode, digit, sextet}
use micro_identity_sidecar.Go.Strings.{Lacks}
use micro_identity_sidecar.Platform.{str}
use micro_identity_sidecar.Jwt.Token.{second, b64}
use micro_identity_sidecar.Session.{Row, not_found, disk}
use micro_identity_sidecar.Session.Table.{row}
use micro_identity_sidecar.Session.File as File
use micro_identity_sidecar.Session.File.{FileBackend, file_ops}
use micro_identity_sidecar.Oidc.History.Restart.{revocation_undone_by_restart}
use micro_identity_sidecar.Session.Memory as Memory
use micro_identity_sidecar.Session.Memory.{MemoryBackend, memory_ops, memory-IsTable}
use micro_identity_sidecar.Session.Opaque as Opaque
use micro_identity_sidecar.Session.Opaque.{hash_token}
use micro_identity_sidecar.Oidc.Clients.{lookup}
use micro_identity_sidecar.Oidc.Users as Users
use micro_identity_sidecar.Oidc.Users.{demo_user_store}
use micro_identity_sidecar.Oidc.Server.{oauth_error, State, userinfo, empty_body, value}
use micro_identity_sidecar.Oidc.Issue.{credentials}
use micro_identity_sidecar.Oidc.Token.Conditions.{IsAuthenticated}
use micro_identity_sidecar.Oidc.Resources.{bearer, handle_userinfo, handle_revoke}
use micro_identity_sidecar.Oidc.History.{sidecar_server}
use micro_identity_sidecar.Oidc.History.Access.{
  revoked_from_userinfo, IsRevocation, revocation_takes_effect, refresh_token_opens_userinfo,
}
use micro_identity_sidecar.Examples.Toy.{toy}
use micro_identity_sidecar.Examples.Sessions.{session, world}
use micro_identity_sidecar.Examples.Requests.{cfg, app, clients, server, start}
use micro_identity_sidecar.Examples.Replays.{token, holding, refresh_request}

is_revocation : IsRevocation refresh_request
unfolding value Map.get ◌==◌ b64 encode digit sextet
is_revocation = record { posted = refl; parsed = refl; named = λ e. cc }

same_client : IsAuthenticated toy server refresh_request app
unfolding value Map.get ◌==◌ credentials lookup sidecar_server
same_client = record { registered = refl; secret = inl refl }

revocation_takes_effect_example :
    ((handle_revoke toy server refresh_request holding).1 ≡ empty_body 200)
    × (Opaque.validate toy memory_ops
          (900 * second)
          (20 * second)
          token
          (handle_revoke toy server refresh_request holding).0.world
        ≡ (if hash_token toy (value refresh_request.post_form (codes "token"))
              == hash_token toy token
            then err not_found
            else Opaque.validate toy memory_ops (900 * second) (20 * second) token holding.world))
revocation_takes_effect_example =
    revocation_takes_effect toy memory_ops Memory.find Memory.IsValid memory-IsTable cfg clients
      (demo_user_store toy) refresh_request holding app token (900 * second) (20 * second)
      is_revocation same_client

stored :
    (Opaque.create toy memory_ops (900 * second) (6 * second) (some (3 ∷ [])) session world).1
    ≡ ok token
unfolding Opaque.create Opaque.store Memory.put
stored = refl

refresh_token_opens_userinfo_example :
    handle_userinfo toy server (20 * second) refresh_request holding
    ≡ userinfo (Map.put (codes "sub") (str session.subject) (Users.profile toy session.subject))
refresh_token_opens_userinfo_example =
    refresh_token_opens_userinfo toy memory_ops Memory.find Memory.IsValid memory-IsTable cfg
      clients (demo_user_store toy) (6 * second) (20 * second) (some (3 ∷ [])) session start token
      refresh_request stored refl (omega arith)

-- A table in a file that holds the token, and whose next snapshot cannot be renamed.
abbrev failing : FileBackend
failing = record {
  rows = (hash_token toy token, row session (6 * second)) ∷ [];
  drive = record {
    file = some (File.table ((hash_token toy token, row session (6 * second)) ∷ []));
    tmp = none;
    faults = some File.rename_fails ∷ [];
  };
}

abbrev on_file : State FileBackend
on_file = record { codes = []; world = record { keys = world.keys; table = failing } }

on_file_client :
    IsAuthenticated toy
      (sidecar_server toy file_ops cfg clients (demo_user_store toy))
      refresh_request
      app
unfolding value Map.get ◌==◌ credentials lookup sidecar_server
on_file_client = record { registered = refl; secret = inl refl }

-- The first of a list of rows.
get_first : (k : Bytes) (r : Row) → Map.get k ((k, r) ∷ []) ≡ some r
unfolding Map.get
get_first k r = rw (eq_refl k) refl

not_written : (File.delete (hash_token toy token) failing).1 ≡ some (disk "rename")
unfolding File.delete File.snapshot File.write
not_written = rw (get_first (hash_token toy token), File.delete) refl

revocation_undone_by_restart_example :
    ((handle_revoke toy
        (sidecar_server toy file_ops cfg clients (demo_user_store toy))
        refresh_request
        on_file).1
      ≡ empty_body 200)
    × (File.load false
          (handle_revoke toy
            (sidecar_server toy file_ops cfg clients (demo_user_store toy))
            refresh_request
            on_file).0.world.table.drive
        ≡ File.load false failing.drive)
unfolding value Map.get ◌==◌
revocation_undone_by_restart_example =
    revocation_undone_by_restart toy cfg clients (demo_user_store toy) refresh_request on_file app
      (disk "rename") is_revocation on_file_client not_written

sent_token :
    refresh_request.authorization ≡ bearer ++ value refresh_request.post_form (codes "token")
unfolding value Map.get ◌==◌
sent_token = refl

token_plain : Lacks b'.' token
unfolding b64 encode digit sextet
token_plain = omega arith

revoked_from_userinfo_example :
    handle_userinfo toy server
      (20 * second)
      refresh_request
      (handle_revoke toy server refresh_request holding).0
    ≡ oauth_error 401 "invalid_token" "access token is invalid, expired, or revoked"
unfolding value Map.get ◌==◌
revoked_from_userinfo_example =
    revoked_from_userinfo toy memory_ops Memory.find Memory.IsValid memory-IsTable cfg clients
      (demo_user_store toy) refresh_request refresh_request holding app (20 * second) is_revocation
      same_client token_plain sent_token
