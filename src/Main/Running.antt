-- ===== src/Main/Running.antt =====
-- cmd/sidecar/main.go: what holds of every process that main starts.
use micro_identity_sidecar.Prelude.{
  ℕ, ◌≡◌, ◌⊎◌, refl, sym, subst, ap, Bool, true, false, Option, none, some, List, [], Bytes, ◌==◌,
  codes, Result, ok, err, >>=-eq-ok, ok_injective, arith, Bool-cases, Result-cases, inl, inr, ◌≢◌,
  eq_iff, ◌++◌,
}
use micro_identity_sidecar.Prelude.Map
use micro_identity_sidecar.Prelude.Map.{Map, IsMap, get-put}
use micro_identity_sidecar.Platform.{Platform}
use micro_identity_sidecar.Config.{Config, load}
use micro_identity_sidecar.Keys as Keys
use micro_identity_sidecar.Keys.{Random, Manager, new_manager}
use micro_identity_sidecar.Keys.Invariant.{IsManaged, new_manager-IsManaged}
use micro_identity_sidecar.Session.{Row}
use micro_identity_sidecar.Session.Memory.{new_memory_backend}
use micro_identity_sidecar.Session.File as File
use micro_identity_sidecar.Session.File.{
  Disk, FileBackend, Content, table, cut_short, new_file_backend,
}
use micro_identity_sidecar.Session.Any.{
  AnyBackend, in_memory, in_file, any_ops, find, IsValid, any-IsTable,
}
use micro_identity_sidecar.Oidc.Clients.{Client, lookup, register, contains, redirect_allowed}
use micro_identity_sidecar.Oidc.Users.{demo_user_store}
use micro_identity_sidecar.Oidc.Server.{State, Request, redirect}
use micro_identity_sidecar.Oidc.Authorize.{handle_authorize, parameter}
use micro_identity_sidecar.Oidc.Authorize.Grants.{handle_authorize-IsLogin}
use micro_identity_sidecar.Oidc.History.{sidecar_server, Call, run}
use micro_identity_sidecar.Oidc.History.Order.{InOrder, run-InOrder}
use micro_identity_sidecar.Main.{
  Periods, periods, Process, keys_or_fail, interval, magnitude, rotation_panics, sweeper_panics,
  algorithm, open_backend, oidc_config, demo_clients, demo_spa, demo_confidential_app,
  demo_spa_redirect_uris, assemble, start_with, start,
}

-- A session file holds a Go map: no key twice.
abbrev pub IsReadable : Disk → Type 0
IsReadable d = (rows : Map Row) → d.file ≡ some (table rows) → IsMap rows

made_keys : (r : Result Keys.Error Manager) (m : Manager) → keys_or_fail r ≡ ok m → r ≡ ok m
made_keys (ok k) m h = ap ok (ok_injective h)
made_keys (err e) m h = cc

loaded-IsMap :
    (o : Option Content) (d : Disk) (f : FileBackend)
    → IsReadable d
    → d.file ≡ o
    → new_file_backend false d ≡ ok f
    → IsMap f.rows
unfolding new_file_backend File.load
loaded-IsMap none d f h e loaded =
    let same : [] ≡ f.rows = ground (arith, e, loaded) in subst IsMap same tt
loaded-IsMap (some (table rows)) d f h e loaded =
    let same : rows ≡ f.rows = ground (arith, e, loaded) in subst IsMap same (h rows e)
loaded-IsMap (some cut_short) d f h e loaded = absurd (ground (arith, e, loaded))

new_file_backend-IsMap :
    (unreadable : Bool) (d : Disk) (f : FileBackend)
    → IsReadable d
    → new_file_backend unreadable d ≡ ok f
    → IsMap f.rows
unfolding new_file_backend File.load
new_file_backend-IsMap true d f h loaded = absurd (ground arith)
new_file_backend-IsMap false d f h loaded = loaded-IsMap d.file d f h refl loaded

open_backend-IsValid :
    (cfg : Config) (unreadable : Bool) (d : Disk) (b : AnyBackend)
    → IsReadable d
    → open_backend cfg unreadable d ≡ ok b
    → IsValid b
unfolding open_backend new_file_backend
open_backend-IsValid cfg unreadable d b h opened =
    elim (Bool-cases (cfg.session_backend == codes "file")) [
      | inr memory ↦
          let same : in_memory new_memory_backend ≡ b =
            ok_injective (rw (memory, open_backend) at opened) in
          subst IsValid same tt
      | inl file ↦ elim (Result-cases (new_file_backend unreadable d)) [
        | inr (e, failed) ↦ absurd (ground (arith, opened))
        | inl (f, loaded) ↦
            let same : in_file f ≡ b = ok_injective (rw (file, loaded, open_backend) at opened) in
            subst IsValid same (new_file_backend-IsMap unreadable d f h loaded)
      ]
    ]

module _ (p : Platform) (fraction : ℕ → ℕ → ℕ → ℕ) where
  -- What a process is made of.
  pub record IsStarted (cfg : Config) (proc : Process) : Type 0 where
    t : Periods
    keys : Manager
    managed : IsManaged p keys
    backend : AnyBackend
    valid : IsValid backend
    pub sweep_every : ℕ
    pub rotate_every : ℕ
    pub rotates : interval cfg.key_rotate_every rotation_panics ≡ ok rotate_every
    pub sweeps : interval cfg.stateful_sweep_every sweeper_panics ≡ ok sweep_every
    made : proc ≡ assemble p fraction cfg t keys backend sweep_every

  start_with-IsStarted :
      (cfg : Config) (now : ℕ) (random : Random) (unreadable : Bool) (d : Disk) (proc : Process)
      → IsReadable d
      → start_with p fraction cfg now random unreadable d ≡ ok proc
      → IsStarted cfg proc
  unfolding start_with
  start_with-IsStarted cfg now random unreadable d proc readable h =
      let (t, h1, rest1) = >>=-eq-ok (periods cfg) _ h in
      let (m, h2, rest2) =
        >>=-eq-ok
          (keys_or_fail
            (new_manager p now random (algorithm cfg) (magnitude cfg.key_rotate_every) t.grace))
          _ rest1 in
      let (every, h3, rest3) = >>=-eq-ok (interval cfg.key_rotate_every rotation_panics) _ rest2 in
      let (b, h4, rest4) = >>=-eq-ok (open_backend cfg unreadable d) _ rest3 in
      let (sweep, h5, rest5) =
        >>=-eq-ok (interval cfg.stateful_sweep_every sweeper_panics) _ rest4 in
      record {
        t = t;
        keys = m;
        managed = new_manager-IsManaged p now random (algorithm cfg) _ t.grace m (made_keys _ m h2);
        backend = b;
        valid = open_backend-IsValid cfg unreadable d b readable h4;
        sweep_every = sweep;
        rotate_every = every;
        rotates = h3;
        sweeps = h5;
        made = sym (ok_injective rest5);
      }

  pub start-IsStarted :
      (env : Bytes → Bytes) (now : ℕ) (random : Random) (unreadable : Bool) (d : Disk)
      (proc : Process)
      → IsReadable d
      → start p fraction env now random unreadable d ≡ ok proc
      → IsStarted (load fraction env) proc
  unfolding start
  start-IsStarted env now random unreadable d proc h started =
      start_with-IsStarted (load fraction env) now random unreadable d proc h started

  -- Of every process that main starts, whatever the environment and the session file hold and
  -- whatever requests, sweeps and rotations it has seen since, the keys and the table are in order:
  -- one active key that is not retired, generated keys of one algorithm, no key id and no token
  -- hash twice.
  pub started-InOrder :
      (env : Bytes → Bytes) (now : ℕ) (random : Random) (unreadable : Bool) (d : Disk)
      (proc : Process) (cs : List Call)
      → IsReadable d
      → start p fraction env now random unreadable d ≡ ok proc
      → InOrder p any_ops find IsValid any-IsTable (run p any_ops proc.server cs proc.state).world
  unfolding assemble
  started-InOrder env now random unreadable d proc cs h started =
      let it = start-IsStarted env now random unreadable d proc h started in
      let cfg : Config = load fraction env in
      subst
        (λ q. InOrder p any_ops find IsValid any-IsTable (run p any_ops q.server cs q.state).world)
        (sym it.made)
        (run-InOrder p any_ops find IsValid any-IsTable (oidc_config cfg it.t) (demo_clients cfg)
          (demo_user_store p) cs
          (record { codes = []; world = record { keys = it.keys; table = it.backend } })
          (it.managed, it.valid))

  demo_client_cases :
      (cfg : Config) (id : Bytes) (c : Client)
      → lookup id (demo_clients cfg) ≡ some c
      → (c ≡ demo_confidential_app) ⊎ (c ≡ demo_spa cfg)
  unfolding lookup demo_clients register Map.get
  demo_client_cases cfg id c known =
      let confidential : Bytes = demo_confidential_app.id in
      let spa : Bytes = (demo_spa cfg).id in
      let others : Map Client = register (demo_spa cfg) [] in
      elim (Bool-cases (confidential == id)) [
        | inl is_confidential ↦
            inl (ground (arith, get-put confidential id demo_confidential_app others))
        | inr other ↦ inr (
            ground (
              arith,
              get-put confidential id demo_confidential_app others,
              get-put spa id (demo_spa cfg) [],
            ))
      ]

  -- The addresses that a code may go to, written out.
  abbrev IsCallback : Config → Bytes → Type 0
  IsCallback cfg uri =
      (uri ≡ codes "http://127.0.0.1:9091/demo/callback")
      ⊎ (uri ≡ codes "http://localhost:9091/demo/callback")
      ⊎ ((cfg.issuer ≢ []) × (uri ≡ cfg.issuer ++ codes "/demo/callback"))

  demo_uris :
      (cfg : Config) (uri : Bytes)
      → contains (demo_spa_redirect_uris cfg) uri ≡ true
      → IsCallback cfg uri
  unfolding contains demo_spa_redirect_uris
  demo_uris cfg uri listed =
      elim (Bool-cases (codes "http://127.0.0.1:9091/demo/callback" == uri)) [
        | inl same ↦ inl (sym ((eq_iff _ uri).0 same))
        | inr other ↦ elim (Bool-cases (codes "http://localhost:9091/demo/callback" == uri)) [
          | inl same ↦ inr (inl (sym ((eq_iff _ uri).0 same)))
          | inr neither ↦ elim (Bool-cases (cfg.issuer == [])) [
            | inl without ↦ absurd (ground (arith, other, neither, without))
            | inr issued ↦ inr (
                inr (
                  (λ e. ground (arith, eq_iff cfg.issuer [], issued, e)),
                  ground (
                    arith,
                    other,
                    neither,
                    issued,
                    eq_iff (cfg.issuer ++ codes "/demo/callback") uri,
                  ),
                ))
          ]
        ]
      ]

  -- A demo client redirects to a demo URI.
  demo_redirects :
      (cfg : Config) (id uri : Bytes) (c : Client)
      → lookup id (demo_clients cfg) ≡ some c
      → redirect_allowed c uri ≡ true
      → IsCallback cfg uri
  unfolding redirect_allowed contains demo_spa demo_confidential_app
  demo_redirects cfg id uri c known allowed = elim (demo_client_cases cfg id c known) [
    | inl is_confidential ↦
        let narrow : redirect_allowed demo_confidential_app uri ≡ true =
          subst (λ d. redirect_allowed d uri ≡ true) is_confidential allowed in
        elim (Bool-cases (codes "http://127.0.0.1:9091/demo/callback" == uri)) [
          | inl same ↦ inl (sym ((eq_iff _ uri).0 same))
          | inr other ↦ absurd (ground (arith, other, narrow))
        ]
    | inr is_spa ↦ demo_uris cfg uri (subst (λ d. redirect_allowed d uri ≡ true) is_spa allowed)
  ]

  -- /authorize of a process that main has started, in any state that it may be in, sends a code to
  -- no address but http://127.0.0.1:9091/demo/callback, http://localhost:9091/demo/callback and, if
  -- the configured issuer is not empty, the issuer followed by /demo/callback.
  pub started_redirects :
      (env : Bytes → Bytes) (now : ℕ) (random : Random) (unreadable : Bool) (d : Disk)
      (proc : Process) (later : ℕ) (spelled : Random) (r : Request) (st : State AnyBackend)
      (uri code state : Bytes)
      → IsReadable d
      → start p fraction env now random unreadable d ≡ ok proc
      → (handle_authorize proc.server later spelled r st).1 ≡ redirect uri code state
      → (uri ≡ codes "http://127.0.0.1:9091/demo/callback")
        ⊎ (uri ≡ codes "http://localhost:9091/demo/callback")
        ⊎ (((load fraction env).issuer ≢ [])
            × (uri ≡ (load fraction env).issuer ++ codes "/demo/callback"))
  unfolding assemble sidecar_server
  started_redirects env now random unreadable d proc later spelled r st uri code state h started
        answered =
      let it = start-IsStarted env now random unreadable d proc h started in
      let login = handle_authorize-IsLogin proc.server later spelled r st uri code state answered in
      let cfg : Config = load fraction env in
      let clients : proc.server.clients ≡ demo_clients cfg = ap (λ q. q.server.clients) it.made in
      subst (λ u. IsCallback cfg u) (sym login.destination)
        (demo_redirects cfg (parameter r (codes "client_id")) login.req.redirect_uri
          login.req.client
          (subst (λ m. lookup (parameter r (codes "client_id")) m ≡ some login.req.client) clients
            login.request.registered)
          login.request.allowed)
