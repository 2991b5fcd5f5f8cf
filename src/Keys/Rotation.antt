-- ===== src/Keys/Rotation.antt =====
-- manager.go: how long a key id can be resolved while the active key rotates.
use micro_identity_sidecar.Prelude.{
  ℕ, ◌+◌, ◌≤◌, ◌<◌, ◌≡◌, sym, subst, true, false, Option, none, some, List, [], ◌∷◌, arith, Bytes,
  ◌==◌, eq_iff, if◌then◌else◌, Bool-cases, Option-cases, inl, inr, Result-cases, Bool, leb,
}
use micro_identity_sidecar.Platform.{Platform}
use micro_identity_sidecar.Jwt.Token.{Verifier, verifier_of}
use micro_identity_sidecar.Keys.{
  Entry, Manager, Random, Event, ticked, stopped, entry_verifier, generate, promote, rotate, find,
  keep, in_grace, prune, tick, start_rotation, verifier,
}
use micro_identity_sidecar.Keys.Kid.{find-append, find-keep, find_next_kid, find-All}
use micro_identity_sidecar.Keys.Generation.{IsFresh, IsRetired, generate-IsFresh}
use micro_identity_sidecar.Keys.Invariant.{
  IsManaged, rotate-IsManaged, tick-IsManaged, IsNumbered-of,
}

-- Not retired before `since`.
abbrev pub LiveAt : ℕ → Option ℕ → Type 0
LiveAt since none = Unit
LiveAt since (some t) = since ≤ t

-- `kid` resolves to `v`, by an entry that was not retired before `since`.
pub record Resolves (p : Platform) (since : ℕ) (m : Manager) (kid : Bytes) (v : Verifier)
    : Type 0 where
  pub entry : Entry
  pub found : find kid (m.active ∷ m.retired) ≡ some entry
  pub verifies : entry_verifier p entry ≡ some v
  pub live : LiveAt since entry.retired_at

-- Every tick comes after `since`, and before the grace period that begins then is over.
abbrev pub Within : ℕ → ℕ → List Event → Type 0
Within since grace [] = Unit
Within since grace (ticked now random ∷ events) =
    (since ≤ now) × (now < since + grace) × Within since grace events
Within since grace (stopped ∷ events) = Within since grace events

-- Whether an entry, if there is one, was retired a grace period ago or longer.
abbrev pub grace_over : ℕ → ℕ → Option Entry → Bool
grace_over now grace none = false
grace_over now grace (some e) = elim e.retired_at [ none ↦ false | some t ↦ leb (t + grace) now ]

module _ (p : Platform) where
  verifier-Resolves :
      (since : ℕ) (m : Manager) (kid : Bytes) (v : Verifier)
      → Resolves p since m kid v
      → verifier p m kid ≡ some (some v)
  unfolding verifier find
  verifier-Resolves since m kid v r = ground (arith, r.found, r.verifies)

  -- The id of a fresh key is nobody's.
  fresh_kid :
      (now : ℕ) (m : Manager) (next : Entry)
      → IsManaged p m
      → IsFresh p m.alg now (m.seq + 1) next
      → find next.kid (m.active ∷ m.retired) ≡ none
  fresh_kid now m next h fresh = rw fresh.kid (
      find_next_kid m.alg now m.seq (m.active ∷ m.retired)
        (IsNumbered-of p m.alg m.seq (m.active ∷ m.retired) (h.active, h.retired)))

  grace-rotate :
      (now : ℕ) (random : Random) (m : Manager)
      → (rotate p now random m).0.grace_period ≡ m.grace_period
  unfolding rotate
  grace-rotate now random m = ground arith

  grace-tick :
      (now : ℕ) (random : Random) (m : Manager)
      → (tick p now random m).grace_period ≡ m.grace_period
  unfolding tick prune
  grace-tick now random m = ground (arith, grace-rotate now random m)

  module _ (since : ℕ) (kid : Bytes) (v : Verifier) where
    retired_found :
        (now : ℕ) (m : Manager) (next : Entry)
        → IsManaged p m
        → find next.kid (m.active ∷ m.retired) ≡ none
        → (m.active.kid == kid) ≡ false
        → Resolves p since m kid v
        → Resolves p since (promote now next m) kid v
    unfolding find
    retired_found now m next h fresh other r = record {
      entry = r.entry;
      found = ground (
        arith,
        r.found,
        find-append kid m.retired (record m.active { retired_at = some now }),
        eq_iff next.kid kid,
      );
      verifies = r.verifies;
      live = r.live;
    }

    active_found :
        (now : ℕ) (m : Manager) (next : Entry)
        → IsManaged p m
        → find next.kid (m.active ∷ m.retired) ≡ none
        → (m.active.kid == kid) ≡ true
        → since ≤ now
        → Resolves p since m kid v
        → Resolves p since (promote now next m) kid v
    unfolding find entry_verifier
    active_found now m next h fresh same after r =
        let is_active : m.active ≡ r.entry = ground (arith, r.found) in
        record {
          entry = record m.active { retired_at = some now };
          found = ground (
            arith,
            h.distinct.0,
            find-append kid m.retired (record m.active { retired_at = some now }),
            eq_iff next.kid kid,
            eq_iff m.active.kid kid,
          );
          verifies = subst (λ e. entry_verifier p e ≡ some v) (sym is_active) r.verifies;
          live = after;
        }

    Resolves-rotate :
        (now : ℕ) (random : Random) (m : Manager)
        → IsManaged p m
        → since ≤ now
        → Resolves p since m kid v
        → Resolves p since (rotate p now random m).0 kid v
    unfolding rotate
    Resolves-rotate now random m h after r =
        elim (Result-cases (generate p now random m.alg (m.seq + 1))) [
          | inl (next, made) ↦
              let fresh : find next.kid (m.active ∷ m.retired) ≡ none =
                fresh_kid now m next h
                  (generate-IsFresh p now (m.seq + 1) random m.alg next made) in
              rw (made, rotate)
                (elim (Bool-cases (m.active.kid == kid)) [
                  | inl same ↦ active_found now m next h fresh same after r
                  | inr other ↦ retired_found now m next h fresh other r
                ])
          | inr (e, failed) ↦
              rw (failed, rotate)
                (record { entry = r.entry; found = r.found; verifies = r.verifies; live = r.live })
        ]

    in_grace_kept :
        (now grace : ℕ) (e : Entry)
        → LiveAt since e.retired_at
        → IsRetired e
        → now < since + grace
        → in_grace now grace e ≡ true
    unfolding in_grace
    in_grace_kept now grace e live (t, dated) before =
        let after : since ≤ t = subst (LiveAt since) dated live in ground (arith, dated)

    retired_kept :
        (now : ℕ) (m : Manager) (e : Entry)
        → IsManaged p m
        → find kid m.retired ≡ some e
        → LiveAt since e.retired_at
        → now < since + m.grace_period
        → find kid (keep now m.grace_period m.retired) ≡ some e
    retired_kept now m e h found live before = ground (
      arith,
      find-keep now m.grace_period kid m.retired h.distinct.1,
      in_grace_kept now m.grace_period e live (find-All IsRetired kid m.retired h.dated found)
          before,
    )

    Resolves-prune :
        (now : ℕ) (m : Manager)
        → IsManaged p m
        → now < since + m.grace_period
        → Resolves p since m kid v
        → Resolves p since (prune now m) kid v
    unfolding prune find
    Resolves-prune now m h before r = record {
      entry = r.entry;
      found = elim (Bool-cases (m.active.kid == kid)) [
        | inl same ↦ ground (arith, r.found)
        | inr other ↦ rw other (retired_kept now m r.entry h (rw other at r.found) r.live before)
      ];
      verifies = r.verifies;
      live = r.live;
    }

    Resolves-tick :
        (now : ℕ) (random : Random) (m : Manager)
        → IsManaged p m
        → since ≤ now
        → now < since + m.grace_period
        → Resolves p since m kid v
        → Resolves p since (tick p now random m) kid v
    unfolding tick
    Resolves-tick now random m h after before r = elim (Option-cases (rotate p now random m).1) [
      | inl done ↦
          rw (done, tick)
            (Resolves-prune now (rotate p now random m).0 (rotate-IsManaged p now random m h)
              (rw (grace-rotate now random m) before) (Resolves-rotate now random m h after r))
      | inr (e, failed) ↦ rw (failed, tick) (Resolves-rotate now random m h after r)
    ]

    Resolves-start_rotation :
        (events : List Event) (m : Manager)
        → IsManaged p m
        → Within since m.grace_period events
        → Resolves p since m kid v
        → Resolves p since (start_rotation p events m) kid v
    unfolding start_rotation
    Resolves-start_rotation [] m h w r = r
    Resolves-start_rotation (stopped ∷ events) m h w r = r
    Resolves-start_rotation (ticked now random ∷ events) m h (after, before, w) r =
        Resolves-start_rotation events (tick p now random m) (tick-IsManaged p now random m h)
          (rw (grace-tick now random m) w) (Resolves-tick now random m h after before r)

  -- In a manager in order, a key that is active at `since` can be resolved by its id, with the same
  -- public key, after any rotations that happen before the grace period from `since` on is over,
  -- failed ones included.
  pub active_survives :
      (since : ℕ) (events : List Event) (m : Manager) (h : IsManaged p m)
      → Within since m.grace_period events
      → verifier p (start_rotation p events m) m.active.kid
        ≡ some (some (verifier_of p h.active.key))
  active_survives since events m h w =
      verifier-Resolves since (start_rotation p events m) m.active.kid _ (
        Resolves-start_rotation since m.active.kid _ events m h w (record {
          entry = m.active;
          found = unfold find in ground (arith, eq_iff m.active.kid m.active.kid);
          verifies = h.active.verifies;
          live = rw h.in_use tt;
        }))

  -- In a manager in order, pruning makes exactly those ids unknown whose key was retired at least a
  -- grace period ago; every other id, the active one included, is looked up as before.
  pub verifier-prune :
      (now : ℕ) (m : Manager) (kid : Bytes)
      → IsManaged p m
      → verifier p (prune now m) kid
        ≡ (if grace_over now m.grace_period (find kid m.retired) then none else verifier p m kid)
  unfolding verifier prune in_grace
  verifier-prune now m kid h = elim (Option-cases (find kid m.retired)) [
    | inl absent ↦ ground (arith, find-keep now m.grace_period kid m.retired h.distinct.1, absent)
    | inr (e, found) ↦
        let (t, retired) = find-All IsRetired kid m.retired h.dated found in
        let inactive : (m.active.kid == kid) ≡ false =
          ground (arith, eq_iff m.active.kid kid, h.distinct.0, found) in
        ground
          (arith, find-keep now m.grace_period kid m.retired h.distinct.1, found, retired, inactive)
  ]
