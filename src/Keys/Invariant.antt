-- ===== src/Keys/Invariant.antt =====
-- manager.go: what every manager keeps true, from NewManager on and through every tick.
use micro_identity_sidecar.Prelude.{
  ℕ, ◌+◌, ◌≡◌, refl, subst, none, some, List, [], ◌∷◌, ◌++◌, arith, Bytes, All, Option-cases, inl,
  inr, ok, Result-cases, ok_injective,
}
use micro_identity_sidecar.Platform.{Platform}
use micro_identity_sidecar.Keys.{
  Entry, Manager, Random, Event, ticked, stopped, generate, new_manager, promote, rotate, find,
  prune, tick, start_rotation,
}
use micro_identity_sidecar.Keys.Kid.{
  IsNumbered, find_next_kid, Distinct, Distinct-append, keep-Distinct, keep-All, find_absent-keep,
}
use micro_identity_sidecar.Keys.Generation.{
  IsKey, IsRetired, IsFresh, IsKey-next, All-next, All-append, retire-IsKey, generate-IsFresh,
}

pub record IsManaged (p : Platform) (m : Manager) : Type 0 where
  pub active : IsKey p m.alg m.seq m.active
  pub in_use : m.active.retired_at ≡ none
  pub retired : All (IsKey p m.alg m.seq) m.retired
  pub dated : All IsRetired m.retired
  pub distinct : Distinct (m.active ∷ m.retired)

module _ (p : Platform) where
  -- A manager that NewManager returns is in order.
  pub new_manager-IsManaged :
      (now : ℕ) (random : Random) (alg : Bytes) (every grace : ℕ) (m : Manager)
      → new_manager p now random alg every grace ≡ ok m
      → IsManaged p m
  unfolding new_manager find
  new_manager-IsManaged now random alg every grace m h =
      elim (Result-cases (generate p now random alg 1)) [
        | inl (e, made) ↦
            let fresh : IsFresh p alg now 1 e = generate-IsFresh p now 1 random alg e made in
            subst (IsManaged p) (ok_injective (rw (made, new_manager) at h)) (record {
              active = fresh.key;
              in_use = fresh.in_use;
              retired = tt;
              dated = tt;
              distinct = (refl, tt);
            })
        | inr (e, failed) ↦ absurd (ground arith)
      ]

  pub IsNumbered-of :
      (alg : Bytes) (seq : ℕ) (l : List Entry)
      → All (IsKey p alg seq) l
      → All (IsNumbered alg seq) l
  IsNumbered-of alg seq [] h = tt
  IsNumbered-of alg seq (e ∷ l) h = (h.0.numbered, IsNumbered-of alg seq l h.1)

  -- The retired keys after a rotation.
  demoted-IsKey :
      (now : ℕ) (m : Manager)
      → IsManaged p m
      → All (IsKey p m.alg m.seq) (m.retired ++ record m.active { retired_at = some now } ∷ [])
  demoted-IsKey now m h =
      All-append _ m.retired _ h.retired (retire-IsKey p m.alg m.seq now m.active h.active)

  rotated-IsManaged :
      (now : ℕ) (m : Manager) (next : Entry)
      → IsManaged p m
      → IsFresh p m.alg now (m.seq + 1) next
      → IsManaged p (promote now next m)
  rotated-IsManaged now m next h fresh = record {
    active = fresh.key;
    in_use = fresh.in_use;
    retired = All-next p m.alg m.seq _ (demoted-IsKey now m h);
    dated = All-append IsRetired m.retired _ h.dated (now, refl);
    distinct = (
      rw fresh.kid
          (find_next_kid m.alg now m.seq _ (IsNumbered-of m.alg m.seq _ (demoted-IsKey now m h))),
      Distinct-append m.retired _ h.distinct.1 h.distinct.0,
    );
  }

  -- A failed rotation only raises the counter.
  failed-IsManaged : (m : Manager) → IsManaged p m → IsManaged p (record m { seq = m.seq + 1 })
  failed-IsManaged m h = record {
    active = IsKey-next p m.alg m.seq m.active h.active;
    in_use = h.in_use;
    retired = All-next p m.alg m.seq m.retired h.retired;
    dated = h.dated;
    distinct = h.distinct;
  }

  pub rotate-IsManaged :
      (now : ℕ) (random : Random) (m : Manager)
      → IsManaged p m
      → IsManaged p (rotate p now random m).0
  unfolding rotate
  rotate-IsManaged now random m h = elim (Result-cases (generate p now random m.alg (m.seq + 1))) [
    | inl (next, made) ↦
        rw (made, rotate)
          (rotated-IsManaged now m next h
            (generate-IsFresh p now (m.seq + 1) random m.alg next made))
    | inr (e, failed) ↦ rw (failed, rotate) (failed-IsManaged m h)
  ]

  prune-IsManaged : (now : ℕ) (m : Manager) → IsManaged p m → IsManaged p (prune now m)
  unfolding prune
  prune-IsManaged now m h = record {
    active = h.active;
    in_use = h.in_use;
    retired = keep-All _ now m.grace_period m.retired h.retired;
    dated = keep-All IsRetired now m.grace_period m.retired h.dated;
    distinct = (
      find_absent-keep now m.grace_period m.active.kid m.retired h.distinct.0,
      keep-Distinct now m.grace_period m.retired h.distinct.1,
    );
  }

  pub tick-IsManaged :
      (now : ℕ) (random : Random) (m : Manager) → IsManaged p m → IsManaged p (tick p now random m)
  unfolding tick
  tick-IsManaged now random m h = elim (Option-cases (rotate p now random m).1) [
    | inl done ↦
        rw (done, tick)
          (prune-IsManaged now (rotate p now random m).0 (rotate-IsManaged now random m h))
    | inr (e, failed) ↦ rw (failed, tick) (rotate-IsManaged now random m h)
  ]

  -- Whatever the rotation loop receives, and whichever key generations fail, a manager in order
  -- stays so: one active key that is not retired, generated keys of its algorithm only, and no key
  -- id twice.
  pub start_rotation-IsManaged :
      (events : List Event) (m : Manager) → IsManaged p m → IsManaged p (start_rotation p events m)
  unfolding start_rotation
  start_rotation-IsManaged [] m h = h
  start_rotation-IsManaged (stopped ∷ events) m h = h
  start_rotation-IsManaged (ticked now random ∷ events) m h =
      start_rotation-IsManaged events _ (tick-IsManaged now random m h)
