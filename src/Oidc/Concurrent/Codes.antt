-- ===== src/Oidc/Concurrent/Codes.antt =====
-- token.go: a code under concurrent requests.
use micro_identity_sidecar.Prelude.{
  ℕ, ◌+◌, ◌≤◌, ◌≡◌, ◌⊎◌, refl, sym, subst, ap, ◌∙◌, false, none, some, [], Bytes, ◌==◌, eq_iff,
  Result, ok, err, arith, All, Bool-cases, Option-cases, inl, inr,
}
use micro_identity_sidecar.Prelude.Map.{get, get-delete}
use micro_identity_sidecar.Platform.{Platform}
use micro_identity_sidecar.Session.{Session, Error, Backend}
use micro_identity_sidecar.Oidc.Server.{Server, State, AuthCode}
use micro_identity_sidecar.Oidc.Token.{check_code}
use micro_identity_sidecar.Oidc.History.Codes.{AvoidsCode, step_absent}
use micro_identity_sidecar.Oidc.Concurrent.Threads.{
  has_taken, got_tokens, bit, count, IsHonest, count-set_nth, count-got_tokens, set_nth-IsHonest,
  nth-IsHonest,
}
use micro_identity_sidecar.Oidc.Concurrent.{
  Job, Thread, redeeming, took, redeemed, refreshing, validated, revoked, refreshed, System,
  issue_for, take_code, redeem, revoke_validated, advance, nth, Move, advances, redeems, refreshes,
  calls, move, Reaches, here, after,
}

module _ (p : Platform) {B : Type 0} (server : Server B) (k : Bytes) where
  -- What a move of a thread does to the code: nothing, or it takes it.
  data Effect (t : Thread) (st : State B) (q : State B × Thread) : Type 0 where
    keeps : has_taken k q.1 ≡ has_taken k t → get k q.0.codes ≡ get k st.codes → Effect t st q
    takes :
        (ac : AuthCode)
        → get k st.codes ≡ some ac
        → has_taken k t ≡ false
        → get k q.0.codes ≡ none
        → Effect t st q

  take_code-Effect : (j : Job) (st : State B) → Effect (redeeming j) st (take_code p server j st)
  unfolding take_code
  take_code-Effect j st = elim (Option-cases (get j.credential st.codes)) [
    | inl unknown ↦ rw (unknown, take_code) (keeps refl refl)
    | inr (ac, known) ↦
        rw (known, take_code)
          (elim (Bool-cases (j.credential == k)) [
            | inl same ↦
                takes ac (ground (arith, known, eq_iff j.credential k)) refl
                  (ground (arith, same, get-delete j.credential k st.codes))
            | inr other ↦ keeps other (ground (arith, other, get-delete j.credential k st.codes))
          ])
  ]

  redeem-Effect :
      (j : Job) (ac : AuthCode) (st : State B)
      → Effect (took j (some ac)) st (redeem p server j ac st)
  unfolding redeem issue_for
  redeem-Effect j ac st =
      elim (Option-cases (check_code p server j.now j.client j.redirect_uri j.verifier ac)) [
        | inl passed ↦ rw (passed, redeem) (keeps refl refl)
        | inr (refusal, refused) ↦ rw (refused, redeem) (keeps refl refl)
      ]

  revoke_validated-Effect :
      (j : Job) (found : Result Error Session) (st : State B)
      → Effect (validated j found) st (revoke_validated p server j found st)
  unfolding revoke_validated
  revoke_validated-Effect j (err e) st = keeps refl refl
  revoke_validated-Effect j (ok s) st = elim (Bool-cases (s.client_id == j.client.id)) [
    | inl same ↦ rw (same, revoke_validated) (keeps refl refl)
    | inr other ↦ rw (other, revoke_validated) (keeps refl refl)
  ]

  advance-Effect : (t : Thread) (st : State B) → Effect t st (advance p server t st)
  unfolding advance issue_for
  advance-Effect (redeeming j) st = take_code-Effect j st
  advance-Effect (took j none) st = keeps refl refl
  advance-Effect (took j (some ac)) st = redeem-Effect j ac st
  advance-Effect (redeemed j o answer) st = keeps refl refl
  advance-Effect (refreshing j) st = keeps refl refl
  advance-Effect (validated j found) st = revoke_validated-Effect j found st
  advance-Effect (revoked j s) st = keeps refl refl
  advance-Effect (refreshed j answer) st = keeps refl refl

  take_code-IsHonest : (j : Job) (st : State B) → IsHonest (take_code p server j st).1
  unfolding take_code
  take_code-IsHonest j st = elim (Option-cases (get j.credential st.codes)) [
    | inl unknown ↦ rw (unknown, take_code) tt
    | inr (ac, known) ↦ rw (known, take_code) tt
  ]

  redeem-IsHonest : (j : Job) (ac : AuthCode) (st : State B) → IsHonest (redeem p server j ac st).1
  unfolding redeem
  redeem-IsHonest j ac st =
      elim (Option-cases (check_code p server j.now j.client j.redirect_uri j.verifier ac)) [
        | inl passed ↦ rw (passed, redeem) tt
        | inr (refusal, refused) ↦ rw (refused, redeem) tt
      ]

  revoke_validated-IsHonest :
      (j : Job) (found : Result Error Session) (st : State B)
      → IsHonest (revoke_validated p server j found st).1
  unfolding revoke_validated
  revoke_validated-IsHonest j (err e) st = tt
  revoke_validated-IsHonest j (ok s) st = elim (Bool-cases (s.client_id == j.client.id)) [
    | inl same ↦ rw (same, revoke_validated) tt
    | inr other ↦ rw (other, revoke_validated) tt
  ]

  advance-IsHonest : (t : Thread) (st : State B) → IsHonest t → IsHonest (advance p server t st).1
  unfolding advance
  advance-IsHonest (redeeming j) st h = take_code-IsHonest j st
  advance-IsHonest (took j none) st h = refl
  advance-IsHonest (took j (some ac)) st h = redeem-IsHonest j ac st
  advance-IsHonest (redeemed j none answer) st h = h
  advance-IsHonest (redeemed j (some ac) answer) st h = tt
  advance-IsHonest (refreshing j) st h = tt
  advance-IsHonest (validated j found) st h = revoke_validated-IsHonest j found st
  advance-IsHonest (revoked j s) st h = tt
  advance-IsHonest (refreshed j answer) st h = tt

  -- The code is there and nobody has taken it, or it is gone and one thread has taken it at most.
  abbrev IsTakenOnce : State B → ℕ → Type 0
  IsTakenOnce st n = (n ≡ 0) ⊎ ((get k st.codes ≡ none) × (n ≤ 1))

  Effect-IsTakenOnce :
      (t : Thread) (st : State B) (q : State B × Thread) (n m : ℕ)
      → Effect t st q
      → m + bit (has_taken k t) ≡ n + bit (has_taken k q.1)
      → IsTakenOnce st n
      → IsTakenOnce q.0 m
  Effect-IsTakenOnce t st q n m (keeps same codes) counted (inl free) =
      inl (ground (arith, same, counted, free))
  Effect-IsTakenOnce t st q n m (keeps same codes) counted (inr (gone, few)) =
      inr (codes ∙ gone, ground (arith, same, counted, few))
  Effect-IsTakenOnce t st q n m (takes ac known fresh gone) counted (inl free) =
      inr (gone, ground (arith, fresh, counted, free))
  Effect-IsTakenOnce t st q n m (takes ac known fresh gone) counted (inr (lost, few)) = absurd (cc)

-- Of the moves, those that do not bring the code `k` into being again.
abbrev pub Quiet : Bytes → Move → Type 0
Quiet k (advances i) = Unit
Quiet k (redeems j) = Unit
Quiet k (refreshes j) = Unit
Quiet k (calls c) = AvoidsCode k c

module _ (p : Platform) {B : Type 0} (ops : Backend B) (server : Server B) (k : Bytes) where
  record IsOrdered (sys : System B) : Type 0 where
    once : IsTakenOnce p server k sys.state (count (has_taken k) sys.threads)
    honest : All IsHonest sys.threads

  arrived : (n : ℕ) (st : State B) → IsTakenOnce p server k st n → IsTakenOnce p server k st (0 + n)
  arrived n st h = let same : n ≡ 0 + n = omega arith in subst (IsTakenOnce p server k st) same h

  move-IsOrdered :
      (m : Move) (sys : System B) → Quiet k m → IsOrdered sys → IsOrdered (move p ops server m sys)
  unfolding move
  move-IsOrdered (redeems j) sys quiet h = record {
    once = arrived (count (has_taken k) sys.threads) sys.state h.once;
    honest = (tt, h.honest);
  }
  move-IsOrdered (refreshes j) sys quiet h = record {
    once = arrived (count (has_taken k) sys.threads) sys.state h.once;
    honest = (tt, h.honest);
  }
  move-IsOrdered (calls c) sys quiet h = record {
    once = elim h.once [
      | inl free ↦ inl free
      | inr (gone, few) ↦ inr (step_absent p ops server c sys.state k quiet gone, few)
    ];
    honest = h.honest;
  }
  move-IsOrdered (advances i) sys quiet h = elim (Option-cases (nth i sys.threads)) [
    | inl nobody ↦ rw (nobody, move) (record { once = h.once; honest = h.honest })
    | inr (t, there) ↦
        rw (there, move)
          (record {
            once =
                Effect-IsTakenOnce p server k t sys.state (advance p server t sys.state) _ _
                  (advance-Effect p server k t sys.state)
                  (count-set_nth (has_taken k) i t (advance p server t sys.state).1 sys.threads
                    there)
                  h.once;
            honest =
                set_nth-IsHonest i (advance p server t sys.state).1 sys.threads
                  (advance-IsHonest p server k t sys.state
                    (nth-IsHonest i t sys.threads there h.honest))
                  h.honest;
          })
  ]

  Reaches-IsOrdered :
      (start sys : System B)
      → Reaches p ops server (Quiet k) start sys
      → IsOrdered start
      → IsOrdered sys
  Reaches-IsOrdered start _ here h = h
  Reaches-IsOrdered start _ (after sys m reached quiet) h =
      move-IsOrdered m sys quiet (Reaches-IsOrdered start sys reached h)

  -- However the requests in flight interleave with each other and with whole calls, of all the
  -- threads that present one code at most one takes it, and at most one is answered with tokens, if
  -- the random source does not spell the code again meanwhile.
  pub code_taken_once :
      (start sys : System B)
      → start.threads ≡ []
      → Reaches p ops server (Quiet k) start sys
      → (count (has_taken k) sys.threads ≤ 1) × (count (got_tokens k) sys.threads ≤ 1)
  code_taken_once start sys idle reached =
      let h : IsOrdered sys = Reaches-IsOrdered start sys reached (record {
        once = inl (ap (count (has_taken k)) idle);
        honest = subst (All IsHonest) (sym idle) tt;
      }) in
      let few : count (has_taken k) sys.threads ≤ 1 = elim h.once [
        | inl free ↦ omega (arith, free)
        | inr (gone, few) ↦ few
      ] in
      (few, omega (arith, few, count-got_tokens k sys.threads h.honest))
