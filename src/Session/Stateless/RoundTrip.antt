-- ===== src/Session/Stateless/RoundTrip.antt =====
-- stateless.go: a session that a token carries, while the signing keys rotate.
use micro_identity_sidecar.Prelude.{
  ℕ, ◌+◌, ◌*◌, ◌^◌, ◌<◌, ◌≡◌, ◌⊎◌, refl, sym, subst, ap, ◌∙◌, true, none, some, List, [], ◌∷◌, ◌++◌,
  Bytes, eq_iff, Option-cases, inl, inr, ok, err, Result-cases, if◌then◌else◌, arith, All, ltb,
}
use micro_identity_sidecar.Prelude.Map.{get, IsMap}
use micro_identity_sidecar.Go.Base64.RoundTrip.{IsBytes, encode-ascii}
use micro_identity_sidecar.Go.Decimal.{decimal, decimal-IsDigit, IsDigit}
use micro_identity_sidecar.Platform.{Json, str, Fits, Platform, IsSound}
use micro_identity_sidecar.Jwt.Claims.{Claims, known}
use micro_identity_sidecar.Jwt.Claims.RoundTrip.{SameClaims, IsWritable}
use micro_identity_sidecar.Jwt.Token.{
  Signer, sign, b64, unix, second, kid_of, verifier_of, check_times, rs256, eddsa, expired,
}
use micro_identity_sidecar.Jwt.Token.Signing.{IsReadAs, sign-IsReadAs}
use micro_identity_sidecar.Keys.{
  Entry, Random, Event, Manager, active_signer, verifier, start_rotation, kid_for, signer,
}
use micro_identity_sidecar.Keys.Invariant.{IsManaged}
use micro_identity_sidecar.Keys.Rotation.{Within, active_survives}
use micro_identity_sidecar.Session.{Session, not_found, World}
use micro_identity_sidecar.Session.Stateless.{
  random_id, json_values, id_for, claims_for, first_or_empty, session_of, create, verifier_for,
  validate,
}
use micro_identity_sidecar.Session.Stateless.Extras.{
  get-json_values, json_values-IsMap, text_values-json_values,
}

-- Valid text, no extra claim under the name of a field, and an expiry after 1970 that a
-- float64 holds.
pub record IsIssuable (p : Platform) (issuer : Bytes) (ttl now : ℕ) (s : Session) : Type 0 where
  pub issuer_text : p.is_utf8 issuer ≡ true
  pub id : p.is_utf8 s.id ≡ true
  pub subject : p.is_utf8 s.subject ≡ true
  pub client_id : p.is_utf8 s.client_id ≡ true
  pub scope : p.is_utf8 s.scope ≡ true
  pub extra_map : IsMap s.extra
  pub extra_text :
      (k v : Bytes) → get k s.extra ≡ some v → (p.is_utf8 k ≡ true) × (p.is_utf8 v ≡ true)
  pub extra_unnamed : (k : Bytes) → known k ≡ true → get k s.extra ≡ none
  pub times : unix (now + ttl) < 2 ^ 53
  pub dated : 0 < unix (now + ttl)

-- What is read from the random source are bytes.
abbrev pub IsRandom : Random → Type 0
IsRandom none = Unit
IsRandom (some r) = IsBytes r

-- A session `t` that carries over what `s` holds; its times are whole seconds.
pub record IsCopy (ttl now : ℕ) (random : Random) (s t : Session) : Type 0 where
  same_id : id_for random s ≡ some t.id
  pub subject : t.subject ≡ s.subject
  pub client_id : t.client_id ≡ s.client_id
  pub scope : t.scope ≡ s.scope
  pub issued_at : t.issued_at ≡ unix now * second
  pub expires_at : t.expires_at ≡ unix (now + ttl) * second
  pub extra : (k : Bytes) → get k t.extra ≡ get k s.extra

module _ (p : Platform) (sound : IsSound p) where
  ascii-append :
      (a b : Bytes) → All (λ c. c < 128) a → All (λ c. c < 128) b → All (λ c. c < 128) (a ++ b)
  ascii-append [] b h k = k
  ascii-append (c ∷ a) b h k = (h.0, ascii-append a b h.1 k)

  digits-ascii : (s : Bytes) → All IsDigit s → All (λ c. c < 128) s
  digits-ascii [] h = tt
  digits-ascii (c ∷ s) h = (omega arith, digits-ascii s h.1)

  pub kid_for-utf8 :
      (alg : Bytes) (t n : ℕ) → All (λ c. c < 128) alg → p.is_utf8 (kid_for alg t n) ≡ true
  unfolding kid_for
  kid_for-utf8 alg t n h = sound.utf8_ascii _ (
      ascii-append alg _ h (
        omega arith,
        ascii-append (decimal (unix t)) _ (digits-ascii _ (decimal-IsDigit (unix t)))
            (omega arith, digits-ascii _ (decimal-IsDigit n)),
      ))

  -- Only the two algorithms have a signer, and both names are ASCII.
  pub alg-ascii : (e : Entry) (k : Signer) → signer e ≡ some k → (e.alg ≡ rs256) ⊎ (e.alg ≡ eddsa)
  unfolding signer
  alg-ascii e k h = ground (arith, eq_iff e.alg rs256, eq_iff e.alg eddsa)

  pub active-utf8 : (m : Manager) (h : IsManaged p m) → p.is_utf8 (kid_of h.active.key) ≡ true
  active-utf8 m h = elim (alg-ascii m.active h.active.key h.active.signs) [
    | inl is_rsa ↦ rw h.active.kid (
        rw h.active.numbered.printed (
          kid_for-utf8 m.alg _ _
            (subst (All (λ c. c < 128)) (sym is_rsa ∙ h.active.same_alg) (omega arith))))
    | inr is_ed ↦ rw h.active.kid (
        rw h.active.numbered.printed (
          kid_for-utf8 m.alg _ _
            (subst (All (λ c. c < 128)) (sym is_ed ∙ h.active.same_alg) (omega arith))))
  ]

  extra-Fits :
      (issuer : Bytes) (ttl now : ℕ) (s : Session)
      → IsIssuable p issuer ttl now s
      → (k : Bytes) (v : Json) → get k (json_values s.extra) ≡ some v
      → (p.is_utf8 k ≡ true) × Fits p v
  extra-Fits issuer ttl now s h k v e = elim (Option-cases (get k s.extra)) [
    | inl missing ↦ absurd (let g = get-json_values k s.extra in ground arith)
    | inr (x, at) ↦
        let same : str x ≡ v = let g = get-json_values k s.extra in cc in
        let text = h.extra_text k x at in (text.0, subst (Fits p) same text.1)
  ]

  pub claims-IsWritable :
      (issuer : Bytes) (ttl now : ℕ) (id : Bytes) (s : Session)
      → IsIssuable p issuer ttl now s
      → p.is_utf8 id ≡ true
      → IsWritable p (claims_for issuer ttl now id s)
  unfolding claims_for
  claims-IsWritable issuer ttl now id s h id_text = record {
    issuer = h.issuer_text;
    subject = h.subject;
    audience = (h.client_id, tt);
    expires_at = h.times;
    not_before = omega arith;
    issued_at = omega (arith, h.times);
    jwt_id = id_text;
    scope = h.scope;
    extra = record {
      distinct = json_values-IsMap s.extra h.extra_map;
      fits = extra-Fits issuer ttl now s h;
    };
    unnamed = λ k e. ground (arith, get-json_values k s.extra, h.extra_unnamed k);
  }

  -- What verified claims say is what the session said.
  session_of-IsCopy :
      (issuer : Bytes) (ttl now : ℕ) (random : Random) (id : Bytes) (s : Session) (c : Claims)
      → id_for random s ≡ some id
      → SameClaims (claims_for issuer ttl now id s) c
      → IsCopy ttl now random s (session_of c)
  unfolding claims_for session_of
  session_of-IsCopy issuer ttl now random id s c named same = record {
    same_id = named ∙ ap some (sym same.jwt_id);
    subject = same.subject;
    client_id = ap first_or_empty same.audience ∙ (unfold first_or_empty in refl);
    scope = same.scope;
    issued_at = ap (λ t. t * second) same.issued_at;
    expires_at = ap (λ t. t * second) same.expires_at;
    extra = λ k. text_values-json_values k s.extra c.extra same.distinct (same.extra k);
  }

  pub id_for-utf8 :
      (random : Random) (s : Session) (id : Bytes)
      → IsRandom random
      → p.is_utf8 s.id ≡ true
      → id_for random s ≡ some id
      → p.is_utf8 id ≡ true
  unfolding id_for random_id b64
  id_for-utf8 none s id r h e = ground arith
  id_for-utf8 (some bytes) s id r h e = ground (arith, sound.utf8_ascii _ (encode-ascii bytes r))

  -- The times alone decide about claims without nbf.
  check_times-claims_for :
      (issuer : Bytes) (ttl now later : ℕ) (id : Bytes) (s : Session) (c : Claims)
      → IsIssuable p issuer ttl now s
      → SameClaims (claims_for issuer ttl now id s) c
      → check_times later c ≡ (if ltb (unix (now + ttl)) (unix later) then err expired else ok c)
  unfolding check_times claims_for
  check_times-claims_for issuer ttl now later id s c h same =
      let dated = h.dated in rw (same.expires_at, same.not_before) (ground arith)

  module _ {B : Type 0} (issuer : Bytes) (ttl now : ℕ) (random : Random) (s : Session)
      (w : World B) where
    -- What a call that succeeds has signed.
    create-sign :
        (token : Bytes)
        → (create p issuer ttl now random s w).1 ≡ ok token
        → (id : Bytes) × (id_for random s ≡ some id)
          × (k : Signer) × (active_signer w.keys ≡ some k)
          × (sign p k (claims_for issuer ttl now id s) ≡ ok token)
    unfolding create
    create-sign token h = elim (Option-cases (id_for random s)) [
      | inl no_id ↦ absurd (ground arith)
      | inr (id, named) ↦ elim (Option-cases (active_signer w.keys)) [
        | inl no_key ↦ absurd (ground arith)
        | inr (k, at) ↦ elim (Result-cases (sign p k (claims_for issuer ttl now id s))) [
          | inl (made, signed) ↦ (id, named, k, at, ground arith)
          | inr (e, failed) ↦ absurd (ground arith)
        ]
      ]
    ]

    -- A token is validated, while the keys rotate, like the claims that it carries.
    validate-read :
        (events : List Event) (later : ℕ) (token : Bytes) (h : IsManaged p w.keys) (c : Claims)
        → Within now w.keys.grace_period events
        → (r : IsReadAs p h.active.key c token)
        → validate p issuer ttl later token (record w { keys = start_rotation p events w.keys })
          ≡ elim (check_times later r.read) [
            | ok claims ↦ ok (session_of claims)
            | err e ↦ err not_found
          ]
    unfolding validate verifier_for
    validate-read events later token h c within r =
        let resolved : verifier p (start_rotation p events w.keys) (kid_of h.active.key)
            ≡ some (some (verifier_of p h.active.key)) =
          rw h.active.kid (active_survives p now events w.keys h within) in
        elim (Result-cases (check_times later r.read)) [
          | inl (c, fine) ↦ ground (arith, r.peeked, resolved, r.verified later)
          | inr (e, late) ↦ ground (arith, r.peeked, resolved, r.verified later)
        ]

    -- On a sound platform, with the keys in order and for a session of valid text, a token that
    -- JWTStore creates is validated as the session that it was created for, at any time up to its
    -- ttl, after any rotations that come before the grace period from its creation on is over; from
    -- the second after its ttl on it is refused as not found.
    pub jwt_session-validate :
        (events : List Event) (later : ℕ) (token : Bytes)
        → IsManaged p w.keys
        → IsIssuable p issuer ttl now s
        → IsRandom random
        → (create p issuer ttl now random s w).1 ≡ ok token
        → Within now w.keys.grace_period events
        → (t : Session) × IsCopy ttl now random s t
          × (validate p issuer ttl later token (record w { keys = start_rotation p events w.keys })
              ≡ (if ltb (unix (now + ttl)) (unix later) then err not_found else ok t))
    jwt_session-validate events later token h i r made within =
        let (id, named, k, at, signed) = create-sign token made in
        let same : k ≡ h.active.key = unfold active_signer in ground (arith, h.active.signs) in
        let read : IsReadAs p h.active.key (claims_for issuer ttl now id s) token =
          sign-IsReadAs p sound h.active.key _ token h.active.generated (active-utf8 w.keys h)
            (claims-IsWritable issuer ttl now id s i (id_for-utf8 random s id r i.id named))
            (ap (λ x. sign p x (claims_for issuer ttl now id s)) (sym same) ∙ signed) in
        (
          session_of read.read,
          session_of-IsCopy issuer ttl now random id s read.read named read.same,
          validate-read events later token h _ within read
              ∙ rw (check_times-claims_for issuer ttl now later id s read.read i read.same)
                  (ground arith),
        )
