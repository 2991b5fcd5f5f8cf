-- ===== src/Examples/Tokens.antt =====
-- The theorems on JWTs, applied to the session that one carries through a rotation.
use micro_identity_sidecar.Prelude.{
  ◌∙◌, ◌*◌, ◌≡◌, refl, subst, inl, inr, Bool-cases, true, false, none, some, [], ◌∷◌, Bytes, ◌==◌,
  codes, arith, ok, eq_iff,
}
use micro_identity_sidecar.Prelude.Map.{get}
use micro_identity_sidecar.Jwt.Token.{Signer, ed_signer, eddsa, sign, verify, verifier_of, second}
use micro_identity_sidecar.Jwt.Token.Signing.{IsReadAs, sign-IsReadAs, sign_ed-total}
use micro_identity_sidecar.Jwt.Token.Soundness.{IsAccepted, verify-IsAccepted, check_times_complete}
use micro_identity_sidecar.Jwt.Claims.RoundTrip.{IsWritable, IsCarried, marshal-IsCarried}
use micro_identity_sidecar.Jwt.Claims.{Claims, known}
use micro_identity_sidecar.Keys.{active_signer, signer, start_rotation}
use micro_identity_sidecar.Session.{Session}
use micro_identity_sidecar.Session.Stateless as Stateless
use micro_identity_sidecar.Session.Stateless.{claims_for, id_for}
use micro_identity_sidecar.Session.Stateless.RoundTrip.{
  IsIssuable, IsCopy, kid_for-utf8, claims-IsWritable, jwt_session-validate,
}
use micro_identity_sidecar.Examples.Toy.{toy, toy-IsSound, all_ascii}
use micro_identity_sidecar.Examples.Rotation.{first, manager, managed, events}
use micro_identity_sidecar.Examples.Sessions.{issuer, session, world}

extra_text :
    (k v : Bytes) → get k session.extra ≡ some v → (all_ascii k ≡ true) × (all_ascii v ≡ true)
unfolding get all_ascii
extra_text k v h =
    let named : codes "team" ≡ k = ground (arith, eq_iff (codes "team") k) in
    let valued : codes "blue" ≡ v = ground (arith, eq_iff (codes "team") k) in
    (subst (λ a. all_ascii a ≡ true) named refl, subst (λ a. all_ascii a ≡ true) valued refl)

team_unknown : known (codes "team") ≡ false
unfolding known ◌==◌
team_unknown = refl

extra_unnamed : (k : Bytes) → known k ≡ true → get k session.extra ≡ none
unfolding get
extra_unnamed k h = elim (Bool-cases (codes "team" == k)) [
  | inl same ↦
      let named : codes "team" ≡ k = ground (arith, eq_iff (codes "team") k) in
      absurd (ground (arith, team_unknown, named))
  | inr other ↦ ground arith
]

issuable : IsIssuable toy issuer (60 * second) (6 * second) session
unfolding all_ascii
issuable = record {
  issuer_text = refl;
  id = refl;
  subject = refl;
  client_id = refl;
  scope = refl;
  extra_map = (unfold get in refl, tt);
  extra_text = extra_text;
  extra_unnamed = extra_unnamed;
  times = omega arith;
  dated = omega arith;
}

abbrev claims : Claims
claims = claims_for issuer (60 * second) (6 * second) session.id session

abbrev key : Signer
key = ed_signer first.kid (7 ∷ 8 ∷ [])

kid_text : all_ascii first.kid ≡ true
kid_text = kid_for-utf8 toy toy-IsSound eddsa (5 * second) 1 (omega arith)

signed : (token : Bytes) × (sign toy key claims ≡ ok token)
signed = sign_ed-total toy toy-IsSound first.kid (7 ∷ 8 ∷ []) claims kid_text (
    claims-IsWritable toy toy-IsSound issuer (60 * second) (6 * second) session.id session issuable
      (unfold all_ascii in refl))

created :
    (Stateless.create toy issuer (60 * second) (6 * second) none session world).1 ≡ ok signed.0
unfolding Stateless.create id_for active_signer signer ◌==◌
created = rw (signed.1, Stateless.create) refl

jwt_session-validate_example :
    (t : Session) × IsCopy (60 * second) (6 * second) none session t
    × (Stateless.validate toy issuer
          (60 * second)
          (60 * second)
          signed.0
          (record world { keys = start_rotation toy events manager })
        ≡ ok t)
jwt_session-validate_example =
    jwt_session-validate toy toy-IsSound issuer (60 * second) (6 * second) none session world events
      (60 * second) signed.0 managed issuable tt created (omega arith)

writable : IsWritable toy claims
writable =
    claims-IsWritable toy toy-IsSound issuer (60 * second) (6 * second) session.id session issuable
      (unfold all_ascii in refl)

read_back : IsReadAs toy key claims signed.0
read_back =
    sign-IsReadAs toy toy-IsSound key claims signed.0 (7 ∷ 8 ∷ [], refl) kid_text writable signed.1

sign-IsReadAs_example : IsReadAs toy key claims signed.0
sign-IsReadAs_example =
    sign-IsReadAs toy toy-IsSound key claims signed.0 (7 ∷ 8 ∷ [], refl) kid_text writable signed.1

accepted : verify toy (60 * second) (verifier_of toy key) signed.0 ≡ ok read_back.read
unfolding claims_for
accepted =
    read_back.verified (60 * second)
    ∙ check_times_complete (60 * second) read_back.read (record {
      not_expired = let e = read_back.same.expires_at in inr (omega arith);
      started = inl read_back.same.not_before;
    })

verify-IsAccepted_example :
    IsAccepted toy (60 * second) (verifier_of toy key) signed.0 read_back.read
verify-IsAccepted_example =
    verify-IsAccepted toy (60 * second) (verifier_of toy key) signed.0 read_back.read accepted

marshal-IsCarried_example : IsCarried toy claims
marshal-IsCarried_example = marshal-IsCarried toy toy-IsSound claims writable
