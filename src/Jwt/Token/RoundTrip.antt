-- ===== src/Jwt/Token/RoundTrip.antt =====
-- What a verifier reads from a token that its key signed.
use mathlib.Core.List.{append_assoc}
use micro_identity_sidecar.Prelude.{
  ◌≡◌, refl, ap, true, some, [], ◌∷◌, ◌++◌, arith, Bytes, ◌==◌, All, codes, ok,
}
use micro_identity_sidecar.Prelude.Map.{get}
use micro_identity_sidecar.Go.Base64.RoundTrip.{IsBytes, IsPlain, decode-encode, encode-IsPlain}
use micro_identity_sidecar.Go.Strings.{split, Lacks, split-append, split_of_Lacks, before-append}
use micro_identity_sidecar.Platform.{str, Platform, IsEncodable, Encodes, IsSound}
use micro_identity_sidecar.Jwt.Claims.{Claims, to_text, object_of, present}
use micro_identity_sidecar.Jwt.Claims.Objects.{present-Fits}
use micro_identity_sidecar.Jwt.Claims.RoundTrip.{IsWritable, IsCarried, marshal-IsCarried}
use micro_identity_sidecar.Jwt.Token.{
  Header, b64, unb64, header_object, header_of, unmarshal_header, signing_input, read_segments,
  split_token, peek_kid,
}

Lacks-of_plain : (s : Bytes) → All IsPlain s → Lacks b'.' s
Lacks-of_plain [] h = tt
Lacks-of_plain (c ∷ s) h = (h.0.0, Lacks-of_plain s h.1)

b64-Lacks : (bs : Bytes) → IsBytes bs → Lacks b'.' (b64 bs)
unfolding b64
b64-Lacks bs h = Lacks-of_plain _ (encode-IsPlain bs h)

pub unb64-b64 : (bs : Bytes) → IsBytes bs → unb64 (b64 bs) ≡ some bs
unfolding unb64 b64
unb64-b64 = decode-encode

split_three :
    (a b c : Bytes)
    → Lacks b'.' a
    → Lacks b'.' b
    → Lacks b'.' c
    → split ((a ++ b'.' ∷ b) ++ b'.' ∷ c) b'.' ≡ a ∷ b ∷ c ∷ []
split_three a b c ha hb hc =
    rw (append_assoc a, split-append a (b ++ b'.' ∷ c) _ ha, split-append b c _ hb)
      (ap (λ l. a ∷ b ∷ l) (split_of_Lacks c _ hc))

module _ (p : Platform) (sound : IsSound p) where
  -- A header of valid text.
  abbrev pub IsReadable : Header → Type 0
  IsReadable h = (p.is_utf8 h.alg ≡ true) × (p.is_utf8 h.typ ≡ true) × (p.is_utf8 h.kid ≡ true)

  header-IsEncodable : (h : Header) → IsReadable h → IsEncodable p (header_object h)
  unfolding header_object present get ◌==◌
  header-IsEncodable h (alg, typ, kid) = record {
    distinct = (refl, (refl, (refl, tt)));
    fits = λ k v.
        present-Fits p
          ((codes "alg", some (str h.alg))
            ∷ (codes "typ", some (str h.typ))
            ∷ (codes "kid", some (str h.kid))
            ∷ [])
          k v
          (
            (sound.utf8_ascii _ (omega arith), alg),
            (
              (sound.utf8_ascii _ (omega arith), typ),
              ((sound.utf8_ascii _ (omega arith), kid), tt),
            ),
          );
  }

  module _ (h : Header) (r : IsReadable h) where
    pub written : Encodes p (header_object h)
    written = sound.codec _ (header-IsEncodable h r)

    header_read : unmarshal_header p written.text ≡ some h
    unfolding unmarshal_header header_of object_of header_object get ◌==◌ to_text
    header_read = rw written.parsed (simp written.same)

    module _ (c : Claims) (w : IsWritable p c) where
      pub carried : IsCarried p c
      carried = marshal-IsCarried p sound c w

      -- The signed text of a token.
      abbrev pub input : Bytes
      input = b64 written.text ++ b'.' ∷ b64 carried.text

      pub signing_input-eq : signing_input p h c ≡ ok input
      unfolding signing_input
      signing_input-eq = rw (written.rendered, carried.marshalled)

      pub split_token-input :
          (sig : Bytes)
          → IsBytes sig
          → split_token p (input ++ b'.' ∷ b64 sig)
            ≡ ok (record { header = h; claims = carried.back; input = input; sig = sig })
      unfolding split_token read_segments
      split_token-input sig bytes = rw (
        split_three _ _ _ (b64-Lacks _ written.bytes) (b64-Lacks _ carried.bytes)
            (b64-Lacks sig bytes),
        unb64-b64 _ written.bytes,
        header_read,
        unb64-b64 _ carried.bytes,
        carried.unmarshalled,
        unb64-b64 sig bytes,
      )

      pub peek_kid-input : (rest : Bytes) → peek_kid p (input ++ b'.' ∷ rest) ≡ ok (h.kid, h.alg)
      unfolding peek_kid
      peek_kid-input rest = rw (
        append_assoc (b64 written.text),
        before-append _ _ _ (b64-Lacks _ written.bytes),
        unb64-b64 _ written.bytes,
        header_read,
      )
