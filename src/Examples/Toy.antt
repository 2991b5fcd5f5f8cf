-- ===== src/Examples/Toy.antt =====
-- A platform in which a key signs by writing what it signs.
use micro_identity_sidecar.Prelude.{
  ◌%◌, ◌≡◌, refl, Bool, true, ◌&&◌, some, List, [], ◌∷◌, ◌++◌, Bytes, ltb, ◌==◌, eq_iff, eq_refl,
  All, arith, ap, subst,
}
use micro_identity_sidecar.Prelude.Map.{Map, get}
use micro_identity_sidecar.Platform.{
  Json, null, bool, num, str, strs, raw, object, Platform, IsSound, Fits, IsEncodable,
}
use micro_identity_sidecar.Go.Base64.RoundTrip.{IsBytes}
use micro_identity_sidecar.Examples.Codec.{
  write_all, entries_of, IsAscii, IsPlainValue, IsPlainEntry, entries_of-write_all,
  write_all-IsBytes,
}

-- Cuts every number down to a byte.
unfoldable pub bytes_of : Bytes → Bytes
bytes_of [] = []
bytes_of (c ∷ s) = c % 256 ∷ bytes_of s

unfoldable pub all_ascii : Bytes → Bool
all_ascii [] = true
all_ascii (c ∷ s) = ltb c 128 && all_ascii s

abbrev pub toy : Platform
toy = record {
  sha256 = bytes_of;
  rsa_generate = λ r. some (record { public_key = record { n = 77; e = 65537 }; secret = r });
  rsa_sign = λ k digest. some (bytes_of digest);
  rsa_verify = λ k digest sig. sig == bytes_of digest;
  ed_generate = λ r. r;
  ed_public = bytes_of;
  ed_sign = λ k m. bytes_of (bytes_of k ++ m);
  ed_verify = λ k m sig. sig == bytes_of (k ++ m);
  render = λ m. some (write_all m);
  parse = λ s. some (object (entries_of s));
  is_utf8 = all_ascii;
}

bytes_of-IsBytes : (s : Bytes) → IsBytes (bytes_of s)
unfolding bytes_of
bytes_of-IsBytes [] = tt
bytes_of-IsBytes (c ∷ s) = (omega arith, bytes_of-IsBytes s)

IsAscii-all_ascii : (s : Bytes) → IsAscii s → all_ascii s ≡ true
unfolding all_ascii
IsAscii-all_ascii [] h = refl
IsAscii-all_ascii (c ∷ s) h = ground (arith, IsAscii-all_ascii s h.1)

pub all_ascii-IsAscii : (s : Bytes) → all_ascii s ≡ true → IsAscii s
unfolding all_ascii
all_ascii-IsAscii [] h = tt
all_ascii-IsAscii (c ∷ s) h = (ground arith, all_ascii-IsAscii s (ground arith))

All-IsAscii : (l : List Bytes) → All (λ s. all_ascii s ≡ true) l → All IsAscii l
All-IsAscii [] h = tt
All-IsAscii (s ∷ l) h = (all_ascii-IsAscii s h.0, All-IsAscii l h.1)

Fits-IsPlainValue : (v : Json) → Fits toy v → IsPlainValue v
Fits-IsPlainValue null h = tt
Fits-IsPlainValue (bool b) h = tt
Fits-IsPlainValue (num n) h = tt
Fits-IsPlainValue (str s) h = all_ascii-IsAscii s h
Fits-IsPlainValue (strs l) h = All-IsAscii l h
Fits-IsPlainValue (raw s) h = h

IsEncodable-plain : (m : Map Json) → IsEncodable toy m → All IsPlainEntry m
unfolding get
IsEncodable-plain [] h = tt
IsEncodable-plain ((k, v) ∷ m) h =
    let first = h.fits k v (rw (eq_refl k) refl) in
    (
      (all_ascii-IsAscii k first.0, Fits-IsPlainValue v first.1),
      IsEncodable-plain m (record {
        distinct = h.distinct.1;
        fits = λ j u e. h.fits j u (let new = h.distinct.0 in ground (arith, eq_iff k j));
      }),
    )

pub toy-IsSound : IsSound toy
toy-IsSound = record {
  sha256_bytes = bytes_of-IsBytes;
  rsa_correct = λ r k digest sig made signed. ground (arith, eq_refl (bytes_of digest));
  rsa_bytes = λ k digest sig signed. subst IsBytes (ground arith) (bytes_of-IsBytes digest);
  ed_correct = λ r m. eq_refl (bytes_of (bytes_of r ++ m));
  ed_bytes = λ k m. bytes_of-IsBytes (bytes_of k ++ m);
  ed_public_bytes = bytes_of-IsBytes;
  utf8_ascii = IsAscii-all_ascii;
  codec = λ m h. record {
    text = write_all m;
    rendered = refl;
    bytes = write_all-IsBytes m (IsEncodable-plain m h);
    back = m;
    parsed = ap (λ x. some (object x)) (entries_of-write_all m (IsEncodable-plain m h));
    back_distinct = h.distinct;
    same = λ k. refl;
  };
}
