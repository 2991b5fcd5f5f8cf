-- ===== src/Go/Base64/RoundTrip.antt =====
-- What DecodeString makes of the output of EncodeToString, and which bytes that output holds.
use micro_identity_sidecar.Prelude.{
  ℕ, ◌+◌, ◌*◌, ◌/◌, ◌%◌, ◌<◌, ◌≡◌, ◌≢◌, refl, some, [], ◌∷◌, arith, Bytes, All,
}
use micro_identity_sidecar.Go.Base64.{digit, sextet, encode, decode_groups, drop_line_ends, decode}

-- The numbers that are bytes.
abbrev pub IsBytes : Bytes → Type 0
IsBytes = All (λ x. x < 256)

-- A text that stands within one segment of a token and within one line.
abbrev pub IsPlain : ℕ → Type 0
IsPlain c = (c ≢ b'.') × (c ≢ 10) × (c ≢ 13)

sextet-digit : (x : ℕ) → x < 64 → sextet (digit x) ≡ some x
unfolding sextet digit
sextet-digit x h = ground arith

digit-IsPlain : (x : ℕ) → x < 64 → IsPlain (digit x)
unfolding digit
digit-IsPlain x h = (ground arith, ground arith, ground arith)

decode_groups-encode : (bs : Bytes) → IsBytes bs → decode_groups (encode bs) ≡ some bs
unfolding decode_groups encode
decode_groups-encode [] h = refl
decode_groups-encode (a ∷ []) h = ground (arith, sextet-digit (a / 4), sextet-digit (a % 4 * 16))
decode_groups-encode (a ∷ b ∷ []) h =
    ground
      (arith, sextet-digit (a / 4), sextet-digit (a % 4 * 16 + b / 16), sextet-digit (b % 16 * 4))
decode_groups-encode (a ∷ b ∷ c ∷ rest) h = ground (
  arith,
  sextet-digit (a / 4),
  sextet-digit (a % 4 * 16 + b / 16),
  sextet-digit (b % 16 * 4 + c / 64),
  sextet-digit (c % 64),
  decode_groups-encode rest h.1.1.1,
)

pub encode-IsPlain : (bs : Bytes) → IsBytes bs → All IsPlain (encode bs)
unfolding encode
encode-IsPlain [] h = tt
encode-IsPlain (a ∷ []) h = (digit-IsPlain _ (omega arith), (digit-IsPlain _ (omega arith), tt))
encode-IsPlain (a ∷ b ∷ []) h = (
  digit-IsPlain _ (omega arith),
  (digit-IsPlain _ (omega arith), (digit-IsPlain _ (omega arith), tt)),
)
encode-IsPlain (a ∷ b ∷ c ∷ rest) h = (
  digit-IsPlain _ (omega arith),
  (
    digit-IsPlain _ (omega arith),
    (digit-IsPlain _ (omega arith), (digit-IsPlain _ (omega arith), encode-IsPlain rest h.1.1.1)),
  ),
)

drop_line_ends-eq : (s : Bytes) → All IsPlain s → drop_line_ends s ≡ s
unfolding drop_line_ends
drop_line_ends-eq [] h = refl
drop_line_ends-eq (c ∷ s) h = ground (arith, drop_line_ends-eq s h.1)

pub decode-encode : (bs : Bytes) → IsBytes bs → decode (encode bs) ≡ some bs
unfolding decode
decode-encode bs h = rw (drop_line_ends-eq _ (encode-IsPlain bs h)) (decode_groups-encode bs h)

digit-ascii : (x : ℕ) → x < 64 → digit x < 128
unfolding digit
digit-ascii x h = ground arith

pub encode-ascii : (bs : Bytes) → IsBytes bs → All (λ c. c < 128) (encode bs)
unfolding encode
encode-ascii [] h = tt
encode-ascii (a ∷ []) h = (digit-ascii _ (omega arith), (digit-ascii _ (omega arith), tt))
encode-ascii (a ∷ b ∷ []) h =
    (digit-ascii _ (omega arith), (digit-ascii _ (omega arith), (digit-ascii _ (omega arith), tt)))
encode-ascii (a ∷ b ∷ c ∷ rest) h = (
  digit-ascii _ (omega arith),
  (
    digit-ascii _ (omega arith),
    (digit-ascii _ (omega arith), (digit-ascii _ (omega arith), encode-ascii rest h.1.1.1)),
  ),
)
