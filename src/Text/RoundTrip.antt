-- ===== src/Text/RoundTrip.antt =====
-- The codecs: what is encoded is decoded again.
use pure_webrtc_transport.Base.{
  ℕ, zero, suc, ◌+◌, ◌*◌, ◌/◌, ◌%◌, ◌≤◌, ◌<◌, ◌≡◌, refl, false, [], ◌∷◌, ◌++◌, length,
  length-append, arith, All, lt→ltb, ltb, ltb→lt, ltb→le, Bool-cases, inl, inr,
}
use pure_webrtc_transport.Base.Result.{ok}
use pure_webrtc_transport.Struct.{Bytes}
use pure_webrtc_transport.Text.{
  Str, ascii_encode, ascii_decode, is_surrogate, utf8_char, utf8_encode, continue, utf8_next,
  utf8_loop, utf8_decode,
}

abbrev pub IsAscii : Str → Type 0
IsAscii = All (λ c. c < 0x80)

-- A code point that has an encoding.
abbrev pub IsScalar : ℕ → Type 0
IsScalar c = (c < 0x11_0000) × (is_surrogate c ≡ false)

pub ascii_encode_lem : (s : Str) → IsAscii s → ascii_encode s ≡ ok s
unfolding ascii_encode
ascii_encode_lem [] h = refl
ascii_encode_lem (c ∷ s) (h, hs) = rw (lt→ltb c 0x80 h, ascii_encode_lem s hs)

pub ascii_decode_lem : (s : Str) → IsAscii s → ascii_decode s ≡ ok s
unfolding ascii_decode
ascii_decode_lem [] h = refl
ascii_decode_lem (c ∷ s) (h, hs) = rw (lt→ltb c 0x80 h, ascii_decode_lem s hs)

continue_lem :
    (c b : ℕ) (rest : Bytes) → b < 0x40 → continue c ((0x80 + b) ∷ rest) ≡ ok (c * 0x40 + b, rest)
unfolding continue
continue_lem c b rest h = ground arith

-- What `utf8_char` wrote, with the bytes that follow it, is read by `utf8_next`.
abbrev Reads : ℕ → Bytes → Type 0
Reads c rest =
    (b : ℕ) × (bs : Bytes) × (utf8_char c ≡ ok (b ∷ bs))
    × (length bs ≤ 3)
    × (utf8_next (b ∷ (bs ++ rest)) ≡ ok (c, rest))

Reads-one : (c : ℕ) (rest : Bytes) → c < 0x80 → Reads c rest
unfolding utf8_next utf8_char
Reads-one c rest h = (c, [], ground arith, omega arith, ground arith)

Reads-two : (c : ℕ) (rest : Bytes) → 0x80 ≤ c → c < 0x800 → Reads c rest
unfolding utf8_next utf8_char
Reads-two c rest l h = (
  0xc0 + c / 0x40,
  (0x80 + c % 0x40) ∷ [],
  ground arith,
  omega arith,
  ground (arith, continue_lem (c / 0x40) (c % 0x40) rest),
)

Reads-three :
    (c : ℕ) (rest : Bytes) → 0x800 ≤ c → c < 0x1_0000 → is_surrogate c ≡ false → Reads c rest
unfolding utf8_next utf8_char
Reads-three c rest l h s =
    let low : Bytes = (0x80 + c % 0x40) ∷ rest in
    (
      0xe0 + c / 0x1000,
      (0x80 + c / 0x40 % 0x40) ∷ (0x80 + c % 0x40) ∷ [],
      ground arith,
      omega arith,
      ground (
        arith,
        continue_lem (c / 0x1000) (c / 0x40 % 0x40) low,
        continue_lem (c / 0x40) (c % 0x40) rest,
      ),
    )

Reads-four : (c : ℕ) (rest : Bytes) → 0x1_0000 ≤ c → c < 0x11_0000 → Reads c rest
unfolding utf8_next utf8_char
Reads-four c rest l h =
    let low : Bytes = (0x80 + c % 0x40) ∷ rest in
    let mid : Bytes = (0x80 + c / 0x40 % 0x40) ∷ low in
    (
      0xf0 + c / 0x4_0000,
      (0x80 + c / 0x1000 % 0x40) ∷ (0x80 + c / 0x40 % 0x40) ∷ (0x80 + c % 0x40) ∷ [],
      ground arith,
      omega arith,
      ground (
        arith,
        continue_lem (c / 0x4_0000) (c / 0x1000 % 0x40) mid,
        continue_lem (c / 0x1000) (c / 0x40 % 0x40) low,
        continue_lem (c / 0x40) (c % 0x40) rest,
      ),
    )

Reads-all : (c : ℕ) (rest : Bytes) → IsScalar c → Reads c rest
Reads-all c rest (h, s) = elim (Bool-cases (ltb c 0x80)) [
  | inl one ↦ Reads-one c rest (ltb→lt c _ one)
  | inr two ↦ elim (Bool-cases (ltb c 0x800)) [
    | inl e ↦ Reads-two c rest (ltb→le c _ two) (ltb→lt c _ e)
    | inr three ↦ elim (Bool-cases (ltb c 0x1_0000)) [
      | inl e ↦ Reads-three c rest (ltb→le c _ three) (ltb→lt c _ e) s
      | inr four ↦ Reads-four c rest (ltb→le c _ four) h
    ]
  ]
]

utf8_loop-encode :
    (s : Str)
    → All IsScalar s
    → (bytes : Bytes) × (utf8_encode s ≡ ok bytes)
      × (length bytes ≤ 4 * length s)
      × ((fuel : ℕ) → length bytes ≤ fuel → utf8_loop fuel bytes ≡ ok s)
unfolding utf8_encode
utf8_loop-encode [] h = ([], refl, omega arith, λ fuel le. unfold utf8_loop in refl)
utf8_loop-encode (c ∷ s) (h, hs) =
    let (rest, written, short, read) = utf8_loop-encode s hs in
    let (b, bs, char, few, next) = Reads-all c rest h in
    let size : length (b ∷ (bs ++ rest)) ≤ 4 * length (c ∷ s) =
      omega (arith, length-append bs rest) in
    (b ∷ (bs ++ rest), rw (char, written), size, λ fuel le. step fuel b bs rest next read le)
  where
    step :
        (fuel b : ℕ) (bs rest : Bytes)
        → utf8_next (b ∷ (bs ++ rest)) ≡ ok (c, rest)
        → ((fuel : ℕ) → length rest ≤ fuel → utf8_loop fuel rest ≡ ok s)
        → suc (length (bs ++ rest)) ≤ fuel
        → utf8_loop fuel (b ∷ (bs ++ rest)) ≡ ok (c ∷ s)
    step zero b bs rest next read le = absurd (omega arith)
    step (suc fuel) b bs rest next read le =
        unfold utf8_loop in rw (next, read fuel (omega (arith, length-append bs rest)))

-- A string with no surrogates is encoded in UTF-8, in at most four bytes for each code point, and
-- decoding the bytes gives it back.
pub utf8_decode-encode :
    (s : Str)
    → All IsScalar s
    → (bytes : Bytes) × (utf8_encode s ≡ ok bytes)
      × (length bytes ≤ 4 * length s)
      × (utf8_decode bytes ≡ ok s)
unfolding utf8_decode
utf8_decode-encode s h =
    let (bytes, written, short, read) = utf8_loop-encode s h in
    (bytes, written, short, read (length bytes) (omega arith))
