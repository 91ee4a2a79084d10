-- ===== src/Text.antt =====
-- Python's `str.encode` and `bytes.decode` for "ascii" and "utf8", in strict mode, which
-- transport/rtp.py calls on the text of header extensions. A string is the list of its code points.
pub mod RoundTrip
use pure_webrtc_transport.Base.{
  ℕ, zero, suc, ◌+◌, ◌-◌, ◌*◌, ◌/◌, ◌%◌, Bool, ◌&&◌, not, List, [], ◌∷◌, ◌++◌, length, ltb, leb,
  if◌then◌else◌,
}
use pure_webrtc_transport.Base.Result.{Result, ok, raise, stuck, ◌>>=◌, ◌>>◌, guard, unicode_error}
use pure_webrtc_transport.Struct.{Bytes}

abbrev pub Str : Type 0
Str = List ℕ

unfoldable pub ascii_encode : Str → Result Bytes
ascii_encode [] = ok []
ascii_encode (c ∷ s) = do guard (ltb c 0x80) unicode_error; rest ← ascii_encode s; ok (c ∷ rest)

unfoldable pub ascii_decode : Bytes → Result Str
ascii_decode [] = ok []
ascii_decode (b ∷ bytes) = do
  guard (ltb b 0x80) unicode_error
  rest ← ascii_decode bytes
  ok (b ∷ rest)

-- The surrogates have no encoding.
abbrev pub is_surrogate : ℕ → Bool
is_surrogate c = leb 0xd800 c && ltb c 0xe000

unfoldable pub utf8_char : ℕ → Result Bytes
utf8_char c =
    if ltb c 0x80
    then ok (c ∷ [])
    else if ltb c 0x800
    then ok ((0xc0 + c / 0x40) ∷ (0x80 + c % 0x40) ∷ [])
    else if is_surrogate c
    then raise unicode_error
    else if ltb c 0x1_0000
    then ok ((0xe0 + c / 0x1000) ∷ (0x80 + c / 0x40 % 0x40) ∷ (0x80 + c % 0x40) ∷ [])
    else ok (
        (0xf0 + c / 0x4_0000)
        ∷ (0x80 + c / 0x1000 % 0x40)
        ∷ (0x80 + c / 0x40 % 0x40)
        ∷ (0x80 + c % 0x40)
        ∷ [])

unfoldable pub utf8_encode : Str → Result Bytes
utf8_encode [] = ok []
utf8_encode (c ∷ s) = do char ← utf8_char c; rest ← utf8_encode s; ok (char ++ rest)

-- A continuation byte adds six bits.
unfoldable pub continue : ℕ → Bytes → Result (ℕ × Bytes)
continue c [] = raise unicode_error
continue c (b ∷ rest) =
    if leb 0x80 b && ltb b 0xc0 then ok (c * 0x40 + (b - 0x80), rest) else raise unicode_error

-- One code point. The lead bytes 0xc0, 0xc1 and those from 0xf5 on, overlong forms, surrogates and
-- what lies beyond 0x10ffff are refused.
unfoldable pub utf8_next : Bytes → Result (ℕ × Bytes)
unfolding continue
utf8_next [] = raise unicode_error
utf8_next (a ∷ rest) =
    if ltb a 0x80
    then ok (a, rest)
    else if ltb a 0xc2
    then raise unicode_error
    else if ltb a 0xe0
    then continue (a - 0xc0) rest
    else if ltb a 0xf0
    then (do
      (c, r) ← continue (a - 0xe0) rest
      (c', r') ← continue c r
      guard (leb 0x800 c' && not (is_surrogate c')) unicode_error
      ok (c', r'))
    else if ltb a 0xf5
    then (do
      (c, r) ← continue (a - 0xf0) rest
      (c', r') ← continue c r
      (c'', r'') ← continue c' r'
      guard (leb 0x1_0000 c'' && ltb c'' 0x11_0000) unicode_error
      ok (c'', r''))
    else raise unicode_error

unfoldable pub utf8_loop : ℕ → Bytes → Result Str
unfolding utf8_next
utf8_loop fuel [] = ok []
utf8_loop zero (b ∷ bytes) = stuck
utf8_loop (suc fuel) (b ∷ bytes) = do
  (c, rest) ← utf8_next (b ∷ bytes)
  s ← utf8_loop fuel rest
  ok (c ∷ s)

-- Each code point takes a byte at least.
unfoldable pub utf8_decode : Bytes → Result Str
unfolding utf8_loop
utf8_decode bytes = utf8_loop (length bytes) bytes
