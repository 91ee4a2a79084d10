-- ===== src/Struct.antt =====
-- The big-endian formats of Python's `struct` that the code uses: "!B", "!H", "!L", "!Q" and "!l".
-- A byte string is a list of numbers below 256. `pack` of an integer out of its format's range
-- raises struct.error; so does `unpack` where too few bytes are left.
-- A reader takes its field off the front of the bytes from the current position on, which is
-- `unpack_from` with the position moved, and `unpack` of a slice that begins there.
pub mod Laws
use pure_webrtc_transport.Base.{
  ℕ, zero, suc, ◌+◌, ◌-◌, ◌*◌, ◌/◌, ◌%◌, ◌^◌, ◌<◌, Bool, true, false, List, [], ◌∷◌, ◌++◌, ltb, leb,
  if◌then◌else◌, All, ◌&&◌,
}
use pure_webrtc_transport.Base.Result.{Result, ok, raise, ◌>>=◌, struct_error}
use pure_webrtc_transport.Base.Int.{ℤ, pos, negsuc}

abbrev pub Bytes : Type 0
Bytes = List ℕ

abbrev pub IsBytes : Bytes → Type 0
IsBytes = All (λ b. b < 256)

-- The bytes of a number, the highest first.
unfoldable pub be16 : ℕ → Bytes
be16 n = (n / 2 ^ 8) ∷ (n % 2 ^ 8) ∷ []

unfoldable pub be24 : ℕ → Bytes
be24 n = (n / 2 ^ 16) ∷ (n / 2 ^ 8 % 2 ^ 8) ∷ (n % 2 ^ 8) ∷ []

unfoldable pub be32 : ℕ → Bytes
be32 n = (n / 2 ^ 24) ∷ (n / 2 ^ 16 % 2 ^ 8) ∷ (n / 2 ^ 8 % 2 ^ 8) ∷ (n % 2 ^ 8) ∷ []

unfoldable pub be64 : ℕ → Bytes
unfolding be32
be64 n = be32 (n / 2 ^ 32) ++ be32 (n % 2 ^ 32)

unfoldable pub pack_b : ℕ → Result Bytes
pack_b n = if ltb n (2 ^ 8) then ok (n ∷ []) else raise struct_error

unfoldable pub pack_h : ℕ → Result Bytes
unfolding be16
pack_h n = if ltb n (2 ^ 16) then ok (be16 n) else raise struct_error

unfoldable pub pack_l : ℕ → Result Bytes
unfolding be32
pack_l n = if ltb n (2 ^ 32) then ok (be32 n) else raise struct_error

unfoldable pub pack_q : ℕ → Result Bytes
unfolding be64
pack_q n = if ltb n (2 ^ 64) then ok (be64 n) else raise struct_error

-- "!l": two's complement in 32 bits.
unfoldable pub pack_signed : ℤ → Result Bytes
unfolding be32
pack_signed (pos n) = if ltb n (2 ^ 31) then ok (be32 n) else raise struct_error
pack_signed (negsuc n) = if ltb n (2 ^ 31) then ok (be32 (2 ^ 32 - 1 - n)) else raise struct_error

abbrev pub signed : ℕ → ℕ → ℤ
signed n k = if ltb n (2 ^ (k - 1)) then pos n else negsuc (2 ^ k - 1 - n)

unfoldable pub read_b : Bytes → Result (ℕ × Bytes)
read_b (a ∷ rest) = ok (a, rest)
read_b [] = raise struct_error

unfoldable pub read_h : Bytes → Result (ℕ × Bytes)
read_h (a ∷ b ∷ rest) = ok (a * 2 ^ 8 + b, rest)
read_h (a ∷ []) = raise struct_error
read_h [] = raise struct_error

unfoldable pub read_l : Bytes → Result (ℕ × Bytes)
read_l (a ∷ b ∷ c ∷ d ∷ rest) = ok (((a * 2 ^ 8 + b) * 2 ^ 8 + c) * 2 ^ 8 + d, rest)
read_l (a ∷ b ∷ c ∷ []) = raise struct_error
read_l (a ∷ b ∷ []) = raise struct_error
read_l (a ∷ []) = raise struct_error
read_l [] = raise struct_error

unfoldable pub read_q : Bytes → Result (ℕ × Bytes)
unfolding read_l
read_q bytes = do
  (high, rest) ← read_l bytes
  (low, rest') ← read_l rest
  ok (high * 2 ^ 32 + low, rest')

-- `unpack` of a format that must use up its argument.
unfoldable pub whole {ℓ} : {A : Type ℓ} → A × Bytes → Result A
whole (a, []) = ok a
whole (a, b ∷ rest) = raise struct_error

-- `pack("!L", n)` for each number, joined.
unfoldable pub pack_longs : List ℕ → Result Bytes
pack_longs [] = ok []
pack_longs (n ∷ ns) = do first ← pack_l n; rest ← pack_longs ns; ok (first ++ rest)

-- "!L", `count` times.
unfoldable pub read_longs : ℕ → Bytes → Result (List ℕ)
read_longs zero bytes = ok []
read_longs (suc count) bytes = do
  (n, rest) ← read_l bytes
  more ← read_longs count rest
  ok (n ∷ more)
