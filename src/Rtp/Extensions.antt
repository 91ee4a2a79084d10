-- ===== src/Rtp/Extensions.antt =====
-- transport/rtp.py: `padl`, `unpack_header_extensions` and `pack_header_extensions` (RFC 5285).
-- The loops of the reader run over what is left of the extension value from `pos` on; each round
-- takes a byte at least, so as many rounds as there are bytes are enough.
pub mod Total
pub mod RoundTrip
use Prim.Native.Nat.{bit_or}
use pure_webrtc_transport.Base.{
  ℕ, zero, suc, ◌+◌, ◌-◌, ◌*◌, ◌/◌, ◌%◌, ◌^◌, Bool, true, false, ◌&&◌, ◌||◌, List, [], ◌∷◌, ◌++◌,
  length, take, drop, replicate, ltb, leb, ◌==◌, if◌then◌else◌,
}
use pure_webrtc_transport.Base.Bits.{shr, low_bits}
use pure_webrtc_transport.Base.Result.{
  Result, ok, raise, stuck, ◌>>=◌, ◌>>◌, guard, value_error, assertion_error,
}
use pure_webrtc_transport.Struct.{Bytes, pack_b}

abbrev pub Extension : Type 0
Extension = ℕ × Bytes

-- Padding up to a multiple of four bytes.
unfoldable pub padl : ℕ → ℕ
padl n = 4 * ((n + 3) / 4) - n

-- `extension_value[pos: pos + x_length]`, checked to lie within the value.
unfoldable pub take_value : ℕ → Bytes → Result (Bytes × Bytes)
take_value x_length rest = do
  guard (leb x_length (length rest)) value_error
  ok (take x_length rest, drop x_length rest)

unfoldable pub one_byte_loop : ℕ → Bytes → Result (List Extension)
unfolding take_value
one_byte_loop fuel [] = ok []
one_byte_loop zero (b ∷ rest) = stuck
one_byte_loop (suc fuel) (b ∷ rest) =
    let padding = one_byte_loop fuel rest in
    let extension = do
      (x_value, rest') ← take_value (low_bits b 4 + 1) rest
      more ← one_byte_loop fuel rest'
      ok ((low_bits (shr b 4) 4, x_value) ∷ more)
    in if b == 0 then padding else extension

unfoldable pub two_byte_loop : ℕ → Bytes → Result (List Extension)
unfolding take_value
two_byte_loop fuel [] = ok []
two_byte_loop zero (b ∷ rest) = stuck
two_byte_loop (suc fuel) (b ∷ []) =
    let padding = two_byte_loop fuel [] in if b == 0 then padding else raise value_error
two_byte_loop (suc fuel) (b ∷ x_length ∷ rest) =
    let padding = two_byte_loop fuel (x_length ∷ rest) in
    let extension = do
      (x_value, rest') ← take_value x_length rest
      more ← two_byte_loop fuel rest'
      ok ((b, x_value) ∷ more)
    in if b == 0 then padding else extension

unfoldable pub unpack_header_extensions : ℕ → Bytes → Result (List Extension)
unfolding one_byte_loop two_byte_loop
unpack_header_extensions profile value =
    if profile == 0xbede
    then one_byte_loop (length value) value
    else if profile == 0x1000
    then two_byte_loop (length value) value
    else ok []

-- The assertions, and the flag `one_byte`.
unfoldable pub fits_one_byte : Bool → List Extension → Result Bool
fits_one_byte one_byte [] = ok one_byte
fits_one_byte one_byte ((x_id, x_value) ∷ more) = do
  guard (ltb 0 x_id && ltb x_id 256) assertion_error
  guard (ltb (length x_value) 256) assertion_error
  fits_one_byte
      (if ltb 14 x_id || length x_value == 0 || ltb 16 (length x_value) then false else one_byte)
      more

unfoldable pub pack_one_byte : List Extension → Result Bytes
unfolding pack_b
pack_one_byte [] = ok []
pack_one_byte ((x_id, x_value) ∷ more) = do
  head ← pack_b (bit_or (x_id * 2 ^ 4) (length x_value - 1))
  tail ← pack_one_byte more
  ok (head ++ (x_value ++ tail))

unfoldable pub pack_two_byte : List Extension → Result Bytes
unfolding pack_b
pack_two_byte [] = ok []
pack_two_byte ((x_id, x_value) ∷ more) = do
  head ← pack_b x_id
  size ← pack_b (length x_value)
  tail ← pack_two_byte more
  ok (head ++ (size ++ (x_value ++ tail)))

unfoldable pub padded : Bytes → Bytes
unfolding padl
padded value = value ++ replicate (padl (length value)) 0

unfoldable pub pack_header_extensions : List Extension → Result (ℕ × Bytes)
unfolding fits_one_byte pack_one_byte pack_two_byte padded
pack_header_extensions [] = ok (0, [])
pack_header_extensions (x ∷ more) = do
  one_byte ← fits_one_byte true (x ∷ more)
  if one_byte
      then (pack_one_byte (x ∷ more) >>= λ value. ok (0xbede, padded value))
      else (pack_two_byte (x ∷ more) >>= λ value. ok (0x1000, padded value))
