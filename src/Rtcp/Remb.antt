-- ===== src/Rtcp/Remb.antt =====
-- transport/rtp.py: `pack_remb_fci` and `unpack_remb_fci`, the receiver estimated maximum bitrate.
pub mod RoundTrip
use Prim.Native.Nat.{bit_or}
use pure_webrtc_transport.Base.{
  ℕ, zero, suc, ◌+◌, ◌-◌, ◌*◌, ◌/◌, ◌%◌, ◌^◌, Bool, true, false, List, [], ◌∷◌, ◌++◌, length, ltb,
  leb, ◌==◌, if◌then◌else◌, ◌&&◌,
}
use pure_webrtc_transport.Base.Bits.{shr, low_bits}
use pure_webrtc_transport.Base.Result.{Result, ok, raise, stuck, ◌>>=◌, struct_error, value_error}
use pure_webrtc_transport.Struct.{Bytes, pack_b, pack_h, pack_longs, read_longs}

-- `while mantissa > 0x3FFFF`
unfoldable pub scale : (fuel exponent mantissa : ℕ) → Result (ℕ × ℕ)
scale zero exponent mantissa = if ltb 0x3FFFF mantissa then stuck else ok (exponent, mantissa)
scale (suc fuel) exponent mantissa =
    let more : Result (ℕ × ℕ) = scale fuel (exponent + 1) (shr mantissa 1) in
    if ltb 0x3FFFF mantissa then more else ok (exponent, mantissa)

-- The loop halves the mantissa, so `bitrate` rounds are enough.
unfoldable pub pack_remb_fci : ℕ → List ℕ → Result Bytes
unfolding scale
pack_remb_fci bitrate ssrcs = do
  (exponent, mantissa) ← scale bitrate 0 bitrate
  count ← pack_b (length ssrcs)
  high ← pack_b (bit_or (exponent * 2 ^ 2) (shr mantissa 16))
  low ← pack_h (low_bits mantissa 16)
  longs ← pack_longs ssrcs
  ok (82 ∷ 69 ∷ 77 ∷ 66 ∷ (count ++ (high ++ (low ++ longs))))

-- Behind "REMB": the count, the exponent in six bits, the mantissa in eighteen, the SSRCs.
unfoldable pub unpack_remb_fci : Bytes → Result (ℕ × List ℕ)
unpack_remb_fci (r ∷ e ∷ m ∷ b ∷ count ∷ d₅ ∷ d₆ ∷ d₇ ∷ rest) =
    if (r == 82) && ((e == 69) && ((m == 77) && (b == 66)))
    then (let exponent : ℕ = shr (d₅ - low_bits d₅ 2) 2 in
        let mantissa : ℕ = bit_or (bit_or (low_bits d₅ 2 * 2 ^ 16) (d₆ * 2 ^ 8)) d₇ in
        do ssrcs ← read_longs count rest; ok (mantissa * 2 ^ exponent, ssrcs))
    else raise value_error
unpack_remb_fci _ = raise value_error
