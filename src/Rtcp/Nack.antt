-- ===== src/Rtcp/Nack.antt =====
-- transport/rtp.py: the list of lost packets in `RtcpRtpfbPacket`, in the fields PID and BLP.
pub mod RoundTrip
use pure_webrtc_transport.Base.{
  ℕ, zero, suc, ◌+◌, ◌-◌, ◌*◌, ◌/◌, ◌%◌, ◌^◌, Bool, true, false, List, [], ◌∷◌, ◌++◌, length, ltb,
  leb, ◌==◌, if◌then◌else◌,
}
use Prim.Native.Nat.{bit_or}
use pure_webrtc_transport.Base.Bits.{bit}
use pure_webrtc_transport.Base.Result.{Result, ok, raise, ◌>>=◌, struct_error, value_error}
use pure_webrtc_transport.Struct.{Bytes, pack_h}

unfoldable pub write_entry : ℕ → ℕ → Result Bytes
write_entry pid blp = do first ← pack_h pid; mask ← pack_h blp; ok (first ++ mask)

-- `for p in self.lost[1:]`, and the entry behind it. `1 << d` with a negative d is a ValueError.
unfoldable pub write_lost_loop : ℕ → ℕ → List ℕ → Result Bytes
unfolding write_entry
write_lost_loop pid blp [] = write_entry pid blp
write_lost_loop pid blp (p ∷ ps) =
    let same : Result Bytes = write_lost_loop pid (bit_or blp (2 ^ (p - pid - 1))) ps in
    let next : Result Bytes = write_lost_loop p 0 ps in
    if leb p pid
    then raise value_error
    else if ltb (p - pid - 1) 16
    then same
    else (do entry ← write_entry pid blp; rest ← next; ok (entry ++ rest))

unfoldable pub write_lost : List ℕ → Result Bytes
unfolding write_lost_loop
write_lost [] = ok []
write_lost (pid ∷ ps) = write_lost_loop pid 0 ps

-- `for d in range(0, 16)`, from `d` on.
unfoldable pub read_mask : (rounds d pid blp : ℕ) → List ℕ
read_mask zero d pid blp = []
read_mask (suc rounds) d pid blp =
    (if bit blp d == 1 then (pid + d + 1) ∷ [] else []) ++ read_mask rounds (suc d) pid blp

-- `for pos in range(8, len(data), 4)`
unfoldable pub read_lost_loop : Bytes → Result (List ℕ)
unfolding read_mask
read_lost_loop [] = ok []
read_lost_loop (a ∷ b ∷ c ∷ d ∷ rest) =
    let pid : ℕ = a * 2 ^ 8 + b in
    let blp : ℕ = c * 2 ^ 8 + d in
    do lost ← read_lost_loop rest; ok (pid ∷ (read_mask 16 0 pid blp ++ lost))
read_lost_loop (a ∷ []) = raise struct_error
read_lost_loop (a ∷ b ∷ []) = raise struct_error
read_lost_loop (a ∷ b ∷ c ∷ []) = raise struct_error

-- The branch RTCP_RTPFB_NACK of `RtcpRtpfbPacket.parse`, from byte 8 on.
unfoldable pub read_lost : Bytes → Result (List ℕ)
unfolding read_lost_loop
read_lost bytes = if length bytes % 4 == 0 then read_lost_loop bytes else raise value_error
