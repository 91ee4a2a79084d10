-- ===== src/Rtcp/Sdes.antt =====
-- transport/rtp.py: the payload of `RtcpSdesPacket`. The item loop of `parse` runs over what is
-- left of the data from `pos` on, and goes on while two bytes at least are left; each round takes
-- two bytes or more, so as many rounds as there are bytes are enough.
pub mod RoundTrip
pub mod Total
use pure_webrtc_transport.Base.{
  ℕ, zero, suc, ◌+◌, ◌-◌, ◌%◌, Bool, true, false, List, [], ◌∷◌, ◌++◌, length, take, drop, ltb, leb,
  ◌==◌, if◌then◌else◌,
}
use pure_webrtc_transport.Base.Result.{Result, ok, raise, stuck, ◌>>=◌, ◌>>◌, guard, value_error}
use pure_webrtc_transport.Struct.{Bytes, pack_b, pack_l, read_l}
use pure_webrtc_transport.Rtcp.Types.{RtcpSourceInfo}

unfoldable pub write_items : List (ℕ × Bytes) → Result Bytes
write_items [] = ok []
write_items ((d_type, d_value) ∷ items) = do
  kind ← pack_b d_type
  size ← pack_b (length d_value)
  rest ← write_items items
  ok (kind ++ (size ++ (d_value ++ rest)))

-- Each chunk ends with two zero bytes.
unfoldable pub write_chunks : List RtcpSourceInfo → Result Bytes
write_chunks [] = ok []
write_chunks (chunk ∷ chunks) = do
  ssrc ← pack_l chunk.ssrc
  items ← write_items chunk.items
  rest ← write_chunks chunks
  ok (ssrc ++ (items ++ (0 ∷ 0 ∷ rest)))

-- `while len(payload) % 4: payload += b"\x00"`, of three rounds at most.
unfoldable pub pad_loop : ℕ → Bytes → Bytes
pad_loop zero payload = payload
pad_loop (suc rounds) payload =
    let more = pad_loop rounds (payload ++ (0 ∷ [])) in
    if length payload % 4 == 0 then payload else more

unfoldable pub write_sdes : List RtcpSourceInfo → Result Bytes
write_sdes chunks = write_chunks chunks >>= λ payload. ok (pad_loop 3 payload)

unfoldable pub read_items : ℕ → Bytes → Result (List (ℕ × Bytes) × Bytes)
read_items fuel [] = ok ([], [])
read_items fuel (b ∷ []) = ok ([], b ∷ [])
read_items zero (b ∷ c ∷ rest) = stuck
read_items (suc fuel) (d_type ∷ d_length ∷ rest) =
    let more = read_items fuel (drop d_length rest) in
    do
      guard (leb d_length (length rest)) value_error
      if d_type == 0
          then ok ([], drop d_length rest)
          else (more >>= λ (items, rest'). ok ((d_type, take d_length rest) ∷ items, rest'))

unfoldable pub read_chunks : ℕ → Bytes → Result (List RtcpSourceInfo)
read_chunks zero bytes = ok []
read_chunks (suc count) bytes = do
  guard (leb 4 (length bytes)) value_error
  (ssrc, rest) ← read_l bytes
  (items, rest') ← read_items (length rest) rest
  chunks ← read_chunks count rest'
  ok (record { ssrc = ssrc; items = items } ∷ chunks)
