-- ===== src/Rtcp/Compound.antt =====
-- transport/rtp.py: the bytes of each class of RTCP packet (`pack_rtcp_packet`, `__bytes__`, `parse`),
-- compound packets (`RtcpPacket.parse`) and `is_rtcp`.
pub mod Readers
pub mod Total
pub mod Classes
pub mod RoundTrip
use Prim.Native.Nat.{bit_or}
use pure_webrtc_transport.Base.{
  ℕ, zero, suc, ◌+◌, ◌-◌, ◌*◌, ◌/◌, ◌%◌, ◌^◌, Bool, true, false, not, ◌&&◌, Option, none, some,
  List, [], ◌∷◌, ◌++◌, length, take, drop, ltb, leb, ◌==◌, if◌then◌else◌,
}
use pure_webrtc_transport.Base.Bits.{shr, low_bits, bit}
use pure_webrtc_transport.Base.Result.{
  Result, ok, raise, stuck, ◌>>=◌, ◌>>◌, guard, value_error, assertion_error,
}
use pure_webrtc_transport.Struct.{Bytes, pack_b, pack_h, pack_l, read_l, pack_longs, read_longs}
use pure_webrtc_transport.Rtp.Packet.{last}
use pure_webrtc_transport.Rtcp.Types.{
  RtcpReceiverInfo, RtcpSenderInfo, RtcpSourceInfo, RtcpPacket, bye, psfb, rr, rtpfb, sdes, sr,
}
use pure_webrtc_transport.Rtcp.Report.{
  write_reports, read_reports, write_sender_info, read_sender_info,
}
use pure_webrtc_transport.Rtcp.Sdes.{write_sdes, read_chunks}
use pure_webrtc_transport.Rtcp.Nack.{write_lost, read_lost}
use pure_webrtc_transport.Rtcp.Twcc.{parse_twcc}

abbrev pub rtcp_sr : ℕ
rtcp_sr = 200

abbrev pub rtcp_rr : ℕ
rtcp_rr = 201

abbrev pub rtcp_sdes : ℕ
rtcp_sdes = 202

abbrev pub rtcp_bye : ℕ
rtcp_bye = 203

abbrev pub rtcp_rtpfb : ℕ
rtcp_rtpfb = 205

abbrev pub rtcp_psfb : ℕ
rtcp_psfb = 206

abbrev pub rtcp_rtpfb_nack : ℕ
rtcp_rtpfb_nack = 1

abbrev pub rtcp_rtpfb_twcc : ℕ
rtcp_rtpfb_twcc = 15

unfoldable pub is_rtcp : Bytes → Bool
is_rtcp (a ∷ b ∷ rest) = leb 192 b && leb b 208
is_rtcp _ = false

unfoldable pub pack_rtcp_packet : (packet_type count : ℕ) → Bytes → Result Bytes
pack_rtcp_packet packet_type count payload = do
  guard (length payload % 4 == 0) assertion_error
  first ← pack_b (bit_or (2 * 2 ^ 6) count)
  kind ← pack_b packet_type
  size ← pack_h (length payload / 4)
  ok (first ++ (kind ++ (size ++ payload)))

-- `bytes(packet)`, for each class.
abbrev pub bye_to_bytes : List ℕ → Result Bytes
bye_to_bytes sources = pack_longs sources >>= pack_rtcp_packet rtcp_bye (length sources)

abbrev pub psfb_to_bytes : (fmt ssrc media_ssrc : ℕ) → Bytes → Result Bytes
psfb_to_bytes fmt ssrc media_ssrc fci = do
  a ← pack_l ssrc
  b ← pack_l media_ssrc
  pack_rtcp_packet rtcp_psfb fmt (a ++ (b ++ fci))

abbrev pub rr_to_bytes : ℕ → List RtcpReceiverInfo → Result Bytes
rr_to_bytes ssrc reports = do
  a ← pack_l ssrc
  b ← write_reports reports
  pack_rtcp_packet rtcp_rr (length reports) (a ++ b)

abbrev pub rtpfb_to_bytes : (fmt ssrc media_ssrc : ℕ) → List ℕ → Result Bytes
rtpfb_to_bytes fmt ssrc media_ssrc lost = do
  a ← pack_l ssrc
  b ← pack_l media_ssrc
  c ← write_lost lost
  pack_rtcp_packet rtcp_rtpfb fmt (a ++ (b ++ c))

abbrev pub sdes_to_bytes : List RtcpSourceInfo → Result Bytes
sdes_to_bytes chunks = write_sdes chunks >>= pack_rtcp_packet rtcp_sdes (length chunks)

abbrev pub sr_to_bytes : ℕ → RtcpSenderInfo → List RtcpReceiverInfo → Result Bytes
sr_to_bytes ssrc sender_info reports = do
  a ← pack_l ssrc
  b ← write_sender_info sender_info
  c ← write_reports reports
  pack_rtcp_packet rtcp_sr (length reports) (a ++ (b ++ c))

unfoldable pub to_bytes : RtcpPacket → Result Bytes
to_bytes (bye sources) = bye_to_bytes sources
to_bytes (psfb fmt ssrc media_ssrc fci) = psfb_to_bytes fmt ssrc media_ssrc fci
to_bytes (rr ssrc reports) = rr_to_bytes ssrc reports
to_bytes (rtpfb fmt ssrc media_ssrc lost twcc) = rtpfb_to_bytes fmt ssrc media_ssrc lost
to_bytes (sdes chunks) = sdes_to_bytes chunks
to_bytes (sr ssrc sender_info reports) = sr_to_bytes ssrc sender_info reports

-- A compound packet is its packets' bytes joined.
unfoldable pub join_bytes : List RtcpPacket → Result Bytes
join_bytes [] = ok []
join_bytes (p ∷ packets) = do first ← to_bytes p; rest ← join_bytes packets; ok (first ++ rest)

unfoldable pub parse_bye : ℕ → Bytes → Result RtcpPacket
parse_bye count bytes = do
  guard (leb (4 * count) (length bytes)) value_error
  sources ← read_longs count bytes
  ok (bye sources)

unfoldable pub parse_psfb : ℕ → Bytes → Result RtcpPacket
parse_psfb fmt bytes = do
  guard (leb 8 (length bytes)) value_error
  (ssrc, r₁) ← read_l bytes
  (media_ssrc, fci) ← read_l r₁
  ok (psfb fmt ssrc media_ssrc fci)

unfoldable pub parse_rr : ℕ → Bytes → Result RtcpPacket
parse_rr count bytes = do
  guard (length bytes == 4 + 24 * count) value_error
  (ssrc, r₁) ← read_l bytes
  (reports, r₂) ← read_reports count r₁
  ok (rr ssrc reports)

-- The length of the payload is a multiple of four where that of the part behind byte 8 is. A format
-- other than the two gives None.
unfoldable pub parse_rtpfb : ℕ → Bytes → Result (Option RtcpPacket)
parse_rtpfb fmt bytes = do
  guard (leb 8 (length bytes)) value_error
  (ssrc, r₁) ← read_l bytes
  (media_ssrc, r₂) ← read_l r₁
  if fmt == rtcp_rtpfb_nack
      then (read_lost r₂ >>= λ lost. ok (some (rtpfb fmt ssrc media_ssrc lost [])))
      else if fmt == rtcp_rtpfb_twcc
      then (parse_twcc r₂ >>= λ twcc. ok (some (rtpfb fmt ssrc media_ssrc [] twcc)))
      else ok none

unfoldable pub parse_sdes : ℕ → Bytes → Result RtcpPacket
parse_sdes count bytes = read_chunks count bytes >>= λ chunks. ok (sdes chunks)

unfoldable pub parse_sr : ℕ → Bytes → Result RtcpPacket
parse_sr count bytes = do
  guard (length bytes == 24 + 24 * count) value_error
  (ssrc, r₁) ← read_l bytes
  (sender_info, r₂) ← read_sender_info r₁
  (reports, r₃) ← read_reports count r₂
  ok (sr ssrc sender_info reports)

abbrev pub one_packet : Result RtcpPacket → Result (List (Option RtcpPacket))
one_packet m = m >>= λ p. ok (some p ∷ [])

-- What the payload appends to the list; a packet type that is not known appends nothing.
unfoldable pub parse_payload : (packet_type count : ℕ) → Bytes → Result (List (Option RtcpPacket))
parse_payload packet_type count payload =
    if packet_type == rtcp_bye
    then one_packet (parse_bye count payload)
    else if packet_type == rtcp_sdes
    then one_packet (parse_sdes count payload)
    else if packet_type == rtcp_sr
    then one_packet (parse_sr count payload)
    else if packet_type == rtcp_rr
    then one_packet (parse_rr count payload)
    else if packet_type == rtcp_rtpfb
    then (parse_rtpfb count payload >>= λ p. ok (p ∷ []))
    else if packet_type == rtcp_psfb
    then one_packet (parse_psfb count payload)
    else ok []

unfoldable pub remove_padding : (padding : ℕ) → Bytes → Result Bytes
remove_padding padding payload =
    if padding == 1
    then (guard (not (last payload == 0) && leb (last payload) (length payload)) value_error
        >> ok (take (length payload - last payload) payload))
    else ok payload

-- `while pos < len(data)`: each round takes four bytes or more, so as many rounds as bytes are enough.
unfoldable pub parse_loop : (fuel : ℕ) → Bytes → Result (List (Option RtcpPacket))
parse_loop fuel [] = ok []
parse_loop (suc fuel) (v_p_count ∷ packet_type ∷ high ∷ low ∷ rest) =
    let size : ℕ = (high * 2 ^ 8 + low) * 4 in
    let next : Result (List (Option RtcpPacket)) = parse_loop fuel (drop size rest) in
    do
      guard (shr v_p_count 6 == 2) value_error
      guard (leb size (length rest)) value_error
      payload ← remove_padding (bit v_p_count 5) (take size rest)
      packets ← parse_payload packet_type (low_bits v_p_count 5) payload
      more ← next
      ok (packets ++ more)
parse_loop zero (v_p_count ∷ packet_type ∷ high ∷ low ∷ rest) = stuck
parse_loop fuel (a ∷ b ∷ c ∷ []) = raise value_error
parse_loop fuel (a ∷ b ∷ []) = raise value_error
parse_loop fuel (a ∷ []) = raise value_error

-- `RtcpPacket.parse`
unfoldable pub parse : Bytes → Result (List (Option RtcpPacket))
parse bytes = parse_loop (length bytes) bytes
