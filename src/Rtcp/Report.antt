-- ===== src/Rtcp/Report.antt =====
-- transport/rtp.py: `clamp_packets_lost`, `pack_packets_lost`, `unpack_packets_lost`, and the bytes
-- of `RtcpReceiverInfo` and `RtcpSenderInfo`. A reader leaves the bytes behind its part.
pub mod RoundTrip
use pure_webrtc_transport.Base.{
  ℕ, zero, suc, ◌+◌, ◌-◌, ◌*◌, ◌/◌, ◌%◌, ◌^◌, Bool, List, [], ◌∷◌, ◌++◌, drop, ltb, leb,
  if◌then◌else◌,
}
use pure_webrtc_transport.Base.Int.{ℤ, pos, negsuc, ltb_ℤ}
use pure_webrtc_transport.Base.Result.{Result, ok, raise, ◌>>=◌, struct_error, index_error}
use pure_webrtc_transport.Struct.{
  Bytes, pack_b, pack_l, pack_q, pack_signed, read_b, read_l, read_q, signed,
}
use pure_webrtc_transport.Rtcp.Types.{RtcpReceiverInfo, RtcpSenderInfo}

abbrev pub packets_lost_min : ℤ
packets_lost_min = negsuc (2 ^ 23 - 1)

abbrev pub packets_lost_max : ℤ
packets_lost_max = pos (2 ^ 23 - 1)

abbrev pub min_ℤ : ℤ → ℤ → ℤ
min_ℤ a b = if ltb_ℤ b a then b else a

abbrev pub max_ℤ : ℤ → ℤ → ℤ
max_ℤ a b = if ltb_ℤ a b then b else a

unfoldable pub clamp_packets_lost : ℤ → ℤ
clamp_packets_lost count = max_ℤ packets_lost_min (min_ℤ count packets_lost_max)

unfoldable pub pack_packets_lost : ℤ → Result Bytes
pack_packets_lost count = pack_signed count >>= λ bytes. ok (drop 1 bytes)

-- Three bytes; a byte 0xff or 0 is put in front by their sign.
unfoldable pub read_packets_lost : Bytes → Result (ℤ × Bytes)
read_packets_lost [] = raise index_error
read_packets_lost (a ∷ rest) = do
  (bits, rest') ← read_l ((if leb 0x80 a then 0xff else 0) ∷ a ∷ rest)
  ok (signed bits 32, rest')

unfoldable pub write_receiver_info : RtcpReceiverInfo → Result Bytes
write_receiver_info r = do
  ssrc ← pack_l r.ssrc
  fraction_lost ← pack_b r.fraction_lost
  packets_lost ← pack_packets_lost r.packets_lost
  highest_sequence ← pack_l r.highest_sequence
  jitter ← pack_l r.jitter
  lsr ← pack_l r.lsr
  dlsr ← pack_l r.dlsr
  ok (ssrc ++ (fraction_lost ++ (packets_lost ++ (highest_sequence ++ (jitter ++ (lsr ++ dlsr))))))

unfoldable pub read_receiver_info : Bytes → Result (RtcpReceiverInfo × Bytes)
read_receiver_info bytes = do
  (ssrc, r₁) ← read_l bytes
  (fraction_lost, r₂) ← read_b r₁
  (packets_lost, r₃) ← read_packets_lost r₂
  (highest_sequence, r₄) ← read_l r₃
  (jitter, r₅) ← read_l r₄
  (lsr, r₆) ← read_l r₅
  (dlsr, r₇) ← read_l r₆
  ok (
    record {
      ssrc = ssrc;
      fraction_lost = fraction_lost;
      packets_lost = packets_lost;
      highest_sequence = highest_sequence;
      jitter = jitter;
      lsr = lsr;
      dlsr = dlsr;
    },
    r₇,
  )

unfoldable pub write_sender_info : RtcpSenderInfo → Result Bytes
write_sender_info s = do
  ntp_timestamp ← pack_q s.ntp_timestamp
  rtp_timestamp ← pack_l s.rtp_timestamp
  packet_count ← pack_l s.packet_count
  octet_count ← pack_l s.octet_count
  ok (ntp_timestamp ++ (rtp_timestamp ++ (packet_count ++ octet_count)))

unfoldable pub read_sender_info : Bytes → Result (RtcpSenderInfo × Bytes)
read_sender_info bytes = do
  (ntp_timestamp, r₁) ← read_q bytes
  (rtp_timestamp, r₂) ← read_l r₁
  (packet_count, r₃) ← read_l r₂
  (octet_count, r₄) ← read_l r₃
  ok (
    record {
      ntp_timestamp = ntp_timestamp;
      rtp_timestamp = rtp_timestamp;
      packet_count = packet_count;
      octet_count = octet_count;
    },
    r₄,
  )

-- `bytes(report)` for each report, one after the other.
unfoldable pub write_reports : List RtcpReceiverInfo → Result Bytes
write_reports [] = ok []
write_reports (r ∷ reports) = do
  first ← write_receiver_info r
  rest ← write_reports reports
  ok (first ++ rest)

-- `RtcpReceiverInfo.parse(data[pos: pos + 24])`, `count` times.
unfoldable pub read_reports : ℕ → Bytes → Result (List RtcpReceiverInfo × Bytes)
read_reports zero bytes = ok ([], bytes)
read_reports (suc count) bytes = do
  (r, rest) ← read_receiver_info bytes
  (reports, rest') ← read_reports count rest
  ok (r ∷ reports, rest')
