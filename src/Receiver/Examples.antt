-- ===== src/Receiver/Examples.antt =====
-- Theorems about the receiver's statistics and timestamps at concrete inputs.
use pure_webrtc_transport.Base.{
  ℕ, true, false, some, none, ◌++◌, ◌+◌, ◌-◌, ◌%◌, ◌^◌, ◌≡◌, refl, List, [], ◌∷◌, length, map,
  arith,
}
use pure_webrtc_transport.Base.Int.{pos}
use pure_webrtc_transport.Base.Result.{ok}
use pure_webrtc_transport.Struct.{pack_h, be16}
use pure_webrtc_transport.Receiver.Statistics as Statistics
use pure_webrtc_transport.Receiver.Handler.{RtpCodec, RtpReceiver, or_new, handle_rtp_packet}
use pure_webrtc_transport.Receiver.Handler.Retransmission.{original, handle_rtp_packet-wrap_rtx}
use pure_webrtc_transport.Rtp.Packet.{RtpPacket, new_packet, wrap_rtx}
use pure_webrtc_transport.Receiver.Statistics.{StreamStatistics, new_statistics, packets_expected}
use pure_webrtc_transport.Receiver.Statistics.Sequence.{
  Arrival, Near, add_all, highest_of, packets_expected-add_all,
}
use pure_webrtc_transport.Receiver.Timestamps.{Advancing, new_mapper, map_all, map_all_lem}

abbrev numbered : ℕ → RtpPacket
numbered n = new_packet 96 0 n 3000 1234 []

-- Across the wrap, with a late packet.
abbrev arrivals : List Arrival
arrivals = (0x10001, numbered 1, 7) ∷ (0x10000, numbered 0, 8) ∷ (0x10005, numbered 5, 9) ∷ []

near : Near 0xfffe arrivals
unfolding Near
near = (
  refl,
  omega arith,
  omega arith,
  (refl, omega arith, omega arith, (refl, omega arith, omega arith, tt)),
)

packets_expected-add_all_example :
    (s : StreamStatistics) × (add_all ((0xfffe, numbered 0xfffe, 6) ∷ arrivals) new_statistics
      ≡ ok s)
    × (packets_expected s ≡ ok (pos (highest_of 0xfffe arrivals - 0xfffe + 1)))
    × (s.packets_received ≡ length arrivals + 1)
packets_expected-add_all_example =
    packets_expected-add_all 0xfffe (numbered 0xfffe) 6 arrivals refl near

advancing : Advancing 0xffff_ff00 (0x1_0000_0100 ∷ 0x1_8000_0000 ∷ [])
unfolding Advancing
advancing = (omega arith, omega arith, (omega arith, omega arith, tt))

map_all_lem_example :
    map_all (map (λ u. u % 2 ^ 32) (0xffff_ff00 ∷ 0x1_0000_0100 ∷ 0x1_8000_0000 ∷ [])) new_mapper
    ≡ ok (map (λ u. pos (u - 0xffff_ff00)) (0xffff_ff00 ∷ 0x1_0000_0100 ∷ 0x1_8000_0000 ∷ []))
map_all_lem_example = map_all_lem 0xffff_ff00 (0x1_0000_0100 ∷ 0x1_8000_0000 ∷ []) advancing

-- Payload type 97 retransmits 96; the SSRC 4321 retransmits 1234.
abbrev media_codec : RtpCodec
media_codec = record { payload_type = 96; is_rtx = false; apt = none }

abbrev rtx_codec : RtpCodec
rtx_codec = record { payload_type = 97; is_rtx = true; apt = some 96 }

abbrev receiver : RtpReceiver
receiver = record {
  active_ssrc = [];
  codecs = (96, media_codec) ∷ (97, rtx_codec) ∷ [];
  remote_streams = [];
  rtx_ssrc = (4321, 1234) ∷ [];
  track_queue = [];
}

abbrev retransmission : RtpPacket
retransmission = new_packet 97 0 5 3000 4321 (0 ∷ 17 ∷ [])

abbrev counted : StreamStatistics
counted = record new_statistics {
  base_seq = some 5;
  max_seq = some 5;
  packets_received = 1;
  last_arrival = some 8;
  last_timestamp = some 3000;
}

wrapped_so : wrap_rtx (numbered 17) 97 5 4321 ≡ ok retransmission
unfolding wrap_rtx pack_h be16
wrapped_so = refl

counted_so : Statistics.add retransmission 8 (or_new none) ≡ ok counted
unfolding Statistics.add
counted_so = refl

handle_rtp_packet-wrap_rtx_example :
    (s : RtpReceiver) × (handle_rtp_packet 8 retransmission receiver ≡ ok s)
    × (s.track_queue ≡ receiver.track_queue ++ (original (numbered 17) 96 ∷ []))
handle_rtp_packet-wrap_rtx_example =
    handle_rtp_packet-wrap_rtx (numbered 17) retransmission 97 5 4321 8 rtx_codec media_codec
      receiver counted (omega arith) wrapped_so refl refl refl refl counted_so
