-- ===== src/Receiver/Handler/Retransmission.antt =====
-- transport/rtcrtpreceiver.py: the track gets the packet that a retransmission carries.
use pure_webrtc_transport.Base.{
  ℕ, ◌^◌, ◌<◌, ◌≡◌, refl, true, false, some, [], ◌∷◌, ◌++◌, length, ltb, le→ltb, arith,
}
use pure_webrtc_transport.Base.Dict.{Dict, lookup, insert, nat_key}
use pure_webrtc_transport.Base.Dict as Sets
use pure_webrtc_transport.Base.Result.{ok}
use pure_webrtc_transport.Struct.{be16, read_h, whole}
use pure_webrtc_transport.Struct.Laws.{pack_h_lem}
use pure_webrtc_transport.Rtp.Packet.{RtpPacket, new_packet, wrap_rtx, unwrap_rtx}
use pure_webrtc_transport.Receiver.Statistics.{StreamStatistics}
use pure_webrtc_transport.Receiver.Statistics as Statistics
use pure_webrtc_transport.Receiver.Handler.{
  RtpCodec, RtpReceiver, or_new, codec_at, handle_rtp_packet,
}

-- What the retransmission of p holds.
abbrev wrapped : RtpPacket → ℕ → ℕ → ℕ → RtpPacket
wrapped p pt number ssrc =
    record (new_packet pt p.marker number p.timestamp ssrc (be16 p.sequence_number ++ p.payload)) {
      csrc = p.csrc;
      extensions = p.extensions;
    }

abbrev pub original : RtpPacket → (payload_type : ℕ) → RtpPacket
original p payload_type =
    record (new_packet payload_type p.marker p.sequence_number p.timestamp p.ssrc p.payload) {
      csrc = p.csrc;
      extensions = p.extensions;
    }

unwrap-wrapped :
    (p : RtpPacket) (pt number ssrc payload_type : ℕ)
    → unwrap_rtx (wrapped p pt number ssrc) payload_type p.ssrc ≡ ok (original p payload_type)
unfolding unwrap_rtx be16 read_h whole
unwrap-wrapped p pt number ssrc payload_type = ground arith

long_enough : (p : RtpPacket) → ltb (length (be16 p.sequence_number ++ p.payload)) 2 ≡ false
unfolding be16
long_enough p = le→ltb _ 2 (omega arith)

-- A packet with a 16-bit sequence number is wrapped for retransmission; the receiver knows the payload
-- type as that of a retransmission of another codec it knows, and the SSRC as that of the packet's
-- stream, and its statistics accept the retransmission. Then handling it succeeds and puts one packet
-- at the end of the track's queue: the packet that was wrapped, with the other codec's payload type.
pub handle_rtp_packet-wrap_rtx :
    (p rtx : RtpPacket) (pt number ssrc arrival : ℕ) (codec media : RtpCodec) (s : RtpReceiver)
    (statistics : StreamStatistics)
    → p.sequence_number < 2 ^ 16
    → wrap_rtx p pt number ssrc ≡ ok rtx
    → lookup pt s.codecs ≡ some codec
    → codec.is_rtx ≡ true
    → codec_at codec.apt s.codecs ≡ some media
    → lookup ssrc s.rtx_ssrc ≡ some p.ssrc
    → Statistics.add rtx arrival (or_new (lookup ssrc s.remote_streams)) ≡ ok statistics
    → (s' : RtpReceiver) × (handle_rtp_packet arrival rtx s ≡ ok s')
      × (s'.track_queue ≡ s.track_queue ++ (original p media.payload_type ∷ []))
unfolding wrap_rtx handle_rtp_packet
handle_rtp_packet-wrap_rtx p rtx pt number ssrc arrival codec media s statistics small made c r m
      known fed =
    let whole_packet : ok (wrapped p pt number ssrc) ≡ ok rtx =
      rw (pack_h_lem p.sequence_number small) at made in
    let same : rtx ≡ wrapped p pt number ssrc = cc in
    let accepted : Statistics.add (wrapped p pt number ssrc) arrival
          (or_new (lookup ssrc s.remote_streams))
        ≡ ok statistics =
      rw same at fed in
    rw same (
      record s {
        active_ssrc = Sets.add ssrc s.active_ssrc;
        remote_streams = insert ssrc statistics s.remote_streams;
        track_queue = s.track_queue ++ (original p media.payload_type ∷ []);
      },
      rw
          (
            c,
            accepted,
            r,
            known,
            long_enough p,
            m,
            unwrap-wrapped p pt number ssrc media.payload_type,
          )
          refl,
      refl,
    )
