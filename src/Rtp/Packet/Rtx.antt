-- ===== src/Rtp/Packet/Rtx.antt =====
-- transport/rtp.py: `unwrap_rtx` undoes `wrap_rtx`.
use pure_webrtc_transport.Base.{ℕ, ◌^◌, ◌<◌, ◌≡◌, refl, arith, ◌++◌}
use pure_webrtc_transport.Base.Result.{ok}
use pure_webrtc_transport.Struct.{Bytes, be16, read_h, whole}
use pure_webrtc_transport.Struct.Laws.{pack_h_lem}
use pure_webrtc_transport.Rtp.Packet.{RtpPacket, wrap_rtx, unwrap_rtx, new_packet}

-- A packet with a 16-bit sequence number survives the way through a retransmission packet: with its
-- own payload type and SSRC named, unwrapping gives back its marker, sequence number, timestamp,
-- CSRCs, extensions and payload. Version, padding and the sizes and times outside the header are
-- those of a new packet.
pub unwrap_rtx-wrap_rtx :
    (p : RtpPacket) (rtx_payload_type rtx_sequence_number rtx_ssrc payload_type ssrc : ℕ)
    → p.sequence_number < 2 ^ 16
    → (rtx : RtpPacket) × (wrap_rtx p rtx_payload_type rtx_sequence_number rtx_ssrc ≡ ok rtx)
      × (rtx.payload_type ≡ rtx_payload_type)
      × (rtx.sequence_number ≡ rtx_sequence_number)
      × (rtx.ssrc ≡ rtx_ssrc)
      × (unwrap_rtx rtx payload_type ssrc
          ≡ ok
              (record (new_packet payload_type p.marker p.sequence_number p.timestamp ssrc
                p.payload) { csrc = p.csrc; extensions = p.extensions }))
unfolding wrap_rtx unwrap_rtx
unwrap_rtx-wrap_rtx p pt sn rtx_ssrc pt' ssrc h =
    let original : Bytes = be16 p.sequence_number in
    (
      record (new_packet pt p.marker sn p.timestamp rtx_ssrc (original ++ p.payload)) {
        csrc = p.csrc;
        extensions = p.extensions;
      },
      rw (pack_h_lem p.sequence_number h),
      refl,
      refl,
      refl,
      unfold be16 read_h whole in ground arith,
    )
