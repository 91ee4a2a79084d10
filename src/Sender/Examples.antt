-- ===== src/Sender/Examples.antt =====
-- The sender's history at concrete inputs.
use pure_webrtc_transport.Base.{ℕ, ◌≡◌, some, none, List, [], ◌∷◌, arith}
use pure_webrtc_transport.Rtp.Packet.{RtpPacket, new_packet}
use pure_webrtc_transport.Sender.{
  RtpSender, get_packet_by_transport_sequence_number, send_packet, send_packets,
}
use pure_webrtc_transport.Base.{◌++◌, refl}
use pure_webrtc_transport.Base.Result.{ok, ◌>>=◌}
use pure_webrtc_transport.Struct.{Bytes, be16, pack_h, pack_b, pack_l}
use pure_webrtc_transport.Utils.{uint16_add}
use pure_webrtc_transport.Rtp.Packet.{
  serialize, wrap_rtx, pack_header, pack_numbers, pack_extension, pack_padding,
}
use pure_webrtc_transport.Rtp.ExtensionsMap.{no_ids, no_extensions, set}
use pure_webrtc_transport.Rtp.Extensions.{pack_header_extensions}
use pure_webrtc_transport.Sender.Retransmit.{
  SharedPacket, SharingSender, retransmit, number_shared, get_shared,
}
use pure_webrtc_transport.Sender.Retransmit.Shared.{retransmit-get_shared}
use pure_webrtc_transport.Sender.Feedback.{get_packet-send_packet}

abbrev sender : RtpSender
sender = record {
  ssrc = 1234;
  payload_type = 96;
  mid = some (48 ∷ []);
  sequence_number = 17;
  rtp_history = [];
  transport_sequence_number = 0xffff;
  tcc_history = [];
}

abbrev packet : RtpPacket
packet = new_packet 0 0 0 3000 0 (1 ∷ 2 ∷ [])

abbrev later : List (ℕ × ℕ × RtpPacket)
later = (11, 22, packet) ∷ []

get_packet-send_packet_example :
    let sent = send_packet 10 20 packet sender in
    let asked = get_packet_by_transport_sequence_number 0xffff (send_packets later sent.1) in
    (asked.0 ≡ some sent.0) × ((get_packet_by_transport_sequence_number 0xffff asked.1).0 ≡ none)
get_packet-send_packet_example =
    get_packet-send_packet sender 10 20 packet later (omega arith) (omega arith)

-- A packet of sequence number 7 that was sent under the transport sequence number 5.
abbrev lost : SharedPacket
lost = record { packet = new_packet 96 0 7 3000 1234 (1 ∷ 2 ∷ []); extensions = 0 }

abbrev sharing : SharingSender
sharing = record {
  rtp_history = (7, lost) ∷ [];
  tcc_history = (5, lost) ∷ [];
  objects = (0, record no_extensions { transport_sequence_number = some 5 }) ∷ [];
  transport_sequence_number = 9;
  rtx_payload_type = some 97;
  rtx_sequence_number = 300;
  rtx_ssrc = 4321;
  ids = no_ids;
}

-- The retransmission, as it is kept.
abbrev wrapped : SharedPacket
wrapped = record {
  packet = record (new_packet 97 0 300 3000 4321 (0 ∷ 7 ∷ 1 ∷ 2 ∷ [])) {
    extensions = record no_extensions { transport_sequence_number = some 5 };
    send_ms = 77;
  };
  extensions = 0;
}

abbrev after : SharingSender
after = record sharing {
  tcc_history = (5, lost) ∷ (9, wrapped) ∷ [];
  objects = (0, record no_extensions { transport_sequence_number = some 9 }) ∷ [];
  transport_sequence_number = 10;
  rtx_sequence_number = 301;
}

abbrev sent_out : Bytes
sent_out = 128 ∷ 97 ∷ 1 ∷ 44 ∷ 0 ∷ 0 ∷ 11 ∷ 184 ∷ 0 ∷ 0 ∷ 16 ∷ 225 ∷ 0 ∷ 7 ∷ 1 ∷ 2 ∷ []

retransmitted : retransmit (λ n. []) 77 7 sharing ≡ ok (some sent_out, after)
unfolding retransmit wrap_rtx number_shared serialize set pack_header_extensions uint16_add pack_h
    pack_b pack_l pack_header pack_numbers pack_extension pack_padding
retransmitted = refl

retransmit-get_shared_example :
    (sent : RtpPacket) × (next : SharingSender) × (retransmit (λ n. []) 77 7 sharing
      ≡ (serialize no_ids (λ n. []) sent >>= λ b. ok (some (b.0), next)))
    × ((sent.payload ≡ be16 7 ++ (1 ∷ 2 ∷ []))
        × (sent.payload_type ≡ 97)
        × (sent.ssrc ≡ 4321)
        × (sent.sequence_number ≡ 300)
        × (sent.extensions.transport_sequence_number ≡ some 9))
    × (next.rtx_sequence_number ≡ uint16_add 300 1)
    × ((get_shared 9 next).0 ≡ some sent)
    × ((get_shared 5 next).0 ≡ none)
retransmit-get_shared_example =
    retransmit-get_shared (λ n. []) 77 7 97 5 lost sharing (omega arith) refl refl refl refl
      (λ e. omega (arith, e))
