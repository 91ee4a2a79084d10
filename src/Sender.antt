-- ===== src/Sender.antt =====
-- transport/rtcrtpsender.py: what `RTCRtpSender` remembers of the packets it sent, the loop body of
-- `_run_rtp` up to the bytes, and the look-up of feedback.
-- A history is a dictionary from a number modulo its size to a packet.
pub mod Feedback
pub mod Retransmit
mod Examples
use pure_webrtc_transport.Base.{
  ℕ, ◌%◌, ◌^◌, Bool, true, false, Option, none, some, List, [], ◌∷◌, ◌==◌, if◌then◌else◌,
}
use pure_webrtc_transport.Base.Dict.{Dict, lookup, insert, nat_key}
use pure_webrtc_transport.Base.Result.{Result, ok, ◌>>=◌}
use pure_webrtc_transport.Text.{Str}
use pure_webrtc_transport.Utils.{uint16_add}
use pure_webrtc_transport.Rtp.ExtensionsMap.{HeaderExtensions}
use pure_webrtc_transport.Rtp.Packet.{RtpPacket}

abbrev pub rtp_history_size : ℕ
rtp_history_size = 128

abbrev pub tcc_history_size : ℕ
tcc_history_size = 1024

pub record RtpSender : Type 0 where
  pub ssrc : ℕ
  pub payload_type : ℕ
  pub mid : Option Str
  pub sequence_number : ℕ
  pub rtp_history : Dict ℕ RtpPacket
  pub transport_sequence_number : ℕ
  pub tcc_history : Dict ℕ RtpPacket

abbrev pub with_number : ℕ → ℕ → RtpPacket → RtpPacket
with_number t_seq now packet = record packet {
  extensions = record packet.extensions { transport_sequence_number = some t_seq };
  send_ms = now;
}

-- The packet as it is sent, and the sender after it. `now` is `clock.current_ms()`.
unfoldable pub set_transport_sequence_number :
    (now : ℕ) → RtpPacket → RtpSender → RtpPacket × RtpSender
set_transport_sequence_number now packet s =
    let numbered : RtpPacket = with_number s.transport_sequence_number now packet in
    (
      numbered,
      record s {
        transport_sequence_number = uint16_add s.transport_sequence_number 1;
        tcc_history =
            insert (s.transport_sequence_number % tcc_history_size) numbered s.tcc_history;
      },
    )

-- `del d[index]`
abbrev pub delete : ℕ → Dict ℕ RtpPacket → Dict ℕ RtpPacket
delete index [] = []
delete index ((k, p) ∷ d) = if index == k then delete index d else (k, p) ∷ delete index d

abbrev pub has_number : ℕ → Option ℕ → Bool
has_number t_seq none = false
has_number t_seq (some n) = n == t_seq

abbrev pub take_if_numbered : ℕ → Option RtpPacket → RtpSender → Option RtpPacket × RtpSender
take_if_numbered t_seq none s = (none, s)
take_if_numbered t_seq (some packet) s =
    let removed : RtpSender = record s {
      tcc_history = delete (t_seq % tcc_history_size) s.tcc_history;
    } in
    if has_number t_seq packet.extensions.transport_sequence_number
    then (some packet, removed)
    else (none, removed)

unfoldable pub get_packet_by_transport_sequence_number :
    ℕ → RtpSender → Option RtpPacket × RtpSender
get_packet_by_transport_sequence_number t_seq s =
    take_if_numbered t_seq (lookup (t_seq % tcc_history_size) s.tcc_history) s

-- The loop body of `_run_rtp`, from the track's packet to the one whose bytes are sent.
unfoldable pub send_packet : (now abs_send_time : ℕ) → RtpPacket → RtpSender → RtpPacket × RtpSender
unfolding set_transport_sequence_number
send_packet now abs_send_time packet s =
    let addressed : RtpPacket = record packet {
      ssrc = s.ssrc;
      payload_type = s.payload_type;
      sequence_number = s.sequence_number;
      extensions = record packet.extensions { abs_send_time = some abs_send_time; mid = s.mid };
    } in
    let numbered = set_transport_sequence_number now addressed s in
    (
      numbered.0,
      record numbered.1 {
        rtp_history =
            insert (s.sequence_number % rtp_history_size) (numbered.0) (numbered.1.rtp_history);
        sequence_number = uint16_add s.sequence_number 1;
      },
    )

-- The packets of the track, each with the time and the `abs_send_time` that the clock gives for it.
unfoldable pub send_packets : List (ℕ × ℕ × RtpPacket) → RtpSender → RtpSender
send_packets [] s = s
send_packets ((now, abs_send_time, packet) ∷ rest) s =
    send_packets rest ((send_packet now abs_send_time packet s).1)
