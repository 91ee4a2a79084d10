-- ===== src/Rtcp/Types.antt =====
-- transport/rtp.py: the classes of RTCP packets and their parts.
use pure_webrtc_transport.Base.{ℕ, Bool, Option, List}
use pure_webrtc_transport.Base.Int.{ℤ}
use pure_webrtc_transport.Struct.{Bytes}

pub record RtcpReceiverInfo : Type 0 where
  pub ssrc : ℕ
  pub fraction_lost : ℕ
  pub packets_lost : ℤ
  pub highest_sequence : ℕ
  pub jitter : ℕ
  pub lsr : ℕ
  pub dlsr : ℕ

pub record RtcpSenderInfo : Type 0 where
  pub ntp_timestamp : ℕ
  pub rtp_timestamp : ℕ
  pub packet_count : ℕ
  pub octet_count : ℕ

pub record RtcpSourceInfo : Type 0 where
  pub ssrc : ℕ
  pub items : List (ℕ × Bytes)

pub record TwccPacketResult : Type 0 where
  pub t_seq : ℕ
  pub receive_ms : ℤ
  pub received : Bool
  pub payload_size : Option ℕ
  pub send_ms : Option ℕ

-- One constructor for each packet class.
pub data RtcpPacket : Type 0 where
  bye : List ℕ → RtcpPacket
  psfb : (fmt ssrc media_ssrc : ℕ) → Bytes → RtcpPacket
  rr : (ssrc : ℕ) → List RtcpReceiverInfo → RtcpPacket
  rtpfb : (fmt ssrc media_ssrc : ℕ) (lost : List ℕ) → List TwccPacketResult → RtcpPacket
  sdes : List RtcpSourceInfo → RtcpPacket
  sr : (ssrc : ℕ) → RtcpSenderInfo → List RtcpReceiverInfo → RtcpPacket
