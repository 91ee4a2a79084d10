-- ===== src/Receiver/Handler.antt =====
-- transport/rtcrtpreceiver.py: `RTCRtpReceiver._handle_rtp_packet` with the tables that it reads and
-- changes. `track_queue` is the queue of the track, which a packet is put at the end of.
pub mod Retransmission
use pure_webrtc_transport.Base.{
  ℕ, Bool, true, false, Option, none, some, List, [], ◌∷◌, ◌++◌, length, ltb, if◌then◌else◌,
}
use pure_webrtc_transport.Base.Dict.{Dict, lookup, insert, nat_key}
use pure_webrtc_transport.Base.Dict as Sets
use pure_webrtc_transport.Base.Result.{Result, ok, raise, ◌>>=◌, key_error}
use pure_webrtc_transport.Rtp.Packet.{RtpPacket, unwrap_rtx}
use pure_webrtc_transport.Receiver.Statistics.{StreamStatistics, new_statistics}
use pure_webrtc_transport.Receiver.Statistics as Statistics

-- `is_rtx(codec)` as a field, and `apt` of its parameters, if it is there.
pub record RtpCodec : Type 0 where
  pub payload_type : ℕ
  pub is_rtx : Bool
  pub apt : Option ℕ

pub record RtpReceiver : Type 0 where
  pub active_ssrc : List ℕ
  pub codecs : Dict ℕ RtpCodec
  pub remote_streams : Dict ℕ StreamStatistics
  pub rtx_ssrc : Dict ℕ ℕ
  pub track_queue : List RtpPacket

abbrev pub deliver : RtpPacket → RtpReceiver → RtpReceiver
deliver packet s = record s { track_queue = s.track_queue ++ (packet ∷ []) }

-- `codec = self.__codecs[codec.parameters["apt"]]`, and the packet under its payload type.
abbrev pub unwrap_with :
    Option RtpCodec → (original_ssrc : ℕ) → RtpPacket → RtpReceiver → Result RtpReceiver
unwrap_with none original_ssrc packet s = raise key_error
unwrap_with (some codec) original_ssrc packet s = do
  original ← unwrap_rtx packet codec.payload_type original_ssrc
  ok (deliver original s)

-- `self.__codecs[codec.parameters["apt"]]`: either key can be missing, which is a KeyError.
abbrev pub codec_at : Option ℕ → Dict ℕ RtpCodec → Option RtpCodec
codec_at none codecs = none
codec_at (some apt) codecs = lookup apt codecs

abbrev pub unwrap_from : Option ℕ → (apt : Option ℕ) → RtpPacket → RtpReceiver → Result RtpReceiver
unwrap_from none apt packet s = ok s
unwrap_from (some original_ssrc) apt packet s =
    if ltb (length packet.payload) 2
    then ok s
    else unwrap_with (codec_at apt s.codecs) original_ssrc packet s

abbrev pub or_new : Option StreamStatistics → StreamStatistics
or_new none = new_statistics
or_new (some statistics) = statistics

abbrev pub handle_with :
    Option RtpCodec → (arrival : ℕ) → RtpPacket → RtpReceiver → Result RtpReceiver
handle_with none arrival packet s = ok s
handle_with (some codec) arrival packet s = do
  statistics ← Statistics.add packet arrival (or_new (lookup packet.ssrc s.remote_streams))
  let fed = record s { remote_streams = insert packet.ssrc statistics s.remote_streams }
  if codec.is_rtx
      then unwrap_from (lookup packet.ssrc fed.rtx_ssrc) codec.apt packet fed
      else ok (deliver packet fed)

-- The time of the source is not kept, only that it was active.
unfoldable pub handle_rtp_packet : (arrival : ℕ) → RtpPacket → RtpReceiver → Result RtpReceiver
handle_rtp_packet arrival packet s =
    handle_with (lookup packet.payload_type s.codecs) arrival packet
      (record s { active_ssrc = Sets.add packet.ssrc s.active_ssrc })
