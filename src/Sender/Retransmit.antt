-- ===== src/Sender/Retransmit.antt =====
-- transport/rtcrtpsender.py: `_retransmit`. The packet that `wrap_rtx` makes has the same extensions
-- object as the packet it is made from, so that here a packet of a history holds the number of its
-- object, and the sender the objects.
pub mod Shared
use pure_webrtc_transport.Base.{
  ℕ, ◌%◌, Bool, true, false, ◌&&◌, Option, none, some, List, [], ◌∷◌, ◌==◌, if◌then◌else◌,
}
use pure_webrtc_transport.Base.Dict.{Dict, lookup, insert, nat_key}
use pure_webrtc_transport.Base.Result.{Result, ok, ◌>>=◌}
use pure_webrtc_transport.Struct.{Bytes}
use pure_webrtc_transport.Utils.{uint16_add}
use pure_webrtc_transport.Rtp.ExtensionsMap.{HeaderExtensions, ExtensionIds, no_extensions}
use pure_webrtc_transport.Rtp.Packet.{RtpPacket, serialize, wrap_rtx}
use pure_webrtc_transport.Sender.{rtp_history_size, tcc_history_size, has_number}

-- A packet, but for its extensions, and the number of its extensions object.
pub record SharedPacket : Type 0 where
  pub packet : RtpPacket
  pub extensions : ℕ

pub record SharingSender : Type 0 where
  pub rtp_history : Dict ℕ SharedPacket
  pub tcc_history : Dict ℕ SharedPacket
  pub objects : Dict ℕ HeaderExtensions
  pub transport_sequence_number : ℕ
  pub rtx_payload_type : Option ℕ
  pub rtx_sequence_number : ℕ
  pub rtx_ssrc : ℕ
  pub ids : ExtensionIds

-- Every packet of a sender has an object.
abbrev pub object_or : Option HeaderExtensions → HeaderExtensions
object_or none = no_extensions
object_or (some extensions) = extensions

abbrev pub object_of : SharedPacket → SharingSender → HeaderExtensions
object_of shared s = object_or (lookup shared.extensions s.objects)

-- The packet as it is to be seen now.
abbrev pub view : SharedPacket → SharingSender → RtpPacket
view shared s = record shared.packet { extensions = object_of shared s }

-- `set_transport_sequence_number`, with the write into the object.
unfoldable pub number_shared :
    (now : ℕ) → SharedPacket → SharingSender → SharedPacket × SharingSender
number_shared now shared s =
    let t_seq = s.transport_sequence_number in
    let stamped : SharedPacket = record shared {
      packet = record shared.packet { send_ms = now };
    } in
    (
      stamped,
      record s {
        objects =
            insert shared.extensions
              (record (object_of shared s) { transport_sequence_number = some t_seq }) s.objects;
        transport_sequence_number = uint16_add t_seq 1;
        tcc_history = insert (t_seq % tcc_history_size) stamped s.tcc_history;
      },
    )

abbrev pub delete_shared : ℕ → Dict ℕ SharedPacket → Dict ℕ SharedPacket
delete_shared index [] = []
delete_shared index ((k, p) ∷ d) =
    let rest = delete_shared index d in if index == k then rest else (k, p) ∷ rest

abbrev pub take_shared : ℕ → Option SharedPacket → SharingSender → Option RtpPacket × SharingSender
take_shared t_seq none s = (none, s)
take_shared t_seq (some shared) s =
    let removed : SharingSender = record s {
      tcc_history = delete_shared (t_seq % tcc_history_size) s.tcc_history;
    } in
    if has_number t_seq (object_of shared s).transport_sequence_number
    then (some (view shared s), removed)
    else (none, removed)

-- `get_packet_by_transport_sequence_number`
unfoldable pub get_shared : ℕ → SharingSender → Option RtpPacket × SharingSender
get_shared t_seq s = take_shared t_seq (lookup (t_seq % tcc_history_size) s.tcc_history) s

-- The packet that goes out: itself, or wrapped and numbered where an RTX payload type is known.
abbrev pub wrap_if_rtx :
    Option ℕ → (now : ℕ) → SharedPacket → SharingSender → Result (SharedPacket × SharingSender)
wrap_if_rtx none now shared s = ok (shared, s)
wrap_if_rtx (some payload_type) now shared s = do
  rtx ← wrap_rtx (view shared s) payload_type s.rtx_sequence_number s.rtx_ssrc
  ok (
      number_shared now (record { packet = rtx; extensions = shared.extensions })
        (record s { rtx_sequence_number = uint16_add s.rtx_sequence_number 1 }))

abbrev pub retransmit_found :
    (ℕ → Bytes)
    → (now sequence_number : ℕ) → Option SharedPacket
    → SharingSender
    → Result (Option Bytes × SharingSender)
retransmit_found random now sequence_number none s = ok (none, s)
retransmit_found random now sequence_number (some shared) s =
    let run : Result (Option Bytes × SharingSender) =
      wrap_if_rtx s.rtx_payload_type now shared s >>= λ r.
      (serialize s.ids random (view (r.0) (r.1)) >>= λ b. ok (some (b.0), r.1)) in
    if shared.packet.sequence_number == sequence_number then run else ok (none, s)

-- What goes to `_send_rtp`, if anything. `random` gives the bytes of padding, `now` is the clock.
unfoldable pub retransmit :
    (ℕ → Bytes) → (now sequence_number : ℕ) → SharingSender → Result (Option Bytes × SharingSender)
retransmit random now sequence_number s =
    retransmit_found random now sequence_number
      (lookup (sequence_number % rtp_history_size) s.rtp_history) s
