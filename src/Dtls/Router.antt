-- ===== src/Dtls/Router.antt =====
-- transport/rtcdtlstransport.py: `RtpRouter`. Receivers and senders are numbered by their identity.
pub mod Forget
pub mod Routing
pub mod Sticky
use pure_webrtc_transport.Base.{
  ℕ, Bool, true, false, Option, none, some, List, [], ◌∷◌, map, ◌==◌, if◌then◌else◌,
}
use pure_webrtc_transport.Base.Dict.{
  Dict, lookup, insert, discard, nat_key, string_key, member, add, remove,
}
use pure_webrtc_transport.Base.Result.{Result, ok, raise, stuck, ◌>>=◌, is_value_error}
use pure_webrtc_transport.Text.{Str}
use pure_webrtc_transport.Rtp.Packet.{RtpPacket}
use pure_webrtc_transport.Rtcp.Types.{RtcpPacket, RtcpReceiverInfo, bye, psfb, rr, rtpfb, sdes, sr}
use pure_webrtc_transport.Rtcp.Remb.{unpack_remb_fci}

pub record RtpRouter : Type 0 where
  pub receivers : List ℕ
  pub senders : Dict ℕ ℕ
  pub mid_table : Dict Str ℕ
  pub ssrc_table : Dict ℕ ℕ
  pub payload_type_table : Dict ℕ (List ℕ)

abbrev pub new_router : RtpRouter
new_router = record {
  receivers = [];
  senders = [];
  mid_table = [];
  ssrc_table = [];
  payload_type_table = [];
}

-- `self.payload_type_table.get(payload_type, set())`
abbrev pub or_empty : Option (List ℕ) → List ℕ
or_empty none = []
or_empty (some rs) = rs

abbrev pub add_mid : Option Str → ℕ → Dict Str ℕ → Dict Str ℕ
add_mid none receiver table = table
add_mid (some mid) receiver table = insert mid receiver table

abbrev pub add_ssrcs : List ℕ → ℕ → Dict ℕ ℕ → Dict ℕ ℕ
add_ssrcs [] receiver table = table
add_ssrcs (ssrc ∷ ssrcs) receiver table = add_ssrcs ssrcs receiver (insert ssrc receiver table)

-- A payload type that is not in the table gets an empty set first.
abbrev pub add_payload_types : List ℕ → ℕ → Dict ℕ (List ℕ) → Dict ℕ (List ℕ)
add_payload_types [] receiver table = table
add_payload_types (pt ∷ pts) receiver table =
    add_payload_types pts receiver (insert pt (add receiver (or_empty (lookup pt table))) table)

unfoldable pub register_receiver : ℕ → List ℕ → List ℕ → Option Str → RtpRouter → RtpRouter
register_receiver receiver ssrcs payload_types mid s = record {
  receivers = add receiver s.receivers;
  senders = s.senders;
  mid_table = add_mid mid receiver s.mid_table;
  ssrc_table = add_ssrcs ssrcs receiver s.ssrc_table;
  payload_type_table = add_payload_types payload_types receiver s.payload_type_table;
}

unfoldable pub register_sender : ℕ → ℕ → RtpRouter → RtpRouter
register_sender sender ssrc s = record {
  receivers = s.receivers;
  senders = insert ssrc sender s.senders;
  mid_table = s.mid_table;
  ssrc_table = s.ssrc_table;
  payload_type_table = s.payload_type_table;
}

abbrev pub remove_from_sets : ℕ → Dict ℕ (List ℕ) → Dict ℕ (List ℕ)
remove_from_sets receiver [] = []
remove_from_sets receiver ((pt, rs) ∷ table) =
    (pt, remove receiver rs) ∷ remove_from_sets receiver table

unfoldable pub unregister_receiver : ℕ → RtpRouter → RtpRouter
unregister_receiver receiver s = record {
  receivers = remove receiver s.receivers;
  senders = s.senders;
  mid_table = discard (λ v. v == receiver) s.mid_table;
  ssrc_table = discard (λ v. v == receiver) s.ssrc_table;
  payload_type_table = remove_from_sets receiver s.payload_type_table;
}

unfoldable pub unregister_sender : ℕ → RtpRouter → RtpRouter
unregister_sender sender s = record {
  receivers = s.receivers;
  senders = discard (λ v. v == sender) s.senders;
  mid_table = s.mid_table;
  ssrc_table = s.ssrc_table;
  payload_type_table = s.payload_type_table;
}

abbrev pub set_ssrc : ℕ → ℕ → RtpRouter → RtpRouter
set_ssrc ssrc receiver s = record {
  receivers = s.receivers;
  senders = s.senders;
  mid_table = s.mid_table;
  ssrc_table = insert ssrc receiver s.ssrc_table;
  payload_type_table = s.payload_type_table;
}

-- The SSRC is known: its receiver gets the packet if it takes the payload type. The SSRC is not
-- known: the only receiver of the payload type gets it, and the table learns the SSRC.
abbrev pub route_by : Option ℕ → List ℕ → ℕ → RtpRouter → Option ℕ × RtpRouter
route_by (some receiver) pt_receivers ssrc s =
    if member receiver pt_receivers then (some receiver, s) else (none, s)
route_by none (receiver ∷ []) ssrc s = (some receiver, set_ssrc ssrc receiver s)
route_by none [] ssrc s = (none, s)
route_by none (a ∷ b ∷ rs) ssrc s = (none, s)

unfoldable pub route_rtp : RtpPacket → RtpRouter → Option ℕ × RtpRouter
route_rtp packet s =
    route_by (lookup packet.ssrc s.ssrc_table)
      (or_empty (lookup packet.payload_type s.payload_type_table)) packet.ssrc s

abbrev pub add_recipient : Option ℕ → List ℕ → List ℕ
add_recipient none recipients = recipients
add_recipient (some r) recipients = add r recipients

-- `for ssrc in ssrcs: add_recipient(table.get(ssrc))`
abbrev pub add_recipients : Dict ℕ ℕ → List ℕ → List ℕ → List ℕ
add_recipients table [] recipients = recipients
add_recipients table (ssrc ∷ ssrcs) recipients =
    add_recipients table ssrcs (add_recipient (lookup ssrc table) recipients)

abbrev pub report_ssrcs : List RtcpReceiverInfo → List ℕ
report_ssrcs [] = []
report_ssrcs (r ∷ reports) = r.ssrc ∷ report_ssrcs reports

-- The SSRCs of a REMB packet; `except ValueError: pass`.
abbrev pub remb_recipients : Dict ℕ ℕ → Result (ℕ × List ℕ) → List ℕ → Result (List ℕ)
remb_recipients table (ok (bitrate, ssrcs)) recipients = ok (add_recipients table ssrcs recipients)
remb_recipients table (raise e) recipients = if is_value_error e then ok recipients else raise e
remb_recipients table stuck recipients = stuck

unfoldable pub route_rtcp : RtcpPacket → RtpRouter → Result (List ℕ)
route_rtcp (sr ssrc info reports) s =
    ok (
      add_recipients s.senders (report_ssrcs reports) (add_recipient (lookup ssrc s.ssrc_table) []))
route_rtcp (bye sources) s = ok (add_recipients s.ssrc_table sources [])
route_rtcp (rr ssrc reports) s = ok (add_recipients s.senders (report_ssrcs reports) [])
route_rtcp (rtpfb fmt ssrc media_ssrc lost twcc) s =
    ok (add_recipient (lookup media_ssrc s.senders) [])
route_rtcp (psfb fmt ssrc media_ssrc fci) s =
    let recipients : List ℕ = add_recipient (lookup media_ssrc s.senders) [] in
    if fmt == 15 then remb_recipients s.senders (unpack_remb_fci fci) recipients else ok recipients
route_rtcp (sdes chunks) s = ok []

-- The calls that change the router.
pub data Event : Type 0 where
  registers_receiver : (receiver : ℕ) (ssrcs payload_types : List ℕ) (mid : Option Str) → Event
  registers_sender : (sender ssrc : ℕ) → Event
  unregisters_receiver : (receiver : ℕ) → Event
  unregisters_sender : (sender : ℕ) → Event
  routes_rtp : RtpPacket → Event

unfoldable pub step : Event → RtpRouter → RtpRouter
step (registers_receiver receiver ssrcs pts mid) s = register_receiver receiver ssrcs pts mid s
step (registers_sender sender ssrc) s = register_sender sender ssrc s
step (unregisters_receiver receiver) s = unregister_receiver receiver s
step (unregisters_sender sender) s = unregister_sender sender s
step (routes_rtp packet) s = (route_rtp packet s).1

unfoldable pub run : List Event → RtpRouter → RtpRouter
run [] s = s
run (e ∷ events) s = run events (step e s)
