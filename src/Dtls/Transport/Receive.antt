-- ===== src/Dtls/Transport/Receive.antt =====
-- `RTCDtlsTransport`: what becomes of a datagram.
pub mod Preserved
use pure_webrtc_transport.Base.{
  ℕ, ◌+◌, Bool, true, false, ◌&&◌, Option, none, some, List, [], ◌∷◌, length, ltb, if◌then◌else◌,
}
use pure_webrtc_transport.Base.Int.{ℤ, pos, ltb_ℤ, is_zero}
use pure_webrtc_transport.Base.Result.{
  Result, ok, raise, stuck, Exception, index_error, connection_error, is_srtp_error, is_value_error,
}
use pure_webrtc_transport.Struct.{Bytes}
use pure_webrtc_transport.Rtp.Packet
use pure_webrtc_transport.Rtp.Packet.{RtpPacket}
use pure_webrtc_transport.Rtcp.Types.{RtcpPacket}
use pure_webrtc_transport.Rtcp.Compound
use pure_webrtc_transport.Rtcp.Compound.{is_rtcp}
use pure_webrtc_transport.Dtls.Router.{RtpRouter, route_rtp, route_rtcp}
use pure_webrtc_transport.Dtls.Action.{Action, ◌>>=◌, return, fail, lift, modify}
use pure_webrtc_transport.Dtls.Transport.{
  Library, Transport, Delivery, to_data, to_rtp, to_rtcp, call, write_ssl,
}

module _ (L : Library) where
  abbrev pub Act : Type 0 → Type 0
  Act A = Action (Transport L) A

  abbrev pub deliver : Delivery → Act (Unit {0})
  deliver d = call L (L.deliver d)

  abbrev pub give_to_all : List ℕ → RtcpPacket → Act (Unit {0})
  give_to_all [] packet = return tt
  give_to_all (recipient ∷ recipients) packet = do
    done ← deliver (to_rtcp recipient packet)
    give_to_all recipients packet

  -- `route_rtcp` finds no recipient for a packet of an unknown kind, which is None.
  abbrev pub give_rtcp : Option RtcpPacket → Act (Unit {0})
  give_rtcp none self = return tt self
  give_rtcp (some packet) self =
      (lift (route_rtcp packet self.router) >>= λ recipients. give_to_all recipients packet) self

  abbrev pub give_all_rtcp : List (Option RtcpPacket) → Act (Unit {0})
  give_all_rtcp [] = return tt
  give_all_rtcp (packet ∷ packets) = do done ← give_rtcp packet; give_all_rtcp packets

  -- `except ValueError: return` around a parser.
  abbrev pub unless_refused : {A : Type 0} → Result A → (A → Act (Unit {0})) → Act (Unit {0})
  unless_refused (ok value) next = next value
  unless_refused (raise e) next = if is_value_error e then return tt else fail e
  unless_refused stuck next = lift stuck

  unfoldable pub handle_rtcp_data : Bytes → Act (Unit {0})
  handle_rtcp_data bytes = unless_refused (Compound.parse bytes) give_all_rtcp

  abbrev pub give_rtp : RtpPacket → ℕ → Option ℕ → Act (Unit {0})
  give_rtp packet arrival_time_ms none = return tt
  give_rtp packet arrival_time_ms (some receiver) = deliver (to_rtp receiver packet arrival_time_ms)

  -- The router may learn the SSRC of the packet.
  abbrev pub route_packet : RtpPacket → Act (Option ℕ)
  route_packet packet self =
      let routed = route_rtp packet self.router in
      (ok (routed.0), record self { router = routed.1 })

  unfoldable pub handle_rtp_data : Bytes → ℕ → Act (Unit {0})
  handle_rtp_data bytes arrival_time_ms self =
      unless_refused (Packet.parse self.ids bytes)
        (λ packet. route_packet packet >>= give_rtp packet arrival_time_ms) self

  abbrev pub give_data : Option ℕ → Bytes → Act (Unit {0})
  give_data none plain = return tt
  give_data (some receiver) plain = deliver (to_data receiver plain)

  -- `first_byte > 19 and first_byte < 64`
  unfoldable pub handle_dtls : Bytes → Act (Unit {0})
  handle_dtls bytes self =
      let (count, plain, world) = L.ssl_read bytes self.world in
      (write_ssl L >>= λ done.
      if is_zero count
      then fail connection_error
      else if ltb_ℤ (pos 0) count
      then give_data self.data_receiver plain
      else return tt)
        (record self { world = world })

  -- `except pylibsrtp.Error`, around the removal of the protection and the handler.
  abbrev pub forgiven : Result (Unit {0}) → Result (Unit {0})
  forgiven (raise e) = if is_srtp_error e then ok tt else raise e
  forgiven (ok done) = ok done
  forgiven stuck = stuck

  unfoldable pub handle_srtp : Bytes → Bytes → Act (Unit {0})
  handle_srtp key bytes self =
      let arrival_time_ms = L.current_ms self.world in
      let unprotected = call L (L.unprotect (is_rtcp bytes) key bytes) in
      let handle : Bytes → Act (Unit {0}) =
        if is_rtcp bytes
        then handle_rtcp_data
        else (λ plain. handle_rtp_data plain arrival_time_ms) in
      let outcome = (unprotected >>= handle) self in (forgiven (outcome.0), outcome.1)

  abbrev pub handle_if_keyed : Option Bytes → Bytes → Act (Unit {0})
  handle_if_keyed none bytes = return tt
  handle_if_keyed (some key) bytes = handle_srtp key bytes

  -- `data[0]` of an empty datagram is an IndexError.
  unfoldable pub dispatch : Bytes → Act (Unit {0})
  dispatch [] self = fail index_error self
  dispatch (first ∷ rest) self =
      (if ltb 19 first && ltb first 64
          then handle_dtls (first ∷ rest)
          else if ltb 127 first && ltb first 192
          then handle_if_keyed self.rx_srtp (first ∷ rest)
          else return tt)
        self

  abbrev pub count_received : ℕ → Transport L → Transport L
  count_received size self = record self {
    rx_bytes = self.rx_bytes + size;
    rx_packets = self.rx_packets + 1;
  }

  -- None: the DTLS timer ran out.
  abbrev pub handle_datagram : Option Bytes → Act (Unit {0})
  handle_datagram none = do
    done ← modify (λ self. record self { world = L.handle_timeout self.world })
    write_ssl L
  handle_datagram (some bytes) = do done ← modify (count_received (length bytes)); dispatch bytes

  unfoldable pub recv_next : Act (Unit {0})
  recv_next self =
      let timed = if self.encrypted then false else L.has_timeout self.world in
      (call L (L.recv timed) >>= handle_datagram) self
