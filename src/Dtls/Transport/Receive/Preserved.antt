-- ===== src/Dtls/Transport/Receive/Preserved.antt =====
-- `RTCDtlsTransport`: a datagram changes neither the state of the transport nor its role and keys.
use pure_webrtc_transport.Base.{
  ℕ, Bool, true, false, ◌&&◌, Option, none, some, List, [], ◌∷◌, refl, length, ltb, if◌then◌else◌,
}
use pure_webrtc_transport.Base.Int.{pos, ltb_ℤ, is_zero}
use pure_webrtc_transport.Base.Result.{Result, ok, raise, stuck, connection_error, is_value_error}
use pure_webrtc_transport.Struct.{Bytes}
use pure_webrtc_transport.Rtp.Packet
use pure_webrtc_transport.Rtp.Packet.{RtpPacket}
use pure_webrtc_transport.Rtcp.Types.{RtcpPacket}
use pure_webrtc_transport.Rtcp.Compound
use pure_webrtc_transport.Rtcp.Compound.{is_rtcp}
use pure_webrtc_transport.Dtls.Router.{route_rtcp}
use pure_webrtc_transport.Dtls.Action.{◌>>=◌, return, fail, lift, modify, Preserves, >>=-Preserves}
use pure_webrtc_transport.Dtls.Transport.{
  Library, Transport, State, Role, to_rtcp, call, write_ssl, send_pending, count_sent,
}
use pure_webrtc_transport.Dtls.Transport.Receive.{
  Act, deliver, give_to_all, give_rtcp, give_all_rtcp, unless_refused, handle_rtcp_data, give_rtp,
  route_packet, handle_rtp_data, give_data, handle_dtls, handle_srtp, handle_if_keyed, dispatch,
  count_received, handle_datagram, recv_next,
}

module _ (L : Library) where
  -- What `start`, `stop` and the data pump decide, and nothing else does.
  pub record Control : Type 0 where
    pub state : State
    pub changes : List State
    pub role : Role
    pub has_task : Bool
    pub rx_srtp : Option Bytes
    pub tx_srtp : Option Bytes

  abbrev pub control : Transport L → Control
  control self = record {
    state = self.state;
    changes = self.changes;
    role = self.role;
    has_task = self.has_task;
    rx_srtp = self.rx_srtp;
    tx_srtp = self.tx_srtp;
  }

  abbrev Keeps : {A : Type 0} → Act L A → Type 0
  Keeps m = Preserves control m

  Keeps-if :
      {A : Type 0} (b : Bool) (m n : Act L A) → Keeps m → Keeps n → Keeps (if b then m else n)
  Keeps-if true m n h k = h
  Keeps-if false m n h k = k

  send_pending-Keeps : (bytes : Bytes) → Keeps (send_pending L bytes)
  unfolding Preserves
  send_pending-Keeps [] = λ s. refl
  send_pending-Keeps (byte ∷ bytes) =
      >>=-Preserves control (call L (L.send (byte ∷ bytes)))
        (λ done. modify (count_sent L (length (byte ∷ bytes)))) (λ s. refl) (λ done s. refl)

  pub write_ssl-Keeps : Preserves control (write_ssl L)
  unfolding Preserves write_ssl
  write_ssl-Keeps =
      >>=-Preserves control (call L (λ w. (ok ((L.pending w).0), (L.pending w).1))) (send_pending L)
        (λ s. refl) send_pending-Keeps

  give_to_all-Keeps :
      (recipients : List ℕ) (packet : RtcpPacket) → Keeps (give_to_all L recipients packet)
  unfolding Preserves
  give_to_all-Keeps [] packet = λ s. refl
  give_to_all-Keeps (recipient ∷ recipients) packet =
      >>=-Preserves control (deliver L (to_rtcp recipient packet))
        (λ done. give_to_all L recipients packet) (λ s. refl)
        (λ done. give_to_all-Keeps recipients packet)

  give_rtcp-Keeps : (packet : Option RtcpPacket) → Keeps (give_rtcp L packet)
  unfolding Preserves
  give_rtcp-Keeps none s = refl
  give_rtcp-Keeps (some packet) s =
      >>=-Preserves control (lift (route_rtcp packet s.router))
        (λ recipients. give_to_all L recipients packet) (λ s. refl)
        (λ recipients. give_to_all-Keeps recipients packet) s

  give_all_rtcp-Keeps : (packets : List (Option RtcpPacket)) → Keeps (give_all_rtcp L packets)
  unfolding Preserves
  give_all_rtcp-Keeps [] = λ s. refl
  give_all_rtcp-Keeps (packet ∷ packets) =
      >>=-Preserves control (give_rtcp L packet) (λ done. give_all_rtcp L packets)
        (give_rtcp-Keeps packet) (λ done. give_all_rtcp-Keeps packets)

  unless_refused-Keeps :
      {A : Type 0} (r : Result A) (next : A → Act L (Unit {0}))
      → ((a : A) → Keeps (next a))
      → Keeps (unless_refused L r next)
  unfolding Preserves
  unless_refused-Keeps (ok value) next h = h value
  unless_refused-Keeps (raise e) next h =
      Keeps-if (is_value_error e) (return tt) (fail e) (λ s. refl) (λ s. refl)
  unless_refused-Keeps stuck next h = λ s. refl

  handle_rtcp_data-Keeps : (bytes : Bytes) → Keeps (handle_rtcp_data L bytes)
  unfolding handle_rtcp_data
  handle_rtcp_data-Keeps bytes =
      unless_refused-Keeps (Compound.parse bytes) (give_all_rtcp L) give_all_rtcp-Keeps

  give_rtp-Keeps :
      (packet : RtpPacket) (time : ℕ) (receiver : Option ℕ)
      → Keeps (give_rtp L packet time receiver)
  unfolding Preserves
  give_rtp-Keeps packet time none s = refl
  give_rtp-Keeps packet time (some receiver) s = refl

  handle_rtp_data-Keeps : (bytes : Bytes) (time : ℕ) → Keeps (handle_rtp_data L bytes time)
  unfolding Preserves handle_rtp_data
  handle_rtp_data-Keeps bytes time s =
      unless_refused-Keeps (Packet.parse s.ids bytes)
        (λ packet. route_packet L packet >>= give_rtp L packet time)
        (λ packet.
          >>=-Preserves control (route_packet L packet) (give_rtp L packet time) (λ s. refl)
            (give_rtp-Keeps packet time))
        s

  give_data-Keeps : (receiver : Option ℕ) (plain : Bytes) → Keeps (give_data L receiver plain)
  unfolding Preserves
  give_data-Keeps none plain s = refl
  give_data-Keeps (some receiver) plain s = refl

  handle_dtls-Keeps : (bytes : Bytes) → Keeps (handle_dtls L bytes)
  unfolding Preserves handle_dtls
  handle_dtls-Keeps bytes s =
      let (count, plain, world) = L.ssl_read bytes s.world in
      let given : Act L (Unit {0}) =
        if ltb_ℤ (pos 0) count then give_data L s.data_receiver plain else return tt in
      >>=-Preserves control (write_ssl L)
        (λ done. if is_zero count then fail connection_error else given) write_ssl-Keeps
        (λ done.
          Keeps-if (is_zero count) (fail connection_error) given (λ s. refl)
            (Keeps-if (ltb_ℤ (pos 0) count) (give_data L s.data_receiver plain) (return tt)
              (give_data-Keeps s.data_receiver plain) (λ s. refl)))
        (record s { world = world })

  handle_srtp-Keeps : (key bytes : Bytes) → Keeps (handle_srtp L key bytes)
  unfolding Preserves handle_srtp
  handle_srtp-Keeps key bytes s =
      >>=-Preserves control (call L (L.unprotect (is_rtcp bytes) key bytes))
        (if is_rtcp bytes
          then handle_rtcp_data L
          else (λ plain. handle_rtp_data L plain (L.current_ms s.world)))
        (λ s. refl) (λ plain. either-Keeps (is_rtcp bytes) plain (L.current_ms s.world)) s
    where
      either-Keeps :
          (b : Bool) (plain : Bytes) (time : ℕ)
          → Keeps ((if b then handle_rtcp_data L else (λ p. handle_rtp_data L p time)) plain)
      either-Keeps true plain time = handle_rtcp_data-Keeps plain
      either-Keeps false plain time = handle_rtp_data-Keeps plain time

  handle_if_keyed-Keeps : (key : Option Bytes) (bytes : Bytes) → Keeps (handle_if_keyed L key bytes)
  unfolding Preserves
  handle_if_keyed-Keeps none bytes = λ s. refl
  handle_if_keyed-Keeps (some key) bytes = handle_srtp-Keeps key bytes

  dispatch-Keeps : (bytes : Bytes) → Keeps (dispatch L bytes)
  unfolding Preserves dispatch
  dispatch-Keeps [] s = refl
  dispatch-Keeps (first ∷ rest) s =
      Keeps-if (ltb 19 first && ltb first 64) (handle_dtls L (first ∷ rest))
        (if ltb 127 first && ltb first 192
          then handle_if_keyed L s.rx_srtp (first ∷ rest)
          else return tt)
        (handle_dtls-Keeps (first ∷ rest))
        (Keeps-if (ltb 127 first && ltb first 192) (handle_if_keyed L s.rx_srtp (first ∷ rest))
          (return tt) (handle_if_keyed-Keeps s.rx_srtp (first ∷ rest)) (λ s. refl))
        s

  handle_datagram-Keeps : (o : Option Bytes) → Keeps (handle_datagram L o)
  unfolding Preserves
  handle_datagram-Keeps none =
      >>=-Preserves control (modify (λ self. record self { world = L.handle_timeout self.world }))
        (λ done. write_ssl L) (λ s. refl) (λ done. write_ssl-Keeps)
  handle_datagram-Keeps (some bytes) =
      >>=-Preserves control (modify (count_received L (length bytes))) (λ done. dispatch L bytes)
        (λ s. refl) (λ done. dispatch-Keeps bytes)

  -- Whatever arrives, and whatever is raised, the state, its events, the role, the task and the
  -- keys stay as they are.
  pub recv_next-Keeps : Preserves control (recv_next L)
  unfolding Preserves recv_next
  recv_next-Keeps s =
      >>=-Preserves control (call L (L.recv (if s.encrypted then false else L.has_timeout s.world)))
        (handle_datagram L) (λ s. refl) handle_datagram-Keeps s
