-- ===== src/Dtls/Transport/Pump.antt =====
-- `RTCDtlsTransport`: the data pump, sending and stopping.
pub mod Closed
use pure_webrtc_transport.Base.{
  ℕ, zero, suc, ◌+◌, Bool, true, false, not, Option, none, some, List, [], ◌∷◌, length, ◌==◌,
  if◌then◌else◌,
}
use pure_webrtc_transport.Base.Result.{
  Result, ok, raise, stuck, Exception, connection_error, is_connection_error, attribute_error,
}
use pure_webrtc_transport.Struct.{Bytes}
use pure_webrtc_transport.Text.{Str}
use pure_webrtc_transport.Rtp.ExtensionsMap.{HeaderExtensionParameters, configure}
use pure_webrtc_transport.Rtcp.Compound.{is_rtcp}
use pure_webrtc_transport.Dtls.Router.{
  register_receiver, register_sender, unregister_receiver, unregister_sender,
}
use pure_webrtc_transport.Dtls.Action.{Action, ◌>>=◌, return, fail, lift, modify}
use pure_webrtc_transport.Dtls.Transport.{
  Library, Transport, State, new, connecting, connected, closed, failed, same_state, to_disconnect,
  call, write_ssl, set_state, count_sent,
}
use pure_webrtc_transport.Dtls.Transport.Receive.{Act, deliver, recv_next}

module _ (L : Library) where
  -- `while True: await self._recv_next()`, on fuel; only an exception ends it.
  abbrev pub pump : ℕ → Act L (Unit {0})
  pump zero = lift stuck
  pump (suc fuel) = recv_next L >>= λ done. pump fuel

  abbrev pub disconnect_all : List ℕ → Act L (Unit {0})
  disconnect_all [] = return tt
  disconnect_all (receiver ∷ receivers) = do
    done ← deliver L (to_disconnect receiver)
    disconnect_all receivers

  -- `except ConnectionError`
  abbrev pub on_disconnect : Result (Unit {0}) × Transport L → Result (Unit {0}) × Transport L
  on_disconnect (raise e, self) =
      if is_connection_error e then disconnect_all self.router.receivers self else (raise e, self)
  on_disconnect (ok done, self) = (ok done, self)
  on_disconnect (stuck, self) = (stuck, self)

  -- `finally`; a loop that is out of fuel has not ended.
  abbrev pub close : Result (Unit {0}) × Transport L → Result (Unit {0}) × Transport L
  close (stuck, self) = (stuck, self)
  close (raise e, self) = (raise e, set_state L closed self)
  close (ok done, self) = (ok done, set_state L closed self)

  unfoldable pub run : ℕ → Act L (Unit {0})
  run fuel self = close (on_disconnect (pump fuel self))

  -- `except ConnectionError: pass`
  abbrev pub ignore_lost : Result (Unit {0}) × Transport L → Result (Unit {0}) × Transport L
  ignore_lost (raise e, self) = (if is_connection_error e then ok tt else raise e, self)
  ignore_lost (ok done, self) = (ok done, self)
  ignore_lost (stuck, self) = (stuck, self)

  abbrev pub is_open : State → Bool
  is_open connecting = true
  is_open connected = true
  is_open _ = false

  unfoldable pub stop : Act L (Unit {0})
  stop self =
      let cancelled = record self { has_task = false } in
      if is_open self.state
      then ignore_lost (write_ssl L (record cancelled { world = L.shutdown self.world }))
      else (ok tt, cancelled)

  abbrev pub is_connected : State → Bool
  is_connected state = same_state state connected

  unfoldable pub send_data : Bytes → Act L (Unit {0})
  send_data bytes self =
      if is_connected self.state
      then write_ssl L (record self { world = L.ssl_write bytes self.world })
      else (raise connection_error, self)

  -- A connected transport has its session; None has no method `protect`.
  abbrev pub protect_with : Option Bytes → Bytes → Act L Bytes
  protect_with none bytes = fail attribute_error
  protect_with (some key) bytes = call L (L.protect (is_rtcp bytes) key bytes)

  unfoldable pub send_rtp : Bytes → Act L (Unit {0})
  send_rtp bytes self =
      let sending : Act L (Unit {0}) = protect_with self.tx_srtp bytes >>= λ packet.
      (call L (L.send packet) >>= λ done. modify (count_sent L (length packet))) in
      if is_connected self.state then sending self else (raise connection_error, self)

  -- What `RTCRtpReceiveParameters` and the receiver's encodings come to.
  unfoldable pub register_rtp_receiver :
      ℕ → List HeaderExtensionParameters → List ℕ → List ℕ → Option Str → Transport L → Transport L
  register_rtp_receiver receiver extensions ssrcs payload_types mux_id self = record self {
    ids = configure self.ids extensions;
    router = register_receiver receiver ssrcs payload_types mux_id self.router;
  }

  unfoldable pub register_rtp_sender :
      ℕ → ℕ → ℕ → List HeaderExtensionParameters → Transport L → Transport L
  register_rtp_sender sender ssrc rtx_ssrc extensions self = record self {
    ids = configure self.ids extensions;
    router = register_sender sender rtx_ssrc (register_sender sender ssrc self.router);
  }

  abbrev pub forget_receiver : Option ℕ → ℕ → Option ℕ
  forget_receiver none receiver = none
  forget_receiver (some r) receiver = if r == receiver then none else some r

  unfoldable pub unregister_data_receiver : ℕ → Transport L → Transport L
  unregister_data_receiver receiver self = record self {
    data_receiver = forget_receiver self.data_receiver receiver;
  }

  unfoldable pub unregister_rtp_receiver : ℕ → Transport L → Transport L
  unregister_rtp_receiver receiver self = record self {
    router = unregister_receiver receiver self.router;
  }

  unfoldable pub unregister_rtp_sender : ℕ → Transport L → Transport L
  unregister_rtp_sender sender self = record self { router = unregister_sender sender self.router }
