-- ===== src/Dtls/Transport.antt =====
-- transport/rtcdtlstransport.py: `RTCDtlsTransport`. OpenSSL, the ICE transport, the SRTP sessions, the
-- clock and the handlers of receivers and senders are a parameter, `Library`, with a world that
-- their calls change. A coroutine runs as one sequence of calls: what other tasks do while it waits is
-- in the answers of the library.
pub mod Receive
pub mod Handshake
pub mod Pump
mod Examples
use pure_webrtc_transport.Base.{
  ℕ, ◌+◌, Bool, true, false, Option, none, some, List, [], ◌∷◌, take, drop, ◌++◌, length, ◌*◌,
  if◌then◌else◌,
}
use pure_webrtc_transport.Base.Int.{ℤ}
use pure_webrtc_transport.Base.Result.{Result, ok, raise, assertion_error}
use pure_webrtc_transport.Struct.{Bytes}
use pure_webrtc_transport.Text.{Str}
use pure_webrtc_transport.Rtp.ExtensionsMap.{
  ExtensionIds, HeaderExtensionParameters, no_ids, configure,
}
use pure_webrtc_transport.Rtp.Packet.{RtpPacket}
use pure_webrtc_transport.Rtcp.Types.{RtcpPacket}
use pure_webrtc_transport.Dtls.Router.{
  RtpRouter, new_router, register_receiver, register_sender, unregister_receiver, unregister_sender,
}
use pure_webrtc_transport.Dtls.Action.{Action, ◌>>=◌, return, fail, lift, modify}

-- The class `State`.
pub data State : Type 0 where
  new connecting connected closed failed : State

abbrev pub same_state : State → State → Bool
same_state new new = true
same_state connecting connecting = true
same_state connected connected = true
same_state closed closed = true
same_state failed failed = true
same_state _ _ = false

pub data Role : Type 0 where
  auto server client : Role

-- What is handed to a receiver, a sender or the receiver of data.
pub data Delivery : Type 0 where
  to_data : ℕ → Bytes → Delivery
  to_rtp : ℕ → RtpPacket → ℕ → Delivery
  to_rtcp : ℕ → RtcpPacket → Delivery
  to_disconnect : ℕ → Delivery

-- The calls of other code. `pending` is BIO_ctrl_pending and BIO_read, [] where nothing is pending;
-- `recv` is told whether the DTLS timer runs, and answers None when it runs out; `ssl_read` is
-- BIO_write and SSL_read; `unprotect` and `protect` are told whether the packet is RTCP.
pub record Library : Type 1 where
  pub World : Type 0
  pub do_handshake : World → ℤ × World
  pub wants_read : ℤ → World → Bool
  pub pending : World → Bytes × World
  pub send : Bytes → World → Result (Unit {0}) × World
  pub has_timeout : World → Bool
  pub recv : Bool → World → Result (Option Bytes) × World
  pub handle_timeout : World → World
  pub ssl_read : Bytes → World → ℤ × Bytes × World
  pub ssl_write : Bytes → World → World
  pub shutdown : World → World
  pub peer_digest : World → Str
  pub export : World → Result Bytes
  pub current_ms : World → ℕ
  pub unprotect : Bool → Bytes → Bytes → World → Result Bytes × World
  pub protect : Bool → Bytes → Bytes → World → Result Bytes × World
  pub deliver : Delivery → World → Result (Unit {0}) × World

abbrev pub srtp_key_len : ℕ
srtp_key_len = 16

abbrev pub srtp_salt_len : ℕ
srtp_salt_len = 14

-- `src[start : start + size]`
abbrev pub slice : ℕ → ℕ → Bytes → Bytes
slice start size src = take size (drop start src)

unfoldable pub get_srtp_key_salt : Bytes → ℕ → Bytes
get_srtp_key_salt src idx =
    slice (idx * srtp_key_len) srtp_key_len src
    ++ slice (2 * srtp_key_len + idx * srtp_salt_len) srtp_salt_len src

module _ (L : Library) where
  -- `is_controlling` is `transport.role == "controlling"`; `changes` are the states of the events
  -- "statechange", the newest first; a session is its key, and `has_task` says that `_task` is set.
  pub record Transport : Type 0 where
    pub encrypted : Bool
    pub data_receiver : Option ℕ
    pub role : Role
    pub ids : ExtensionIds
    pub router : RtpRouter
    pub state : State
    pub changes : List State
    pub has_task : Bool
    pub is_controlling : Bool
    pub rx_bytes : ℕ
    pub rx_packets : ℕ
    pub tx_bytes : ℕ
    pub tx_packets : ℕ
    pub rx_srtp : Option Bytes
    pub tx_srtp : Option Bytes
    pub world : L.World

  abbrev pub new_transport : Bool → L.World → Transport
  new_transport is_controlling world = record {
    encrypted = false;
    data_receiver = none;
    role = auto;
    ids = no_ids;
    router = new_router;
    state = new;
    changes = [];
    has_task = false;
    is_controlling = is_controlling;
    rx_bytes = 0;
    rx_packets = 0;
    tx_bytes = 0;
    tx_packets = 0;
    rx_srtp = none;
    tx_srtp = none;
    world = world;
  }

  unfoldable pub set_state : State → Transport → Transport
  set_state state self =
      if same_state state self.state
      then self
      else record self { state = state; changes = state ∷ self.changes }

  unfoldable pub set_role : Role → Transport → Transport
  set_role role self = record self { role = role }

  -- A call that only the world takes part in.
  abbrev pub call : {A : Type 0} → (L.World → Result A × L.World) → Action Transport A
  call f self = ((f self.world).0, record self { world = (f self.world).1 })

  abbrev pub count_sent : ℕ → Transport → Transport
  count_sent size self = record self {
    tx_bytes = self.tx_bytes + size;
    tx_packets = self.tx_packets + 1;
  }

  abbrev pub send_pending : Bytes → Action Transport (Unit {0})
  send_pending [] = return tt
  send_pending (byte ∷ bytes) = do
    done ← call (L.send (byte ∷ bytes))
    modify (count_sent (length (byte ∷ bytes)))

  unfoldable pub write_ssl : Action Transport (Unit {0})
  write_ssl = call (λ w. (ok ((L.pending w).0), (L.pending w).1)) >>= send_pending

  unfoldable pub register_data_receiver : ℕ → Action Transport (Unit {0})
  register_data_receiver receiver self = elim self.data_receiver [
    | none ↦ (ok tt, record self { data_receiver = some receiver })
    | some other ↦ (raise assertion_error, self)
  ]
