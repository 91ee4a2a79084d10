-- ===== src/Ice.antt =====
-- transport/rtcicetransport.py: the states of RTCIceTransport. A method that awaits is a step for each
-- part between two awaits, and the connection of aioice decides which step comes next.
mod Examples
pub mod Phases
use pure_webrtc_transport.Base.{ℕ, Bool, true, false, List, [], ◌∷◌, ◌+◌, ◌≡◌, ◌==◌, if◌then◌else◌}
use pure_webrtc_transport.Base.Result.{Result, ok, raise, invalid_state_error}
use pure_webrtc_transport.Peer.States.{
  IceState, ice_new, ice_checking, ice_completed, ice_failed, ice_closed, same_ice,
}

-- `__start`: None, an event that is not set, or one that is.
pub data Progress : Type 0 where
  not_started connecting ended : Progress

-- `monitoring` where the task of `_monitor` waits for an event; `emitted` counts "statechange".
pub record IceTransport : Type 0 where
  pub state : IceState
  pub progress : Progress
  pub monitoring : Bool
  pub emitted : ℕ

unfoldable pub new_ice_transport : IceTransport
new_ice_transport = record {
  state = ice_new;
  progress = not_started;
  monitoring = false;
  emitted = 0;
}

abbrev pub set_ice_state : IceState → IceTransport → IceTransport
set_ice_state state self =
    if same_ice state self.state
    then self
    else record self { state = state; emitted = self.emitted + 1 }

-- `start` up to `connect`; a start that is in progress waits for it.
abbrev pub proceed : Progress → IceTransport → IceTransport
proceed not_started self =
    set_ice_state ice_checking (record self { progress = connecting; monitoring = true })
proceed _ self = self

unfoldable pub begin_start : IceTransport → Result IceTransport
begin_start self =
    if same_ice self.state ice_closed
    then raise invalid_state_error
    else ok (proceed self.progress self)

-- `start` from `connect` on, which returns or raises ConnectionError.
unfoldable pub end_start : Bool → IceTransport → IceTransport
end_start connected self =
    let outcome = if connected then ice_completed else ice_failed in
    record (set_ice_state outcome self) { progress = ended }

-- `stop`; its task of `_monitor` ends on an event of its own.
unfoldable pub stop_ice : IceTransport → IceTransport
stop_ice self = set_ice_state ice_closed self

-- `_monitor` at ConnectionClosed.
unfoldable pub on_connection_closed : IceTransport → IceTransport
on_connection_closed self =
    let after = if same_ice self.state ice_completed then set_ice_state ice_failed self else self in
    record after { monitoring = false }

pub data Step : IceTransport → IceTransport → Type 0 where
  starts : (s t : IceTransport) → begin_start s ≡ ok t → Step s t
  connects :
      (s : IceTransport) (connected : Bool)
      → s.progress ≡ connecting
      → Step s (end_start connected s)
  stops : (s : IceTransport) → Step s (stop_ice s)
  loses : (s : IceTransport) → s.monitoring ≡ true → Step s (on_connection_closed s)

-- What steps lead to, latest step last.
pub data Steps : IceTransport → IceTransport → Type 0 where
  stay : (s : IceTransport) → Steps s s
  next : (s t u : IceTransport) → Steps s t → Step t u → Steps s u
