-- ===== src/Ice/Examples.antt =====
-- The states of RTCIceTransport at concrete inputs.
use pure_webrtc_transport.Base.{true, ◌≡◌, ◌≢◌, refl}
use pure_webrtc_transport.Peer.States.{ice_checking, ice_closed, ice_completed}
use pure_webrtc_transport.Ice.{
  IceTransport, Step, Steps, connecting, ended, new_ice_transport, begin_start, end_start, stop_ice,
  starts, stops, stay, next,
}
use pure_webrtc_transport.Ice.Phases.{fits, fits-Steps, closed-Steps}

abbrev started : IceTransport
started = record { state = ice_checking; progress = connecting; monitoring = true; emitted = 1 }

starts_new : Step new_ice_transport started
unfolding new_ice_transport begin_start
starts_new = starts new_ice_transport started refl

stops_started : Steps new_ice_transport (stop_ice started)
stops_started =
    next new_ice_transport started (stop_ice started)
      (next new_ice_transport new_ice_transport started (stay new_ice_transport) starts_new)
      (stops started)

-- `connect` that returns after `stop` opens the transport again.
reopens : (end_start true (stop_ice started)).state ≡ ice_completed
unfolding end_start stop_ice
reopens = refl

fits-Steps_example : fits (stop_ice started).progress (stop_ice started).state ≡ true
fits-Steps_example = fits-Steps (stop_ice started) stops_started

abbrev closed : IceTransport
closed = record { state = ice_closed; progress = ended; monitoring = true; emitted = 3 }

is_ended : closed.progress ≢ connecting
is_ended = λ e. cc

stops_closed : Steps closed (stop_ice closed)
stops_closed = next closed closed (stop_ice closed) (stay closed) (stops closed)

closed-Steps_example :
    ((stop_ice closed).state ≡ ice_closed) × ((stop_ice closed).progress ≢ connecting)
closed-Steps_example = closed-Steps closed (stop_ice closed) stops_closed refl is_ended
