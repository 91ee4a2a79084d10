-- ===== src/Peer/States.antt =====
-- transport/rtcpeerconnection.py: the states of `RTCPeerConnection` that sum up those of its transports.
-- A set of states is the list that it is made from. The events go to listeners of other code: they are
-- kept in the order in which they are emitted.
pub mod Connected
pub mod Connecting
pub mod Meaning
pub mod Numbers
pub mod Summary
pub mod Tests
use pure_webrtc_transport.Base.{
  ℕ, ◌==◌, Bool, true, false, not, ◌&&◌, ◌||◌, List, [], ◌∷◌, ◌++◌, if◌then◌else◌,
}
use pure_webrtc_transport.Dtls.Transport.{State, same_state}

-- The states of RTCIceTransport.
pub data IceState : Type 0 where
  ice_new ice_checking ice_completed ice_failed ice_closed : IceState

-- The states of RTCIceGatherer.
pub data GathererState : Type 0 where
  gatherer_new gatherer_gathering gatherer_completed : GathererState

-- The states of the connection, of ICE (`completed`, `checking`) and of gathering.
pub data ConnectionState : Type 0 where
  is_new is_connecting is_connected is_failed is_closed : ConnectionState

pub data IceConnectionState : Type 0 where
  now_new now_checking now_completed now_failed now_closed : IceConnectionState

pub data GatheringState : Type 0 where
  gathers_new gathers_gathering gathers_complete : GatheringState

abbrev pub same_ice : IceState → IceState → Bool
same_ice ice_new ice_new = true
same_ice ice_checking ice_checking = true
same_ice ice_completed ice_completed = true
same_ice ice_failed ice_failed = true
same_ice ice_closed ice_closed = true
same_ice _ _ = false

abbrev pub same_gatherer : GathererState → GathererState → Bool
same_gatherer gatherer_new gatherer_new = true
same_gatherer gatherer_gathering gatherer_gathering = true
same_gatherer gatherer_completed gatherer_completed = true
same_gatherer _ _ = false

-- A number for each state, by which states are compared.
abbrev pub connection_number : ConnectionState → ℕ
connection_number is_new = 0
connection_number is_connecting = 1
connection_number is_connected = 2
connection_number is_failed = 3
connection_number is_closed = 4

abbrev pub ice_number : IceConnectionState → ℕ
ice_number now_new = 0
ice_number now_checking = 1
ice_number now_completed = 2
ice_number now_failed = 3
ice_number now_closed = 4

abbrev pub gathering_number : GatheringState → ℕ
gathering_number gathers_new = 0
gathering_number gathers_gathering = 1
gathering_number gathers_complete = 2

module _ {ℓ} {A : Type ℓ} where
  abbrev pub any_of : (A → Bool) → List A → Bool
  any_of p [] = false
  any_of p (x ∷ xs) = p x || any_of p xs

  abbrev pub all_of : (A → Bool) → List A → Bool
  all_of p [] = true
  all_of p (x ∷ xs) = p x && all_of p xs

  abbrev pub some_all_of : (A → Bool) → List A → Bool
  some_all_of p [] = false
  some_all_of p (x ∷ xs) = all_of p (x ∷ xs)

-- In `["new", "closed"]`.
abbrev pub is_idle_ice : IceState → Bool
is_idle_ice s = same_ice s ice_new || same_ice s ice_closed

abbrev pub is_idle : State → Bool
is_idle s = same_state s State.new || same_state s State.closed

-- `# compute new state`, of `__updateConnectionState`.
abbrev pub connection_of : Bool → List IceState → List State → ConnectionState
connection_of closed ice dtls =
    if closed
    then is_closed
    else if any_of (same_ice ice_failed) ice || any_of (same_state State.failed) dtls
    then is_failed
    else if all_of is_idle_ice ice && all_of is_idle dtls
    then is_new
    else if any_of (same_ice ice_checking) ice || any_of (same_state State.connecting) dtls
    then is_connecting
    else if any_of (same_state State.new) dtls
    then is_connecting
    else is_connected

abbrev pub ice_connection_of : Bool → List IceState → IceConnectionState
ice_connection_of closed ice =
    if closed
    then now_closed
    else if any_of (same_ice ice_failed) ice
    then now_failed
    else if some_all_of (same_ice ice_completed) ice
    then now_completed
    else if any_of (same_ice ice_checking) ice
    then now_checking
    else now_new

abbrev pub gathering_of : List GathererState → GatheringState
gathering_of gatherers =
    if some_all_of (same_gatherer gatherer_completed) gatherers
    then gathers_complete
    else if any_of (same_gatherer gatherer_gathering) gatherers
    then gathers_gathering
    else gathers_new

pub data Event : Type 0 where
  connectionstatechange iceconnectionstatechange icegatheringstatechange : Event

-- What the connection keeps of the states, and the transports as they are.
pub record Connection : Type 0 where
  pub closed : Bool
  pub dtls_transports : List State
  pub ice_transports : List IceState
  pub ice_gatherers : List GathererState
  pub connection_state : ConnectionState
  pub ice_connection_state : IceConnectionState
  pub ice_gathering_state : GatheringState
  pub emitted : List Event

-- `# update state`
unfoldable pub set_connection_state : ConnectionState → Connection → Connection
set_connection_state state self =
    if connection_number state == connection_number self.connection_state
    then self
    else record self {
      connection_state = state;
      emitted = self.emitted ++ (connectionstatechange ∷ []);
    }

abbrev pub update_connection_state : Connection → Connection
update_connection_state self =
    set_connection_state (connection_of self.closed self.ice_transports self.dtls_transports) self

-- `# update state`
unfoldable pub set_ice_connection_state : IceConnectionState → Connection → Connection
set_ice_connection_state state self =
    if ice_number state == ice_number self.ice_connection_state then self else record self {
      ice_connection_state = state;
      emitted = self.emitted ++ (iceconnectionstatechange ∷ []);
    }

abbrev pub update_ice_connection_state : Connection → Connection
update_ice_connection_state self =
    set_ice_connection_state (ice_connection_of self.closed self.ice_transports) self

-- `# update state`
unfoldable pub set_ice_gathering_state : GatheringState → Connection → Connection
set_ice_gathering_state state self =
    if gathering_number state == gathering_number self.ice_gathering_state
    then self
    else record self {
      ice_gathering_state = state;
      emitted = self.emitted ++ (icegatheringstatechange ∷ []);
    }

abbrev pub update_ice_gathering_state : Connection → Connection
update_ice_gathering_state self = set_ice_gathering_state (gathering_of self.ice_gatherers) self

-- `# update states`, of `close`.
unfoldable pub update_states : Connection → Connection
update_states self =
    update_connection_state (update_ice_connection_state (update_ice_gathering_state self))
