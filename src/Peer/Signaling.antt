-- ===== src/Peer/Signaling.antt =====
-- transport/rtcpeerconnection.py: the signaling of `RTCPeerConnection`, which descriptions it takes
-- in which state, and its summary of the states of the transports. What the two setters do
-- with transceivers and transports between is a parameter, `configured`: whether it raises.
pub mod Agreed
use pure_webrtc_transport.Base.{
  ℕ, Bool, true, false, not, ◌&&◌, ◌||◌, Option, none, some, List, [], ◌∷◌, if◌then◌else◌,
}
use pure_webrtc_transport.Base.Dict.{Key, string_key}
use pure_webrtc_transport.Base.Result.{
  Result, ok, raise, stuck, ◌>>=◌, ◌>>◌, guard, value_error, invalid_state_error, attribute_error,
}
use pure_webrtc_transport.Text.{Str}
use pure_webrtc_transport.Dtls.Transport.{Role, auto, server, client}

pub data DescriptionType : Type 0 where
  offer answer pranswer rollback : DescriptionType

pub data SignalingState : Type 0 where
  stable have_local_offer have_remote_offer have_local_pranswer have_remote_pranswer closed :
      SignalingState

pub data Kind : Type 0 where
  audio video : Kind
  other : Str → Kind

pub record Media : Type 0 where
  pub kind : Kind
  pub mux_id : Str
  pub username_fragment : Option Str
  pub password : Option Str
  pub dtls_role : Role
  pub rtcp_mux : Bool

pub record Description : Type 0 where
  pub kind : DescriptionType
  pub media : List Media

pub record PeerConnection : Type 0 where
  pub signaling_state : SignalingState
  pub current_local : Option Description
  pub pending_local : Option Description
  pub current_remote : Option Description
  pub pending_remote : Option Description

abbrev pub new_peer_connection : PeerConnection
new_peer_connection = record {
  signaling_state = stable;
  current_local = none;
  pending_local = none;
  current_remote = none;
  pending_remote = none;
}

-- `pending or current`
abbrev pub either : Option Description → Option Description → Option Description
either none current = current
either (some pending) current = some pending

abbrev pub local_description : PeerConnection → Option Description
local_description self = either self.pending_local self.current_local

abbrev pub remote_description : PeerConnection → Option Description
remote_description self = either self.pending_remote self.current_remote

-- The states in which a description is taken, the first argument telling whether it is a local one.
abbrev pub is_allowed : Bool → DescriptionType → SignalingState → Bool
is_allowed is_local offer stable = true
is_allowed true offer have_local_offer = true
is_allowed false offer have_remote_offer = true
is_allowed is_local offer _ = false
is_allowed true answer have_remote_offer = true
is_allowed true answer have_local_pranswer = true
is_allowed false answer have_local_offer = true
is_allowed false answer have_remote_pranswer = true
is_allowed is_local answer _ = false
is_allowed is_local pranswer state = true
is_allowed is_local rollback state = true

-- `not x` of a string that may be None.
abbrev pub is_missing : Option Str → Bool
is_missing none = true
is_missing (some []) = true
is_missing (some (c ∷ cs)) = false

abbrev pub is_role_allowed : DescriptionType → Role → Bool
is_role_allowed offer auto = true
is_role_allowed offer role = false
is_role_allowed answer auto = false
is_role_allowed pranswer auto = false
is_role_allowed _ role = true

abbrev pub needs_mux : Kind → Bool
needs_mux (other name) = false
needs_mux kind = true

unfoldable pub validate_media : DescriptionType → List Media → Result (Unit {0})
validate_media kind [] = ok tt
validate_media kind (m ∷ media) =
    guard (not (is_missing m.username_fragment || is_missing m.password)) value_error
    >> (guard (is_role_allowed kind m.dtls_role) value_error
        >> (guard (not (needs_mux m.kind && not m.rtcp_mux)) value_error
            >> validate_media kind media))

abbrev pub same_kind : Kind → Kind → Bool
same_kind audio audio = true
same_kind video video = true
same_kind (other a) (other b) = string_key.test a b
same_kind _ _ = false

-- Of the media sections only the kinds and the ids are compared.
unfoldable pub same_sections : List Media → List Media → Bool
same_sections [] [] = true
same_sections (a ∷ xs) (b ∷ ys) =
    same_kind a.kind b.kind && string_key.test a.mux_id b.mux_id && same_sections xs ys
same_sections _ _ = false

-- `offer.media` of None raises.
abbrev pub check_sections : List Media → Option Description → Result (Unit {0})
check_sections media none = raise attribute_error
check_sections media (some offered) = guard (same_sections media offered.media) value_error

abbrev pub is_answer : DescriptionType → Bool
is_answer answer = true
is_answer pranswer = true
is_answer _ = false

unfoldable pub validate_description : Description → Bool → PeerConnection → Result (Unit {0})
validate_description description is_local self =
    let offered = if is_local then remote_description self else local_description self in
    let sections =
      if is_answer description.kind then check_sections description.media offered else ok tt in
    guard (is_allowed is_local description.kind self.signaling_state) invalid_state_error
    >> (validate_media description.kind description.media >> sections)

-- `# update signaling state`
abbrev pub next_state : Bool → DescriptionType → SignalingState → SignalingState
next_state true offer state = have_local_offer
next_state false offer state = have_remote_offer
next_state is_local answer state = stable
next_state is_local _ state = state

-- `# replace description`
abbrev pub replace_local : Description → DescriptionType → PeerConnection → PeerConnection
replace_local description answer self = record self {
  current_local = some description;
  pending_local = none;
}
replace_local description _ self = record self { pending_local = some description }

abbrev pub replace_remote : Description → DescriptionType → PeerConnection → PeerConnection
replace_remote description answer self = record self {
  current_remote = some description;
  pending_remote = none;
}
replace_remote description _ self = record self { pending_remote = some description }

-- The rest of a method after a call that raises, or not.
abbrev pub unless_raised :
    Result (Unit {0}) → PeerConnection → PeerConnection → Result (Unit {0}) × PeerConnection
unless_raised (ok done) before after = (ok tt, after)
unless_raised (raise e) before after = (raise e, before)
unless_raised stuck before after = (stuck, before)

-- The signaling state changes before the transceivers are configured, the description after.
abbrev pub apply_local :
    Result (Unit {0}) → Description → PeerConnection → Result (Unit {0}) × PeerConnection
apply_local configured description self =
    let moved : PeerConnection = record self {
      signaling_state = next_state true description.kind self.signaling_state;
    } in
    unless_raised configured moved (replace_local description description.kind moved)

abbrev pub apply_remote :
    Result (Unit {0}) → Description → PeerConnection → Result (Unit {0}) × PeerConnection
apply_remote configured description self =
    let moved : PeerConnection = record self {
      signaling_state = next_state false description.kind self.signaling_state;
    } in
    unless_raised configured self (replace_remote description description.kind moved)

-- A description that is refused changes nothing.
abbrev pub once_valid :
    Result (Unit {0})
    → PeerConnection
    → Result (Unit {0}) × PeerConnection
    → Result (Unit {0}) × PeerConnection
once_valid (ok done) self applied = applied
once_valid (raise e) self applied = (raise e, self)
once_valid stuck self applied = (stuck, self)

unfoldable pub set_local_description :
    Result (Unit {0}) → Description → PeerConnection → Result (Unit {0}) × PeerConnection
set_local_description configured description self =
    once_valid (validate_description description true self) self
      (apply_local configured description self)

unfoldable pub set_remote_description :
    Result (Unit {0}) → Description → PeerConnection → Result (Unit {0}) × PeerConnection
set_remote_description configured description self =
    once_valid (validate_description description false self) self
      (apply_remote configured description self)

abbrev pub is_closed : SignalingState → Bool
is_closed closed = true
is_closed state = false

-- `close`, as far as signaling goes.
unfoldable pub close : PeerConnection → PeerConnection
close self = record self { signaling_state = closed }
