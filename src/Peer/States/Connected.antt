-- ===== src/Peer/States/Connected.antt =====
-- When a connection is connected.
use pure_webrtc_transport.Base.{
  Bool, true, false, not, ◌&&◌, ◌||◌, ◌↔◌, ◌≡◌, refl, ap, ◌∙◌, List, [], ◌∷◌, if◌then◌else◌,
}
use pure_webrtc_transport.Dtls.Transport.{State, same_state}
use pure_webrtc_transport.Peer.States.{
  IceState, ConnectionState, Connection, ice_failed, ice_checking, ice_completed, ice_new,
  ice_closed, is_connected, is_new, is_connecting, is_failed, is_closed, same_ice, any_of, all_of,
  is_idle_ice, is_idle, connection_of, update_connection_state,
}
use pure_webrtc_transport.Peer.States.Summary.{set_connection_state-own}

and_false : (a : Bool) → false ≡ (a && false)
and_false true = refl
and_false false = refl

-- Neither failed nor checking.
abbrev pub is_settled : IceState → Bool
is_settled s = is_idle_ice s || same_ice s ice_completed

-- Connected, or closed.
abbrev pub is_up : State → Bool
is_up s = same_state s State.connected || same_state s State.closed

settled :
    (ice : List IceState)
    → all_of is_settled ice
      ≡ not (any_of (same_ice ice_failed) ice) && not (any_of (same_ice ice_checking) ice)
settled [] = refl
settled (ice_new ∷ ice) = settled ice
settled (ice_completed ∷ ice) = settled ice
settled (ice_closed ∷ ice) = settled ice
settled (ice_failed ∷ ice) = refl
settled (ice_checking ∷ ice) = and_false (not (any_of (same_ice ice_failed) ice))

up :
    (dtls : List State)
    → all_of is_up dtls
      ≡ not (any_of (same_state State.failed) dtls)
        && (not (any_of (same_state State.connecting) dtls)
            && not (any_of (same_state State.new) dtls))
up [] = refl
up (State.connected ∷ dtls) = up dtls
up (State.closed ∷ dtls) = up dtls
up (State.failed ∷ dtls) = refl
up (State.connecting ∷ dtls) = and_false (not (any_of (same_state State.failed) dtls))
up (State.new ∷ dtls) =
    and_false _ ∙ ap (λ b. not (any_of (same_state State.failed) dtls) && b) (and_false _)

-- The choice of `connection_of`, of its tests.
abbrev choice : (closed ice_fails fails idle checks connects starts : Bool) → ConnectionState
choice closed ice_fails fails idle checks connects starts =
    if closed
    then is_closed
    else if ice_fails || fails
    then is_failed
    else if idle
    then is_new
    else if checks || connects
    then is_connecting
    else if starts
    then is_connecting
    else is_connected

choice-connected :
    (closed ice_fails fails idle checks connects starts : Bool)
    → (choice closed ice_fails fails idle checks connects starts ≡ is_connected) ↔ (
        (closed ≡ false)
        × ((not ice_fails && not checks) ≡ true)
        × ((not fails && (not connects && not starts)) ≡ true)
        × (idle ≡ false))
choice-connected true f g i c k n = (λ h. cc, λ (x, y, z, w). cc)
choice-connected false true g i c k n = (λ h. cc, λ (x, y, z, w). cc)
choice-connected false false true i c k n = (λ h. cc, λ (x, y, z, w). cc)
choice-connected false false false true c k n = (λ h. cc, λ (x, y, z, w). cc)
choice-connected false false false false true k n = (λ h. cc, λ (x, y, z, w). cc)
choice-connected false false false false false true n = (λ h. cc, λ (x, y, z, w). cc)
choice-connected false false false false false false true = (λ h. cc, λ (x, y, z, w). cc)
choice-connected false false false false false false false =
    (λ h. (refl, refl, refl, refl), λ h. refl)

-- After an update, the connection is connected exactly when it is not closed, every ICE transport is
-- new, completed or closed, every DTLS transport is connected or closed, and not all of them are new or
-- closed.
pub update_connection_state_iff :
    (self : Connection)
    → ((update_connection_state self).connection_state ≡ is_connected) ↔ (
        (self.closed ≡ false)
        × (all_of is_settled self.ice_transports ≡ true)
        × (all_of is_up self.dtls_transports ≡ true)
        × ((all_of is_idle_ice self.ice_transports && all_of is_idle self.dtls_transports) ≡ false))
update_connection_state_iff self =
    let state = connection_of self.closed self.ice_transports self.dtls_transports in
    rw (set_connection_state-own state self, settled self.ice_transports, up self.dtls_transports)
      (choice-connected self.closed _ _ _ _ _ _)
