-- ===== src/Peer/States/Numbers.antt =====
-- A state is known by its number.
use pure_webrtc_transport.Base.{true, ℕ, zero, suc, ◌==◌, ==_iff, ◌≡◌, refl, sym, ap, ◌∙◌}
use pure_webrtc_transport.Peer.States.{
  ConnectionState, IceConnectionState, GatheringState, is_connected, is_new, is_connecting,
  is_failed, is_closed, connection_number, ice_number, gathering_number, now_new, now_checking,
  now_completed, now_failed, now_closed, gathers_new, gathers_gathering, gathers_complete,
}

abbrev connection_at : ℕ → ConnectionState
connection_at zero = is_new
connection_at (suc zero) = is_connecting
connection_at (suc (suc zero)) = is_connected
connection_at (suc (suc (suc zero))) = is_failed
connection_at _ = is_closed

connection_at-connection_number : (s : ConnectionState) → connection_at (connection_number s) ≡ s
connection_at-connection_number is_new = refl
connection_at-connection_number is_connecting = refl
connection_at-connection_number is_connected = refl
connection_at-connection_number is_failed = refl
connection_at-connection_number is_closed = refl

pub connection_number-eq :
    (a b : ConnectionState) → (connection_number a == connection_number b) ≡ true → a ≡ b
connection_number-eq a b h =
    sym (connection_at-connection_number a)
    ∙ ap connection_at ((==_iff (connection_number a) (connection_number b)).0 h)
    ∙ connection_at-connection_number b

abbrev ice_at : ℕ → IceConnectionState
ice_at zero = now_new
ice_at (suc zero) = now_checking
ice_at (suc (suc zero)) = now_completed
ice_at (suc (suc (suc zero))) = now_failed
ice_at _ = now_closed

ice_at-ice_number : (s : IceConnectionState) → ice_at (ice_number s) ≡ s
ice_at-ice_number now_new = refl
ice_at-ice_number now_checking = refl
ice_at-ice_number now_completed = refl
ice_at-ice_number now_failed = refl
ice_at-ice_number now_closed = refl

pub ice_number-eq : (a b : IceConnectionState) → (ice_number a == ice_number b) ≡ true → a ≡ b
ice_number-eq a b h =
    sym (ice_at-ice_number a)
    ∙ ap ice_at ((==_iff (ice_number a) (ice_number b)).0 h)
    ∙ ice_at-ice_number b

abbrev gathering_at : ℕ → GatheringState
gathering_at zero = gathers_new
gathering_at (suc zero) = gathers_gathering
gathering_at _ = gathers_complete

gathering_at-gathering_number : (s : GatheringState) → gathering_at (gathering_number s) ≡ s
gathering_at-gathering_number gathers_new = refl
gathering_at-gathering_number gathers_gathering = refl
gathering_at-gathering_number gathers_complete = refl

pub gathering_number-eq :
    (a b : GatheringState) → (gathering_number a == gathering_number b) ≡ true → a ≡ b
gathering_number-eq a b h =
    sym (gathering_at-gathering_number a)
    ∙ ap gathering_at ((==_iff (gathering_number a) (gathering_number b)).0 h)
    ∙ gathering_at-gathering_number b
