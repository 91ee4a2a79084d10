-- ===== src/Peer/States/Summary.antt =====
-- The states of the connection against those of its transports.
use pure_webrtc_transport.Base.{
  ◌≢◌, append-nil, subst, false, Bool, List, [], ◌∷◌, ◌++◌, if◌then◌else◌, true, Bool-cases, inl,
  inr, ℕ, ◌==◌, ==_iff, ◌≡◌, refl, sym, ap, ◌∙◌,
}
use pure_webrtc_transport.Peer.States.{
  ConnectionState, IceConnectionState, GatheringState, Connection, connection_number, ice_number,
  gathering_number, set_connection_state, set_ice_connection_state, set_ice_gathering_state,
  connection_of, ice_connection_of, gathering_of, update_connection_state,
  update_ice_connection_state, update_states,
}
use pure_webrtc_transport.Peer.States.{
  Event, connectionstatechange, iceconnectionstatechange, icegatheringstatechange,
}
use pure_webrtc_transport.Peer.States.Connecting.{connection_of-ConnectionMeans}
use pure_webrtc_transport.Peer.States.Meaning.{
  ConnectionMeans, IceMeans, GatheringMeans, ice_connection_of-IceMeans,
  gathering_of-GatheringMeans,
}
use pure_webrtc_transport.Peer.States.Numbers.{
  connection_number-eq, ice_number-eq, gathering_number-eq,
}

-- The states are those that the transports give.
abbrev pub ConnectionSummed : Connection → Type 0
ConnectionSummed s = s.connection_state ≡ connection_of s.closed s.ice_transports s.dtls_transports

abbrev pub IceSummed : Connection → Type 0
IceSummed s = s.ice_connection_state ≡ ice_connection_of s.closed s.ice_transports

abbrev pub GatheringSummed : Connection → Type 0
GatheringSummed s = s.ice_gathering_state ≡ gathering_of s.ice_gatherers

number_same : (n : ℕ) → (n == n) ≡ true
number_same n = (==_iff n n).1 refl

pub set_connection_state-own :
    (state : ConnectionState) (s : Connection)
    → (set_connection_state state s).connection_state ≡ state
unfolding set_connection_state
set_connection_state-own state s =
    elim (Bool-cases (connection_number state == connection_number s.connection_state)) [
      | inl e ↦ rw e (sym (connection_number-eq state s.connection_state e))
      | inr e ↦ rw e refl
    ]

set_connection_state-same :
    (state : ConnectionState) (s : Connection)
    → s.connection_state ≡ state
    → set_connection_state state s ≡ s
unfolding set_connection_state
set_connection_state-same state s h = rw (h, number_same (connection_number state)) refl

set_ice_connection_state-same :
    (state : IceConnectionState) (s : Connection)
    → s.ice_connection_state ≡ state
    → set_ice_connection_state state s ≡ s
unfolding set_ice_connection_state
set_ice_connection_state-same state s h = rw (h, number_same (ice_number state)) refl

set_ice_gathering_state-same :
    (state : GatheringState) (s : Connection)
    → s.ice_gathering_state ≡ state
    → set_ice_gathering_state state s ≡ s
unfolding set_ice_gathering_state
set_ice_gathering_state-same state s h = rw (h, number_same (gathering_number state)) refl

-- The events of a state: one where it changes.
pub data Noted {S : Type 0} (event : Event) (before after : S) : List Event → Type 0 where
  quiet : before ≡ after → Noted event before after []
  told : before ≢ after → Noted event before after (event ∷ [])

abbrev news : Bool → Event → List Event
news same event = if same then [] else event ∷ []

connection_state_news : ConnectionState → ConnectionState → List Event
connection_state_news state before =
    news (connection_number state == connection_number before) connectionstatechange

connection_state-Noted :
    (state before : ConnectionState)
    → Noted connectionstatechange before state (connection_state_news state before)
unfolding connection_state_news
connection_state-Noted state before =
    elim (Bool-cases (connection_number state == connection_number before)) [
      | inl e ↦ rw e (quiet (sym (connection_number-eq state before e)))
      | inr e ↦ rw e (
          told (λ h.
            let never : true ≡ false = sym (number_same (connection_number state)) ∙ rw h at e in
            cc))
    ]

set_connection_state-eq :
    (state : ConnectionState) (s : Connection)
    → set_connection_state state s ≡ record s {
      connection_state = state;
      emitted = s.emitted ++ connection_state_news state s.connection_state;
    }
unfolding set_connection_state connection_state_news
set_connection_state-eq state s =
    elim (Bool-cases (connection_number state == connection_number s.connection_state)) [
      | inl e ↦
          rw (e, append-nil s.emitted)
            (ap (λ x. record s { connection_state = x })
              (sym (connection_number-eq state s.connection_state e)))
      | inr e ↦ rw e refl
    ]

ice_connection_state_news : IceConnectionState → IceConnectionState → List Event
ice_connection_state_news state before =
    news (ice_number state == ice_number before) iceconnectionstatechange

ice_connection_state-Noted :
    (state before : IceConnectionState)
    → Noted iceconnectionstatechange before state (ice_connection_state_news state before)
unfolding ice_connection_state_news
ice_connection_state-Noted state before =
    elim (Bool-cases (ice_number state == ice_number before)) [
      | inl e ↦ rw e (quiet (sym (ice_number-eq state before e)))
      | inr e ↦ rw e (
          told (λ h.
            let never : true ≡ false = sym (number_same (ice_number state)) ∙ rw h at e in cc))
    ]

set_ice_connection_state-eq :
    (state : IceConnectionState) (s : Connection)
    → set_ice_connection_state state s ≡ record s {
      ice_connection_state = state;
      emitted = s.emitted ++ ice_connection_state_news state s.ice_connection_state;
    }
unfolding set_ice_connection_state ice_connection_state_news
set_ice_connection_state-eq state s =
    elim (Bool-cases (ice_number state == ice_number s.ice_connection_state)) [
      | inl e ↦
          rw (e, append-nil s.emitted)
            (ap (λ x. record s { ice_connection_state = x })
              (sym (ice_number-eq state s.ice_connection_state e)))
      | inr e ↦ rw e refl
    ]

ice_gathering_state_news : GatheringState → GatheringState → List Event
ice_gathering_state_news state before =
    news (gathering_number state == gathering_number before) icegatheringstatechange

ice_gathering_state-Noted :
    (state before : GatheringState)
    → Noted icegatheringstatechange before state (ice_gathering_state_news state before)
unfolding ice_gathering_state_news
ice_gathering_state-Noted state before =
    elim (Bool-cases (gathering_number state == gathering_number before)) [
      | inl e ↦ rw e (quiet (sym (gathering_number-eq state before e)))
      | inr e ↦ rw e (
          told (λ h.
            let never : true ≡ false = sym (number_same (gathering_number state)) ∙ rw h at e in
            cc))
    ]

set_ice_gathering_state-eq :
    (state : GatheringState) (s : Connection)
    → set_ice_gathering_state state s ≡ record s {
      ice_gathering_state = state;
      emitted = s.emitted ++ ice_gathering_state_news state s.ice_gathering_state;
    }
unfolding set_ice_gathering_state ice_gathering_state_news
set_ice_gathering_state-eq state s =
    elim (Bool-cases (gathering_number state == gathering_number s.ice_gathering_state)) [
      | inl e ↦
          rw (e, append-nil s.emitted)
            (ap (λ x. record s { ice_gathering_state = x })
              (sym (gathering_number-eq state s.ice_gathering_state e)))
      | inr e ↦ rw e refl
    ]

-- What `update_states` makes of the connection.
abbrev summed : Connection → Connection
summed s =
    let gathering = gathering_of s.ice_gatherers in
    let ice = ice_connection_of s.closed s.ice_transports in
    let connection = connection_of s.closed s.ice_transports s.dtls_transports in
    record s {
      ice_gathering_state = gathering;
      ice_connection_state = ice;
      connection_state = connection;
      emitted =
          ((s.emitted ++ ice_gathering_state_news gathering s.ice_gathering_state)
            ++ ice_connection_state_news ice s.ice_connection_state)
          ++ connection_state_news connection s.connection_state;
    }

update_states-summed : (s : Connection) → update_states s ≡ summed s
unfolding update_states
update_states-summed s =
    let gathering = gathering_of s.ice_gatherers in
    let ice = ice_connection_of s.closed s.ice_transports in
    ap (λ x. update_connection_state (update_ice_connection_state x))
      (set_ice_gathering_state-eq gathering s)
    ∙ ap update_connection_state (set_ice_connection_state-eq ice _)
    ∙ set_connection_state-eq _ _

summed-update_states :
    (s : Connection) → ConnectionSummed s → IceSummed s → GatheringSummed s → update_states s ≡ s
unfolding update_states
summed-update_states s c i g =
    ap (λ x. update_connection_state (update_ice_connection_state x))
      (set_ice_gathering_state-same _ s g)
    ∙ ap update_connection_state (set_ice_connection_state-same _ s i)
    ∙ set_connection_state-same _ s c

-- The states after an update mean what they say of the transports, and the events are those of the
-- states that changed, in the order of the updates.
abbrev pub IsUpdated : Connection → Connection → Type 0
IsUpdated self after =
    ConnectionMeans self.closed self.ice_transports self.dtls_transports after.connection_state
    × IceMeans self.closed self.ice_transports after.ice_connection_state
    × GatheringMeans self.ice_gatherers after.ice_gathering_state
    × ((g i c : List Event) × Noted icegatheringstatechange self.ice_gathering_state
          after.ice_gathering_state g
        × Noted iceconnectionstatechange self.ice_connection_state after.ice_connection_state i
        × Noted connectionstatechange self.connection_state after.connection_state c
        × (after.emitted ≡ ((self.emitted ++ g) ++ i) ++ c))

-- After an update, each of the three states is the one that its transports mean: the connection is
-- closed, failed, new, connecting or connected, ICE closed, failed, completed, checking or new, and
-- gathering complete, gathering or new. Each state that changed, and no other, has emitted its event,
-- gathering first and the connection last. As long as the transports stay as they are, a second update
-- changes nothing and emits no event.
pub update_states_lem :
    (self : Connection)
    → let after = update_states self in IsUpdated self after × (update_states after ≡ after)
update_states_lem self =
    let same = update_states-summed self in
    let means : IsUpdated self (summed self) = (
      connection_of-ConnectionMeans self.closed self.ice_transports self.dtls_transports,
      ice_connection_of-IceMeans self.closed self.ice_transports,
      gathering_of-GatheringMeans self.ice_gatherers,
      (
        _,
        _,
        _,
        ice_gathering_state-Noted (gathering_of self.ice_gatherers) self.ice_gathering_state,
        ice_connection_state-Noted (ice_connection_of self.closed self.ice_transports)
            self.ice_connection_state,
        connection_state-Noted (connection_of self.closed self.ice_transports self.dtls_transports)
            self.connection_state,
        refl,
      ),
    ) in
    subst (λ after. IsUpdated self after × (update_states after ≡ after)) (sym same)
      (means, summed-update_states (summed self) refl refl refl)
