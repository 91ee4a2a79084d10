-- ===== src/Peer/Examples.antt =====
-- The signaling at concrete inputs.
use pure_webrtc_transport.Base.{
  false, ◌↔◌, ◌&&◌, ℕ, All, ◌≡◌, refl, true, some, none, List, [], ◌∷◌,
}
use pure_webrtc_transport.Base.Dict.{string_key}
use pure_webrtc_transport.Base.Result.{ok}
use pure_webrtc_transport.Dtls.Transport.{Role, auto, client}
use pure_webrtc_transport.Peer.Signaling.{
  offer, answer, Media, audio, stable, new_peer_connection, local_description, remote_description,
  set_local_description, set_remote_description, validate_description, validate_media,
  same_sections,
}
use pure_webrtc_transport.Peer.Signaling.Agreed.{
  Call, sets_local, sets_remote, run, IsNegotiation, Match, run-Match,
}
use pure_webrtc_transport.Peer.Codecs.{
  Codec, number, rtx, apt, video, is_rtx, is_compatible, agree, find_common_codecs,
}
use pure_webrtc_transport.Peer.Codecs.Agreed.{media_codecs}
use pure_webrtc_transport.Peer.Codecs.Choice.{Chosen, find_common_codecs-Chosen}
use pure_webrtc_transport.Peer.Codecs.Common.{IsSound, find_common_codecs-IsSound}
use pure_webrtc_transport.Dtls.Transport.{State}
use pure_webrtc_transport.Peer.States.{
  Connection, ice_completed, gatherer_completed, is_connecting, is_connected, now_completed,
  gathers_complete, connectionstatechange, update_states, set_connection_state,
  set_ice_connection_state, set_ice_gathering_state, update_connection_state, all_of, is_idle_ice,
  is_idle,
}
use pure_webrtc_transport.Peer.States.Connected.{is_settled, is_up, update_connection_state_iff}
use pure_webrtc_transport.Peer.States.Summary.{IsUpdated, update_states_lem}

abbrev section : Role → Media
section role = record {
  kind = audio;
  mux_id = [];
  username_fragment = some (117 ∷ []);
  password = some (112 ∷ []);
  dtls_role = role;
  rtcp_mux = true;
}

-- An offer to the peer, and its answer.
abbrev calls : List Call
calls =
    sets_local (record { kind = offer; media = section auto ∷ [] })
    ∷ sets_remote (ok tt) (record { kind = answer; media = section client ∷ [] })
    ∷ []

calls-IsNegotiation : IsNegotiation calls
calls-IsNegotiation = (λ e. cc, (λ e. cc, tt))

ends_stable : (run calls new_peer_connection).signaling_state ≡ stable
unfolding run set_local_description set_remote_description validate_description validate_media
    same_sections
ends_stable =
    rw
      (
        run,
        set_remote_description,
        validate_description,
        same_sections,
        (string_key.test_iff [] []).1 refl,
      )
      refl

run-Match_example :
    Match
      (local_description (run calls new_peer_connection))
      (remote_description (run calls new_peer_connection))
run-Match_example = run-Match calls calls-IsNegotiation ends_stable

-- VP8 with its retransmission codec, as the remote offers them: `video/vp8` and `video/rtx`.
abbrev vp8 : ℕ → Codec
vp8 payload_type = record {
  kind = video;
  name = 118 ∷ 112 ∷ 56 ∷ [];
  clock_rate = 90000;
  channels = none;
  payload_type = payload_type;
  rtcp_feedback = [];
  parameters = [];
}

abbrev retransmission : Codec
retransmission = record (vp8 97) { name = rtx; parameters = (apt, number 101) ∷ [] }

abbrev offered : List Codec
offered = vp8 101 ∷ retransmission ∷ []

both_agreed : find_common_codecs (vp8 96 ∷ []) offered ≡ offered
unfolding find_common_codecs is_rtx is_compatible agree string_key
both_agreed = refl

find_common_codecs-Chosen_example :
    Chosen (vp8 96 ∷ []) offered (media_codecs (find_common_codecs (vp8 96 ∷ []) offered))
find_common_codecs-Chosen_example = find_common_codecs-Chosen (vp8 96 ∷ []) offered

find_common_codecs-IsSound_example :
    let result = find_common_codecs (vp8 96 ∷ []) offered in
    All (IsSound (vp8 96 ∷ []) offered result) result
find_common_codecs-IsSound_example = find_common_codecs-IsSound (vp8 96 ∷ []) offered

-- A connection whose only transport has just come up.
abbrev connection : Connection
connection = record {
  closed = false;
  dtls_transports = State.connected ∷ [];
  ice_transports = ice_completed ∷ [];
  ice_gatherers = gatherer_completed ∷ [];
  connection_state = is_connecting;
  ice_connection_state = now_completed;
  ice_gathering_state = gathers_complete;
  emitted = [];
}

one_event : (update_states connection).emitted ≡ connectionstatechange ∷ []
unfolding update_states set_connection_state set_ice_connection_state set_ice_gathering_state
one_event = refl

update_states_lem_example :
    let after = update_states connection in
    IsUpdated connection after × (update_states after ≡ after)
update_states_lem_example = update_states_lem connection

update_connection_state_iff_example :
    ((update_connection_state connection).connection_state ≡ is_connected) ↔ (
      (connection.closed ≡ false)
      × (all_of is_settled connection.ice_transports ≡ true)
      × (all_of is_up connection.dtls_transports ≡ true)
      × ((all_of is_idle_ice connection.ice_transports && all_of is_idle connection.dtls_transports)
          ≡ false))
update_connection_state_iff_example = update_connection_state_iff connection
