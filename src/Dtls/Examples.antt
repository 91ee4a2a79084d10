-- ===== src/Dtls/Examples.antt =====
-- Theorems about the router and the transport at concrete inputs.
use pure_webrtc_transport.Base.{◌≡◌, ◌≢◌, refl, inr, true, some, none, List, [], ◌∷◌, All, arith}
use pure_webrtc_transport.Base.Dict.{member}
use pure_webrtc_transport.Rtp.Packet.{RtpPacket, new_packet}
use pure_webrtc_transport.Dtls.Router.{
  RtpRouter, new_router, register_receiver, unregister_receiver, route_rtp, Event,
  registers_receiver, routes_rtp, unregisters_receiver, run,
}
use pure_webrtc_transport.Dtls.Router.Forget.{Registers, unregister_receiver-not_routed}
use pure_webrtc_transport.Dtls.Router.Routing.{takers, route_rtp-register_receiver}
use pure_webrtc_transport.Dtls.Router.Sticky.{Keeps, route_rtp-sticky}

abbrev packet : RtpPacket
packet = new_packet 96 0 17 3000 1234 (1 ∷ 2 ∷ [])

-- Receiver 1 takes payload type 96; it is not told the SSRC.
abbrev one : RtpRouter
one = record new_router { receivers = 1 ∷ []; payload_type_table = (96, 1 ∷ []) ∷ [] }

abbrev events : List Event
events = registers_receiver 2 [] (96 ∷ []) none ∷ routes_rtp packet ∷ []

others : All (Registers (λ x. x ≢ 1)) events
unfolding Registers
others = (λ e. omega (arith, e), (tt, tt))

unregister_receiver-not_routed_example :
    (route_rtp packet (run events (unregister_receiver 1 one))).0 ≢ some 1
unregister_receiver-not_routed_example = unregister_receiver-not_routed 1 one events packet others

route_rtp-register_receiver_example :
    route_rtp packet (register_receiver 3 (1234 ∷ []) (97 ∷ 96 ∷ []) none one)
    ≡ (some 3, register_receiver 3 (1234 ∷ []) (97 ∷ 96 ∷ []) none one)
route_rtp-register_receiver_example =
    route_rtp-register_receiver 3 (1234 ∷ []) (97 ∷ 96 ∷ []) none one packet refl refl

routed : (route_rtp packet one).0 ≡ some 1
unfolding route_rtp
routed = refl

-- Another receiver of the payload type, a packet of another stream, and receiver 2 gone again.
abbrev between : List Event
between =
    registers_receiver 2 (77 ∷ []) (96 ∷ []) none
    ∷ routes_rtp (new_packet 96 0 18 3000 77 [])
    ∷ unregisters_receiver 2
    ∷ []

between-Keeps : All (Keeps 1234 1) between
unfolding Keeps
between-Keeps = (inr refl, (tt, ((λ e. omega (arith, e)), tt)))

route_rtp-sticky_example :
    let after = run between (route_rtp packet one).1 in
    (member 1 (takers 96 one) ≡ true) × (route_rtp packet after ≡ (some 1, after))
route_rtp-sticky_example =
    route_rtp-sticky one packet packet 1 between routed refl refl between-Keeps
