-- ===== src/Policy/Pacer/Examples.antt =====
-- The pacer at concrete inputs.
use pure_webrtc_transport.Base.{ℕ, ◌≡◌, List, [], ◌∷◌, ◌++◌}
use pure_webrtc_transport.Rtp.Packet.{RtpPacket, new_packet}
use pure_webrtc_transport.Policy.Fractions.{fractions}
use pure_webrtc_transport.Policy.Pacer.{
  Event, enqueues, sets_bitrate, runs_round, enqueued, new_pacer, run_events,
}
use pure_webrtc_transport.Policy.Pacer.Fifo.{run_events-fifo}

abbrev packet : ℕ → RtpPacket
packet number = new_packet 96 0 number 3000 1234 (1 ∷ 2 ∷ 3 ∷ [])

abbrev events : List Event
events =
    enqueues (packet 1)
    ∷ enqueues (packet 2)
    ∷ runs_round
    ∷ sets_bitrate 500
    ∷ enqueues (packet 3)
    ∷ runs_round
    ∷ []

run_events-fifo_example :
    (run_events fractions events (new_pacer fractions)).0
      ++ (run_events fractions events (new_pacer fractions)).1.input_queue
    ≡ (new_pacer fractions).input_queue ++ enqueued events
run_events-fifo_example = run_events-fifo fractions events (new_pacer fractions)
