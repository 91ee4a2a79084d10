-- ===== src/Policy/Pacer/Fifo.antt =====
-- `Pacer`: what comes out, and in which order.
use pure_webrtc_transport.Base.{
  Bool-cases, inl, inr, ◌≡◌, refl, ap, sym, ◌∙◌, List, [], ◌∷◌, ◌++◌, length, append_assoc,
  append-nil,
}
use pure_webrtc_transport.Base.Int.{pos}
use pure_webrtc_transport.Rtp.Packet.{RtpPacket}
use pure_webrtc_transport.Policy.Float.{Float}
use pure_webrtc_transport.Policy.Pacer.{
  Pacer, update_bitrate, enqueue, add_budget, use_budget, drain, round, Event, enqueues,
  sets_bitrate, runs_round, enqueued, run_events,
}

module _ (R : Float) where
  drain_whole :
      (queue : List RtpPacket) (self : Pacer R)
      → (drain R queue self).0 ++ (drain R queue self).1.input_queue ≡ queue
  drain_whole [] self = refl
  drain_whole (pkt ∷ queue) self =
      elim (Bool-cases (R.lt (R.of_int (pos 0)) self.bytes_remaining)) [
        | inl e ↦
            rw e (ap (λ q. pkt ∷ q) (drain_whole queue (use_budget R (length pkt.payload) self)))
        | inr e ↦ rw e refl
      ]

  -- Whatever the budgets and the changes of the bitrate, what a pacer has put out, followed by what it
  -- still holds, is what it held at first, followed by what was enqueued, in that order: no packet is
  -- lost, sent twice or overtaken.
  pub run_events-fifo :
      (events : List Event) (self : Pacer R)
      → (run_events R events self).0 ++ (run_events R events self).1.input_queue
        ≡ self.input_queue ++ enqueued events
  unfolding enqueue update_bitrate round add_budget
  run_events-fifo [] self = sym (append-nil self.input_queue)
  run_events-fifo (enqueues rtp ∷ events) self =
      run_events-fifo events (enqueue R rtp self)
      ∙ append_assoc self.input_queue (rtp ∷ []) (enqueued events)
  run_events-fifo (sets_bitrate bitrate ∷ events) self =
      run_events-fifo events (update_bitrate R bitrate self)
  run_events-fifo (runs_round ∷ events) self =
      let first = round R self in
      let rest = run_events R events (first.1) in
      append_assoc (first.0) (rest.0) (rest.1.input_queue)
      ∙ ap (λ q. first.0 ++ q) (run_events-fifo events (first.1))
      ∙ sym (append_assoc (first.0) (first.1.input_queue) (enqueued events))
      ∙ ap (λ q. q ++ enqueued events) (drain_whole self.input_queue _)
