-- ===== src/Policy/Pacer.antt =====
-- policy/pacer.py: `Pacer`, a queue that is drained as its budget of bytes allows. Bitrates are
-- integers that are not negative. What the loop puts into the output queue is its answer, in order.
pub mod Fifo
mod Examples
use pure_webrtc_transport.Base.{
  ℕ, Bool, true, false, ◌&&◌, List, [], ◌∷◌, ◌++◌, length, if◌then◌else◌,
}
use pure_webrtc_transport.Base.Int.{pos}
use pure_webrtc_transport.Rtp.Packet.{RtpPacket}
use pure_webrtc_transport.Policy.Float.{Float, max_f, min_f}

module _ (R : Float) where
  pub record Pacer : Type 0 where
    pub input_queue : List RtpPacket
    pub target_bitrate : R.F
    pub bytes_remaining : R.F
    pub max_bytes_in_budget : R.F

  unfoldable pub update_bitrate : ℕ → Pacer → Pacer
  update_bitrate bitrate self =
      let target = R.mul (R.of_int (pos bitrate)) (R.ratio (pos 11) 10) in
      let most = R.div (R.mul (R.ratio (pos 5) 10) target) (R.of_int (pos 8)) in
      record self {
        target_bitrate = target;
        max_bytes_in_budget = most;
        bytes_remaining = min_f R (max_f R (R.neg most) self.bytes_remaining) most;
      }

  abbrev pub new_pacer : Pacer
  new_pacer = update_bitrate 1000000 (record {
    input_queue = [];
    target_bitrate = R.of_int (pos 1000000);
    bytes_remaining = R.of_int (pos 0);
    max_bytes_in_budget = R.of_int (pos 0);
  })

  unfoldable pub enqueue : RtpPacket → Pacer → Pacer
  enqueue rtp self = record self { input_queue = self.input_queue ++ (rtp ∷ []) }

  unfoldable pub add_budget : R.F → Pacer → Pacer
  add_budget data_bytes self = record self {
    bytes_remaining =
        if R.lt self.bytes_remaining (R.of_int (pos 0))
        then min_f R (R.add self.bytes_remaining data_bytes) self.max_bytes_in_budget
        else min_f R data_bytes self.max_bytes_in_budget;
  }

  unfoldable pub use_budget : ℕ → Pacer → Pacer
  use_budget data_bytes self = record self {
    bytes_remaining =
        max_f R (R.sub self.bytes_remaining (R.of_int (pos data_bytes)))
          (R.neg self.max_bytes_in_budget);
  }

  -- The inner loop, on the queue: the packets put out and the pacer after it.
  abbrev pub drain : List RtpPacket → Pacer → List RtpPacket × Pacer
  drain [] self = ([], record self { input_queue = [] })
  drain (pkt ∷ queue) self =
      let rest = drain queue (use_budget (length pkt.payload) self) in
      if R.lt (R.of_int (pos 0)) self.bytes_remaining
      then (pkt ∷ rest.0, rest.1)
      else ([], record self { input_queue = pkt ∷ queue })

  -- One round of `run_loop`, up to its sleep.
  unfoldable pub round : Pacer → List RtpPacket × Pacer
  round self =
      let budget = R.mul (R.div self.target_bitrate (R.of_int (pos 8))) (R.ratio (pos 5) 1000) in
      drain self.input_queue (add_budget budget self)

-- What can happen to a pacer.
pub data Event : Type 0 where
  enqueues : RtpPacket → Event
  sets_bitrate : ℕ → Event
  runs_round : Event

abbrev pub enqueued : List Event → List RtpPacket
enqueued [] = []
enqueued (enqueues rtp ∷ events) = rtp ∷ enqueued events
enqueued (sets_bitrate bitrate ∷ events) = enqueued events
enqueued (runs_round ∷ events) = enqueued events

module _ (R : Float) where
  abbrev pub run_events : List Event → Pacer R → List RtpPacket × Pacer R
  run_events [] self = ([], self)
  run_events (enqueues rtp ∷ events) self = run_events events (enqueue R rtp self)
  run_events (sets_bitrate bitrate ∷ events) self =
      run_events events (update_bitrate R bitrate self)
  run_events (runs_round ∷ events) self =
      let first = round R self in
      let rest = run_events events (first.1) in (first.0 ++ rest.0, rest.1)
