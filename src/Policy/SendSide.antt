-- ===== src/Policy/SendSide.antt =====
-- policy/cc.py: `SendSideDelayBasedBitrateEstimator`, which puts the rate counter, the inter-arrival
-- filter, the trendline estimator and the rate control together. The state that an exception leaves
-- is not kept.
pub mod Counted
pub mod Ordered
use pure_webrtc_transport.Base.{
  ℕ, ◌+◌, Bool, true, false, ◌||◌, Option, none, some, List, [], ◌∷◌, ltb, if◌then◌else◌,
}
use pure_webrtc_transport.Base.Int.{ℤ, pos}
use pure_webrtc_transport.Base.Result.{Result, ok, raise, ◌>>=◌, value_error}
use pure_webrtc_transport.Policy.Float.{Float}
use pure_webrtc_transport.Policy.RateCounter
use pure_webrtc_transport.Policy.RateCounter.{RateCounter, new_rate_counter, rate, reset}
use pure_webrtc_transport.Policy.InterArrival.{
  InterArrivalMillisecond, InterArrivalDeltaMillisecond, new_inter_arrival, compute_deltas,
}
use pure_webrtc_transport.Policy.Aimd
use pure_webrtc_transport.Policy.Aimd.{
  AimdRateControl, new_rate_control, feedback_interval, is_overusing,
}
use pure_webrtc_transport.Policy.Trendline
use pure_webrtc_transport.Policy.Trendline.{TrendlineEstimator, new_trendline, first_or}

abbrev pub timestamp_group_length_ms : ℕ
timestamp_group_length_ms = 5

-- `# update incoming bitrate`, without the packet itself: the counter starts again once it is idle.
abbrev pub restart : Option ℕ → Bool → RateCounter → RateCounter × Bool
restart (some rate) initialized counter = (counter, true)
restart none true counter = (reset counter, false)
restart none false counter = (counter, false)

unfoldable pub count_packet : ℕ → ℕ → RateCounter → Bool → RateCounter × Bool
count_packet payload_size arrival_time_ms counter initialized =
    let measured = rate arrival_time_ms counter in
    let started = restart (measured.0) initialized (measured.1) in
    (RateCounter.add payload_size arrival_time_ms (started.0), started.1)

-- `arrival - last > feedback_interval`, or no estimate yet.
abbrev pub is_due : Option ℕ → ℕ → ℕ → Bool
is_due none interval arrival_time_ms = true
is_due (some last) interval arrival_time_ms = ltb (last + interval) arrival_time_ms

module _ (R : Float) where
  pub record SendSideDelayBasedBitrateEstimator : Type 0 where
    pub incoming_bitrate : RateCounter
    pub incoming_bitrate_initialized : Bool
    pub inter_arrival : InterArrivalMillisecond
    pub estimator : TrendlineEstimator R
    pub rate_control : AimdRateControl R
    pub last_update_ms : Option ℕ
    pub last_arrival_time_ms : Option ℕ

  abbrev pub new_send_side : SendSideDelayBasedBitrateEstimator
  new_send_side = record {
    incoming_bitrate = new_rate_counter 2000 8000;
    incoming_bitrate_initialized = true;
    inter_arrival = new_inter_arrival timestamp_group_length_ms;
    estimator = new_trendline R;
    rate_control = new_rate_control R;
    last_update_ms = none;
    last_arrival_time_ms = none;
  }

  abbrev pub update_estimator :
      Option InterArrivalDeltaMillisecond → ℕ → TrendlineEstimator R → Result (TrendlineEstimator R)
  update_estimator none arrival_time_ms estimator = ok estimator
  update_estimator (some deltas) arrival_time_ms estimator =
      Trendline.update R deltas.arrival_time_delta deltas.send_time_delta arrival_time_ms estimator

  -- `rate()` gives a number that is not negative.
  abbrev pub as_throughput : Option ℕ → Option ℤ
  as_throughput none = none
  as_throughput (some rate) = some (pos rate)

  abbrev pub note_update :
      Option ℤ → ℕ → SendSideDelayBasedBitrateEstimator → SendSideDelayBasedBitrateEstimator
  note_update none arrival_time_ms self = self
  note_update (some bitrate) arrival_time_ms self = record self {
    last_update_ms = some arrival_time_ms;
  }

  -- `if update_estimate:` and the return.
  unfoldable pub update_estimate :
      ℕ
      → SendSideDelayBasedBitrateEstimator
      → Result (Option ℤ × SendSideDelayBasedBitrateEstimator)
  update_estimate arrival_time_ms self =
      let due =
        is_due self.last_update_ms feedback_interval arrival_time_ms
        || is_overusing self.estimator.usage in
      let measured = rate arrival_time_ms self.incoming_bitrate in
      let run =
        Aimd.update R self.estimator.usage (as_throughput (measured.0)) arrival_time_ms
          self.rate_control
        >>= λ r. ok (
          r.0,
          note_update (r.0) arrival_time_ms
              (record self { incoming_bitrate = measured.1; rate_control = r.1 }),
        ) in
      if due then run else ok (none, self)

  -- `add` once the arrival time is known to be in order.
  unfoldable pub add_ordered :
      ℕ
      → ℕ
      → ℕ
      → SendSideDelayBasedBitrateEstimator
      → Result (Option ℤ × SendSideDelayBasedBitrateEstimator)
  add_ordered arrival_time_ms send_time_ms payload_size self = do
    let counted =
        count_packet payload_size arrival_time_ms self.incoming_bitrate
          self.incoming_bitrate_initialized
    arrival ← compute_deltas send_time_ms arrival_time_ms payload_size self.inter_arrival
    estimator ← update_estimator (arrival.0) arrival_time_ms self.estimator
    update_estimate arrival_time_ms (record self {
      incoming_bitrate = counted.0;
      incoming_bitrate_initialized = counted.1;
      inter_arrival = arrival.1;
      estimator = estimator;
      last_arrival_time_ms = some arrival_time_ms;
    })

  unfoldable pub add :
      ℕ
      → ℕ
      → ℕ
      → SendSideDelayBasedBitrateEstimator
      → Result (Option ℤ × SendSideDelayBasedBitrateEstimator)
  add arrival_time_ms send_time_ms payload_size self =
      let run = add_ordered arrival_time_ms send_time_ms payload_size self in
      if ltb arrival_time_ms (first_or self.last_arrival_time_ms arrival_time_ms)
      then raise value_error
      else run
