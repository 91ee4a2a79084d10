-- ===== src/Policy/Trendline.antt =====
-- policy/cc.py: `TrendlineEstimator`. The delays are integers. The state that an exception leaves is
-- not kept.
pub mod Bounds
use pure_webrtc_transport.Base.{
  ℕ, ◌+◌, min, Bool, true, false, ◌&&◌, Option, none, some, List, [], ◌∷◌, ◌++◌, length, map, ltb,
  ◌==◌, if◌then◌else◌,
}
use pure_webrtc_transport.Base.Int.{ℤ, pos, sub_ℕ, ◌+ℤ◌, ◌-ℤ◌, ltb_ℤ, min_ℤ}
use pure_webrtc_transport.Base.Result.{Result, ok, raise, value_error, ◌>>=◌}
use pure_webrtc_transport.Policy.Float.{Float, max_f, min_f, call}
use pure_webrtc_transport.Policy.Aimd.{BandwidthUsage, normal, underusing, overusing}

abbrev pub max_adapt_offset_ms : ℕ
max_adapt_offset_ms = 15

abbrev pub min_num_deltas : ℕ
min_num_deltas = 60

abbrev pub delta_counter_max : ℕ
delta_counter_max = 1000

abbrev pub window_size : ℕ
window_size = 50

abbrev pub first_or : Option ℕ → ℕ → ℕ
first_or none now = now
first_or (some first) now = first

-- `while len(hist) > WINDOW_SIZE: hist.popleft()`
abbrev pub pop_left {ℓ} : {A : Type ℓ} → List A → List A
pop_left [] = []
pop_left (x ∷ xs) =
    let rest = pop_left xs in if ltb window_size (length (x ∷ xs)) then rest else x ∷ xs

module _ (R : Float) where
  pub record PacketTiming : Type 0 where
    pub arrival_time_ms : ℤ
    pub smoothed_delay_ms : R.F
    pub raw_delay_ms : ℤ

  pub record TrendlineEstimator : Type 0 where
    pub usage : BandwidthUsage
    pub num_of_deltas : ℕ
    pub accumulated_delay : ℤ
    pub smoothed_delay : R.F
    pub delay_hist : List PacketTiming
    pub first_arrival_time_ms : Option ℕ
    pub prev_trend : R.F
    pub threshold : R.F
    pub k_up : R.F
    pub k_down : R.F
    pub time_over_using : Option R.F
    pub overuse_count : ℕ
    pub last_threshold_update_ms : Option ℕ

  abbrev pub new_trendline : TrendlineEstimator
  new_trendline = record {
    usage = normal;
    num_of_deltas = 0;
    accumulated_delay = pos 0;
    smoothed_delay = R.of_int (pos 0);
    delay_hist = [];
    first_arrival_time_ms = none;
    prev_trend = R.of_int (pos 0);
    threshold = R.ratio (pos 125) 10;
    k_up = R.ratio (pos 87) 10000;
    k_down = R.ratio (pos 39) 1000;
    time_over_using = none;
    overuse_count = 0;
    last_threshold_update_ms = none;
  }

  -- The last statements of `update_threshold`.
  abbrev pub adapt : R.F → ℕ → ℕ → TrendlineEstimator → Result TrendlineEstimator
  adapt modified_trend last now_ms self =
      let k = if R.lt (R.abs modified_trend) self.threshold then self.k_down else self.k_up in
      call (R.convert (min_ℤ (sub_ℕ now_ms last) (pos 100))) >>= λ time_delta_ms.
      (let moved =
          R.add self.threshold
            (R.mul (R.mul k (R.sub (R.abs modified_trend) self.threshold)) time_delta_ms) in
        ok (record self {
          threshold = max_f R (min_f R moved (R.of_int (pos 600))) (R.of_int (pos 6));
          last_threshold_update_ms = some now_ms;
        }))

  unfoldable pub update_threshold : R.F → ℕ → TrendlineEstimator → Result TrendlineEstimator
  update_threshold modified_trend now_ms self =
      let last = first_or self.last_threshold_update_ms now_ms in
      if R.lt (R.add self.threshold (R.of_int (pos max_adapt_offset_ms))) (R.abs modified_trend)
      then ok (record self { last_threshold_update_ms = some now_ms })
      else adapt modified_trend last now_ms self

  abbrev pub overusing_for : Option R.F → ℤ → Result R.F
  overusing_for none send_delta_ms = call (R.quotient send_delta_ms 2)
  overusing_for (some time) send_delta_ms =
      call (R.convert send_delta_ms) >>= λ delta. ok (R.add time delta)

  -- `modified_trend > self.threshold`
  abbrev pub detect_overuse : R.F → ℤ → TrendlineEstimator → Result TrendlineEstimator
  detect_overuse trend send_delta_ms self =
      overusing_for self.time_over_using send_delta_ms >>= λ time.
      (let count = self.overuse_count + 1 in
        ok (
          if (R.lt (R.of_int (pos 10)) time && ltb 1 count) && R.lt self.prev_trend trend
          then record self { time_over_using = none; overuse_count = 0; usage = overusing }
          else record self { time_over_using = some time; overuse_count = count }))

  abbrev pub detect_with : R.F → R.F → ℤ → TrendlineEstimator → Result TrendlineEstimator
  detect_with modified_trend trend send_delta_ms self =
      if R.lt self.threshold modified_trend
      then detect_overuse trend send_delta_ms self
      else if R.lt modified_trend (R.neg self.threshold)
      then ok (record self { time_over_using = none; overuse_count = 0; usage = underusing })
      else ok (record self { time_over_using = none; overuse_count = 0; usage = normal })

  unfoldable pub detect : R.F → ℤ → ℕ → TrendlineEstimator → Result TrendlineEstimator
  detect trend send_delta_ms arrival_time_ms self =
      let modified_trend =
        R.mul (R.mul (R.of_int (pos (min self.num_of_deltas min_num_deltas))) trend)
          (R.of_int (pos 4)) in
      let run = detect_with modified_trend trend send_delta_ms self >>= λ after.
      update_threshold modified_trend arrival_time_ms (record after { prev_trend = trend }) in
      if ltb self.num_of_deltas 2 then ok (record self { usage = normal }) else run

  -- `update` up to its call of `detect`: the trend and the state with the new point.
  abbrev pub trend_of : List PacketTiming → R.F → Result R.F
  trend_of hist prev_trend =
      if length hist == window_size
      then call
          (R.linregress (map (λ i. i.arrival_time_ms) hist) (map (λ i. i.smoothed_delay_ms) hist))
      else ok prev_trend

  abbrev pub add_point : ℤ → ℕ → TrendlineEstimator → Result (R.F × TrendlineEstimator)
  add_point delta_ms arrive_time_ms self =
      let first = first_or self.first_arrival_time_ms arrive_time_ms in
      let accumulated = self.accumulated_delay +ℤ delta_ms in
      let coeff = R.ratio (pos 9) 10 in
      call (R.convert accumulated) >>= λ delay.
      (let smoothed =
          R.add (R.mul coeff self.smoothed_delay) (R.mul (R.sub (R.of_int (pos 1)) coeff) delay) in
        let timing : PacketTiming = record {
          arrival_time_ms = sub_ℕ arrive_time_ms first;
          smoothed_delay_ms = smoothed;
          raw_delay_ms = accumulated;
        } in
        let hist = pop_left (self.delay_hist ++ (timing ∷ [])) in
        (trend_of hist self.prev_trend >>= λ trend. ok (
          trend,
          record self {
            num_of_deltas = min (self.num_of_deltas + 1) delta_counter_max;
            first_arrival_time_ms = some first;
            accumulated_delay = accumulated;
            smoothed_delay = smoothed;
            delay_hist = hist;
          },
        )))

  -- `update`; its `send_time_ms` is not used.
  unfoldable pub update : ℤ → ℤ → ℕ → TrendlineEstimator → Result TrendlineEstimator
  update recv_delta_ms send_delta_ms arrive_time_ms self =
      let run = add_point (recv_delta_ms -ℤ send_delta_ms) arrive_time_ms self >>= λ point.
      detect (point.0) send_delta_ms arrive_time_ms (point.1) in
      if ltb_ℤ (pos 500) recv_delta_ms then raise value_error else run
