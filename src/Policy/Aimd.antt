-- ===== src/Policy/Aimd.antt =====
-- policy/cc.py: `AimdRateControl`, the target bitrate. Bitrates are integers, times not negative;
-- the real numbers in between are Python's floats, whose operations can raise. The state that an
-- exception leaves is not kept.
pub mod Rates
pub mod Ready
use pure_webrtc_transport.Base.{
  ℕ, ◌+◌, Bool, true, false, not, ◌&&◌, Option, none, some, ltb, if◌then◌else◌,
}
use pure_webrtc_transport.Base.Int.{ℤ, pos, sub_ℕ, ◌+ℤ◌, ◌*ℤ◌, min_ℤ, max_ℤ, is_zero}
use pure_webrtc_transport.Base.Result.{
  Result, ok, raise, ◌>>=◌, ◌>>◌, guard, type_error, zero_division_error,
}
use pure_webrtc_transport.Policy.Float.{Float, max_f, min_f, call}

pub data BandwidthUsage : Type 0 where
  normal underusing overusing : BandwidthUsage

pub data RateControlState : Type 0 where
  hold increase decrease : RateControlState

abbrev pub is_overusing : BandwidthUsage → Bool
is_overusing overusing = true
is_overusing _ = false

-- `now - last`; None is a TypeError.
abbrev pub since : Option ℕ → ℕ → Result ℤ
since none now = raise type_error
since (some last) now = ok (sub_ℕ now last)

-- `# helper variables`: the throughput that counts, and the one that is kept.
abbrev pub throughput_or : Option ℤ → ℤ → ℤ
throughput_or none latest = latest
throughput_or (some throughput) latest = throughput

abbrev pub feedback_interval : ℕ
feedback_interval = 500

module _ (R : Float) where
  pub record AimdRateControl : Type 0 where
    pub avg_max_bitrate_kbps : Option R.F
    pub var_max_bitrate_kbps : R.F
    pub current_bitrate : ℤ
    pub current_bitrate_initialized : Bool
    pub first_estimated_throughput_time : Option ℕ
    pub last_change_ms : Option ℕ
    pub near_max : Bool
    pub latest_estimated_throughput : ℤ
    pub rtt : ℕ
    pub state : RateControlState

  abbrev pub new_rate_control : AimdRateControl
  new_rate_control = record {
    avg_max_bitrate_kbps = none;
    var_max_bitrate_kbps = R.ratio (pos 4) 10;
    current_bitrate = pos 30000000;
    current_bitrate_initialized = false;
    first_estimated_throughput_time = none;
    last_change_ms = none;
    near_max = false;
    latest_estimated_throughput = pos 30000000;
    rtt = 200;
    state = hold;
  }

  -- `int(1.5 * estimated_throughput)`
  unfoldable pub estimate : ℤ → Result ℤ
  estimate throughput =
      call (R.convert throughput) >>= λ t. call (R.trunc (R.mul (R.ratio (pos 15) 10) t))

  abbrev pub clamp_to : ℤ → ℤ → ℤ
  clamp_to new_bitrate estimate = max_ℤ (min_ℤ (estimate +ℤ pos 10000) new_bitrate) (pos 10000)

  unfoldable pub clamp_bitrate : ℤ → ℤ → Result ℤ
  clamp_bitrate new_bitrate estimated_throughput =
      estimate estimated_throughput >>= λ most. ok (clamp_to new_bitrate most)

  abbrev pub clamp_var : R.F → R.F
  clamp_var var = max_f R (R.ratio (pos 4) 10) (min_f R var (R.ratio (pos 25) 10))

  unfoldable pub set_estimate : ℤ → ℕ → AimdRateControl → Result AimdRateControl
  set_estimate bitrate now_ms self = clamp_bitrate bitrate bitrate >>= λ clamped. ok (record self {
    current_bitrate = clamped;
    current_bitrate_initialized = true;
    last_change_ms = some now_ms;
  })

  -- The first statement of `update`, for a throughput that is known.
  abbrev pub initialise : Option ℕ → ℤ → ℕ → AimdRateControl → AimdRateControl
  initialise none throughput now_ms self = record self {
    first_estimated_throughput_time = some now_ms;
  }
  initialise (some first) throughput now_ms self =
      if ltb (first + 3000) now_ms
      then record self { current_bitrate = throughput; current_bitrate_initialized = true }
      else self

  abbrev pub initialise_with : Option ℤ → ℕ → AimdRateControl → AimdRateControl
  initialise_with none now_ms self = self
  initialise_with (some throughput) now_ms self =
      if self.current_bitrate_initialized
      then self
      else initialise self.first_estimated_throughput_time throughput now_ms self

  -- `# update state`
  abbrev pub update_state :
      BandwidthUsage → RateControlState → ℕ → AimdRateControl → AimdRateControl
  update_state normal hold now_ms self = record self {
    last_change_ms = some now_ms;
    state = increase;
  }
  update_state normal _ now_ms self = self
  update_state overusing _ now_ms self = record self { state = decrease }
  update_state underusing _ now_ms self = record self { state = hold }

  unfoldable pub near_max_rate_increase : AimdRateControl → Result ℤ
  near_max_rate_increase self = call (R.quotient self.current_bitrate 30) >>= λ bits_per_frame.
      (call (R.ceil (R.div bits_per_frame (R.of_int (pos 9600)))) >>= λ packets_per_frame.
      (guard (not (is_zero packets_per_frame)) zero_division_error
        >> (call (R.convert packets_per_frame) >>= λ packets.
            (let avg_packet_size_bits = R.div bits_per_frame packets in
              call (
                R.trunc (
                  R.div (R.mul avg_packet_size_bits (R.of_int (pos 1000)))
                    (R.of_int (pos (self.rtt + 100)))))
              >>= λ bitrate. ok (min_ℤ (pos 4000) bitrate)))))

  unfoldable pub additive_rate_increase : Option ℕ → ℕ → AimdRateControl → Result ℤ
  additive_rate_increase last_ms now_ms self = since last_ms now_ms >>= λ elapsed.
      (near_max_rate_increase self >>= λ more.
      (call (R.quotient (elapsed *ℤ more) 1000) >>= λ q. call (R.trunc q)))

  abbrev pub alpha_after : Option ℕ → ℕ → Result R.F
  alpha_after none now_ms = ok (R.ratio (pos 108) 100)
  alpha_after (some last) now_ms =
      call (R.quotient (min_ℤ (sub_ℕ now_ms last) (pos 1000)) 1000) >>= λ power.
      call (R.pow (R.ratio (pos 108) 100) power)

  unfoldable pub multiplicative_rate_increase : ℤ → Option ℕ → ℕ → Result ℤ
  multiplicative_rate_increase new_bitrate last_ms now_ms = alpha_after last_ms now_ms >>= λ alpha.
      (call (R.convert new_bitrate) >>= λ bitrate.
      call
        (R.trunc (max_f R (R.mul (R.sub alpha (R.of_int (pos 1))) bitrate) (R.of_int (pos 1000)))))

  abbrev pub average : Option R.F → R.F → R.F
  average none kbps = kbps
  average (some avg) kbps =
      let alpha = R.ratio (pos 5) 100 in
      R.add (R.mul (R.sub (R.of_int (pos 1)) alpha) avg) (R.mul alpha kbps)

  unfoldable pub update_max_throughput_estimate : R.F → AimdRateControl → Result AimdRateControl
  update_max_throughput_estimate kbps self =
      let alpha = R.ratio (pos 5) 100 in
      let avg = average self.avg_max_bitrate_kbps kbps in
      let norm = max_f R (R.of_int (pos 1)) avg in
      call (R.pow (R.sub avg kbps) (R.of_int (pos 2))) >>= λ square.
      (let var =
          R.add (R.mul (R.sub (R.of_int (pos 1)) alpha) self.var_max_bitrate_kbps)
            (R.div (R.mul alpha square) norm) in
        ok (record self { avg_max_bitrate_kbps = some avg; var_max_bitrate_kbps = clamp_var var }))

  -- `3 * sigma_kbps`
  abbrev pub three_sigma : R.F → AimdRateControl → Result R.F
  three_sigma avg self = call (R.sqrt (R.mul self.var_max_bitrate_kbps avg)) >>= λ sigma.
      ok (R.mul (R.of_int (pos 3)) sigma)

  -- A throughput well above the estimated maximum forgets it, and so does one well below.
  abbrev pub forget_if_above : Option R.F → R.F → AimdRateControl → Result AimdRateControl
  forget_if_above none kbps self = ok self
  forget_if_above (some avg) kbps self = three_sigma avg self >>= λ sigma. ok (
      if R.le (R.add avg sigma) kbps
      then record self { near_max = false; avg_max_bitrate_kbps = none }
      else self)

  abbrev pub forget_if_below : Option R.F → R.F → AimdRateControl → Result AimdRateControl
  forget_if_below none kbps self = ok self
  forget_if_below (some avg) kbps self = three_sigma avg self >>= λ sigma.
      ok (if R.lt kbps (R.sub avg sigma) then record self { avg_max_bitrate_kbps = none } else self)

  abbrev pub rate_increase : ℕ → AimdRateControl → Result ℤ
  rate_increase now_ms self =
      if self.near_max
      then additive_rate_increase self.last_change_ms now_ms self
      else multiplicative_rate_increase self.current_bitrate self.last_change_ms now_ms

  -- `# update bitrate`, by state: the new bitrate, before it is clamped, and the new state.
  abbrev pub update_bitrate :
      RateControlState → ℤ → R.F → ℕ → AimdRateControl → Result (ℤ × AimdRateControl)
  update_bitrate hold throughput kbps now_ms self = ok (self.current_bitrate, self)
  update_bitrate increase throughput kbps now_ms self =
      forget_if_above self.avg_max_bitrate_kbps kbps self >>= λ cleared.
      (rate_increase now_ms cleared >>= λ more.
      ok (cleared.current_bitrate +ℤ more, record cleared { last_change_ms = some now_ms }))
  update_bitrate decrease throughput kbps now_ms self =
      forget_if_below self.avg_max_bitrate_kbps kbps self >>= λ cleared.
      (update_max_throughput_estimate kbps cleared >>= λ estimated.
      (call (R.convert throughput) >>= λ t.
      (call (R.round (R.mul (R.ratio (pos 95) 100) t)) >>= λ new_bitrate. ok (
        new_bitrate,
        record estimated { near_max = true; last_change_ms = some now_ms; state = hold },
      ))))

  -- `update` after the wait for initialisation or overuse.
  unfoldable pub update_initialised :
      BandwidthUsage → Option ℤ → ℕ → AimdRateControl → Result (ℤ × AimdRateControl)
  update_initialised bandwidth_usage estimated_throughput now_ms self =
      let moved = update_state bandwidth_usage self.state now_ms self in
      let throughput = throughput_or estimated_throughput moved.latest_estimated_throughput in
      let latest = record moved { latest_estimated_throughput = throughput } in
      call (R.quotient throughput 1000) >>= λ kbps.
      (update_bitrate latest.state throughput kbps now_ms latest >>= λ r.
      (clamp_bitrate (r.0) throughput >>= λ bitrate.
      ok (bitrate, record (r.1) { current_bitrate = bitrate })))

  unfoldable pub update :
      BandwidthUsage → Option ℤ → ℕ → AimdRateControl → Result (Option ℤ × AimdRateControl)
  update bandwidth_usage estimated_throughput now_ms self =
      let started = initialise_with estimated_throughput now_ms self in
      let run = update_initialised bandwidth_usage estimated_throughput now_ms started >>= λ r.
      ok (some (r.0), r.1) in
      if not started.current_bitrate_initialized && not (is_overusing bandwidth_usage)
      then ok (none, started)
      else run
