-- ===== src/Policy/Examples.antt =====
-- Theorems about congestion control at concrete inputs, with fractions for the floats.
use pure_webrtc_transport.Base.{
  ◌≡◌, ◌≢◌, refl, sym, subst, ◌⊎◌, inl, inr, ◌*◌, true, false, some, List, [], ◌∷◌, arith,
}
use pure_webrtc_transport.Base.Int.{ℤ, pos, ◌*ℤ◌, negsuc, ◌≤ℤ◌, ltb_ℤ}
use pure_webrtc_transport.Base.Result.{Exception, ok, raise, value_error}
use pure_webrtc_transport.Policy.Float.{Outcome}
use pure_webrtc_transport.Policy.Fractions.{Fraction, fractions, ceiling, towards_zero}
use pure_webrtc_transport.Policy.RateCounter.{new_rate_counter}
use pure_webrtc_transport.Policy.RateCounter.Window.{
  Call, adds, rates, resets, IsOrdered, run_counter, run_window, no_samples,
}
use pure_webrtc_transport.Policy.RateCounter.Refine.{run_counter-run_window}
use pure_webrtc_transport.Policy.InterArrival.{
  InterArrivalMillisecond, InterArrivalDeltaMillisecond, TimestampGroupMillisecond, run,
}
use pure_webrtc_transport.Policy.InterArrival.Deltas.{IsFilled, IsTimed, Between, run-total, total}
use pure_webrtc_transport.Policy.RateCounter.Refine.{Refines}
use pure_webrtc_transport.Policy.Trendline
use pure_webrtc_transport.Policy.Trendline.{TrendlineEstimator, new_trendline}
use pure_webrtc_transport.Policy.Trendline.Bounds.{
  IsBounded, IsOrdered as IsOrderedFloat, update-IsBounded,
}
use pure_webrtc_transport.Policy.SendSide
use pure_webrtc_transport.Policy.SendSide.{new_send_side}
use pure_webrtc_transport.Policy.SendSide.Counted.{IsCounted}
use pure_webrtc_transport.Policy.SendSide.Ordered.{IsSound, Taken, Refused, add-Returns}
use pure_webrtc_transport.Policy.Aimd
use pure_webrtc_transport.Policy.Aimd.{
  AimdRateControl, estimate, new_rate_control, throughput_or, BandwidthUsage, normal, overusing,
  decrease,
}
use pure_webrtc_transport.Policy.Aimd.Rates.{IsReady}
use pure_webrtc_transport.Policy.Aimd.Ready.{Promise, update-IsReady}

-- The rates of a window of 4 milliseconds.
abbrev calls : List Call
calls = adds 100 10 ∷ rates 10 ∷ adds 50 12 ∷ rates 13 ∷ rates 15 ∷ resets ∷ rates 20 ∷ []

calls-IsOrdered : IsOrdered 0 calls
unfolding IsOrdered
calls-IsOrdered =
    (omega arith, (omega arith, (omega arith, (omega arith, (omega arith, (omega arith, tt))))))

run_counter-run_window_example :
    run_counter calls (new_rate_counter 4 8000) ≡ run_window 4 8000 calls no_samples
run_counter-run_window_example = run_counter-run_window 4 8000 calls (omega arith) calls-IsOrdered

-- A group of two packets, and then three packets that close two groups.
abbrev group : TimestampGroupMillisecond
group = record {
  arrival_time = some 120;
  first_arrival_time = 118;
  first_send_time = 20;
  last_send_time = 22;
  size = 900;
}

abbrev filter : InterArrivalMillisecond
filter = record {
  group_length = 5;
  current_group =
      some (record group { arrival_time = some 140; first_send_time = 40; last_send_time = 41 });
  previous_group = some group;
}

filter-IsFilled : IsFilled filter
unfolding IsTimed
filter-IsFilled = ((140, refl), (120, refl))

run-total_example :
    (deltas : List InterArrivalDeltaMillisecond) × (next : InterArrivalMillisecond)
    × (q : TimestampGroupMillisecond) × (run
          ((60, 160, 100) ∷ (61, 161, 100) ∷ (90, 200, 300) ∷ [])
          filter
        ≡ ok (deltas, next))
    × (next.previous_group ≡ some q)
    × Between group q (total deltas)
run-total_example =
    run-total ((60, 160, 100) ∷ (61, 161, 100) ∷ (90, 200, 300) ∷ []) filter group filter-IsFilled
      refl

inr_inj : {B : Type 0} (a b : B) → ◌≡◌ {A = Exception ⊎ B} (inr a) (inr b) → a ≡ b
inr_inj a b h = cc

ok_inj : (a b : ℤ) → ok a ≡ ok b → a ≡ b
ok_inj a b h = cc

ceiling_positive : (n : ℤ) → pos 1 ≤ℤ n → ceiling (n *ℤ pos 1) (30 * 9600) ≢ pos 0
ceiling_positive (pos n) h = λ e. ground (arith, h)
ceiling_positive (negsuc n) h = absurd (omega (arith, h))

ceil_positive :
    (n k : ℤ) (bits : Fraction)
    → pos 1 ≤ℤ n
    → fractions.quotient n 30 ≡ inr bits
    → fractions.ceil (fractions.div bits (fractions.of_int (pos 9600))) ≡ inr k
    → k ≢ pos 0
ceil_positive n k bits h e f =
    let same : (n, 30) ≡ bits = inr_inj (n, 30) bits e in
    let found =
      subst (λ b. fractions.ceil (fractions.div b (fractions.of_int (pos 9600))) ≡ inr k) (sym same)
        f in
    let rounded : ceiling (n *ℤ pos 1) (30 * 9600) ≡ k = inr_inj _ k found in
    subst (λ z. z ≢ pos 0) rounded (ceiling_positive n h)

estimate_nonneg : (n most : ℤ) → pos 0 ≤ℤ n → estimate fractions n ≡ ok most → pos 0 ≤ℤ most
unfolding estimate
estimate_nonneg (pos n) most h e =
    let found : towards_zero (pos 15 *ℤ pos n) 10 ≡ most = ok_inj _ most e in
    subst (λ z. pos 0 ≤ℤ z) found (omega arith)
estimate_nonneg (negsuc n) most h e = absurd (omega (arith, h))

-- The rate control near its maximum, with a bitrate of one million.
abbrev control : AimdRateControl fractions
control = record (new_rate_control fractions) {
  current_bitrate = pos 1000000;
  current_bitrate_initialized = true;
  last_change_ms = some 5000;
  near_max = true;
}

control-IsReady : IsReady fractions control
control-IsReady = record {
  dated = λ e. (5000, refl);
  positive = omega arith;
  known = omega arith;
  settled = λ e. cc;
}

update-IsReady_example :
    Outcome fractions
      (λ r. IsReady fractions (r.1) × Promise fractions normal (pos 900000) control (r.0) (r.1))
      (Aimd.update fractions normal (some (pos 900000)) 5200 control)
update-IsReady_example =
    update-IsReady fractions ceil_positive estimate_nonneg normal (some (pos 900000)) 5200 control
      control-IsReady (omega arith)

-- A negative average has no root: `math.sqrt` raises ValueError.
negative_average :
    Aimd.update fractions overusing
      (some (pos 900000))
      5200
      (record control { avg_max_bitrate_kbps = some (negsuc 0, 1) })
    ≡ raise value_error
unfolding Aimd.update Aimd.update_initialised
negative_average = refl

fractions-IsOrdered : IsOrderedFloat fractions
fractions-IsOrdered = record {
  total = λ a b h k e. ground arith;
  apart = refl;
  low = refl;
  across = refl;
  high = refl;
}

new_trendline-IsBounded : IsBounded fractions (new_trendline fractions)
new_trendline-IsBounded = record {
  hist_short = omega arith;
  deltas_capped = omega arith;
  threshold_between = inl (refl, refl);
}

update-IsBounded_example :
    ((ltb_ℤ (pos 500) (pos 40) ≡ true)
      × (Trendline.update fractions (pos 40) (pos 30) 1000 (new_trendline fractions)
          ≡ raise value_error))
    ⊎ ((ltb_ℤ (pos 500) (pos 40) ≡ false)
        × Outcome fractions
            (IsBounded fractions)
            (Trendline.update fractions (pos 40) (pos 30) 1000 (new_trendline fractions)))
update-IsBounded_example =
    update-IsBounded fractions fractions-IsOrdered (pos 40) (pos 30) 1000 (new_trendline fractions)
      new_trendline-IsBounded

new_send_side-IsSound : IsSound fractions (new_send_side fractions)
unfolding IsCounted Refines IsTimed
new_send_side-IsSound = record {
  counted = (no_samples, inl (refl, refl), tt);
  filled = (tt, tt);
  bounded = new_trendline-IsBounded;
  ready = record {
    dated = λ e. cc;
    positive = omega arith;
    known = omega arith;
    settled = λ e. cc;
  };
}

add-Returns_example :
    Outcome fractions
      (Taken fractions 1000)
      (SendSide.add fractions 1000 980 1200 (new_send_side fractions))
    ⊎ ((SendSide.add fractions 1000 980 1200 (new_send_side fractions) ≡ raise value_error)
        × Refused fractions 1000 980 1200 (new_send_side fractions))
add-Returns_example =
    add-Returns fractions fractions-IsOrdered ceil_positive estimate_nonneg 1000 980 1200
      (new_send_side fractions) (omega arith) new_send_side-IsSound
