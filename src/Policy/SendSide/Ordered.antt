-- ===== src/Policy/SendSide/Ordered.antt =====
-- `SendSideDelayBasedBitrateEstimator.add`: which exceptions leave it.
use pure_webrtc_transport.Base.{
  ℕ, ◌≤◌, ◌<◌, ◌≡◌, ◌≢◌, refl, sym, subst, ◌∙◌, ◌⊎◌, inl, inr, true, false, ◌||◌, Bool-cases,
  Option, none, some, ltb, arith,
}
use pure_webrtc_transport.Base.Int.{ℤ, pos, ◌≤ℤ◌, ltb_ℤ}
use pure_webrtc_transport.Base.Result.{ok, raise, value_error}
use pure_webrtc_transport.Policy.Float.{Float, Outcome, Outcome-bind}
use pure_webrtc_transport.Policy.RateCounter.{rate}
use pure_webrtc_transport.Policy.InterArrival.{
  InterArrivalDeltaMillisecond, InterArrivalMillisecond, compute_deltas,
}
use pure_webrtc_transport.Policy.InterArrival.Deltas.{IsFilled, compute_deltas-IsFilled}
use pure_webrtc_transport.Policy.Aimd.{
  feedback_interval, is_overusing, throughput_or, BandwidthUsage, AimdRateControl,
}
use pure_webrtc_transport.Policy.Aimd.{estimate}
use pure_webrtc_transport.Policy.Aimd.Rates.{IsReady}
use pure_webrtc_transport.Policy.Aimd.Ready.{update-IsReady, Promise}
use pure_webrtc_transport.Policy.Trendline.{TrendlineEstimator, first_or}
use pure_webrtc_transport.Policy.Trendline.Bounds.{IsBounded, IsOrdered, update-IsBounded}
use pure_webrtc_transport.Policy.SendSide.{
  SendSideDelayBasedBitrateEstimator, is_due, update_estimator, as_throughput, note_update,
  update_estimate, add_ordered, add,
}
use pure_webrtc_transport.Policy.SendSide.Counted.{
  IsCounted, rate-IsCounted, count_packet-IsCounted,
}

module _ (R : Float) where
  pub record IsSound (self : SendSideDelayBasedBitrateEstimator R) : Type 0 where
    pub counted : IsCounted (first_or self.last_arrival_time_ms 0) self.incoming_bitrate
    pub filled : IsFilled self.inter_arrival
    pub bounded : IsBounded R self.estimator
    pub ready : IsReady R self.rate_control

  -- A bitrate that is returned is at least 10000.
  unfoldable pub AtLeast : Option ℤ → Type 0
  AtLeast none = Unit {0}
  AtLeast (some bitrate) = pos 10000 ≤ℤ bitrate

  -- What a call that returns leaves, with the arrival time of its packet.
  abbrev pub Taken : ℕ → Option ℤ × SendSideDelayBasedBitrateEstimator R → Type 0
  Taken now r = IsSound (r.1) × (r.1.last_arrival_time_ms ≡ some now) × AtLeast (r.0)

  -- Why a call raises ValueError itself: the clock went back, or two groups arrived more than 500 ms
  -- apart.
  unfoldable pub Refused : ℕ → ℕ → ℕ → SendSideDelayBasedBitrateEstimator R → Type 0
  Refused now send_time size self =
      (ltb now (first_or self.last_arrival_time_ms now) ≡ true)
      ⊎ ((d : InterArrivalDeltaMillisecond) × (filter : InterArrivalMillisecond) × (compute_deltas
              send_time now size self.inter_arrival
            ≡ ok (some d, filter))
          × (ltb_ℤ (pos 500) d.arrival_time_delta ≡ true))

  module _ (order : IsOrdered R)
      (ceil_positive : (n k : ℤ) (bits : R.F)
        → pos 1 ≤ℤ n
        → R.quotient n 30 ≡ inr bits
        → R.ceil (R.div bits (R.of_int (pos 9600))) ≡ inr k
        → k ≢ pos 0)
      (estimate_nonneg : (n most : ℤ) → pos 0 ≤ℤ n → estimate R n ≡ ok most → pos 0 ≤ℤ most) where
    update_estimate-Taken :
        (now : ℕ) (self : SendSideDelayBasedBitrateEstimator R)
        → IsSound self
        → self.last_arrival_time_ms ≡ some now
        → Outcome R (Taken now) (update_estimate R now self)
    unfolding AtLeast update_estimate Promise
    update_estimate-Taken now self h e =
        elim (Bool-cases
          (is_due self.last_update_ms feedback_interval now || is_overusing self.estimator.usage)) [
            | inl t ↦
                let measured = rate now self.incoming_bitrate in
                let (kept, rates) =
                  rate-IsCounted now now self.incoming_bitrate (omega arith) counted in
                let kept2 : IsCounted (first_or self.last_arrival_time_ms 0) (measured.1) =
                  rw e kept in
                rw t (
                  Outcome-bind R _ (Taken now) _ _
                    (update-IsReady R ceil_positive estimate_nonneg self.estimator.usage
                      (as_throughput R (measured.0)) now self.rate_control h.ready
                      (known (measured.0) rates))
                    (λ r (ready, promise).
                      let before = record self {
                        incoming_bitrate = measured.1;
                        rate_control = r.1;
                      } in
                      let sound : IsSound before = record {
                        counted = kept2;
                        filled = h.filled;
                        bounded = h.bounded;
                        ready = ready;
                      } in
                      inl (
                        _,
                        refl,
                        (
                          noted (r.0) before sound,
                          noted_arrival (r.0) before ∙ e,
                          bounds (r.0) _ _ self.rate_control (r.1) promise,
                        ),
                      )))
            | inr t ↦ rw t (inl (_, refl, (h, e, tt)))
          ]
      where
        counted : IsCounted now self.incoming_bitrate
        counted = subst (λ o. IsCounted (first_or o 0) self.incoming_bitrate) e h.counted

        known :
            (o : Option ℕ)
            → ((r : ℕ) → o ≡ some r → 0 < r)
            → pos 1 ≤ℤ throughput_or (as_throughput R o) (pos 1)
        known none h = omega arith
        known (some r) h = omega (arith, h r refl)

        noted :
            (o : Option ℤ) (s : SendSideDelayBasedBitrateEstimator R)
            → IsSound s
            → IsSound (note_update R o now s)
        noted none s h = h
        noted (some b) s h = record {
          counted = h.counted;
          filled = h.filled;
          bounded = h.bounded;
          ready = h.ready;
        }

        noted_arrival :
            (o : Option ℤ) (s : SendSideDelayBasedBitrateEstimator R)
            → (note_update R o now s).last_arrival_time_ms ≡ s.last_arrival_time_ms
        noted_arrival none s = refl
        noted_arrival (some b) s = refl

        bounds :
            (o : Option ℤ) (u : BandwidthUsage) (t : ℤ) (a b : AimdRateControl R)
            → Promise R u t a o b
            → AtLeast o
        bounds none u t a b p = tt
        bounds (some n) u t a b p = p.1

    estimator_cases :
        (delta : Option InterArrivalDeltaMillisecond) (now : ℕ) (estimator : TrendlineEstimator R)
        → IsBounded R estimator
        → Outcome R (IsBounded R) (update_estimator R delta now estimator)
          ⊎ ((d : InterArrivalDeltaMillisecond) × (delta ≡ some d)
              × (ltb_ℤ (pos 500) d.arrival_time_delta ≡ true)
              × (update_estimator R delta now estimator ≡ raise value_error))
    estimator_cases none now estimator h = inl (inl (estimator, refl, h))
    estimator_cases (some d) now estimator h =
        elim (update-IsBounded R order d.arrival_time_delta d.send_time_delta now estimator h) [
          | inl r ↦ inr (d, refl, r.0, r.1)
          | inr r ↦ inl (r.1)
        ]

    add_ordered-Taken :
        (now send_time size : ℕ) (self : SendSideDelayBasedBitrateEstimator R)
        → 0 < size
        → first_or self.last_arrival_time_ms 0 ≤ now
        → IsSound self
        → Outcome R (Taken now) (add_ordered R now send_time size self)
          ⊎ ((add_ordered R now send_time size self ≡ raise value_error)
              × Refused now send_time size self)
    unfolding add_ordered Refused
    add_ordered-Taken now send_time size self pos_size ordered h =
        let (delta, filter, step, filled) =
          compute_deltas-IsFilled send_time now size self.inter_arrival h.filled in
        let counted =
          count_packet-IsCounted size (first_or self.last_arrival_time_ms 0) now
            self.incoming_bitrate self.incoming_bitrate_initialized pos_size ordered h.counted in
        elim (estimator_cases delta now self.estimator h.bounded) [
          | inl r ↦ inl (
              rw step (
                Outcome-bind R (IsBounded R) (Taken now) _ _ r (λ estimator bounded.
                  update_estimate-Taken now _
                    record {
                      counted = counted;
                      filled = filled;
                      bounded = bounded;
                      ready = h.ready;
                    }
                    refl)))
          | inr r ↦
              let (d, some_d, long, run) = r in
              let raised : add_ordered R now send_time size self ≡ raise value_error =
                rw (step, run) refl in
              inr (raised, inr (d, filter, rw (← some_d) step, long))
        ]

    -- From a sound state, a packet that is not empty is refused with a ValueError because the arrival
    -- times went back or two groups arrived more than 500 ms apart; or the exception of an operation on
    -- floats or of `linregress` passes; or the packet is taken in, leaving a sound state with its
    -- arrival time and returning no bitrate or one of at least 10000. No None is computed with and
    -- nothing is divided by zero. The rate of the counter is a quotient of integers, rounded. Of floats
    -- it needs that of two that are not NaN one is at most the other, that 6 and 600 are in order, that
    -- a positive bitrate over 30 and 9600 does not round up to 0, and that `int(1.5 * t)` is not
    -- negative where t is not.
    pub add-Returns :
        (now send_time size : ℕ) (self : SendSideDelayBasedBitrateEstimator R)
        → 0 < size
        → IsSound self
        → Outcome R (Taken now) (add R now send_time size self)
          ⊎ ((add R now send_time size self ≡ raise value_error) × Refused now send_time size self)
    unfolding add Refused
    add-Returns now send_time size self pos_size h =
        elim (Bool-cases (ltb now (first_or self.last_arrival_time_ms now))) [
          | inl e ↦ inr (rw e refl, inl e)
          | inr e ↦
              let same : add R now send_time size self ≡ add_ordered R now send_time size self =
                rw e refl in
              let ordered = in_order self.last_arrival_time_ms e in
              subst
                (λ m.
                  Outcome R (Taken now) m
                  ⊎ ((m ≡ raise value_error) × Refused now send_time size self))
                (sym same) (add_ordered-Taken now send_time size self pos_size ordered h)
        ]
      where
        in_order : (o : Option ℕ) → ltb now (first_or o now) ≡ false → first_or o 0 ≤ now
        in_order none e = omega arith
        in_order (some t) e = ground (arith, e)
