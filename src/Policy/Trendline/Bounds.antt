-- ===== src/Policy/Trendline/Bounds.antt =====
-- `TrendlineEstimator`: the bounds of its window, its counter and its threshold.
use pure_webrtc_transport.Base.{
  ℕ, ◌+◌, ◌==◌, ◌&&◌, Bool, Option, none, some, if◌then◌else◌, ◌≤◌, ◌≡◌, refl, ◌⊎◌, inl, inr, true,
  false, Bool-cases, List, [], ◌∷◌, ◌++◌, length, ltb, ltb→le, arith,
}
use pure_webrtc_transport.Base.Int.{ℤ, pos, ◌-ℤ◌, ltb_ℤ}
use pure_webrtc_transport.Base.Result.{raise, value_error}
use pure_webrtc_transport.Policy.Float.{
  Float, Outcome, Any, Outcome-bind, Outcome-map, Between, clamp-Between, quotient-Outcome,
  convert-Outcome, linregress-Outcome,
}
use pure_webrtc_transport.Policy.Aimd.{overusing}
use pure_webrtc_transport.Policy.Trendline.{
  PacketTiming, trend_of, detect_overuse, overusing_for, TrendlineEstimator, window_size, pop_left,
  adapt, update_threshold, detect_with, detect, add_point, update, first_or,
}

length-pop_left {ℓ} : {A : Type ℓ} (xs : List A) → length (pop_left xs) ≤ window_size
length-pop_left [] = omega arith
length-pop_left (x ∷ xs) = elim (Bool-cases (ltb window_size (length (x ∷ xs)))) [
  | inl e ↦ rw e (length-pop_left xs)
  | inr e ↦ rw e (ltb→le window_size (length (x ∷ xs)) e)
]

module _ (R : Float) where
  -- At most 50 points, at most 1000 deltas, a threshold from 6 to 600 or NaN.
  pub record IsBounded (self : TrendlineEstimator R) : Type 0 where
    pub hist_short : length self.delay_hist ≤ 50
    pub deltas_capped : self.num_of_deltas ≤ 1000
    pub threshold_between : Between R (R.of_int (pos 6)) (R.of_int (pos 600)) self.threshold

  -- The comparison of floats: of two numbers that are not NaN one is at most the other, and 6 and 600
  -- are in order.
  pub record IsOrdered : Type 0 where
    pub total : (a b : R.F) → R.le a a ≡ true → R.le b b ≡ true → R.lt a b ≡ false → R.le b a ≡ true
    pub apart : R.lt (R.of_int (pos 600)) (R.of_int (pos 6)) ≡ false
    pub low : R.le (R.of_int (pos 6)) (R.of_int (pos 6)) ≡ true
    pub across : R.le (R.of_int (pos 6)) (R.of_int (pos 600)) ≡ true
    pub high : R.le (R.of_int (pos 600)) (R.of_int (pos 600)) ≡ true

  module _ (order : IsOrdered) where
    adapt-IsBounded :
        (modified : R.F) (last now : ℕ) (self : TrendlineEstimator R)
        → IsBounded self
        → Outcome R IsBounded (adapt R modified last now self)
    adapt-IsBounded modified last now self h =
        Outcome-bind R _ IsBounded _ _ (convert-Outcome R _) (λ delta e. inl (
          _,
          refl,
          record {
            hist_short = h.hist_short;
            deltas_capped = h.deltas_capped;
            threshold_between =
                clamp-Between R (R.of_int (pos 6)) (R.of_int (pos 600)) _ order.total order.apart
                  order.low order.across order.high;
          },
        ))

    update_threshold-IsBounded :
        (modified : R.F) (now : ℕ) (self : TrendlineEstimator R)
        → IsBounded self
        → Outcome R IsBounded (update_threshold R modified now self)
    unfolding update_threshold
    update_threshold-IsBounded modified now self h =
        elim (Bool-cases (R.lt (R.add self.threshold (R.of_int (pos 15))) (R.abs modified))) [
          | inl e ↦ rw e (
              inl (
                _,
                refl,
                record {
                  hist_short = h.hist_short;
                  deltas_capped = h.deltas_capped;
                  threshold_between = h.threshold_between;
                },
              ))
          | inr e ↦
              rw e
                (adapt-IsBounded modified (first_or self.last_threshold_update_ms now) now self h)
        ]

    -- The detection changes neither the points nor the threshold.
    detect_overuse-IsBounded :
        (trend : R.F) (send_delta_ms : ℤ) (self : TrendlineEstimator R)
        → IsBounded self
        → Outcome R IsBounded (detect_overuse R trend send_delta_ms self)
    detect_overuse-IsBounded trend send_delta_ms self h =
        Outcome-bind R (Any R) IsBounded _ _ (time self.time_over_using) (λ t e. inl (
          _,
          refl,
          kept t (
              (R.lt (R.of_int (pos 10)) t && ltb 1 (self.overuse_count + 1))
              && R.lt self.prev_trend trend),
        ))
      where
        time : (o : Option R.F) → Outcome R (Any R) (overusing_for R o send_delta_ms)
        time none = Outcome-map R _ (Any R) _ (quotient-Outcome R send_delta_ms 2) (λ x e p. tt)
        time (some t) =
            Outcome-bind R _ (Any R) _ _ (convert-Outcome R send_delta_ms)
              (λ d e. inl (_, refl, tt))

        kept :
            (t : R.F) (b : Bool)
            → IsBounded (
                if b
                then record self { time_over_using = none; overuse_count = 0; usage = overusing }
                else record self {
                  time_over_using = some t;
                  overuse_count = self.overuse_count + 1;
                })
        kept t true = record {
          hist_short = h.hist_short;
          deltas_capped = h.deltas_capped;
          threshold_between = h.threshold_between;
        }
        kept t false = record {
          hist_short = h.hist_short;
          deltas_capped = h.deltas_capped;
          threshold_between = h.threshold_between;
        }

    detect_with-IsBounded :
        (modified trend : R.F) (send_delta_ms : ℤ) (self : TrendlineEstimator R)
        → IsBounded self
        → Outcome R IsBounded (detect_with R modified trend send_delta_ms self)
    detect_with-IsBounded modified trend send_delta_ms self h =
        elim (Bool-cases (R.lt self.threshold modified)) [
          | inl e ↦ simp e (detect_overuse-IsBounded trend send_delta_ms self h)
          | inr e ↦ elim (Bool-cases (R.lt modified (R.neg self.threshold))) [
            | inl f ↦
                simp (e, f)
                  (inl (
                    _,
                    refl,
                    record {
                      hist_short = h.hist_short;
                      deltas_capped = h.deltas_capped;
                      threshold_between = h.threshold_between;
                    },
                  ))
            | inr f ↦
                simp (e, f)
                  (inl (
                    _,
                    refl,
                    record {
                      hist_short = h.hist_short;
                      deltas_capped = h.deltas_capped;
                      threshold_between = h.threshold_between;
                    },
                  ))
          ]
        ]

    detect-IsBounded :
        (trend : R.F) (send_delta_ms : ℤ) (arrival : ℕ) (self : TrendlineEstimator R)
        → IsBounded self
        → Outcome R IsBounded (detect R trend send_delta_ms arrival self)
    unfolding detect
    detect-IsBounded trend send_delta_ms arrival self h =
        elim (Bool-cases (ltb self.num_of_deltas 2)) [
          | inl e ↦ rw e (
              inl (
                _,
                refl,
                record {
                  hist_short = h.hist_short;
                  deltas_capped = h.deltas_capped;
                  threshold_between = h.threshold_between;
                },
              ))
          | inr e ↦ rw e (
              Outcome-bind R IsBounded IsBounded _ _
                (detect_with-IsBounded _ trend send_delta_ms self h)
                (λ after k.
                  update_threshold-IsBounded _ arrival (record after { prev_trend = trend })
                    record {
                      hist_short = k.hist_short;
                      deltas_capped = k.deltas_capped;
                      threshold_between = k.threshold_between;
                    }))
        ]

    add_point-IsBounded :
        (delta_ms : ℤ) (arrival : ℕ) (self : TrendlineEstimator R)
        → IsBounded self
        → Outcome R (λ p. IsBounded (p.1)) (add_point R delta_ms arrival self)
    add_point-IsBounded delta_ms arrival self h =
        Outcome-bind R _ (λ p. IsBounded (p.1)) _ _ (convert-Outcome R _)
          (λ delay e.
            Outcome-bind R (Any R) (λ p. IsBounded (p.1)) _ _ (trend _)
              (λ t f. inl (
                _,
                refl,
                record {
                  hist_short = length-pop_left (self.delay_hist ++ (_ ∷ []));
                  deltas_capped = omega arith;
                  threshold_between = h.threshold_between;
                },
              )))
      where
        trend : (hist : List (PacketTiming R)) → Outcome R (Any R) (trend_of R hist self.prev_trend)
        trend hist = elim (Bool-cases (length hist == window_size)) [
          | inl e ↦ rw e (Outcome-map R _ (Any R) _ (linregress-Outcome R _ _) (λ x p q. tt))
          | inr e ↦ rw e (inl (_, refl, tt))
        ]

    -- `update` raises ValueError for a receive delta above 500. Otherwise it lets the exception of an
    -- operation on floats or of `linregress` pass, or returns, keeping at most 50 points, a delta
    -- count of at most 1000 and a threshold that is from 6 to 600 or NaN. Of floats it needs that of
    -- two that are not NaN one is at most the other, and that 6 and 600 are in order.
    pub update-IsBounded :
        (recv_delta_ms send_delta_ms : ℤ) (arrival : ℕ) (self : TrendlineEstimator R)
        → IsBounded self
        → ((ltb_ℤ (pos 500) recv_delta_ms ≡ true)
            × (update R recv_delta_ms send_delta_ms arrival self ≡ raise value_error))
          ⊎ ((ltb_ℤ (pos 500) recv_delta_ms ≡ false)
              × Outcome R IsBounded (update R recv_delta_ms send_delta_ms arrival self))
    unfolding update
    update-IsBounded recv_delta_ms send_delta_ms arrival self h =
        elim (Bool-cases (ltb_ℤ (pos 500) recv_delta_ms)) [
          | inl e ↦ inl (e, rw e refl)
          | inr e ↦ inr (
            e,
            rw e (
                Outcome-bind R (λ p. IsBounded (p.1)) IsBounded _ _
                  (add_point-IsBounded (recv_delta_ms -ℤ send_delta_ms) arrival self h)
                  (λ p k. detect-IsBounded (p.0) send_delta_ms arrival (p.1) k)),
          )
        ]
