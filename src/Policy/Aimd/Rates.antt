-- ===== src/Policy/Aimd/Rates.antt =====
-- `AimdRateControl`: the increases of the bitrate, and the throughput that is forgotten.
use pure_webrtc_transport.Base.{
  ℕ, ◌≡◌, ◌≢◌, refl, inl, inr, Bool, true, false, Bool-cases, Option, none, some, if◌then◌else◌,
  arith,
}
use pure_webrtc_transport.Base.Int.{ℤ, pos, negsuc, ◌≤ℤ◌, is_zero}
use pure_webrtc_transport.Policy.Float.{
  Float, Outcome, Any, Outcome-bind, Outcome-map, quotient-Outcome, convert-Outcome, sqrt-Outcome,
  pow-Outcome, trunc-Outcome, ceil-Outcome,
}
use pure_webrtc_transport.Policy.Aimd.{
  decrease, AimdRateControl, alpha_after, near_max_rate_increase, additive_rate_increase,
  multiplicative_rate_increase, forget_if_above, forget_if_below, rate_increase,
}

module _ (R : Float) where
  -- Between two updates: an estimate near the maximum comes with a time of change, the bitrate is
  -- positive, and no decrease is left to be done.
  pub record IsReady (self : AimdRateControl R) : Type 0 where
    pub dated : self.near_max ≡ true → (time : ℕ) × (self.last_change_ms ≡ some time)
    pub positive : pos 1 ≤ℤ self.current_bitrate
    pub known : pos 0 ≤ℤ self.latest_estimated_throughput
    pub settled : self.state ≢ decrease

  module _
      (ceil_positive : (n k : ℤ) (bits : R.F)
        → pos 1 ≤ℤ n
        → R.quotient n 30 ≡ inr bits
        → R.ceil (R.div bits (R.of_int (pos 9600))) ≡ inr k
        → k ≢ pos 0) where
    is_zero_ne : (a : ℤ) → a ≢ pos 0 → is_zero a ≡ false
    is_zero_ne (pos n) h = ground (arith, h)
    is_zero_ne (negsuc n) h = ground arith

    near_max_total :
        (self : AimdRateControl R)
        → pos 1 ≤ℤ self.current_bitrate
        → Outcome R (Any R) (near_max_rate_increase R self)
    unfolding near_max_rate_increase
    near_max_total self h =
        Outcome-bind R _ (Any R) _ _ (quotient-Outcome R self.current_bitrate 30) (λ bits q.
          Outcome-bind R _ (Any R) _ _ (ceil-Outcome R (R.div bits (R.of_int (pos 9600)))) (λ k c.
            rw (is_zero_ne k (ceil_positive self.current_bitrate k bits h q c)) (
              Outcome-bind R _ (Any R) _ _ (convert-Outcome R k) (λ packets p.
                Outcome-bind R _ (Any R) _ _ (trunc-Outcome R _) (λ b t. inl (_, refl, tt))))))

    additive_total :
        (self : AimdRateControl R) (time now : ℕ)
        → pos 1 ≤ℤ self.current_bitrate
        → Outcome R (Any R) (additive_rate_increase R (some time) now self)
    unfolding additive_rate_increase
    additive_total self time now h =
        Outcome-bind R (Any R) (Any R) _ _ (near_max_total self h) (λ more m.
          Outcome-bind R _ (Any R) _ _ (quotient-Outcome R _ 1000)
            (λ q e. Outcome-map R _ (Any R) _ (trunc-Outcome R q) (λ x t p. tt)))

    alpha_total : (last : Option ℕ) (now : ℕ) → Outcome R (Any R) (alpha_after R last now)
    alpha_total none now = inl (_, refl, tt)
    alpha_total (some last) now =
        Outcome-bind R _ (Any R) _ _ (quotient-Outcome R _ 1000)
          (λ power e. Outcome-map R _ (Any R) _ (pow-Outcome R _ power) (λ x t p. tt))

    multiplicative_total :
        (bitrate : ℤ) (last : Option ℕ) (now : ℕ)
        → Outcome R (Any R) (multiplicative_rate_increase R bitrate last now)
    unfolding multiplicative_rate_increase
    multiplicative_total bitrate last now =
        Outcome-bind R (Any R) (Any R) _ _ (alpha_total last now) (λ alpha a.
          Outcome-bind R _ (Any R) _ _ (convert-Outcome R bitrate)
            (λ b e. Outcome-map R _ (Any R) _ (trunc-Outcome R _) (λ x t p. tt)))

    pub rate_increase_total :
        (self : AimdRateControl R) (now : ℕ)
        → IsReady self
        → Outcome R (Any R) (rate_increase R now self)
    unfolding additive_rate_increase near_max_rate_increase
    rate_increase_total self now h = elim (Bool-cases self.near_max) [
      | inl e ↦
          let (time, dated) = h.dated e in rw (e, dated) (additive_total self time now h.positive)
      | inr e ↦ rw e (multiplicative_total self.current_bitrate self.last_change_ms now)
    ]

    -- An estimate that is forgotten leaves the rest of the state.
    pub forget_if_above-Outcome :
        (avg : Option R.F) (kbps : R.F) (self : AimdRateControl R)
        → IsReady self
        → Outcome R (λ s. IsReady s × (s.state ≡ self.state)) (forget_if_above R avg kbps self)
    forget_if_above-Outcome none kbps self h = inl (self, refl, (h, refl))
    forget_if_above-Outcome (some avg) kbps self h =
        Outcome-bind R (Any R) _ _ _
          (Outcome-bind R _ (Any R) _ _ (sqrt-Outcome R _) (λ sigma e. inl (_, refl, tt)))
          (λ sigma e. inl (_, refl, cleared (R.le (R.add avg sigma) kbps)))
      where
        cleared :
            (b : Bool)
            → let s =
                if b then record self { near_max = false; avg_max_bitrate_kbps = none } else self in
              IsReady s × (s.state ≡ self.state)
        cleared true = (
          record { dated = λ e. cc; positive = h.positive; known = h.known; settled = h.settled },
          refl,
        )
        cleared false = (h, refl)

    pub forget_if_below-Outcome :
        (avg : Option R.F) (kbps : R.F) (self : AimdRateControl R)
        → Outcome R
            (λ s. s.latest_estimated_throughput ≡ self.latest_estimated_throughput)
            (forget_if_below R avg kbps self)
    forget_if_below-Outcome none kbps self = inl (self, refl, refl)
    forget_if_below-Outcome (some avg) kbps self =
        Outcome-bind R (Any R) _ _ _
          (Outcome-bind R _ (Any R) _ _ (sqrt-Outcome R _) (λ sigma e. inl (_, refl, tt)))
          (λ sigma e. inl (_, refl, cleared (R.lt kbps (R.sub avg sigma))))
      where
        cleared :
            (b : Bool)
            → let s = if b then record self { avg_max_bitrate_kbps = none } else self in
              s.latest_estimated_throughput ≡ self.latest_estimated_throughput
        cleared true = refl
        cleared false = refl
