-- ===== src/Policy/Aimd/Ready.antt =====
-- `AimdRateControl.update`: what it raises, and the bounds of the target bitrate.
use pure_webrtc_transport.Base.{
  ℕ, ◌+◌, ◌≡◌, ◌≢◌, refl, ap, sym, subst, ◌∙◌, inl, inr, Bool, true, false, not, ◌&&◌, Bool-cases,
  Option, none, some, ltb, arith,
}
use pure_webrtc_transport.Base.Int.{ℤ, pos, ◌+ℤ◌, ◌≤ℤ◌, +ℤ_parts}
use pure_webrtc_transport.Base.Result.{ok}
use pure_webrtc_transport.Policy.Float.{
  Float, Outcome, Any, Outcome-bind, Outcome-map, quotient-Outcome, convert-Outcome, pow-Outcome,
  trunc-Outcome, round-Outcome,
}
use pure_webrtc_transport.Policy.Aimd.{
  BandwidthUsage, normal, underusing, overusing, is_overusing, RateControlState, hold, increase,
  decrease, AimdRateControl, estimate, clamp_to, clamp_bitrate, initialise, initialise_with,
  update_state, throughput_or, update_max_throughput_estimate, update_bitrate, update_initialised,
  update,
}
use pure_webrtc_transport.Policy.Aimd.Rates.{
  IsReady, rate_increase_total, forget_if_above-Outcome, forget_if_below-Outcome,
}

conj_not : (a b : Bool) → (not a && not b) ≡ true → (a ≡ false) × (b ≡ false)
conj_not false false h = (refl, refl)
conj_not false true h = cc
conj_not true b h = cc

module _ (R : Float) where
  clamp_to_bounds :
      (bitrate most : ℤ)
      → pos 0 ≤ℤ most
      → (pos 10000 ≤ℤ clamp_to R bitrate most) × (clamp_to R bitrate most ≤ℤ most +ℤ pos 10000)
  clamp_to_bounds bitrate most h = ground (arith, +ℤ_parts most (pos 10000))

  -- The state that an update ends in, by the use of the bandwidth that it is told of.
  abbrev pub settled_state : BandwidthUsage → RateControlState → RateControlState
  settled_state overusing state = hold
  settled_state underusing state = hold
  settled_state normal hold = increase
  settled_state normal state = state

  settled_state_ne :
      (usage : BandwidthUsage) (state : RateControlState)
      → state ≢ decrease
      → settled_state usage state ≢ decrease
  settled_state_ne overusing state h = λ e. cc
  settled_state_ne underusing state h = λ e. cc
  settled_state_ne normal hold h = λ e. cc
  settled_state_ne normal increase h = λ e. cc
  settled_state_ne normal decrease h = h

  -- What a call of `update` promises about its result, with the throughput that counts.
  unfoldable pub Promise :
      BandwidthUsage → ℤ → AimdRateControl R → Option ℤ → AimdRateControl R → Type 0
  Promise usage throughput self none next =
      (next.current_bitrate_initialized ≡ false)
      × (is_overusing usage ≡ false)
      × (next.state ≡ self.state)
  Promise usage throughput self (some bitrate) next =
      (bitrate ≡ next.current_bitrate)
      × (pos 10000 ≤ℤ bitrate)
      × ((most : ℤ) × (estimate R throughput ≡ ok most) × (bitrate ≤ℤ most +ℤ pos 10000))
      × (next.state ≡ settled_state usage self.state)

  module _
      (ceil_positive : (n k : ℤ) (bits : R.F)
        → pos 1 ≤ℤ n
        → R.quotient n 30 ≡ inr bits
        → R.ceil (R.div bits (R.of_int (pos 9600))) ≡ inr k
        → k ≢ pos 0)
      (estimate_nonneg : (n most : ℤ) → pos 0 ≤ℤ n → estimate R n ≡ ok most → pos 0 ≤ℤ most) where
    -- What is left to clamp: the fields that the clamped bitrate does not touch.
    Prepared : RateControlState → AimdRateControl R → Type 0
    Prepared state next =
        ((bitrate : ℤ) → pos 1 ≤ℤ bitrate → IsReady R (record next { current_bitrate = bitrate }))
        × (next.state ≡ state)

    abbrev result_state : RateControlState → RateControlState
    result_state decrease = hold
    result_state state = state

    update_bitrate-Prepared :
        (state : RateControlState) (throughput : ℤ) (kbps : R.F) (now : ℕ)
        (self : AimdRateControl R)
        → (self.near_max ≡ true → (time : ℕ) × (self.last_change_ms ≡ some time))
        → pos 1 ≤ℤ self.current_bitrate
        → pos 0 ≤ℤ self.latest_estimated_throughput
        → self.state ≡ state
        → Outcome R
            (λ r. Prepared (result_state state) (r.1))
            (update_bitrate R state throughput kbps now self)
    unfolding Prepared update_max_throughput_estimate
    update_bitrate-Prepared hold throughput kbps now self d p k e = inl (
      (self.current_bitrate, self),
      refl,
      ((λ b h. record { dated = d; positive = h; known = k; settled = λ f. cc }), e),
    )
    update_bitrate-Prepared increase throughput kbps now self d p k e =
        let r : IsReady R self = record { dated = d; positive = p; known = k; settled = λ f. cc } in
        Outcome-bind R _ _ _ _
          (forget_if_above-Outcome R ceil_positive self.avg_max_bitrate_kbps kbps self r)
          (λ cleared (ready, same).
            Outcome-bind R (Any R) _ _ _ (rate_increase_total R ceil_positive cleared now ready)
              (λ more m. inl (
                _,
                refl,
                (
                  (λ b h. record {
                    dated = λ f. (now, refl);
                    positive = h;
                    known = ready.known;
                    settled = ready.settled;
                  }),
                  same ∙ e,
                ),
              )))
    update_bitrate-Prepared decrease throughput kbps now self d p k e =
        Outcome-bind R _ _ _ _
          (forget_if_below-Outcome R ceil_positive self.avg_max_bitrate_kbps kbps self)
          (λ cleared same.
            Outcome-bind R (λ s. s.latest_estimated_throughput ≡ self.latest_estimated_throughput) _
              _ _ (Outcome-bind R _ _ _ _ (pow-Outcome R _ _) (λ square q. inl (_, refl, same)))
              (λ estimated still. Outcome-bind R _ _ _ _ (convert-Outcome R throughput) (λ t c.
                Outcome-bind R _ _ _ _ (round-Outcome R _) (λ bitrate q. inl (
                  _,
                  refl,
                  (
                    (λ b h. record {
                      dated = λ f. (now, refl);
                      positive = h;
                      known = rw still k;
                      settled = λ f. cc;
                    }),
                    refl,
                  ),
                )))))

    moved_state : BandwidthUsage → RateControlState → RateControlState
    moved_state normal hold = increase
    moved_state normal state = state
    moved_state overusing state = decrease
    moved_state underusing state = hold

    result-moved :
        (usage : BandwidthUsage) (state : RateControlState)
        → state ≢ decrease
        → result_state (moved_state usage state) ≡ settled_state usage state
    unfolding moved_state
    result-moved normal hold h = refl
    result-moved normal increase h = refl
    result-moved normal decrease h = absurd (h refl)
    result-moved overusing state h = refl
    result-moved underusing state h = refl

    -- `update_state` on the parts of the state that matter.
    Moves : RateControlState → AimdRateControl R → AimdRateControl R → Type 0
    Moves state self moved =
        (moved.near_max ≡ true → (time : ℕ) × (moved.last_change_ms ≡ some time))
        × (pos 1 ≤ℤ moved.current_bitrate)
        × (moved.latest_estimated_throughput ≡ self.latest_estimated_throughput)
        × (moved.state ≡ state)

    update_state-Moves :
        (usage : BandwidthUsage) (state : RateControlState) (now : ℕ) (self : AimdRateControl R)
        → self.state ≡ state
        → IsReady R self
        → Moves (moved_state usage state) self (update_state R usage state now self)
    unfolding moved_state Moves
    update_state-Moves normal hold now self e h = (λ f. (now, refl), h.positive, refl, refl)
    update_state-Moves normal increase now self e h = (h.dated, h.positive, refl, e)
    update_state-Moves normal decrease now self e h = (h.dated, h.positive, refl, e)
    update_state-Moves overusing state now self e h = (h.dated, h.positive, refl, refl)
    update_state-Moves underusing state now self e h = (h.dated, h.positive, refl, refl)

    throughput_nonneg :
        (throughput : Option ℤ) (latest : ℤ)
        → pos 1 ≤ℤ throughput_or throughput (pos 1)
        → pos 0 ≤ℤ latest
        → pos 0 ≤ℤ throughput_or throughput latest
    throughput_nonneg none latest h k = k
    throughput_nonneg (some throughput) latest h k = omega (arith, h)

    estimate-Outcome : (n : ℤ) → Outcome R (λ m. estimate R n ≡ ok m) (estimate R n)
    unfolding estimate
    estimate-Outcome n =
        Outcome-map R (Any R) _ _
          (Outcome-bind R _ (Any R) _ _ (convert-Outcome R n)
            (λ t c. Outcome-map R _ (Any R) _ (trunc-Outcome R _) (λ x e p. tt)))
          (λ x e p. e)

    clamp_bitrate-Outcome :
        (bitrate throughput : ℤ)
        → pos 0 ≤ℤ throughput
        → Outcome R
            (λ b.
              (pos 10000 ≤ℤ b)
              × ((most : ℤ) × (estimate R throughput ≡ ok most) × (b ≤ℤ most +ℤ pos 10000)))
            (clamp_bitrate R bitrate throughput)
    unfolding clamp_bitrate
    clamp_bitrate-Outcome bitrate throughput h =
        Outcome-bind R _ _ _ _ (estimate-Outcome throughput) (λ most e.
          let (low, high) = clamp_to_bounds bitrate most (estimate_nonneg throughput most h e) in
          inl (_, refl, (low, (most, e, high))))

    update_initialised-IsReady :
        (usage : BandwidthUsage) (throughput : Option ℤ) (now : ℕ) (self : AimdRateControl R)
        → IsReady R self
        → pos 1 ≤ℤ throughput_or throughput (pos 1)
        → Outcome R
            (λ r.
              IsReady R (r.1)
              × Promise usage
                  (throughput_or throughput self.latest_estimated_throughput)
                  self
                  (some (r.0))
                  (r.1))
            (update_initialised R usage throughput now self)
    unfolding update_initialised Promise Prepared Moves
    update_initialised-IsReady usage throughput now self h known =
        let moved = update_state R usage self.state now self in
        let (dated, positive, latest_eq, state_eq) =
          update_state-Moves usage self.state now self refl h in
        let counts = throughput_or throughput moved.latest_estimated_throughput in
        let latest = record moved { latest_estimated_throughput = counts } in
        let nonneg : pos 0 ≤ℤ counts =
          throughput_nonneg throughput moved.latest_estimated_throughput known
            (rw latest_eq h.known) in
        let same : counts ≡ throughput_or throughput self.latest_estimated_throughput =
          ap (throughput_or throughput) latest_eq in
        Outcome-bind R _ _ _ _ (quotient-Outcome R counts 1000) (λ kbps q.
          Outcome-bind R
            (λ (r : ℤ × AimdRateControl R).
              Prepared (result_state (moved_state usage self.state)) (r.1))
            _ _ _
            (subst
              (λ st.
                Outcome R
                  (λ (r : ℤ × AimdRateControl R).
                    Prepared (result_state (moved_state usage self.state)) (r.1))
                  (update_bitrate R st counts kbps now latest))
              (sym state_eq)
              (update_bitrate-Prepared (moved_state usage self.state) counts kbps now latest dated
                positive nonneg state_eq))
            (λ r (ready, state).
              Outcome-bind R _ _ _ _ (clamp_bitrate-Outcome (r.0) counts nonneg)
                (λ clamped (low, (most, found, high)). inl (
                  _,
                  refl,
                  (
                    ready clamped (omega (arith, low)),
                    (
                      refl,
                      low,
                      (most, rw (← same) found, high),
                      state ∙ result-moved usage self.state h.settled,
                    ),
                  ),
                ))))

    initialise_with-IsReady :
        (throughput : Option ℤ) (now : ℕ) (self : AimdRateControl R)
        → IsReady R self
        → pos 1 ≤ℤ throughput_or throughput (pos 1)
        → IsReady R (initialise_with R throughput now self)
          × ((initialise_with R throughput now self).state ≡ self.state)
          × ((initialise_with R throughput now self).latest_estimated_throughput
              ≡ self.latest_estimated_throughput)
    initialise_with-IsReady none now self h known = (h, refl, refl)
    initialise_with-IsReady (some throughput) now self h known =
        elim (Bool-cases self.current_bitrate_initialized) [
          | inl e ↦ simp e (h, refl, refl)
          | inr e ↦ simp e (initialise-IsReady self.first_estimated_throughput_time)
        ]
      where
        initialise-IsReady :
            (first : Option ℕ)
            → let next = initialise R first throughput now self in
              IsReady R next
              × (next.state ≡ self.state)
              × (next.latest_estimated_throughput ≡ self.latest_estimated_throughput)
        initialise-IsReady none = (
          record { dated = h.dated; positive = h.positive; known = h.known; settled = h.settled },
          refl,
          refl,
        )
        initialise-IsReady (some first) = elim (Bool-cases (ltb (first + 3000) now)) [
          | inl e ↦ rw e (
            record { dated = h.dated; positive = known; known = h.known; settled = h.settled },
            refl,
            refl,
          )
          | inr e ↦ rw e (h, refl, refl)
        ]

    -- From a ready state, with a throughput that is positive where it is known, `update` either lets
    -- the exception of an operation on floats pass, or returns and leaves a ready state: no None is
    -- computed with and nothing is divided by zero. It returns None, with the state machine unmoved,
    -- only while the bitrate is not initialised and the bandwidth is not overused, and otherwise the
    -- new bitrate, at least 10000 and at most 10000 above `int(1.5 * t)` for the throughput t (the last
    -- known one if there is none), and the state machine holds after overuse and underuse and goes
    -- from hold to increase on normal use. It needs that `int(1.5 * t)` is not negative where t is not,
    -- and that a positive bitrate over 30 and 9600 rounds up to a number that is not 0.
    pub update-IsReady :
        (usage : BandwidthUsage) (throughput : Option ℤ) (now : ℕ) (self : AimdRateControl R)
        → IsReady R self
        → pos 1 ≤ℤ throughput_or throughput (pos 1)
        → Outcome R
            (λ r.
              IsReady R (r.1)
              × Promise usage
                  (throughput_or throughput self.latest_estimated_throughput)
                  self
                  (r.0)
                  (r.1))
            (update R usage throughput now self)
    unfolding update Promise
    update-IsReady usage throughput now self h known =
        let started = initialise_with R throughput now self in
        let (ready, state, latest) = initialise_with-IsReady throughput now self h known in
        let counts = ap (throughput_or throughput) latest in
        elim (Bool-cases (not started.current_bitrate_initialized && not (is_overusing usage))) [
          | inl e ↦
              inl (
                (none, started),
                rw e refl,
                (ready, ((conj_not _ _ e).0, (conj_not _ _ e).1, state)),
              )
          | inr e ↦ rw e (
              Outcome-bind R _ _ _ _
                (update_initialised-IsReady usage throughput now started ready known)
                (λ r (after, (same, low, (most, found, high), moved)). inl (
                  _,
                  refl,
                  (
                    after,
                    (
                      same,
                      low,
                      (most, rw (← counts) found, high),
                      moved ∙ ap (settled_state usage) state,
                    ),
                  ),
                )))
        ]
