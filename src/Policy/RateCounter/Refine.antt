-- ===== src/Policy/RateCounter/Refine.antt =====
-- `RateCounter` against the samples of the last `window_size` milliseconds.
use pure_webrtc_transport.Base.{
  ℕ, zero, suc, ◌+◌, ◌-◌, ◌%◌, ◌≤◌, ◌<◌, ◌≡◌, ◌≢◌, refl, sym, ap, subst, ◌∙◌, ◌⊎◌, inl, inr, true,
  false, some, List, [], ◌∷◌, max, length, length-replicate, All, ltb, leb, ◌==◌, Bool-cases, arith,
}
use native.Mathlib.Decide.{ℕ_discrete}
use pure_webrtc_transport.Base.Int.{sub_ℕ}
use pure_webrtc_transport.Utils.{mask}
use pure_webrtc_transport.Policy.RateCounter.{
  RateCounter, empty, put, get_or, modify, new_rate_counter, reset, erase_bucket, erase_from,
  erase_old, or_now, add_from, rate_from, add_at, add, rate, rate_at,
}
use pure_webrtc_transport.Policy.RateCounter.Ring.{
  length-modify, get_or-modify, get_or-modify_ne, get_or-replicate, wrap, wrap_lt, wrap_ne,
  wrap_suc, mask-sub, tally-suc, tally_unseen, All-map,
}
use pure_webrtc_transport.Policy.RateCounter.Window.{
  Samples, no_samples, tally, sample, measure, Call, adds, rates, resets, run_window, run_counter,
  IsOrdered,
}

module _ (w scale : ℕ) where
  -- The ring from the origin on holds the samples by time, and the total those from the origin on.
  pub record Agrees (origin : ℕ) (self : RateCounter) (seen : List (ℕ × ℕ)) : Type 0 where
    window_eq : self.window_size ≡ w
    scale_eq : self.scale ≡ scale
    origin_eq : self.origin_ms ≡ some origin
    length_eq : length self.buckets ≡ w
    index_lt : self.origin_index < w
    bucket_eq :
        (i : ℕ)
        → i < w
        → get_or self.buckets ((self.origin_index + i) % w)
          ≡ tally (λ time. time == origin + i) seen
    total_eq : self.total ≡ tally (λ time. leb origin time) seen
    recent : All (λ s. s.0 < origin + w) seen

  erase_bucket-Agrees :
      (origin : ℕ) (self : RateCounter) (seen : List (ℕ × ℕ))
      → Agrees origin self seen
      → Agrees (origin + 1) (erase_bucket origin self) seen
  erase_bucket-Agrees origin self seen a = record {
    window_eq = a.window_eq;
    scale_eq = a.scale_eq;
    origin_eq = refl;
    length_eq = length-modify (λ b. empty) self.buckets self.origin_index ∙ a.length_eq;
    index_lt =
        rw a.window_eq (wrap_lt w self.origin_index 1 a.index_lt (omega (arith, a.index_lt)));
    bucket_eq = buckets;
    total_eq = totals;
    recent = All-map _ _ seen (λ s h. omega (arith, h)) a.recent;
  }
    where
      first : get_or self.buckets self.origin_index ≡ tally (λ time. time == origin) seen
      first =
          let here : (self.origin_index + 0) % w ≡ self.origin_index =
            ground (arith, wrap w self.origin_index 0 a.index_lt (omega arith), a.index_lt) in
          let same : origin + 0 ≡ origin = omega arith in
          let at = a.bucket_eq 0 (omega (arith, a.index_lt)) in (rw (here, same) at at)

      totals : (erase_bucket origin self).total ≡ tally (λ time. leb (origin + 1) time) seen
      totals = rw (first, a.total_eq) (tally-suc origin seen)

      buckets :
          (i : ℕ)
          → i < w
          → get_or
              (erase_bucket origin self).buckets
              (((erase_bucket origin self).origin_index + i) % w)
            ≡ tally (λ time. time == origin + 1 + i) seen
      buckets i h = elim (ℕ_discrete (suc i) w) [
        | yes last ↦
            let here : ((self.origin_index + 1) % w + i) % w ≡ self.origin_index = ground (
              arith,
              wrap_suc w self.origin_index i a.index_lt h,
              wrap w self.origin_index w a.index_lt (omega arith),
              a.index_lt,
            ) in
            let inside : self.origin_index < length self.buckets =
              omega (arith, a.index_lt, a.length_eq) in
            let unseen =
              tally_unseen (λ time. time == origin + 1 + i) seen
                (All-map _ _ seen (λ s h. ground arith) a.recent) in
            rw (a.window_eq, here, unseen)
              (get_or-modify (λ b. empty) self.buckets self.origin_index inside)
        | no more ↦
            let next : ((self.origin_index + 1) % w + i) % w ≡ (self.origin_index + suc i) % w =
              wrap_suc w self.origin_index i a.index_lt h in
            let apart : self.origin_index ≢ (self.origin_index + suc i) % w = λ e.
              ground
                (arith, wrap w self.origin_index (suc i) a.index_lt (omega arith), a.index_lt) in
            let same : origin + suc i ≡ origin + 1 + i = omega arith in
            let at = a.bucket_eq (suc i) (omega arith) in
            rw (a.window_eq, next, ← same)
              (get_or-modify_ne (λ b. empty) self.buckets self.origin_index
                  ((self.origin_index + suc i) % w) apart
                ∙ at)
      ]

  -- With enough fuel the loop stops where the window of `now` begins.
  erase_from-Agrees :
      (fuel now origin : ℕ) (self : RateCounter) (seen : List (ℕ × ℕ))
      → now < fuel + origin + w
      → Agrees origin self seen
      → Agrees (max origin (now + 1 - w)) (erase_from fuel now origin self) seen
  erase_from-Agrees zero now origin self seen enough a =
      let same : origin ≡ max origin (now + 1 - w) = omega (arith, enough) in
      subst (λ o. Agrees o self seen) same a
  erase_from-Agrees (suc fuel) now origin self seen enough a =
      elim (Bool-cases (ltb (origin + w) (now + 1))) [
        | inl e ↦
            let same : max (origin + 1) (now + 1 - w) ≡ max origin (now + 1 - w) = ground arith in
            let rest =
              erase_from-Agrees fuel now (origin + 1) (erase_bucket origin self) seen
                (omega (arith, enough)) (erase_bucket-Agrees origin self seen a) in
            let test : ltb (origin + self.window_size) (now + 1) ≡ true = rw a.window_eq e in
            rw test (
              subst
                (λ o. Agrees o (erase_from fuel now (origin + 1) (erase_bucket origin self)) seen)
                same rest)
        | inr e ↦
            let same : origin ≡ max origin (now + 1 - w) = ground arith in
            let test : ltb (origin + self.window_size) (now + 1) ≡ false = rw a.window_eq e in
            rw test (subst (λ o. Agrees o self seen) same a)
      ]

  erase_old-Agrees :
      (now origin : ℕ) (self : RateCounter) (seen : List (ℕ × ℕ))
      → Agrees origin self seen
      → Agrees (max origin (now + 1 - w)) (erase_old now origin self) seen
  unfolding erase_old
  erase_old-Agrees now origin self seen a =
      erase_from-Agrees (now + 1) now origin self seen (omega (arith, a.index_lt)) a

  add_at-Agrees :
      (value now origin : ℕ) (self : RateCounter) (seen : List (ℕ × ℕ))
      → origin ≤ now
      → now < origin + w
      → Agrees origin self seen
      → Agrees origin (add_at value now self) ((now, value) ∷ seen)
  add_at-Agrees value now origin self seen from until a = record {
    window_eq = a.window_eq;
    scale_eq = a.scale_eq;
    origin_eq = a.origin_eq;
    length_eq = length-modify (put value) self.buckets index ∙ a.length_eq;
    index_lt = a.index_lt;
    bucket_eq = buckets;
    total_eq = totals;
    recent = (until, a.recent);
  }
    where
      index : ℕ
      index = mask (sub_ℕ (self.origin_index + now) (or_now now self.origin_ms)) self.window_size

      index_eq : index ≡ (self.origin_index + (now - origin)) % w
      index_eq = rw (a.window_eq, a.origin_eq) (mask-sub w self.origin_index origin now from)

      totals : put value self.total ≡ tally (λ time. leb origin time) ((now, value) ∷ seen)
      totals = let test : leb origin now ≡ true = ground (arith, from) in rw (test, a.total_eq) refl

      buckets :
          (i : ℕ)
          → i < w
          → get_or (modify (put value) self.buckets index) ((self.origin_index + i) % w)
            ≡ tally (λ time. time == origin + i) ((now, value) ∷ seen)
      buckets i h = elim (ℕ_discrete (now - origin) i) [
        | yes same ↦
            let test : (now == origin + i) ≡ true = ground (arith, from) in
            let here : index ≡ (self.origin_index + i) % w = rw (← same) index_eq in
            let inside : (self.origin_index + i) % w < length self.buckets =
              rw a.length_eq (wrap_lt w self.origin_index i a.index_lt (omega arith)) in
            rw (here, test, ← a.bucket_eq i h)
              (get_or-modify (put value) self.buckets ((self.origin_index + i) % w) inside)
        | no other ↦
            let test : (now == origin + i) ≡ false = ground (arith, from, other) in
            let apart : index ≢ (self.origin_index + i) % w =
              rw index_eq
                (wrap_ne w self.origin_index (now - origin) i a.index_lt (omega arith) h other) in
            rw (test, ← a.bucket_eq i h)
              (get_or-modify_ne (put value) self.buckets index ((self.origin_index + i) % w) apart)
      ]

  new-Agrees :
      (now : ℕ) → 0 < w → Agrees now (record (new_rate_counter w scale) { origin_ms = some now }) []
  unfolding new_rate_counter
  new-Agrees now h = record {
    window_eq = refl;
    scale_eq = refl;
    origin_eq = refl;
    length_eq = length-replicate w empty;
    index_lt = h;
    bucket_eq = λ i k. get_or-replicate w ((0 + i) % w);
    total_eq = refl;
    recent = tt;
  }

  -- A counter and the samples since its last reset, none of them after the last call.
  unfoldable pub Refines : ℕ → RateCounter → Samples → Type 0
  Refines last self s =
      ((self ≡ new_rate_counter w scale) × (s ≡ no_samples))
      ⊎ ((origin : ℕ) × (s.since ≡ some origin) × (origin ≤ last) × Agrees origin self s.seen)

  add_counting :
      (value now origin : ℕ) (self : RateCounter)
      → self.origin_ms ≡ some origin
      → add value now self ≡ add_at value now (erase_old now origin self)
  unfolding add
  add_counting value now origin self e = ap (λ o. add_from o value now self) e

  pub add-Refines :
      (value last now : ℕ) (self : RateCounter) (s : Samples)
      → 0 < w
      → last ≤ now
      → Refines last self s
      → Refines now (add value now self) (sample w value now s)
  unfolding Refines add new_rate_counter
  add-Refines value last now self s pos_w later (inl (new, none_seen)) =
      rw (new, none_seen)
        (inr (
          now,
          refl,
          omega arith,
          add_at-Agrees value now now _ [] (omega arith) (omega arith) (new-Agrees now pos_w),
        ))
  add-Refines value last now self s pos_w later (inr (origin, since, before, a)) =
      let start = max origin (now + 1 - w) in
      let after =
        add_at-Agrees value now start (erase_old now origin self) s.seen (omega arith) (omega arith)
          (erase_old-Agrees now origin self s.seen a) in
      inr (
        start,
        rw since refl,
        omega arith,
        subst (λ c. Agrees start c ((now, value) ∷ s.seen))
            (sym (add_counting value now origin self a.origin_eq)) after,
      )

  rate_counting :
      (now origin start : ℕ) (self : RateCounter) (seen : List (ℕ × ℕ))
      → self.origin_ms ≡ some origin
      → self.scale ≡ scale
      → Agrees start (erase_old now origin self) seen
      → rate now self
        ≡ (rate_at scale now start (tally (λ time. leb start time) seen), erase_old now origin self)
  unfolding rate
  rate_counting now origin start self seen e k a =
      let after = erase_old now origin self in
      ap (λ o. rate_from o now self) e
      ∙ ap (λ c. (rate_at c now (or_now now after.origin_ms) after.total, after)) k
      ∙ ap (λ o. (rate_at scale now (or_now now o) after.total, after)) a.origin_eq
      ∙ ap (λ t. (rate_at scale now start t, after)) a.total_eq

  pub rate-Refines :
      (last now : ℕ) (self : RateCounter) (s : Samples)
      → 0 < w
      → last ≤ now
      → Refines last self s
      → ((rate now self).0 ≡ (measure w scale now s).0)
        × Refines now (rate now self).1 (measure w scale now s).1
  unfolding Refines rate new_rate_counter
  rate-Refines last now self s pos_w later (inl (new, none_seen)) =
      rw (new, none_seen) (refl, inl (refl, refl))
  rate-Refines last now self s pos_w later (inr (origin, since, before, a)) =
      let start = max origin (now + 1 - w) in
      let kept = erase_old-Agrees now origin self s.seen a in
      let step = rate_counting now origin start self s.seen a.origin_eq a.scale_eq kept in
      let spec : measure w scale now s ≡ (
        rate_at scale now start (tally (λ time. leb start time) s.seen),
        record s { since = some start },
      ) =
        rw since refl in
      rw (step, spec) (refl, inr (start, refl, omega arith, kept))

  pub reset-Refines :
      (last : ℕ) (self : RateCounter) (s : Samples)
      → Refines last self s
      → Refines last (reset self) no_samples
  unfolding Refines reset new_rate_counter
  reset-Refines last self s (inl (new, none_seen)) = inl (rw new refl, refl)
  reset-Refines last self s (inr (origin, since, before, a)) = inl (
    ap (λ c. new_rate_counter self.window_size c) a.scale_eq
        ∙ ap (λ n. new_rate_counter n scale) a.window_eq,
    refl,
  )

  run_counter-Refines :
      (calls : List Call) (last : ℕ) (self : RateCounter) (s : Samples)
      → 0 < w
      → IsOrdered last calls
      → Refines last self s
      → run_counter calls self ≡ run_window w scale calls s
  unfolding IsOrdered run_counter run_window
  run_counter-Refines [] last self s pos_w h r = refl
  run_counter-Refines (adds value now ∷ calls) last self s pos_w (later, h) r =
      run_counter-Refines calls now _ _ pos_w h (add-Refines value last now self s pos_w later r)
  run_counter-Refines (rates now ∷ calls) last self s pos_w (later, h) r =
      let (seen, next) = rate-Refines last now self s pos_w later r in
      ap (λ o. o ∷ run_counter calls ((rate now self).1)) seen
      ∙ ap (λ rest. (measure w scale now s).0 ∷ rest)
          (run_counter-Refines calls now _ _ pos_w h next)
  run_counter-Refines (resets ∷ calls) last self s pos_w h r =
      run_counter-Refines calls last _ _ pos_w h (reset-Refines last self s r)

-- A client that adds amounts, asks for rates and resets, its clock never going back, sees the same
-- of a rate counter with a ring of buckets as of the plain list of samples: a rate is `scale` times
-- the sum of the samples from a start on, over the milliseconds from that start to now, rounded; the
-- start is the first sample since the reset or, if that is later, `window_size` milliseconds back.
-- There is no rate where no sample is left, and none in the millisecond of the start.
pub run_counter-run_window :
    (window_size scale : ℕ) (calls : List Call)
    → 0 < window_size
    → IsOrdered 0 calls
    → run_counter calls (new_rate_counter window_size scale)
      ≡ run_window window_size scale calls no_samples
unfolding Refines
run_counter-run_window window_size scale calls h ordered =
    run_counter-Refines window_size scale calls 0 _ _ h ordered (inl (refl, refl))
