-- ===== src/Policy/RateCounter/Window.antt =====
-- What `RateCounter` promises: the samples of the last `window_size` milliseconds.
use pure_webrtc_transport.Base.{
  ℕ, ◌+◌, ◌-◌, ◌≤◌, Bool, Option, none, some, List, [], ◌∷◌, max, leb, if◌then◌else◌,
}
use pure_webrtc_transport.Policy.RateCounter.{
  RateBucket, RateCounter, empty, put, rate_at, add, rate, reset,
}

-- Every sample since the last reset with its time, the newest first, and the time of the oldest
-- sample that still counts.
pub record Samples : Type 0 where
  pub since : Option ℕ
  pub seen : List (ℕ × ℕ)

abbrev pub no_samples : Samples
no_samples = record { since = none; seen = [] }

-- How many samples are at the times that the test picks, and how much they add up to.
abbrev pub tally : (ℕ → Bool) → List (ℕ × ℕ) → RateBucket
tally p [] = empty
tally p ((time, value) ∷ seen) = if p time then put value (tally p seen) else tally p seen

abbrev pub window_start : ℕ → ℕ → Option ℕ → ℕ
window_start size now none = now
window_start size now (some origin) = max origin (now + 1 - size)

abbrev pub sample : ℕ → ℕ → ℕ → Samples → Samples
sample size value now s = record {
  since = some (window_start size now s.since);
  seen = (now, value) ∷ s.seen;
}

abbrev pub measure : ℕ → ℕ → ℕ → Samples → Option ℕ × Samples
measure size scale now s = elim s.since [
  | none ↦ (none, s)
  | some origin ↦
      let start = max origin (now + 1 - size) in
      (
        rate_at scale now start (tally (λ time. leb start time) s.seen),
        record s { since = some start },
      )
]

-- The calls of a client, and what it sees of them.
pub data Call : Type 0 where
  adds : ℕ → ℕ → Call
  rates : ℕ → Call
  resets : Call

unfoldable pub run_window : ℕ → ℕ → List Call → Samples → List (Option ℕ)
run_window size scale [] s = []
run_window size scale (adds value now ∷ calls) s =
    run_window size scale calls (sample size value now s)
run_window size scale (rates now ∷ calls) s =
    let (seen, next) = measure size scale now s in seen ∷ run_window size scale calls next
run_window size scale (resets ∷ calls) s = run_window size scale calls no_samples

unfoldable pub run_counter : List Call → RateCounter → List (Option ℕ)
run_counter [] self = []
run_counter (adds value now ∷ calls) self = run_counter calls (add value now self)
run_counter (rates now ∷ calls) self =
    let (seen, next) = rate now self in seen ∷ run_counter calls next
run_counter (resets ∷ calls) self = run_counter calls (reset self)

-- The clock does not go back.
unfoldable pub IsOrdered : ℕ → List Call → Type 0
IsOrdered last [] = Unit {0}
IsOrdered last (adds value now ∷ calls) = (last ≤ now) × IsOrdered now calls
IsOrdered last (rates now ∷ calls) = (last ≤ now) × IsOrdered now calls
IsOrdered last (resets ∷ calls) = IsOrdered last calls
