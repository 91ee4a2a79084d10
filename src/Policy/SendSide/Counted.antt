-- ===== src/Policy/SendSide/Counted.antt =====
-- The rate counter of the send side, which has positive samples only.
use pure_webrtc_transport.Base.{
  ℕ, ◌+◌, ◌-◌, ◌*◌, ◌≤◌, ◌<◌, ◌≡◌, refl, subst, inl, inr, max, Bool, true, false, ◌&&◌, Bool-cases,
  Option, none, some, List, [], ◌∷◌, All, ltb, leb, arith,
}
use native.Mathlib.Nat.{le-div_iff_mul-le}
use pure_webrtc_transport.Policy.RateCounter.{
  RateBucket, RateCounter, rate, rate_at, round_quotient,
}
use pure_webrtc_transport.Policy.RateCounter.Window.{Samples, no_samples, tally, sample, measure}
use pure_webrtc_transport.Policy.RateCounter.Refine.{
  Refines, add-Refines, rate-Refines, reset-Refines,
}
use pure_webrtc_transport.Policy.SendSide.{count_packet, restart}

-- Samples that are not zero add up to something.
tally_positive :
    (p : ℕ → Bool) (seen : List (ℕ × ℕ))
    → All (λ s. 0 < s.1) seen
    → (tally p seen).count ≤ (tally p seen).value
tally_positive p [] h = omega arith
tally_positive p ((time, value) ∷ seen) (h, hs) = ground (arith, tally_positive p seen hs)

round_quotient_positive : (a b : ℕ) → 0 < b → b ≤ a → 0 < round_quotient a b
unfolding round_quotient
round_quotient_positive a b h k =
    let q = (le-div_iff_mul-le {k = b} {x = 1} {y = a} h).1 (omega arith) in ground (arith, q)

-- A window of 2000 milliseconds with positive samples only has a positive rate at scale 8000.
rate_at_positive :
    (now start : ℕ) (total : RateBucket) (r : ℕ)
    → now < start + 2000
    → total.count ≤ total.value
    → rate_at 8000 now start total ≡ some r
    → 0 < r
rate_at_positive now start total r k v e = elim (Bool-cases (ltb 0 total.count && ltb start now)) [
  | inl t ↦
      let q = round_quotient (8000 * total.value) (now - start + 1) in
      let some_samples : 0 < total.count = ground (arith, t) in
      let positive : 0 < q =
        round_quotient_positive (8000 * total.value) (now - start + 1) (omega arith)
          (omega (arith, v, some_samples)) in
      let same : some q ≡ some r = rw t at e in subst (λ n. 0 < n) (some_inj q r same) positive
  | inr t ↦ let never : none ≡ some r = rw t at e in cc
]
  where
    some_inj : (a b : ℕ) → some a ≡ some b → a ≡ b
    some_inj a b h = cc

-- The counter of the received bitrate, with positive samples only.
unfoldable pub IsCounted : ℕ → RateCounter → Type 0
IsCounted last counter =
    (s : Samples) × Refines 2000 8000 last counter s × All (λ x. 0 < x.1) s.seen

measure_seen : (now : ℕ) (s : Samples) → (measure 2000 8000 now s).1.seen ≡ s.seen
measure_seen now s = since_cases s.since refl
  where
    since_cases : (o : Option ℕ) → s.since ≡ o → (measure 2000 8000 now s).1.seen ≡ s.seen
    since_cases none e = rw e refl
    since_cases (some origin) e = rw e refl

measure_positive :
    (now : ℕ) (s : Samples) (r : ℕ)
    → All (λ x. 0 < x.1) s.seen
    → (measure 2000 8000 now s).0 ≡ some r
    → 0 < r
measure_positive now s r h e = since_cases s.since refl
  where
    since_cases : (o : Option ℕ) → s.since ≡ o → 0 < r
    since_cases none p = let never : none ≡ some r = rw p at e in cc
    since_cases (some origin) p =
        let start = max origin (now + 1 - 2000) in
        let there : rate_at 8000 now start (tally (λ time. leb start time) s.seen) ≡ some r =
          rw p at e in
        rate_at_positive now start (tally (λ time. leb start time) s.seen) r (omega arith)
          (tally_positive (λ time. leb start time) s.seen h) there

pub rate-IsCounted :
    (last now : ℕ) (counter : RateCounter)
    → last ≤ now
    → IsCounted last counter
    → IsCounted now (rate now counter).1 × ((r : ℕ) → (rate now counter).0 ≡ some r → 0 < r)
unfolding IsCounted
rate-IsCounted last now counter h (s, refines, positive) =
    let (seen, next) = rate-Refines 2000 8000 last now counter s (omega arith) h refines in
    (
      ((measure 2000 8000 now s).1, next, rw (measure_seen now s) positive),
      λ r e. measure_positive now s r positive (rw seen at e),
    )

restart-IsCounted :
    (o : Option ℕ) (initialized : Bool) (last : ℕ) (counter : RateCounter)
    → IsCounted last counter
    → IsCounted last (restart o initialized counter).0
unfolding IsCounted
restart-IsCounted (some r) initialized last counter h = h
restart-IsCounted none true last counter (s, refines, positive) =
    (no_samples, reset-Refines 2000 8000 last counter s refines, tt)
restart-IsCounted none false last counter h = h

pub count_packet-IsCounted :
    (size last now : ℕ) (counter : RateCounter) (initialized : Bool)
    → 0 < size
    → last ≤ now
    → IsCounted last counter
    → IsCounted now (count_packet size now counter initialized).0
unfolding IsCounted count_packet
count_packet-IsCounted size last now counter initialized pos_size h c =
    let (kept, rates) = rate-IsCounted last now counter h c in
    let (s, refines, positive) = restart-IsCounted (rate now counter).0 initialized now _ kept in
    (
      sample 2000 size now s,
      add-Refines 2000 8000 size now now _ s (omega arith) (omega arith) refines,
      (pos_size, positive),
    )
