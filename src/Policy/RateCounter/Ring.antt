-- ===== src/Policy/RateCounter/Ring.antt =====
-- `RateCounter`: the buckets read in the order of time, from the origin on round the ring.
use pure_webrtc_transport.Base.{
  ℕ, zero, suc, ◌+◌, ◌-◌, ◌%◌, ◌≤◌, ◌<◌, ◌≡◌, ◌≢◌, refl, ap, ◌∙◌, List, [], ◌∷◌, length, replicate,
  ltb, leb, ◌==◌, if◌then◌else◌, Bool, true, false, Bool-cases, inl, inr, arith, All,
}
use native.Mathlib.Nat.{mod-eq_of_lt, mod-eq-sub-mod}
use pure_webrtc_transport.Base.Int.{sub_ℕ}
use pure_webrtc_transport.Utils.{mask}
use pure_webrtc_transport.Policy.RateCounter.{RateBucket, empty, take_out, get_or, modify}
use pure_webrtc_transport.Policy.RateCounter.Window.{tally}

pub length-modify :
    (f : RateBucket → RateBucket) (bs : List RateBucket) (i : ℕ)
    → length (modify f bs i) ≡ length bs
length-modify f [] i = refl
length-modify f (b ∷ bs) zero = refl
length-modify f (b ∷ bs) (suc i) = ap suc (length-modify f bs i)

pub get_or-modify :
    (f : RateBucket → RateBucket) (bs : List RateBucket) (i : ℕ)
    → i < length bs
    → get_or (modify f bs i) i ≡ f (get_or bs i)
get_or-modify f [] i h = absurd (omega arith)
get_or-modify f (b ∷ bs) zero h = refl
get_or-modify f (b ∷ bs) (suc i) h = get_or-modify f bs i (omega arith)

pub get_or-modify_ne :
    (f : RateBucket → RateBucket) (bs : List RateBucket) (i j : ℕ)
    → i ≢ j
    → get_or (modify f bs i) j ≡ get_or bs j
get_or-modify_ne f [] i j h = refl
get_or-modify_ne f (b ∷ bs) zero zero h = absurd (h refl)
get_or-modify_ne f (b ∷ bs) zero (suc j) h = refl
get_or-modify_ne f (b ∷ bs) (suc i) zero h = refl
get_or-modify_ne f (b ∷ bs) (suc i) (suc j) h = get_or-modify_ne f bs i j (λ e. h (ap suc e))

pub get_or-replicate : (n i : ℕ) → get_or (replicate n empty) i ≡ empty
get_or-replicate zero i = refl
get_or-replicate (suc n) zero = refl
get_or-replicate (suc n) (suc i) = get_or-replicate n i

-- A step of less than one turn, from a place of the ring.
pub wrap : (w o i : ℕ) → o < w → i ≤ w → (o + i) % w ≡ (if ltb (o + i) w then o + i else o + i - w)
wrap w o i h k = elim (Bool-cases (ltb (o + i) w)) [
  | inl e ↦ rw e (mod-eq_of_lt (ground arith))
  | inr e ↦
      let under : o + i - w < w = ground arith in
      rw e (mod-eq-sub-mod {n = o + i} {m = w} (ground arith) ∙ mod-eq_of_lt under)
]

pub wrap_lt : (w o i : ℕ) → o < w → i ≤ w → (o + i) % w < w
wrap_lt w o i h k = ground (arith, wrap w o i h k)

pub wrap_ne : (w o i j : ℕ) → o < w → i < w → j < w → i ≢ j → (o + i) % w ≢ (o + j) % w
wrap_ne w o i j h hi hj ne = λ e. ground (arith, wrap w o i h, wrap w o j h)

pub wrap_suc : (w o i : ℕ) → o < w → i < w → ((o + 1) % w + i) % w ≡ (o + suc i) % w
wrap_suc w o i h hi =
    let next = wrap w o 1 h (omega arith) in
    let there = wrap w ((o + 1) % w) i (wrap_lt w o 1 h (omega arith)) (omega arith) in
    let all = wrap w o (suc i) h (omega arith) in ground (arith, next, there, all)

-- The index that `add` computes.
pub mask-sub :
    (w o origin now : ℕ) → origin ≤ now → mask (sub_ℕ (o + now) origin) w ≡ (o + (now - origin)) % w
mask-sub w o origin now h =
    let test : leb origin (o + now) ≡ true = ground arith in rw test (ap (λ n. n % w) (omega arith))

-- The samples from a time on are those at the time and those from the next time on.
tally_split :
    (origin : ℕ) (seen : List (ℕ × ℕ))
    → let from = tally (λ time. leb origin time) seen in
      let at = tally (λ time. time == origin) seen in
      let later = tally (λ time. leb (origin + 1) time) seen in
      (from.count ≡ at.count + later.count) × (from.value ≡ at.value + later.value)
tally_split origin [] = (refl, refl)
tally_split origin ((time, value) ∷ seen) = ground (arith, tally_split origin seen)

bucket_eq : (a b : RateBucket) → a.count ≡ b.count → a.value ≡ b.value → a ≡ b
bucket_eq a b h k = cc

pub tally-suc :
    (origin : ℕ) (seen : List (ℕ × ℕ))
    → take_out (tally (λ time. time == origin) seen) (tally (λ time. leb origin time) seen)
      ≡ tally (λ time. leb (origin + 1) time) seen
tally-suc origin seen =
    let (counts, values) = tally_split origin seen in
    bucket_eq
      (take_out (tally (λ time. time == origin) seen) (tally (λ time. leb origin time) seen))
      (tally (λ time. leb (origin + 1) time) seen) (omega (arith, counts)) (omega (arith, values))

pub tally_unseen :
    (p : ℕ → Bool) (seen : List (ℕ × ℕ)) → All (λ s. p (s.0) ≡ false) seen → tally p seen ≡ empty
tally_unseen p [] h = refl
tally_unseen p ((time, value) ∷ seen) (h, hs) = rw h (tally_unseen p seen hs)

pub All-map :
    (P Q : ℕ × ℕ → Type 0) (xs : List (ℕ × ℕ)) → ((x : ℕ × ℕ) → P x → Q x) → All P xs → All Q xs
All-map P Q [] f h = tt
All-map P Q (x ∷ xs) f (h, hs) = (f x h, All-map P Q xs f hs)
