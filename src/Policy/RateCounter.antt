-- ===== src/Policy/RateCounter.antt =====
-- policy/cc.py: `RateCounter`, the amount received in buckets of one millisecond.
-- Times and amounts are not negative. `round(a / b)` is the exact quotient rounded half to even.
pub mod Ring
pub mod Window
pub mod Refine
use pure_webrtc_transport.Base.{
  ℕ, zero, suc, ◌+◌, ◌-◌, ◌*◌, ◌/◌, ◌%◌, Bool, ◌&&◌, Option, none, some, List, [], ◌∷◌, replicate,
  ltb, leb, ◌==◌, if◌then◌else◌,
}
use pure_webrtc_transport.Base.Int.{sub_ℕ}
use pure_webrtc_transport.Utils.{mask}

pub record RateBucket : Type 0 where
  pub count : ℕ
  pub value : ℕ

abbrev pub empty : RateBucket
empty = record { count = 0; value = 0 }

-- `bucket.count += 1; bucket.value += value`
abbrev pub put : ℕ → RateBucket → RateBucket
put value bucket = record { count = bucket.count + 1; value = bucket.value + value }

-- `total.count -= bucket.count; total.value -= bucket.value`
abbrev pub take_out : RateBucket → RateBucket → RateBucket
take_out bucket total = record {
  count = total.count - bucket.count;
  value = total.value - bucket.value;
}

pub record RateCounter : Type 0 where
  pub origin_index : ℕ
  pub origin_ms : Option ℕ
  pub scale : ℕ
  pub window_size : ℕ
  pub buckets : List RateBucket
  pub total : RateBucket

abbrev pub get_or : List RateBucket → ℕ → RateBucket
get_or [] i = empty
get_or (b ∷ bs) zero = b
get_or (b ∷ bs) (suc i) = get_or bs i

abbrev pub modify : (RateBucket → RateBucket) → List RateBucket → ℕ → List RateBucket
modify f [] i = []
modify f (b ∷ bs) zero = f b ∷ bs
modify f (b ∷ bs) (suc i) = b ∷ modify f bs i

unfoldable pub new_rate_counter : ℕ → ℕ → RateCounter
new_rate_counter window_size scale = record {
  origin_index = 0;
  origin_ms = none;
  scale = scale;
  window_size = window_size;
  buckets = replicate window_size empty;
  total = empty;
}

unfoldable pub reset : RateCounter → RateCounter
reset self = record {
  origin_index = 0;
  origin_ms = none;
  scale = self.scale;
  window_size = self.window_size;
  buckets = replicate self.window_size empty;
  total = empty;
}

-- One turn of the loop of `_erase_old`.
abbrev pub erase_bucket : ℕ → RateCounter → RateCounter
erase_bucket origin self = record {
  origin_index = (self.origin_index + 1) % self.window_size;
  origin_ms = some (origin + 1);
  scale = self.scale;
  window_size = self.window_size;
  buckets = modify (λ b. empty) self.buckets self.origin_index;
  total = take_out (get_or self.buckets self.origin_index) self.total;
}

-- The loop, given its `self._origin_ms`: it goes on while `origin < now - window_size + 1`.
abbrev pub erase_from : ℕ → ℕ → ℕ → RateCounter → RateCounter
erase_from zero now origin self = self
erase_from (suc fuel) now origin self =
    let rest = erase_from fuel now (origin + 1) (erase_bucket origin self) in
    if ltb (origin + self.window_size) (now + 1) then rest else self

-- Each turn moves the origin on by one, so that `now + 1` turns are enough.
unfoldable pub erase_old : ℕ → ℕ → RateCounter → RateCounter
erase_old now origin self = erase_from (now + 1) now origin self

-- `self._origin_ms`, where it is set.
abbrev pub or_now : ℕ → Option ℕ → ℕ
or_now now none = now
or_now now (some origin) = origin

-- The part of `add` after the branch on `self._origin_ms`. The remainder of Python is not negative.
abbrev pub add_at : ℕ → ℕ → RateCounter → RateCounter
add_at value now self = record self {
  buckets =
      modify (put value) self.buckets
        (mask (sub_ℕ (self.origin_index + now) (or_now now self.origin_ms)) self.window_size);
  total = put value self.total;
}

abbrev pub add_from : Option ℕ → ℕ → ℕ → RateCounter → RateCounter
add_from none value now self = add_at value now (record self { origin_ms = some now })
add_from (some origin) value now self = add_at value now (erase_old now origin self)

unfoldable pub add : ℕ → ℕ → RateCounter → RateCounter
add value now self = add_from self.origin_ms value now self

-- Python's `round(a / b)` for a below 2 ** 52, where the division is near enough to the quotient for the
-- rounding of the quotient itself: a window of less than 5.6e11 bytes at scale 8000.
unfoldable pub round_quotient : ℕ → ℕ → ℕ
round_quotient a b =
    let q = a / b in
    let r = a % b in
    if ltb (2 * r) b then q else if ltb b (2 * r) then q + 1 else if q % 2 == 0 then q else q + 1

-- What `rate` returns once the old buckets are gone: `now - origin + 1 > 1` and `count > 0`.
abbrev pub rate_at : ℕ → ℕ → ℕ → RateBucket → Option ℕ
rate_at scale now origin total =
    if ltb 0 total.count && ltb origin now
    then some (round_quotient (scale * total.value) (now - origin + 1))
    else none

abbrev pub rate_from : Option ℕ → ℕ → RateCounter → Option ℕ × RateCounter
rate_from none now self = (none, self)
rate_from (some origin) now self =
    let after = erase_old now origin self in
    (rate_at self.scale now (or_now now after.origin_ms) after.total, after)

unfoldable pub rate : ℕ → RateCounter → Option ℕ × RateCounter
rate now self = rate_from self.origin_ms now self
