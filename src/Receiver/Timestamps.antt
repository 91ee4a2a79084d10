-- ===== src/Receiver/Timestamps.antt =====
-- transport/rtcrtpreceiver.py: `TimestampMapper`.
use pure_webrtc_transport.Base.{
  ℕ, ◌+◌, ◌-◌, ◌*◌, ◌/◌, ◌%◌, ◌^◌, ◌≤◌, ◌<◌, ◌≡◌, refl, Option, none, some, List, [], ◌∷◌, map, ltb,
  if◌then◌else◌, arith,
}
use pure_webrtc_transport.Base.Int.{ℤ, pos, ◌-ℤ◌}
use pure_webrtc_transport.Base.Result.{Result, ok, raise, ◌>>=◌, type_error}

pub record TimestampMapper : Type 0 where
  pub last : Option ℕ
  pub origin : Option ℤ

abbrev pub new_mapper : TimestampMapper
new_mapper = record { last = none; origin = none }

-- A call, given the last timestamp and the origin. The comparison with a None is a TypeError.
unfoldable pub map_from : (last : Option ℕ) (origin : Option ℤ) → ℕ → Result (ℤ × TimestampMapper)
map_from last none timestamp = ok (
  pos timestamp -ℤ pos timestamp,
  record { last = some timestamp; origin = some (pos timestamp) },
)
map_from none (some origin) timestamp = raise type_error
map_from (some last) (some origin) timestamp =
    let wrapped : ℤ = if ltb timestamp last then origin -ℤ pos (2 ^ 32) else origin in
    ok (pos timestamp -ℤ wrapped, record { last = some timestamp; origin = some wrapped })

unfoldable pub map_timestamp : ℕ → TimestampMapper → Result (ℤ × TimestampMapper)
map_timestamp timestamp s = map_from s.last s.origin timestamp

-- One call after the other.
pub map_all : List ℕ → TimestampMapper → Result (List ℤ)
map_all [] s = ok []
map_all (t ∷ ts) s = do
  (mapped, next) ← map_timestamp t s
  rest ← map_all ts next
  ok (mapped ∷ rest)

-- The clock that the timestamps come from never goes back, and moves on by less than 2^32 at a time.
unfoldable pub Advancing : ℕ → List ℕ → Type 0
Advancing t [] = Unit {0}
Advancing t (u ∷ us) = (t ≤ u) × (u < t + 2 ^ 32) × Advancing u us

-- Where the clock was t₀ at first and is t now.
at : ℕ → ℕ → TimestampMapper
at t₀ t = record {
  last = some (t % 2 ^ 32);
  origin = some (pos (t₀ % 2 ^ 32) -ℤ pos ((t / 2 ^ 32 - t₀ / 2 ^ 32) * 2 ^ 32));
}

origin_step :
    (t₀ t u : ℕ)
    → t₀ ≤ t
    → t ≤ u
    → u < t + 2 ^ 32
    → (if ltb (u % 2 ^ 32) (t % 2 ^ 32)
        then (pos (t₀ % 2 ^ 32) -ℤ pos ((t / 2 ^ 32 - t₀ / 2 ^ 32) * 2 ^ 32)) -ℤ pos (2 ^ 32)
        else (pos (t₀ % 2 ^ 32) -ℤ pos ((t / 2 ^ 32 - t₀ / 2 ^ 32) * 2 ^ 32)))
      ≡ (pos (t₀ % 2 ^ 32) -ℤ pos ((u / 2 ^ 32 - t₀ / 2 ^ 32) * 2 ^ 32))
unfolding ◌-ℤ◌
origin_step t₀ t u a b c = ground arith

mapped_lem :
    (t₀ t : ℕ)
    → t₀ ≤ t
    → (pos (t % 2 ^ 32) -ℤ (pos (t₀ % 2 ^ 32) -ℤ pos ((t / 2 ^ 32 - t₀ / 2 ^ 32) * 2 ^ 32)))
      ≡ pos (t - t₀)
unfolding ◌-ℤ◌
mapped_lem t₀ t h = ground arith

map_all-at :
    (t₀ t : ℕ) (ts : List ℕ)
    → t₀ ≤ t
    → Advancing t ts
    → map_all (map (λ u. u % 2 ^ 32) ts) (at t₀ t) ≡ ok (map (λ u. pos (u - t₀)) ts)
unfolding map_all map_timestamp map_from at Advancing
map_all-at t₀ t [] h up = refl
map_all-at t₀ t (u ∷ us) h (le, lt, up) =
    rw
      (
        origin_step t₀ t u h le lt,
        mapped_lem t₀ u (omega arith),
        map_all-at t₀ u us (omega arith) up,
      )
      refl

-- From the 32-bit timestamps of a clock that never goes back and moves on by less than 2^32 between
-- two calls, a new mapper gives the clock's time since the first call, across any number of wraps.
pub map_all_lem :
    (t₀ : ℕ) (ts : List ℕ)
    → Advancing t₀ ts
    → map_all (map (λ u. u % 2 ^ 32) (t₀ ∷ ts)) new_mapper ≡ ok (map (λ u. pos (u - t₀)) (t₀ ∷ ts))
unfolding map_all map_timestamp map_from at
map_all_lem t₀ ts up =
    let start : pos (t₀ % 2 ^ 32) -ℤ pos ((t₀ / 2 ^ 32 - t₀ / 2 ^ 32) * 2 ^ 32)
        ≡ pos (t₀ % 2 ^ 32) =
      unfold ◌-ℤ◌ in ground arith in
    let zero_time : pos (t₀ % 2 ^ 32) -ℤ pos (t₀ % 2 ^ 32) ≡ pos (t₀ - t₀) =
      unfold ◌-ℤ◌ in ground arith in
    rw (zero_time, rw start at (map_all-at t₀ t₀ ts (omega arith) up)) refl
