-- ===== src/Utils/Unwrap.antt =====
-- transport/utils.py: `Uint32Unwrapper`.
use pure_webrtc_transport.Base.{
  ℕ, ◌+◌, ◌^◌, ◌≤◌, ◌<◌, ◌≡◌, true, false, some, arith, ◌⊎◌, inl, inr, Bool-cases,
}
use pure_webrtc_transport.Base.Int.{pos, ◌+ℤ◌, ◌-ℤ◌, ◌≤ℤ◌}
use pure_webrtc_transport.Utils.{Uint32Unwrapper, mask, uint32_gt, uint32_gte, unwrap}

-- After a nonzero last value, one call returns the number that is congruent to the value modulo
-- 2^32 and at most half the circle away from the last value: in [last, last + 2^31) where the
-- value is not before the last one, else in [last - 2^31, last).
pub unwrap_nearest :
    (self : Uint32Unwrapper) (last value : ℕ)
    → self.last_value ≡ some last
    → 0 < last
    → last < 2 ^ 32
    → value < 2 ^ 32
    → (mask (unwrap self value).1 (2 ^ 32) ≡ value)
      × (((uint32_gte value last ≡ true)
            × (pos last ≤ℤ (unwrap self value).1)
            × ((unwrap self value).1 +ℤ pos 1 ≤ℤ pos (last + 2 ^ 31)))
          ⊎ ((uint32_gte value last ≡ false)
              × (pos last -ℤ pos (2 ^ 31) ≤ℤ (unwrap self value).1)
              × ((unwrap self value).1 +ℤ pos 1 ≤ℤ pos last)))
unfolding unwrap ◌+ℤ◌ ◌-ℤ◌
unwrap_nearest self last value e l hl hv = (
  ground arith,
  elim (Bool-cases (uint32_gte value last)) [
    | inl g ↦ inl (g, ground arith, ground arith)
    | inr g ↦ inr (g, ground arith, ground arith)
  ],
)

-- The unwrapper does not remember a wrap: where the timestamp wraps forward from `last` to `value`
-- and then advances to `next`, the second result is below the first, by 2^32 less the advance.
pub unwrap_forgets_wrap :
    (self : Uint32Unwrapper) (last value next : ℕ)
    → self.last_value ≡ some last
    → last < 2 ^ 32
    → value < last
    → value ≤ next
    → next < value + 2 ^ 31
    → next < 2 ^ 32
    → uint32_gt value last ≡ true
    → let first = unwrap self value in
      (first.1 ≡ pos (2 ^ 32 + value)) × ((unwrap first.0 next).1 ≡ pos next)
unfolding unwrap ◌+ℤ◌ ◌-ℤ◌
unwrap_forgets_wrap self last value next e hl w n f hn g = (ground arith, ground arith)
