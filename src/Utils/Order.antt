-- ===== src/Utils/Order.antt =====
-- transport/utils.py: `uint16_gt` and `uint32_gt` are the order of sequence numbers on the circle.
use pure_webrtc_transport.Base.{ℕ, ◌+◌, ◌-◌, ◌%◌, ◌^◌, ◌<◌, ◌≡◌, ◌≢◌, ◌↔◌, ◌⊎◌, true, false, arith}
use pure_webrtc_transport.Base.Int.{pos}
use pure_webrtc_transport.Utils.{
  uint16_add, uint16_sub, uint16_gt, uint32_add, uint32_sub, uint32_gt,
}

-- Of 16-bit sequence numbers, `uint16_gt a b` holds exactly when the distance `uint16_sub a b` from
-- b forward to a is at least 1 and below 2^15, and then adding that distance to b gives a.
pub uint16_gt_iff :
    (a b : ℕ)
    → a < 2 ^ 16
    → b < 2 ^ 16
    → (uint16_gt a b ≡ true)
      ↔ ((d : ℕ) × (uint16_sub a b ≡ pos d) × (0 < d) × (d < 2 ^ 15) × (uint16_add b d ≡ a))
unfolding uint16_gt uint16_sub uint16_add
uint16_gt_iff a b ha hb = (
  λ h. ((a + 2 ^ 16 - b) % 2 ^ 16, ground arith, ground arith, ground arith, ground arith),
  λ (d, e, l, u, s). ground arith,
)

-- Counting both numbers on by any k keeps their order, also across the wrap at 2^16.
pub uint16_gt-add :
    (a b k : ℕ)
    → a < 2 ^ 16
    → b < 2 ^ 16
    → uint16_gt (uint16_add a k) (uint16_add b k) ≡ uint16_gt a b
unfolding uint16_gt uint16_add
uint16_gt-add a b k ha hb = ground arith

-- Two different 16-bit numbers are ordered one way and not the other, but for opposite ones, half
-- the circle apart, of which neither is after the other.
pub uint16_gt_trichotomy :
    (a b : ℕ)
    → a < 2 ^ 16
    → b < 2 ^ 16
    → a ≢ b
    → ((uint16_gt a b ≡ true) × (uint16_gt b a ≡ false) × (uint16_add a 0x8000 ≢ b))
      ⊎ ((uint16_gt a b ≡ false) × (uint16_gt b a ≡ true) × (uint16_add a 0x8000 ≢ b))
      ⊎ ((uint16_gt a b ≡ false) × (uint16_gt b a ≡ false) × (uint16_add a 0x8000 ≡ b))
unfolding uint16_gt uint16_add
uint16_gt_trichotomy a b ha hb ne = ground arith

-- Of 32-bit timestamps, `uint32_gt a b` holds exactly when the distance `uint32_sub a b` from b
-- forward to a is at least 1 and below 2^31, and then adding that distance to b gives a.
pub uint32_gt_iff :
    (a b : ℕ)
    → a < 2 ^ 32
    → b < 2 ^ 32
    → (uint32_gt a b ≡ true) ↔ (
        (d : ℕ) × (uint32_sub a b ≡ pos d)
        × (0 < d)
        × (d < 2 ^ 31)
        × (uint32_add (pos b) (pos d) ≡ a))
unfolding uint32_gt uint32_sub uint32_add
uint32_gt_iff a b ha hb = (
  λ h. ((a + 2 ^ 32 - b) % 2 ^ 32, ground arith, ground arith, ground arith, ground arith),
  λ (d, e, l, u, s). ground arith,
)
