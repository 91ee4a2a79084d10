-- ===== src/Utils.antt =====
-- transport/utils.py: sequence number arithmetic modulo 2^16 and 2^32, and the timestamp unwrapper.
-- The arguments are Python integers: ℕ where every caller passes a non-negative one, ℤ otherwise.
-- `& 0xFFFF` and `& 0xFFFFFFFF` are the remainders modulo 2^16 and 2^32, also of a negative integer.
pub mod Order
pub mod Unwrap
mod Examples
use pure_webrtc_transport.Base.{
  ℕ, ◌+◌, ◌-◌, ◌%◌, ◌^◌, Bool, true, false, not, ◌&&◌, ◌||◌, Option, none, some, ltb, ◌==◌,
  if◌then◌else◌,
}
use pure_webrtc_transport.Base.Int.{ℤ, pos, negsuc, ◌+ℤ◌, ◌-ℤ◌, leb_ℤ}

-- x & (m - 1) for m a power of two.
abbrev pub mask : ℤ → ℕ → ℕ
mask (pos n) m = n % m
mask (negsuc n) m = m - 1 - n % m

unfoldable pub uint16_add : ℕ → ℕ → ℕ
uint16_add a b = (a + b) % 2 ^ 16

unfoldable pub uint16_sub : ℕ → ℕ → ℤ
unfolding ◌-ℤ◌ ◌+ℤ◌
uint16_sub a b = let c = pos a -ℤ pos b in if leb_ℤ (pos 0) c then c else c +ℤ pos 0x10000

unfoldable pub uint16_gt : ℕ → ℕ → Bool
uint16_gt a b = (ltb a b && ltb 0x8000 (b - a)) || (ltb b a && ltb (a - b) 0x8000)

unfoldable pub uint16_gte : ℕ → ℕ → Bool
unfolding uint16_gt
uint16_gte a b = a == b || uint16_gt a b

unfoldable pub uint32_add : ℤ → ℤ → ℕ
unfolding ◌+ℤ◌
uint32_add a b = mask (a +ℤ b) (2 ^ 32)

unfoldable pub uint32_sub : ℕ → ℕ → ℤ
unfolding ◌-ℤ◌ ◌+ℤ◌
uint32_sub a b = let c = pos a -ℤ pos b in if leb_ℤ (pos 0) c then c else c +ℤ pos 0x1_0000_0000

unfoldable pub uint32_gt : ℕ → ℕ → Bool
uint32_gt a b = (ltb a b && ltb 0x8000_0000 (b - a)) || (ltb b a && ltb (a - b) 0x8000_0000)

unfoldable pub uint32_gte : ℕ → ℕ → Bool
unfolding uint32_gt
uint32_gte a b = a == b || uint32_gt a b

pub record Uint32Unwrapper : Type 0 where
  pub last_unwrapped : Option ℤ
  pub last_value : Option ℕ

abbrev pub new_unwrapper : Uint32Unwrapper
new_unwrapper = record { last_unwrapped = none; last_value = none }

-- The two branches of `unwrap` under its test. `if self._last_value:` is false of None and of 0.
abbrev pub unwrapped : Option ℕ → ℕ → ℤ
unfolding uint32_sub uint32_gte
unwrapped none value = pos value
unwrapped (some last) value =
    let there = uint32_sub value last +ℤ pos last in
    if last == 0
    then pos value
    else if not (uint32_gte value last)
    then there -ℤ pos 0x1_0000_0000
    else there

unfoldable pub unwrap : Uint32Unwrapper → ℕ → Uint32Unwrapper × ℤ
unfolding unwrapped uint32_sub uint32_gte
unwrap self value =
    let there = unwrapped self.last_value value in
    (record { last_unwrapped = some there; last_value = some value }, there)
