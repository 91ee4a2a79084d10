-- ===== src/Utils/Examples.antt =====
-- Runs of transport/utils.py, and its theorems at concrete inputs.
use pure_webrtc_transport.Base.{ℕ, ◌+◌, ◌^◌, ◌<◌, ◌≡◌, ◌↔◌, ◌⊎◌, refl, true, false, some, arith}
use pure_webrtc_transport.Base.Int.{pos, negsuc, ◌+ℤ◌, ◌-ℤ◌, ◌≤ℤ◌}
use pure_webrtc_transport.Utils.{
  Uint32Unwrapper, mask, uint16_add, uint16_sub, uint32_add, uint16_gt, uint32_gt, uint32_gte,
  unwrap,
}
use pure_webrtc_transport.Utils.Order.{uint16_gt_iff}
use pure_webrtc_transport.Utils.Unwrap.{unwrap_nearest, unwrap_forgets_wrap}

wraps : uint16_add 0xffff 2 ≡ 1
unfolding uint16_add
wraps = refl

-- `uint32_add(5, -7)`, as the inter-arrival filter calls it.
negative_wraps : uint32_add (pos 5) (negsuc 6) ≡ 0xffff_fffe
unfolding uint32_add
negative_wraps = refl

uint16_gt_iff_example :
    (uint16_gt 1 0xffff ≡ true)
    ↔ ((d : ℕ) × (uint16_sub 1 0xffff ≡ pos d) × (0 < d) × (d < 2 ^ 15) × (uint16_add 0xffff d ≡ 1))
uint16_gt_iff_example = uint16_gt_iff 1 0xffff (omega arith) (omega arith)

-- An unwrapper that has seen one value, close to the wrap.
abbrev seen : Uint32Unwrapper
seen = record { last_unwrapped = some (pos 0xffff_fff0); last_value = some 0xffff_fff0 }

unwrap_nearest_example :
    (mask (unwrap seen 5).1 (2 ^ 32) ≡ 5)
    × (((uint32_gte 5 0xffff_fff0 ≡ true)
          × (pos 0xffff_fff0 ≤ℤ (unwrap seen 5).1)
          × ((unwrap seen 5).1 +ℤ pos 1 ≤ℤ pos (0xffff_fff0 + 2 ^ 31)))
        ⊎ ((uint32_gte 5 0xffff_fff0 ≡ false)
            × (pos 0xffff_fff0 -ℤ pos (2 ^ 31) ≤ℤ (unwrap seen 5).1)
            × ((unwrap seen 5).1 +ℤ pos 1 ≤ℤ pos 0xffff_fff0)))
unwrap_nearest_example =
    unwrap_nearest seen 0xffff_fff0 5 refl (omega arith) (omega arith) (omega arith)

after_wrap : uint32_gt 5 0xffff_fff0 ≡ true
unfolding uint32_gt
after_wrap = refl

unwrap_forgets_wrap_example :
    let first = unwrap seen 5 in (first.1 ≡ pos (2 ^ 32 + 5)) × ((unwrap first.0 8).1 ≡ pos 8)
unwrap_forgets_wrap_example =
    unwrap_forgets_wrap seen 0xffff_fff0 5 8 refl (omega arith) (omega arith) (omega arith)
      (omega arith) (omega arith) after_wrap
