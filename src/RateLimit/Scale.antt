-- ===== src/RateLimit/Scale.antt =====
-- The scaled ceiling: no wrap-around, and a scale of 100 % or less never raises it.
use t1_waf.Prelude.{nat_eq, text_eq, u32_max, ℕ, ◌*◌, ◌/◌, ◌≤◌, ◌≡◌, arith}
use t1_waf.RateLimit.{scale_rpm}

-- For a `u32` ceiling and a scale of 100 % or less the scaled ceiling is the exact quotient, is at
-- most the ceiling itself, and grows with the scale.
pub scale_rpm_bounds :
    (rpm s t : ℕ)
    → rpm ≤ u32_max
    → s ≤ t
    → t ≤ 10_000
    → (scale_rpm rpm t ≡ rpm * t / 10_000)
      × (scale_rpm rpm t ≤ rpm)
      × (scale_rpm rpm s ≤ scale_rpm rpm t)
unfolding scale_rpm
scale_rpm_bounds rpm s t h st th =
    let p : rpm * t ≤ rpm * 10_000 = grind arith in
    let q : rpm * s ≤ rpm * t = grind arith in (omega arith, omega arith, omega arith)
