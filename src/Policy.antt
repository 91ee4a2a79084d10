-- ===== src/Policy.antt =====
-- policy/: congestion control, pacing and the filter for scalable video.
pub mod Float
pub mod Aimd
pub mod Trendline
pub mod SendSide
pub mod Pacer
pub mod RateCounter
pub mod InterArrival
mod Fractions
mod Examples
