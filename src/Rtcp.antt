-- ===== src/Rtcp.antt =====
-- transport/rtp.py, the RTCP half: reports, source descriptions, feedback, and compound packets.
pub mod Types
pub mod Report
pub mod Sdes
pub mod Nack
pub mod Twcc
pub mod Remb
pub mod Compound
mod Examples
