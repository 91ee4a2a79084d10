-- ===== src/Receiver.antt =====
-- transport/rtcrtpreceiver.py
pub mod Statistics
pub mod Timestamps
pub mod Handler
mod Examples
