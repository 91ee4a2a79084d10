-- ===== src/Rtp.antt =====
-- transport/rtp.py, the RTP half: header extensions and their map, packets, retransmission packets.
pub mod Extensions
pub mod ExtensionsMap
pub mod Packet
mod Examples
