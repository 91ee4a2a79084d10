-- ===== src/Peer.antt =====
-- transport/rtcpeerconnection.py
pub mod Signaling
pub mod Codecs
pub mod States
mod Examples
