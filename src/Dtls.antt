-- ===== src/Dtls.antt =====
-- transport/rtcdtlstransport.py
pub mod Router
pub mod Action
pub mod Transport
mod Examples
