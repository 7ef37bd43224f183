-- ===== src/Quic.antt =====
-- src/kemtls/quic_*.py: the packets, the connection state and the server of the QUIC-style transport.
pub mod Packets
pub mod State
pub mod Protection
pub mod Server
