-- ===== src/Protocol.antt =====
-- src/core/ProtocolParser.cpp: from the link layer down to the application payload.
pub mod Link
pub mod Tunnels
pub mod Transport
pub mod Network
pub mod Tls
pub mod Service
pub mod Http
pub mod Parse
