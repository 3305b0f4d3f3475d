-- ===== src/Quic.antt =====
-- src/core/QuicParser.cpp: the Initial packets of QUIC. The children are the frames and their
-- integers (Frames), the ClientHello in a CRYPTO stream (Hello) and key derivation (Keys); here is
-- the packet itself.
pub mod Frames
pub mod Hello
pub mod Keys
pub mod Initial
