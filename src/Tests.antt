-- ===== src/Tests.antt =====
-- The theorems at concrete inputs.
pub mod Captures
pub mod Commands
pub mod Data
pub mod Dns
pub mod Frames
pub mod Names
pub mod Processes
pub mod Segments
pub mod Sessions
pub mod Streams
pub mod Texts
pub mod Views
