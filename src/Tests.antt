-- ===== src/Tests.antt =====
-- Theorems at concrete inputs, and runs of the operations.
pub mod Streams
pub mod Commands
pub mod Arrivals
pub mod Connections
pub mod Files
pub mod Jobs
pub mod Messages
pub mod Servers
pub mod Readers
pub mod Polling
pub mod Networks
