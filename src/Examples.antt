-- ===== src/Examples.antt =====
-- The theorems at concrete channels, payloads and streams.
pub mod Scheduling
pub mod Payloads
pub mod Streams
pub mod Dumps
pub mod Queues
pub mod Observers
pub mod Lives
pub mod Handlers
