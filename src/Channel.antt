-- ===== src/Channel.antt =====
-- src/grilio_channel.c
pub mod Ids
pub mod State
pub mod Log
pub mod Timers
pub mod Send
pub mod Write
pub mod Retry
pub mod Response
pub mod Transaction
pub mod Api
pub mod Loggers
pub mod Injects
pub mod Signals
pub mod Cancel
pub mod Frame
pub mod Ownership
pub mod Policy
pub mod Drain
pub mod Delivery
pub mod Order
pub mod Deadlines
pub mod Life
