-- ===== src/Channel/Life.antt =====
-- src/grilio_channel.c: a channel over its life. The lists, the table and the line of the transactions
-- by themselves (Index), with what changes them (Filing, Steps); what each handler and call does to them
-- (Holding to Queues); a history of handlers and calls (History, Always).
pub mod Lists
pub mod Index
pub mod Filing
pub mod Steps
pub mod Holding
pub mod Taking
pub mod Sending
pub mod Leaving
pub mod Entry
pub mod Entering
pub mod Answers
pub mod Collecting
pub mod Expiry
pub mod Due
pub mod Calls
pub mod Ending
pub mod Queues
pub mod History
pub mod Always
pub mod Stranded
