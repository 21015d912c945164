-- ===== src/Threads.antt =====
-- src/sender.rs, src/receiver.rs, src/cell.rs: any number of threads that send and receive on one
-- channel, one access to the shared state a step.
pub mod Sending
pub mod Receiving
pub mod System
pub mod Invariant
pub mod Fair
pub mod Sends
pub mod Receives
pub mod Recounts
pub mod Reachable
pub mod Exclusion
pub mod Ordered
pub mod Race
pub mod SendRuns
pub mod ReceiveRuns
pub mod BatchRuns
pub mod Composed
pub mod Events
pub mod Refine
pub mod Got
pub mod Ordering
pub mod InOrder
pub mod Complete
pub mod Calm
pub mod Settling
pub mod Progress
pub mod Draining
