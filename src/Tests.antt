-- ===== src/Tests.antt =====
-- Runs of the model on concrete input, and the theorems at inputs that meet their hypotheses.
mod States
mod Sending
mod Receiving
mod Sessions
mod Waits
mod Threads
mod Interleaved
mod Cells
mod Alone
mod Wakeups
mod Values
pub mod Units
