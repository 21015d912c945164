-- ===== src/Ring.antt =====
-- What holds of the ring between the calls, told by the messages sent so far and by the receivers
-- that are alive. `log` is the list of all messages, oldest first: the message with id `n` stands
-- at `n - 1`, since ids begin at 1.
pub mod Occupancy
pub mod Cells
pub mod Publish
pub mod Recount
mod Defs
pub use Defs.*
