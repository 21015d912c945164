-- ===== src/Lib.antt =====
-- NexusQ: a bounded multi-producer, multi-consumer broadcast channel on a ring of cells, in Rust.
--
-- Every message is seen by every receiver. Senders take turns by a token, the atomic `write_head`
-- that holds the next message id, or `usize::MAX` while one of them has it; the cell of an id is
-- its remainder by the ring's length, a power of two. A cell counts the receivers that stand on
-- it, and is written only when there are none; a receiver stands on the cell of the last message
-- that it read, and goes on when the next cell holds the id that it waits for.
--
-- The parts, and where they are modelled:
--   src/prelude.rs             FastMod: `fast_mod`, `maybe_next_power_of_two`
--   src/wait_strategy/mod.rs   WaitStrategy: `Waitable` and `Takeable` of an atomic word
--                              WaitStrategy.Traits, Lawful: the traits `Wait` and `Take`
--   src/wait_strategy/         WaitStrategy.Block, Hybrid, Backoff: block.rs, hybrid.rs, backoff.rs
--   src/cell.rs                Cell: `Cell` and its methods
--   src/lib.rs                 Nexus, Channel: `NexusQ`, `with_strategies`, `make_channel`
--   src/sender.rs              Sender: `send`, `try_send`, `try_send_before`; Sink: `poll_ready`,
--                              `start_send`
--   src/receiver.rs            Receiver: `recv`, `try_recv`, `try_recv_until`, `poll_next`, clone
--                              and drop; Batch: `try_recv_batch`
--
-- A method is a function from the shared state to its result and the new state; the handles'
-- own fields are passed in and out. The boxed slice is its length and a table of cells. Machine
-- words are numbers below 2 ^ 64 (`usize` of a 64-bit target), with the wrap written out. The
-- wait strategies, which come from outside or rest on the crate event_listener, appear by what
-- they do to the state: a wait ends at its first look, or in the state that other threads have
-- made by its last look, an argument of the call; a call that has not returned then gives `none`.
-- Of the notifications the state keeps the number. The strategies themselves are loops over
-- moments: WaitStrategy.Moments is what a waiting thread meets at each, the word that the others
-- have left, the clock, and the answers of its event_listener, which are all parameters. A strategy
-- stands behind the traits `Wait` and `Take`, records of operations, and Cell.Waits takes any that
-- keeps what WaitStrategy.Lawful demands.
--
-- Ring holds the invariant, `IsValid`: what the cells hold, told by the log of all messages and
-- the list of the receivers alive. Broadcast is the abstract channel: a log and the receivers'
-- positions in it. Session runs a program's calls in order, and Session.Refine compares the two;
-- Session.RoundTrip sends a list of values and reads them again. Values keeps account of the values:
-- which the cells hold, which a publication drops (`drop(old_value)` of src/cell.rs), and which a
-- failed send gives back.
-- Base has the shared helpers: lists and tables, words, `&` with a mask, numbers that go round.
--
-- `make_channel` stands for the calls whose buffer can be allocated; `make_channel_of` adds the panic
-- of `Vec::with_capacity`, given the bytes that a cell takes, which are the compiler's and a parameter.
-- Sink.Laws and Sink.Rewinds have the asynchronous send: beside `try_send`, and polled too often.
--
-- Two kinds of loop run on fuel. `first_power`, the doublings of `next_power_of_two`, has 64
-- rounds, which reach every size up to 2 ^ 63; larger sizes are refused before. The loops of the
-- wait strategies have a round for each turn, and their theorems say how many are enough. The
-- theorems on sends ask that the ids have not run out (`length log + 2 ≤ usize::MAX`), and those
-- on clones that receivers are fewer than 2 ^ 64 - 1.
--
-- Threads lets any number of senders and receivers interleave, one access to the shared state a
-- step: Threads.Sending is `send`, `try_send` and `try_send_before`, Threads.Receiving all
-- receives, clone and drop, Threads.System what they share and what is reachable from a new
-- channel. There the cell of an id is written `id % len`, and a receiver has the id that it read
-- last in place of its cursor and its index. A wait is its looks: it may go on, time out, or look
-- again later, and the notifications do not decide it. Threads.Invariant is what holds at every
-- moment, and its theorems ask that ids and receivers have not run out (`IsRoomy`).
-- Threads.SendRuns, ReceiveRuns and BatchRuns compare the steps of a call that runs alone with the
-- method as Sender, Receiver and Batch have it, and Threads.Composed makes such a call part of a
-- run of all threads. Threads.Events tells what the clients see of a run (a message put in line, a
-- message got, a clone, a drop) and has the abstract line of messages that Threads.Refine compares
-- it with; Threads.Got, Ordering and InOrder read off what one receiver gets. Threads.Complete says
-- where the last `len` messages are, Threads.Calm has the runs in which no call of a sender begins,
-- and Threads.Settling, Progress and Draining what can go on in such a run. Token is the write token
-- alone, between the same senders. A Sink that is polled until it is ready and then given its item
-- takes the steps of `try_send`; left out is a second `poll_ready`, which writes the word without
-- holding the token.
--
-- Wakeups adds what Threads leaves out, who sleeps and who is notified, without the messages:
-- Wakeups for the write token, whose event is notified for one (`notify_one` of block.rs), and
-- Wakeups.Waiting for a cell, whose event is notified for all. A step is one access to a word or to
-- the event. `Event` of event_listener is a parameter, a relation for `notify` and one for the drop
-- of a listener, with what the crate documents as `IsEvent`. Threads block there as in block.rs, and
-- tasks poll: one whose poll is pending sleeps, its waker is called with its listener's notification,
-- and it may also be polled before. Left out is the listener that `get_or_insert` of a second poll
-- makes and drops at once; the spins of HybridWait are attempts outside the loop. That a call goes on
-- is shown by steps that begin no new call and lead to where it has what it waits for; a scheduler
-- that takes them is not modelled.
--
-- Not modelled: the executor of asynchronous tasks, memory orderings (the accesses of Threads are
-- sequentially consistent), Debug output, and the unused arguments of wait strategies in
-- `make_channel_with`. The integration tests and the benches only use the library; the unit tests of
-- src/lib.rs and the examples of the methods run on the model in Tests.Units.
pub mod Base
pub mod FastMod
pub mod WaitStrategy
pub mod Cell
pub mod Nexus
pub mod Sender
pub mod Sink
pub mod Receiver
pub mod Batch
pub mod Channel
pub mod Ring
pub mod Broadcast
pub mod Token
pub mod Wakeups
pub mod Values
pub mod Threads
pub mod Session
pub mod Tests
