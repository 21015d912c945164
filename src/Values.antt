-- ===== src/Values.antt =====
-- src/cell.rs, src/sender.rs: which values the channel holds, and which leave it, dropped by
-- `write_and_publish` or given back by a send that fails. The calls are those of Session.
pub mod Moves
pub mod Kept
pub mod Replaced
pub mod Oldest
use nexusq.Base.{
  ℕ, zero, suc, List, [], ◌∷◌, ◌++◌, Option, none, some, ok, err, ◌-◌, ◌%◌, ◌≤◌, ◌<◌, ◌≡◌, length,
  take,
}
use nexusq.Cell
use nexusq.Cell.{Cell}
use nexusq.Nexus.{NexusQ, index}
use nexusq.Sender
use nexusq.Sender.{SendResult, full, timeout, disconnected}
use nexusq.Broadcast
use nexusq.Broadcast.{Broadcast, Op, send}
use nexusq.Session.{Session, step}

module _ {ℓ} {A : Type ℓ} where
  abbrev pub list_of : Option A → List A
  list_of none = []
  list_of (some value) = value ∷ []

  -- What the first `n` cells hold: with all of them, what is dropped when the last handle is.
  unfoldable pub held_by : (ℕ → Cell A) → (n : ℕ) → List A
  held_by cells zero = []
  held_by cells (suc n) = held_by cells n ++ list_of (cells n).value

  abbrev pub held : NexusQ A → List A
  held q = held_by q.cells q.len

  -- The value that a failed send gives back.
  abbrev pub given_back : SendResult A → List A
  given_back (ok _) = []
  given_back (err (full value)) = value ∷ []
  given_back (err (timeout value)) = value ∷ []
  given_back (err (disconnected value)) = list_of value

  -- `drop(old_value)` in the `write_and_publish` of a `try_send`, which publishes if it succeeds
  unfoldable pub dropped_by : NexusQ A → A → SendResult A → List A
  unfolding Cell.write_and_publish
  dropped_by q value (ok _) =
      list_of (Cell.write_and_publish (q.cells (index q q.write_head)) value q.write_head).1
  dropped_by q value (err _) = []

  abbrev pub dropped : NexusQ A → A → List A
  dropped q value = dropped_by q value (Sender.try_send q value).0

  -- The value that comes in by a call, and those that go out.
  abbrev pub taken_in : Op A → List A
  taken_in (send value) = value ∷ []
  taken_in _ = []

  unfoldable pub let_out : Session A → Op A → List A
  let_out s (send value) = given_back (Sender.try_send s.nexus value).0 ++ dropped s.nexus value
  let_out s _ = []

  -- The same of all calls of a program, and where it ends.
  abbrev pub all_in : List (Op A) → List A
  all_in [] = []
  all_in (op ∷ ops) = taken_in op ++ all_in ops

  unfoldable pub all_out : Session A → List (Op A) → List A
  all_out s [] = []
  all_out s (op ∷ ops) = let_out s op ++ all_out (step s op).1 ops

  unfoldable pub after : Session A → List (Op A) → Session A
  after s [] = s
  after s (op ∷ ops) = after (step s op).1 ops

  -- The values that the publications of a program drop, in order
  abbrev pub dropped_of : Session A → Op A → List A
  dropped_of s (send value) = dropped s.nexus value
  dropped_of s _ = []

  unfoldable pub all_dropped : Session A → List (Op A) → List A
  all_dropped s [] = []
  all_dropped s (op ∷ ops) = dropped_of s op ++ all_dropped (step s op).1 ops

  -- The messages of a log that are a whole ring behind its end
  abbrev pub expired : (len : ℕ) → List A → List A
  expired len log = take (length log - len) log

  -- The log that the abstract channel has after the same calls
  unfoldable pub log_after : Broadcast A → List (Op A) → List A
  log_after b [] = b.log
  log_after b (op ∷ ops) = log_after (Broadcast.step b op).1 ops

  -- The cells that no message has reached yet hold no value.
  abbrev pub IsFresh : NexusQ A → List A → Type ℓ
  IsFresh q log = (id : ℕ) → length log < id → id ≤ q.len → (q.cells (id % q.len)).value ≡ none
