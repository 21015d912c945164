-- ===== src/Receiver.antt =====
-- src/receiver.rs: the receive handle. As with the sender, a call that waits is given what the
-- other threads make of the state by the wait's last look.
pub mod Reading
pub mod Methods
pub mod Waiting
pub mod Lifetime
use nexusq.Base.{
  ℕ, Bool, true, false, Option, none, some, Result, ok, err, Poll, ready, pending, wrapping_add,
  wrapping_sub, ◌==◌, if◌then◌else◌,
}
use nexusq.Cell
use nexusq.Nexus.{NexusQ, index, with_cell}

pub data RecvError : Type 0 where
  timeout no_new_data : RecvError

-- `Receiver` without its shared parts. Of `current_event` the state keeps whether there is one.
pub record Receiver : Type 0 where
  pub cursor : ℕ
  pub previous_cell_index : ℕ
  pub current_event : Bool

module _ {ℓ} {A : Type ℓ} where
  unfoldable pub new : NexusQ A → Receiver × NexusQ A
  unfolding with_cell Cell.move_to
  new q =
      let moved = with_cell q 0 Cell.move_to in
      (
        record { cursor = 1; previous_cell_index = 0; current_event = false },
        record moved { num_receivers = wrapping_add moved.num_receivers 1 },
      )

  -- `Clone::clone`
  unfoldable pub clone : Receiver → NexusQ A → Receiver × NexusQ A
  unfolding with_cell Cell.move_to
  clone r q =
      let moved = with_cell q r.previous_cell_index Cell.move_to in
      (
        record r { current_event = false },
        record moved { num_receivers = wrapping_add moved.num_receivers 1 },
      )

  -- `Drop::drop`
  unfoldable pub drop : Receiver → NexusQ A → NexusQ A
  unfolding with_cell Cell.move_from
  drop r q =
      with_cell (record q { num_receivers = wrapping_sub q.num_receivers 1 }) r.previous_cell_index
        Cell.move_from

  -- What each receive does once the message is there: enter its cell, leave the previous one, go
  -- on to the next id, read. The value is unwrapped unchecked: `none` stands for undefined.
  unfoldable pub advance : Receiver → NexusQ A → Option A × Receiver × NexusQ A
  unfolding with_cell Cell.move_to Cell.move_from Cell.read_opt
  advance r q =
      let current_index = index q r.cursor in
      let entered = with_cell q current_index Cell.move_to in
      let left = with_cell entered r.previous_cell_index Cell.move_from in
      (
        Cell.read_opt (left.cells current_index),
        record r { cursor = wrapping_add r.cursor 1; previous_cell_index = current_index },
        left,
      )

  unfoldable pub try_recv : Receiver → NexusQ A → Result (Option A) RecvError × Receiver × NexusQ A
  unfolding Cell.get_published
  try_recv r q =
      let (value, r', q') = advance r q in
      if Cell.get_published (q.cells (index q r.cursor)) == r.cursor
      then (ok value, r', q')
      else (err no_new_data, r, q)

  -- The state at the last look of a wait for the next message.
  unfoldable pub awaited : (NexusQ A → NexusQ A) → Receiver → NexusQ A → NexusQ A
  awaited others r q = if (q.cells (index q r.cursor)).current_id == r.cursor then q else others q

  -- `none` is a call that still waits.
  unfoldable pub recv :
      (NexusQ A → NexusQ A) → Receiver → NexusQ A → Option (Option A × Receiver × NexusQ A)
  recv others r q =
      let current_index = index q r.cursor in
      let result = advance r (awaited others r q) in
      elim (Cell.wait_for_published (q.cells current_index) ((others q).cells current_index)
        r.cursor) [ none ↦ none | some _ ↦ some result ]

  unfoldable pub try_recv_until :
      (NexusQ A → NexusQ A)
      → Receiver
      → NexusQ A
      → Result (Option A) RecvError × Receiver × NexusQ A
  try_recv_until others r q =
      let current_index = index q r.cursor in
      let (value, r', q') = advance r (awaited others r q) in
      elim (Cell.wait_for_published_until (q.cells current_index) ((others q).cells current_index)
        r.cursor) [ ok _ ↦ (ok value, r', q') | err _ ↦ (err timeout, r, others q) ]

  -- `Stream::poll_next`; the value is `read_opt`'s, with no unwrapping.
  unfoldable pub poll_next : Receiver → NexusQ A → Poll (Option A) × Receiver × NexusQ A
  unfolding Cell.poll_published
  poll_next r q =
      let (value, r', q') = advance r q in
      elim (Cell.poll_published (q.cells (index q r.cursor)) r.cursor) [
        | ready _ ↦ (ready value, record r' { current_event = false }, q')
        | pending ↦ (pending, record r { current_event = true }, q)
      ]
