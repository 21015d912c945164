-- ===== src/Sink.antt =====
-- src/sender.rs: the asynchronous send, `Sink for Sender`. A poll runs without a wait, so no other
-- thread acts within it.
pub mod Laws
pub mod Rewinds
use nexusq.Base.{
  ℕ, true, false, Option, none, some, ok, err, Poll, ready, pending, ◌==◌, if◌then◌else◌,
}
use nexusq.Cell
use nexusq.Nexus.{NexusQ, index}
use nexusq.Sender
use nexusq.Sender.{Sender, SendResult, disconnected}

module _ {ℓ} {A : Type ℓ} where
  -- The end of `poll_ready`, with the claimed id in `s.id`: the poll of the cell clears the guard
  -- when it is ready, and registers a listener when it is not.
  unfoldable pub poll_cell : Sender → ℕ → NexusQ A → Poll (SendResult A) × Sender × NexusQ A
  poll_cell s id q = elim (Cell.poll_write_safe (q.cells (index q id))) [
    | ready _ ↦ (ready (ok tt), record s { event_guard = false }, Sender.pass_token q id)
    | pending ↦ (pending, record s { event_guard = true }, q)
  ]

  unfoldable pub poll_ready : Sender → NexusQ A → Poll (SendResult A) × Sender × NexusQ A
  poll_ready s q =
      let (found, held) = Sender.try_take_head q in
      if q.num_receivers == 0 then (ready (err (disconnected none)), s, q) else elim s.id [
        | some id ↦ poll_cell s id q
        | none ↦ elim found [
          | none ↦ (pending, record s { event_guard = true }, held)
          | some id ↦ poll_cell (record s { id = some id; event_guard = false }) id held
        ]
      ]

  -- `none` is the `unwrap_unchecked` of an id that is not there, which Rust leaves undefined.
  unfoldable pub start_send : Sender → NexusQ A → A → Option (SendResult A × Sender × NexusQ A)
  start_send s q item = elim s.id [
    | none ↦ none
    | some id ↦ some (ok tt, record s { id = none }, Sender.publish q id item)
  ]

  -- `poll_flush` and `poll_close`
  unfoldable pub poll_flush : Poll (SendResult A)
  poll_flush = ready (ok tt)
