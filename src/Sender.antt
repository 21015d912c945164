-- ===== src/Sender.antt =====
-- src/sender.rs: the send handle. A method takes the shared state and returns its result with the
-- new state. Other threads act on the state only where a call waits: what they make of it by the
-- time of the wait's last look is an argument of the calls that wait.
pub mod Publishing
pub mod Methods
pub mod Waiting
pub mod Draining
use nexusq.Base.{
  ℕ, ◌+◌, Bool, true, false, Option, none, some, Result, ok, err, usize_max, wrapping_add, ◌==◌,
  if◌then◌else◌,
}
use nexusq.WaitStrategy.{try_take, restore}
use nexusq.Cell
use nexusq.Nexus.{NexusQ, index, with_cell}

pub data SendError {ℓ} (A : Type ℓ) : Type ℓ where
  full : A → SendError A
  timeout : A → SendError A
  disconnected : Option A → SendError A

-- `MessageId::valid`
pub valid : ℕ → Bool
valid id = if id == usize_max then false else true

-- `Sender` without its shared parts: the `AsyncState`. Of the event guard the state keeps whether
-- there is one.
pub record Sender : Type 0 where
  pub id : Option ℕ
  pub event_guard : Bool

-- `Sender::new` and `Clone::clone` both start with a default `AsyncState`.
unfoldable pub new : Sender
new = record { id = none; event_guard = false }

-- The states that the other threads leave, while this one waits for the token and for its cell.
pub record Others {ℓ} (A : Type ℓ) : Type ℓ where
  pub taking : NexusQ A → NexusQ A
  pub draining : NexusQ A → NexusQ A

abbrev pub SendResult {ℓ} : Type ℓ → Type ℓ
SendResult A = Result (Unit {0}) (SendError A)

module _ {ℓ} {A : Type ℓ} where
  -- `write_head_wait_strategy.try_take(&write_head)`
  unfoldable pub try_take_head : NexusQ A → Option ℕ × NexusQ A
  unfolding try_take
  try_take_head q =
      let (found, word) = try_take q.write_head in (found, record q { write_head = word })

  -- `take(&write_head)`: an attempt now and, if that fails, one in the state of the last look;
  -- `none` is a wait that has not ended then.
  unfoldable pub take_head : (NexusQ A → NexusQ A) → NexusQ A → Option ℕ × NexusQ A
  take_head others q =
      let (found, held) = try_take_head q in
      let again = try_take_head (others held) in
      elim found [ some id ↦ (some id, held) | none ↦ again ]

  -- `write_head.restore(id)`
  unfoldable pub restore_head : NexusQ A → ℕ → NexusQ A
  unfolding restore
  restore_head q id = record q { write_head = restore q.write_head id }

  -- `write_head_wait_strategy.notify_one()`
  unfoldable pub notify_one : NexusQ A → NexusQ A
  notify_one q = record q { head_notices = q.head_notices + 1 }

  -- `write_head.restore(id + 1)` and the notification that follows it
  unfoldable pub pass_token : NexusQ A → ℕ → NexusQ A
  unfolding restore_head notify_one
  pass_token q id = notify_one (restore_head q (wrapping_add id 1))

  -- `cell.write_and_publish(value, id)` on the cell of `id`; the old value is dropped.
  unfoldable pub publish : NexusQ A → ℕ → A → NexusQ A
  unfolding with_cell Cell.write_and_publish
  publish q id value = with_cell q (index q id) (λ c. (Cell.write_and_publish c value id).0)

  unfoldable pub try_send : NexusQ A → A → SendResult A × NexusQ A
  try_send q value =
      let (found, held) = try_take_head q in
      if q.num_receivers == 0 then (err (disconnected (some value)), q) else elim found [
        | none ↦ (err (full value), held)
        | some id ↦
            if Cell.safe_to_write (held.cells (index held id))
            then (ok tt, publish (pass_token held id) id value)
            else (err (full value), restore_head held id)
      ]

  -- After the token is taken: wait for the cell, look for receivers if there was no wait, publish.
  unfoldable pub send_held :
      (NexusQ A → NexusQ A) → ℕ → NexusQ A → A → Option (SendResult A × NexusQ A)
  send_held draining id q value =
      let later = draining q in
      elim (Cell.wait_for_write_safe (q.cells (index q id)) (later.cells (index q id))) [
        | none ↦ none
        | some true ↦
            if q.num_receivers == 0
            then some (err (disconnected (some value)), q)
            else some (ok tt, publish (pass_token q id) id value)
        | some false ↦ some (ok tt, publish (pass_token later id) id value)
      ]

  -- `none` is a call that still waits.
  unfoldable pub send : Others A → NexusQ A → A → Option (SendResult A × NexusQ A)
  send others q value =
      let (found, held) = take_head others.taking q in
      elim found [ none ↦ none | some id ↦ send_held others.draining id held value ]

  -- As `send_held`, with a deadline: a wait that has not ended by then gives the token back.
  unfoldable pub send_held_before :
      (NexusQ A → NexusQ A) → ℕ → NexusQ A → A → SendResult A × NexusQ A
  send_held_before draining id q value =
      let later = draining q in
      elim (Cell.wait_for_write_safe_before (q.cells (index q id)) (later.cells (index q id))) [
        | ok true ↦
            if q.num_receivers == 0
            then (err (disconnected (some value)), q)
            else (ok tt, publish (pass_token q id) id value)
        | ok false ↦ (ok tt, publish (pass_token later id) id value)
        | err _ ↦ (err (timeout value), restore_head later id)
      ]

  -- `expired` is the test `deadline < Instant::now()` at the call.
  unfoldable pub try_send_before : Bool → Others A → NexusQ A → A → SendResult A × NexusQ A
  try_send_before expired others q value =
      let (found, held) = take_head others.taking q in
      if expired then (err (timeout value), q) else elim found [
        | none ↦ (err (timeout value), held)
        | some id ↦ send_held_before others.draining id held value
      ]
