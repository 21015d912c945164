-- ===== src/Cell.antt =====
-- src/cell.rs: one slot of the ring, with its reader count, the id that it holds and its wait
-- strategy. Of the strategy the state keeps how often `notify_all` was called on it.
pub mod Waits
use nexusq.Base.{
  ℕ, ◌+◌, Bool, true, false, Option, none, some, Result, ok, err, Poll, ready, pending, usize_max,
  wrapping_add, wrapping_sub, ◌==◌, if◌then◌else◌,
}
use nexusq.WaitStrategy.{WaitError, timeout, check}

pub record Cell {ℓ} (A : Type ℓ) : Type ℓ where
  pub value : Option A
  pub read_counter : ℕ
  pub current_id : ℕ
  pub notices : ℕ

module _ {ℓ} {A : Type ℓ} where
  unfoldable pub new : Cell A
  new = record { value = none; read_counter = 0; current_id = usize_max; notices = 0 }

  unfoldable pub notify_all : Cell A → Cell A
  notify_all c = record c { notices = c.notices + 1 }

  unfoldable pub safe_to_write : Cell A → Bool
  safe_to_write c = check c.read_counter 0

  -- A wait looks at the cell now and, if that does not end it, later, when other threads have
  -- made `later` of the cell. `none` is a wait that has not ended by then. The result tells
  -- whether the cell was free at once.
  unfoldable pub wait_for_write_safe : (now later : Cell A) → Option Bool
  wait_for_write_safe now later =
      if check now.read_counter 0
      then some true
      else if check later.read_counter 0
      then some false
      else none

  -- With a deadline `later` is the cell at the last look before it.
  unfoldable pub wait_for_write_safe_before : (now later : Cell A) → Result Bool WaitError
  wait_for_write_safe_before now later =
      if check now.read_counter 0
      then ok true
      else if check later.read_counter 0
      then ok false
      else err timeout

  unfoldable pub poll_write_safe : Cell A → Poll (Unit {0})
  poll_write_safe c = if check c.read_counter 0 then ready tt else pending

  unfoldable pub get_published : Cell A → ℕ
  get_published c = c.current_id

  unfoldable pub wait_for_published : (now later : Cell A) → ℕ → Option (Unit {0})
  wait_for_published now later expected =
      if check now.current_id expected
      then some tt
      else if check later.current_id expected
      then some tt
      else none

  unfoldable pub wait_for_published_until : (now later : Cell A) → ℕ → Result (Unit {0}) WaitError
  wait_for_published_until now later expected =
      if check now.current_id expected
      then ok tt
      else if check later.current_id expected
      then ok tt
      else err timeout

  -- `Instant::now() + timeout` is the deadline of the same wait.
  unfoldable pub wait_for_published_with_timeout :
      (now later : Cell A) → ℕ → Result (Unit {0}) WaitError
  unfolding wait_for_published_until
  wait_for_published_with_timeout now later expected = wait_for_published_until now later expected

  unfoldable pub poll_published : Cell A → ℕ → Poll (Unit {0})
  poll_published c expected = if check c.current_id expected then ready tt else pending

  -- The new cell, and the value that it held, which is dropped.
  unfoldable pub write_and_publish : Cell A → A → ℕ → Cell A × Option A
  unfolding notify_all
  write_and_publish c value id =
      (notify_all (record c { value = some value; current_id = id }), c.value)

  unfoldable pub move_to : Cell A → Cell A
  move_to c = record c { read_counter = wrapping_add c.read_counter 1 }

  -- The last reader to leave wakes those who wait for the cell.
  unfoldable pub move_from : Cell A → Cell A
  unfolding notify_all
  move_from c =
      let left = record c { read_counter = wrapping_sub c.read_counter 1 } in
      if c.read_counter == 1 then notify_all left else left

  -- `read` unwraps this; `read_opt` returns it.
  unfoldable pub read_opt : Cell A → Option A
  read_opt c = c.value
