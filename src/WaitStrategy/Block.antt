-- ===== src/WaitStrategy/Block.antt =====
-- src/wait_strategy/block.rs: the strategy that waits for a notification. The loops of `Wait` and
-- of `Take` differ in what they try at each look, which is `attempt` here. They run on fuel, one
-- unit for each turn; `none` is a wait that has not ended. A result carries the moment of the look
-- that ended the wait.
use nexusq.Base.{
  ℕ, zero, suc, ◌+◌, true, false, Option, none, some, Result, ok, err, Poll, ready, pending,
}
use nexusq.WaitStrategy.{WaitError, timeout}
use nexusq.WaitStrategy.Moments.{Moments, checked, attempted}

-- `get_or_insert`: a guard that is there is kept.
unfoldable pub get_or_insert : (armed : ℕ) → Option ℕ → ℕ
get_or_insert armed none = armed
get_or_insert armed (some guard) = guard

module _ {ℓ} {B : Type ℓ} (m : Moments) (attempt : ℕ → Option B) where
  -- Arm the listener, look, wait for the notification, look again.
  unfoldable pub block : (rounds now : ℕ) → Option (B × ℕ)
  block zero now = none
  block (suc rounds) now = elim (attempt (now + 1)) [
    | some v ↦ some (v, now + 1)
    | none ↦ elim (m.wait now (now + 2)) [
      | none ↦ none
      | some woken ↦ elim (attempt woken) [
        | some v ↦ some (v, woken)
        | none ↦ block rounds (woken + 1)
      ]
    ]
  ]

  unfoldable pub block_until : (deadline rounds now : ℕ) → Option (Result (B × ℕ) WaitError)
  block_until deadline zero now = none
  block_until deadline (suc rounds) now = elim (attempt (now + 1)) [
    | some v ↦ some (ok (v, now + 1))
    | none ↦
        let (notified, woken) = m.wait_deadline now (now + 2) deadline in
        elim notified [
          | false ↦ some (err timeout)
          | true ↦ elim (attempt woken) [
            | some v ↦ some (ok (v, woken))
            | none ↦ block_until deadline rounds (woken + 1)
          ]
        ]
  ]

  -- The loop of a poll, with the guard that was armed at a moment: its result, the guard that is
  -- kept and the moment of the return.
  unfoldable pub poll_loop : (rounds now armed : ℕ) → Option (Poll B × Option ℕ × ℕ)
  poll_loop zero now armed = none
  poll_loop (suc rounds) now armed = elim (attempt now) [
    | some v ↦ some (ready v, none, now)
    | none ↦ elim (m.poll_event armed (now + 1)) [
      | false ↦ some (pending, some armed, now + 1)
      | true ↦ elim (attempt (now + 2)) [
        | some v ↦ some (ready v, none, now + 2)
        | none ↦ poll_loop rounds (now + 4) (now + 3)
      ]
    ]
  ]

  unfoldable pub block_poll :
      (rounds now : ℕ) (event_listener : Option ℕ) → Option (Poll B × Option ℕ × ℕ)
  unfolding get_or_insert
  block_poll rounds now event_listener = elim (attempt now) [
    | some v ↦ some (ready v, none, now)
    | none ↦ poll_loop rounds (now + 2) (get_or_insert (now + 1) event_listener)
  ]

unfoldable pub wait_for : Moments → (expected rounds now : ℕ) → Option (Unit {0} × ℕ)
wait_for m expected = block m (checked m expected)

unfoldable pub wait_until :
    Moments → (expected deadline rounds now : ℕ) → Option (Result (Unit {0} × ℕ) WaitError)
wait_until m expected = block_until m (checked m expected)

unfoldable pub take : Moments → (rounds now : ℕ) → Option (ℕ × ℕ)
take m = block m (attempted m)

unfoldable pub take_before : Moments → (deadline rounds now : ℕ) → Option (Result (ℕ × ℕ) WaitError)
take_before m = block_until m (attempted m)

unfoldable pub poll_wait :
    Moments → (expected rounds now : ℕ) → Option ℕ → Option (Poll (Unit {0}) × Option ℕ × ℕ)
poll_wait m expected = block_poll m (checked m expected)

unfoldable pub poll_take : Moments → (rounds now : ℕ) → Option ℕ → Option (Poll ℕ × Option ℕ × ℕ)
poll_take m = block_poll m (attempted m)
