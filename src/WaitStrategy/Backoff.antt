-- ===== src/WaitStrategy/Backoff.antt =====
-- src/wait_strategy/backoff.rs: the strategy that never blocks. `Backoff::snooze` lets a moment
-- pass.
use nexusq.Base.{Poll, ℕ, zero, suc, ◌+◌, Option, none, some, Result, ok, err, leb, if◌then◌else◌}
use nexusq.WaitStrategy.{WaitError, timeout}
use nexusq.WaitStrategy.Moments.{Moments, checked, attempted}
use nexusq.WaitStrategy.Block

module _ {ℓ} {B : Type ℓ} (m : Moments) (attempt : ℕ → Option B) where
  unfoldable pub snooze : (rounds now : ℕ) → Option (B × ℕ)
  snooze zero now = none
  snooze (suc rounds) now = elim (attempt now) [
    | some v ↦ some (v, now)
    | none ↦ snooze rounds (now + 1)
  ]

  unfoldable pub snooze_until : (deadline rounds now : ℕ) → Option (Result (B × ℕ) WaitError)
  snooze_until deadline zero now = none
  snooze_until deadline (suc rounds) now =
      let rest = snooze_until deadline rounds (now + 2) in
      elim (attempt now) [
        | some v ↦ some (ok (v, now))
        | none ↦ if leb deadline (m.clock (now + 1)) then some (err timeout) else rest
      ]

unfoldable pub wait_for : Moments → (expected rounds now : ℕ) → Option (Unit {0} × ℕ)
wait_for m expected = snooze m (checked m expected)

unfoldable pub wait_until :
    Moments → (expected deadline rounds now : ℕ) → Option (Result (Unit {0} × ℕ) WaitError)
wait_until m expected = snooze_until m (checked m expected)

unfoldable pub take : Moments → (rounds now : ℕ) → Option (ℕ × ℕ)
take m = snooze m (attempted m)

unfoldable pub take_before : Moments → (deadline rounds now : ℕ) → Option (Result (ℕ × ℕ) WaitError)
take_before m = snooze_until m (attempted m)

-- The polls are those of the `BlockStrategy`.
unfoldable pub poll_wait :
    Moments → (expected rounds now : ℕ) → Option ℕ → Option (Poll (Unit {0}) × Option ℕ × ℕ)
poll_wait = Block.poll_wait

unfoldable pub poll_take : Moments → (rounds now : ℕ) → Option ℕ → Option (Poll ℕ × Option ℕ × ℕ)
poll_take = Block.poll_take
