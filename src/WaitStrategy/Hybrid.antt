-- ===== src/WaitStrategy/Hybrid.antt =====
-- src/wait_strategy/hybrid.rs: the strategy that spins, yields and then blocks. A spin and a yield
-- let a moment pass, so their loops are the same here.
use nexusq.Base.{Poll, ℕ, zero, suc, ◌+◌, Option, none, some, Result, ok, err, leb, if◌then◌else◌}
use nexusq.WaitStrategy.{WaitError, timeout}
use nexusq.WaitStrategy.Moments.{Moments, checked, attempted}
use nexusq.WaitStrategy.Block

-- Without the `BlockStrategy`, which keeps nothing that a wait reads.
pub record HybridWait : Type 0 where
  pub num_spin : ℕ
  pub num_yield : ℕ

unfoldable pub new : (num_spin num_yield : ℕ) → HybridWait
new num_spin num_yield = record { num_spin = num_spin; num_yield = num_yield }

unfoldable pub default : HybridWait
unfolding new
default = new 50 0

module _ {ℓ} {B : Type ℓ} (m : Moments) (attempt : ℕ → Option B) where
  -- `for _ in 0..turns`: what was found, or the moment after the last turn.
  unfoldable pub spin : (turns now : ℕ) → Result (B × ℕ) ℕ
  spin zero now = err now
  spin (suc turns) now = elim (attempt now) [ some v ↦ ok (v, now) | none ↦ spin turns (now + 1) ]

  -- With a look at the clock in each turn.
  unfoldable pub spin_until : (deadline turns now : ℕ) → Result (Result (B × ℕ) WaitError) ℕ
  spin_until deadline zero now = err now
  spin_until deadline (suc turns) now =
      let rest = spin_until deadline turns (now + 2) in
      elim (attempt now) [
        | some v ↦ ok (ok (v, now))
        | none ↦ if leb deadline (m.clock (now + 1)) then ok (err timeout) else rest
      ]

  unfoldable pub hybrid : HybridWait → (rounds now : ℕ) → Option (B × ℕ)
  unfolding Block.block
  hybrid h rounds now = elim (spin h.num_spin now) [
    | ok found ↦ some found
    | err spun ↦ elim (spin h.num_yield spun) [
      | ok found ↦ some found
      | err yielded ↦ elim (attempt yielded) [
        | some v ↦ some (v, yielded)
        | none ↦ Block.block m attempt rounds (yielded + 1)
      ]
    ]
  ]

  unfoldable pub hybrid_until :
      HybridWait → (deadline rounds now : ℕ) → Option (Result (B × ℕ) WaitError)
  unfolding Block.block_until
  hybrid_until h deadline rounds now = elim (spin_until deadline h.num_spin now) [
    | ok result ↦ some result
    | err spun ↦ elim (spin_until deadline h.num_yield spun) [
      | ok result ↦ some result
      | err yielded ↦ elim (attempt yielded) [
        | some v ↦ some (ok (v, yielded))
        | none ↦ Block.block_until m attempt deadline rounds (yielded + 1)
      ]
    ]
  ]

unfoldable pub wait_for : HybridWait → Moments → (expected rounds now : ℕ) → Option (Unit {0} × ℕ)
wait_for h m expected = hybrid m (checked m expected) h

unfoldable pub wait_until :
    HybridWait
    → Moments
    → (expected deadline rounds now : ℕ) → Option (Result (Unit {0} × ℕ) WaitError)
wait_until h m expected = hybrid_until m (checked m expected) h

unfoldable pub take : HybridWait → Moments → (rounds now : ℕ) → Option (ℕ × ℕ)
take h m = hybrid m (attempted m) h

unfoldable pub take_before :
    HybridWait → Moments → (deadline rounds now : ℕ) → Option (Result (ℕ × ℕ) WaitError)
take_before h m = hybrid_until m (attempted m) h

-- The polls are those of the `BlockStrategy`.
unfoldable pub poll_wait :
    Moments → (expected rounds now : ℕ) → Option ℕ → Option (Poll (Unit {0}) × Option ℕ × ℕ)
poll_wait = Block.poll_wait

unfoldable pub poll_take : Moments → (rounds now : ℕ) → Option ℕ → Option (Poll ℕ × Option ℕ × ℕ)
poll_take = Block.poll_take
