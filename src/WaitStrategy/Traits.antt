-- ===== src/WaitStrategy/Traits.antt =====
-- src/wait_strategy/mod.rs: the traits `Wait` and `Take` for an atomic word, as records of their
-- operations over moments, and their implementations by the three strategies.
use nexusq.Base.{ℕ, Option, Result, Poll}
use nexusq.WaitStrategy.{WaitError, try_take}
use nexusq.WaitStrategy.Moments.{Moments}
use nexusq.WaitStrategy.Block
use nexusq.WaitStrategy.Hybrid
use nexusq.WaitStrategy.Hybrid.{HybridWait}
use nexusq.WaitStrategy.Backoff

-- `Wait<AtomicUsize>`
pub record Wait : Type 0 where
  pub wait_for : Moments → (expected rounds now : ℕ) → Option (Unit {0} × ℕ)
  pub wait_until :
      Moments → (expected deadline rounds now : ℕ) → Option (Result (Unit {0} × ℕ) WaitError)
  pub poll :
      Moments → (expected rounds now : ℕ) → Option ℕ → Option (Poll (Unit {0}) × Option ℕ × ℕ)

-- `Take<AtomicUsize>`
pub record Take : Type 0 where
  pub take : Moments → (rounds now : ℕ) → Option (ℕ × ℕ)
  pub try_take : ℕ → Option ℕ × ℕ
  pub take_before : Moments → (deadline rounds now : ℕ) → Option (Result (ℕ × ℕ) WaitError)
  pub poll : Moments → (rounds now : ℕ) → Option ℕ → Option (Poll ℕ × Option ℕ × ℕ)

-- The strategies that come with the channel
pub data Strategy : Type 0 where
  block_strategy : Strategy
  hybrid_wait : HybridWait → Strategy
  backoff_wait : Strategy

unfoldable pub wait_of : Strategy → Wait
wait_of block_strategy = record {
  wait_for = Block.wait_for;
  wait_until = Block.wait_until;
  poll = Block.poll_wait;
}
wait_of (hybrid_wait h) = record {
  wait_for = Hybrid.wait_for h;
  wait_until = Hybrid.wait_until h;
  poll = Hybrid.poll_wait;
}
wait_of backoff_wait = record {
  wait_for = Backoff.wait_for;
  wait_until = Backoff.wait_until;
  poll = Backoff.poll_wait;
}

unfoldable pub take_of : Strategy → Take
take_of block_strategy = record {
  take = Block.take;
  try_take = try_take;
  take_before = Block.take_before;
  poll = Block.poll_take;
}
take_of (hybrid_wait h) = record {
  take = Hybrid.take h;
  try_take = try_take;
  take_before = Hybrid.take_before h;
  poll = Hybrid.poll_take;
}
take_of backoff_wait = record {
  take = Backoff.take;
  try_take = try_take;
  take_before = Backoff.take_before;
  poll = Backoff.poll_take;
}
