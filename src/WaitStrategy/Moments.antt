-- ===== src/WaitStrategy/Moments.antt =====
-- src/wait_strategy/: what a waiting thread meets. The loops of the strategies run from moment to
-- moment; at each the other threads have left some word, and the clock shows some time.
use nexusq.Base.{ℕ, Bool, Option, none, some, if◌then◌else◌}
use nexusq.WaitStrategy.{check, try_take}

-- `word` and `clock` are the awaited word and `Instant::now()` at each moment. `wait` and
-- `wait_deadline` are those of `EventListener`, for a listener that was armed at a moment and
-- waits since another: the moment of the return, which `wait` may never reach. `wait_deadline`
-- also tells whether it was notified. `poll_event` is that of an armed listener, and tells whether
-- it was notified by then.
pub record Moments : Type 0 where
  pub word : ℕ → ℕ
  pub clock : ℕ → ℕ
  pub wait : (armed since : ℕ) → Option ℕ
  pub wait_deadline : (armed since deadline : ℕ) → Bool × ℕ
  pub poll_event : (armed now : ℕ) → Bool

-- `waitable.check(expected_value)` at a moment
unfoldable pub checked : Moments → (expected : ℕ) → ℕ → Option (Unit {0})
checked m expected t = if check (m.word t) expected then some tt else none

-- `takeable.try_take()` at a moment. An attempt that fails leaves the word as it was; the one that
-- succeeds is the last of its loop and leaves `TAKEN` behind.
unfoldable pub attempted : Moments → ℕ → Option ℕ
unfolding try_take
attempted m t = (try_take (m.word t)).0
