-- ===== src/WaitStrategy.antt =====
-- src/wait_strategy/mod.rs: what `Waitable` and `Takeable` mean for an atomic word.
-- An operation on a word returns its result and the word that it leaves behind.
pub mod Moments
pub mod Block
pub mod Hybrid
pub mod Backoff
pub mod Taking
pub mod Ends
pub mod Deadlines
pub mod Polls
pub mod Traits
pub mod Lawful
use nexusq.Base.{ℕ, Bool, Option, none, some, usize_max, ◌==◌, if◌then◌else◌}

pub data WaitError : Type 0 where
  timeout : WaitError

-- `Waitable::check`
abbrev pub check : ℕ → ℕ → Bool
check word expected = word == expected

-- `Takeable::TAKEN`
abbrev pub taken : ℕ
taken = usize_max

-- `Takeable::try_take`: the swap always leaves `TAKEN` behind.
unfoldable pub try_take : ℕ → Option ℕ × ℕ
try_take word = (if word == taken then none else some word, taken)

-- `Takeable::restore`
unfoldable pub restore : ℕ → ℕ → ℕ
restore word value = value
