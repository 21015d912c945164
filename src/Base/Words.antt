-- ===== src/Base/Words.antt =====
-- `usize` on a 64-bit target, as native numbers below 2 ^ 64.
use Prim.Native.Nat.{ℕ, ◌+◌, ◌-◌, ◌%◌, ◌^◌}

abbrev pub usize_max : ℕ
usize_max = 2 ^ 64 - 1

abbrev pub isize_max : ℕ
isize_max = 2 ^ 63 - 1

-- Also `fetch_add` on an atomic word, which wraps.
abbrev pub wrapping_add : ℕ → ℕ → ℕ
wrapping_add a b = (a + b) % 2 ^ 64

-- Also `fetch_sub`; the modulus comes first, since `-` on ℕ stops at 0.
abbrev pub wrapping_sub : ℕ → ℕ → ℕ
wrapping_sub a b = (a + 2 ^ 64 - b) % 2 ^ 64
