-- ===== src/FastMod.antt =====
-- src/prelude.rs: the trait `FastMod` of `usize` and `u64`, both 64 bits wide here.
pub mod Laws
use nexusq.Base.{ℕ, zero, suc, ◌-◌, ◌*◌, bit_and, leb, if◌then◌else◌}

-- The methods subtract only from a positive denominator, which their debug assertions demand.
unfoldable pub fast_mod : ℕ → ℕ → ℕ
fast_mod n denominator = bit_and n (denominator - 1)

-- The standard library's `next_power_of_two`: the first of 1, 2, 4, … that is not below `n`.
-- After 64 doublings the product has left the word, and the release build gives 0.
unfoldable pub first_power : ℕ → ℕ → ℕ → ℕ
first_power zero p n = 0
first_power (suc rounds) p n =
    let rest = first_power rounds (p * 2) n in if leb n p then p else rest

unfoldable pub maybe_next_power_of_two : ℕ → ℕ
unfolding first_power
maybe_next_power_of_two n = first_power 64 1 n
