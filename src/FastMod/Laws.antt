-- ===== src/FastMod/Laws.antt =====
-- src/prelude.rs: `fast_mod` is the remainder, and the rounding of sizes is to the least power.
use native.Mathlib.Nat.{pow-suc}
use nexusq.Base.{
  ℕ, zero, suc, ◌+◌, ◌*◌, ◌%◌, ◌^◌, ◌≤◌, ◌<◌, ◌≡◌, refl, ◌⊎◌, inl, inr, arith, bit_and_mask, dec_le,
}
use nexusq.FastMod.{fast_mod, first_power, maybe_next_power_of_two}

-- For a denominator that is a power of two, `fast_mod` is `%`.
pub fast_mod-eq-mod : (k n : ℕ) → fast_mod n (2 ^ k) ≡ n % 2 ^ k
unfolding fast_mod
fast_mod-eq-mod k n = bit_and_mask k n

-- The loop from the power `2 ^ j`, when `rounds` more doublings reach `n`.
record IsLeast (low n p : ℕ) : Type 0 where
  exponent : ℕ
  above : low ≤ exponent
  power : p ≡ 2 ^ exponent
  covers : n ≤ p
  tight : (exponent ≡ low) ⊎ (p < 2 * n)

IsLeast-here : (j n : ℕ) → n ≤ 2 ^ j → IsLeast j n (2 ^ j)
IsLeast-here j n h = record {
  exponent = j;
  above = omega arith;
  power = refl;
  covers = h;
  tight = inl refl;
}

IsLeast-doubled : {j n p : ℕ} → 2 ^ j < n → IsLeast (suc j) n p → IsLeast j n p
IsLeast-doubled {j} {n} {p} h r = record {
  exponent = r.exponent;
  above = omega (arith, r.above);
  power = r.power;
  covers = r.covers;
  tight = inr (ground (arith, r.tight, r.power, pow-suc 2 j));
}

first_power-IsLeast :
    (rounds j top n : ℕ)
    → j + rounds ≡ top
    → n ≤ 2 ^ top
    → IsLeast j n (first_power (suc rounds) (2 ^ j) n)
unfolding first_power
first_power-IsLeast zero j top n e h =
    let stop : j ≡ top = omega arith in
    let fits : n ≤ 2 ^ j = rw stop h in
    let found : first_power 1 (2 ^ j) n ≡ 2 ^ j = ground arith in rw found (IsLeast-here j n fits)
first_power-IsLeast (suc rounds) j top n e h = elim (dec_le n (2 ^ j)) [
  | yes fits ↦
      let found : first_power (suc (suc rounds)) (2 ^ j) n ≡ 2 ^ j = ground arith in
      rw found (IsLeast-here j n fits)
  | no small ↦
      let rest = first_power-IsLeast rounds (suc j) top n (omega arith) h in
      let next : first_power (suc (suc rounds)) (2 ^ j) n ≡ first_power (suc rounds) (2 ^ suc j) n =
        ground (arith, pow-suc 2 j) in
      rw next (IsLeast-doubled (omega arith) rest)
]

-- `maybe_next_power_of_two` of a size up to 2 ^ 63 is the least power of two that holds it:
-- a power of two, at least the size, and less than twice the size, or 1.
pub maybe_next_power_of_two-least :
    (n : ℕ)
    → n ≤ 2 ^ 63
    → (k : ℕ) × (maybe_next_power_of_two n ≡ 2 ^ k) × (n ≤ 2 ^ k) × ((2 ^ k ≡ 1) ⊎ (2 ^ k < 2 * n))
unfolding maybe_next_power_of_two
maybe_next_power_of_two-least n h =
    let r = first_power-IsLeast 63 0 63 n (omega arith) h in
    (r.exponent, r.power, rw (← r.power) r.covers, ground (arith, r.tight, r.power))
