-- ===== src/Tests/Units/Masks.antt =====
-- The unit test of src/lib.rs, `mod fast_mod_tests`.
use nexusq.Base.{
  ℕ, zero, suc, ◌+◌, ◌%◌, ◌^◌, ◌≡◌, ◌∙◌, refl, Bool, true, false, ◌&&◌, leb, ◌==◌, ==_self,
  if◌then◌else◌,
}
use nexusq.FastMod.{fast_mod, maybe_next_power_of_two}
use nexusq.FastMod.Laws.{fast_mod-eq-mod}

-- The loop on `d` for one `n`; it has not ended when the fuel is out, and the test fails then.
unfoldable while_d : (fuel n d : ℕ) → Bool
while_d zero n d = false
while_d (suc fuel) n d =
    let power = maybe_next_power_of_two d in
    let rest = while_d fuel n (power + 1) in
    if leb d (maybe_next_power_of_two 1024) then (n % power == fast_mod n power) && rest else true

-- The loop on `n`, up to the bound
unfoldable for_n : ℕ → Bool
unfolding while_d
for_n zero = true
for_n (suc n) = for_n n && while_d 12 n 1

unfoldable test_fast_mod : Bool
unfolding for_n
test_fast_mod = for_n 1024

-- A round at `d`, whose power is `2 ^ k`
round :
    (k fuel n d : ℕ)
    → leb d (maybe_next_power_of_two 1024) ≡ true
    → maybe_next_power_of_two d ≡ 2 ^ k
    → while_d (suc fuel) n d ≡ while_d fuel n (2 ^ k + 1)
unfolding while_d
round k fuel n d more power = rw (more, power, fast_mod-eq-mod k n, ==_self (n % 2 ^ k)) refl

ends : (n : ℕ) → while_d 1 n 1025 ≡ true
unfolding while_d maybe_next_power_of_two
ends n = refl

all_rounds : (n : ℕ) → while_d 12 n 1 ≡ true
unfolding maybe_next_power_of_two
all_rounds n =
    round 0 11 n 1 refl refl
    ∙ round 1 10 n 2 refl refl
    ∙ round 2 9 n 3 refl refl
    ∙ round 3 8 n 5 refl refl
    ∙ round 4 7 n 9 refl refl
    ∙ round 5 6 n 17 refl refl
    ∙ round 6 5 n 33 refl refl
    ∙ round 7 4 n 65 refl refl
    ∙ round 8 3 n 129 refl refl
    ∙ round 9 2 n 257 refl refl
    ∙ round 10 1 n 513 refl refl
    ∙ ends n

all_pass : (n : ℕ) → for_n n ≡ true
unfolding for_n
all_pass zero = refl
all_pass (suc n) = rw (all_pass n, all_rounds n) refl

test_fast_mod_passes : test_fast_mod ≡ true
unfolding test_fast_mod
test_fast_mod_passes = all_pass 1024
