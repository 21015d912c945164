-- ===== src/Base/Rounds.antt =====
-- Numbers that go round at `n`: less than a round apart, they do not meet.
use Prim.Native.Nat.{ℕ, ◌+◌, ◌*◌, ◌/◌, ◌%◌, ◌≤◌, ◌<◌}
use mathlib.Core.Path.{◌≡◌, sym}
use mathlib.Core.Logic.{◌≢◌}
use native.Mathlib.Nat.{mod-add-div}
use native.Mathlib.Decide.{dec_le, dec_lt}
use native.Mathlib.Omega.{arith}

mul_mono : (n x y : ℕ) → x ≤ y → n * x ≤ n * y
mul_mono n x y h = grind arith

pub mod-ne : (n a b : ℕ) → a < b → b < a + n → a % n ≢ b % n
mod-ne n a b lo hi e = elim (dec_le (b / n) (a / n)) [
  | yes h ↦ omega (arith, mod-add-div a n, mod-add-div b n, mul_mono n (b / n) (a / n) h)
  | no h ↦
      omega (arith, mod-add-div a n, mod-add-div b n, mul_mono n (a / n + 1) (b / n) (omega arith))
]

-- Up to a whole round apart, they meet exactly a round apart.
pub round_of_mod-eq : (n a b : ℕ) → a < b → b ≤ a + n → a % n ≡ b % n → b ≡ a + n
round_of_mod-eq n a b lo hi e = elim (dec_le (a + n) b) [
  | yes h ↦ omega arith
  | no h ↦ absurd (mod-ne n a b lo (omega arith) e)
]

-- Within a round, only a number itself stands at its place.
pub eq_of_mod-eq : (n a x y : ℕ) → a ≤ x → x < a + n → a ≤ y → y < a + n → x % n ≡ y % n → x ≡ y
eq_of_mod-eq n a x y lo hi lo' hi' e = elim (dec_lt x y) [
  | yes h ↦ absurd (mod-ne n x y h (omega arith) e)
  | no h ↦ elim (dec_lt y x) [
    | yes k ↦ absurd (mod-ne n y x k (omega arith) (sym e))
    | no k ↦ omega arith
  ]
]
