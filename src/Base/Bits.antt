-- ===== src/Base/Bits.antt =====
-- A bitwise `and` with a mask of low bits is a remainder, at every width.
use Prim.Native.Nat.{ℕ, zero, suc, ◌+◌, ◌-◌, ◌*◌, ◌/◌, ◌%◌, ◌^◌, ◌≤◌, ◌<◌, min, bit_and}
use Prim.Native.Nat.{digits, bit_and-bitwise}
use mathlib.Core.Path.{◌≡◌, refl, ap, ◌∙◌}
use native.Mathlib.Decide.{dec_le}
use native.Mathlib.Nat.{pow-suc, one-le-pow}
use native.Mathlib.Omega.{arith}

-- The digits of `a` and `b` from the lowest, `n` of them at most.
abbrev meet : ℕ → ℕ → ℕ → ℕ
meet n a b = digits (λ _. 0) min n a b

-- One round more than the number needs changes nothing, and so do many.
spare_round : (n a b : ℕ) → a ≤ n → meet (suc n) a b ≡ meet n a b
spare_round zero (suc a) b h = absurd (omega arith)
spare_round (suc n) (suc a) b h =
    let halves = spare_round n (suc a / 2) (b / 2) (omega arith) in
    ap (λ d. d * 2 + min (suc a % 2) (b % 2)) halves
spare_round zero zero b h = refl
spare_round (suc n) zero b h = refl

spare_rounds : (m n a b : ℕ) → a ≤ n → n ≤ m → meet m a b ≡ meet n a b
spare_rounds zero n a b h le = let e : 0 ≡ n = omega arith in ap (λ k. meet k a b) e
spare_rounds (suc m) n a b h le = elim (dec_le n m) [
  | yes below ↦ spare_round m a b (omega arith) ∙ spare_rounds m n a b h below
  | no top ↦ let e : suc m ≡ n = omega arith in ap (λ k. meet k a b) e
]

lowest_digit : (a b : ℕ) → bit_and a b ≡ bit_and (a / 2) (b / 2) * 2 + min (a % 2) (b % 2)
lowest_digit zero b = omega (arith, bit_and-bitwise 0 b, bit_and-bitwise 0 (b / 2))
lowest_digit (suc a) b =
    let half : ℕ = suc a / 2 in
    let same = spare_rounds a half half (b / 2) (omega arith) (omega arith) in
    omega (arith, same, bit_and-bitwise half (b / 2), bit_and-bitwise (suc a) b)

nothing_set : (top a : ℕ) → a ≤ top → bit_and a 0 ≡ 0
nothing_set top zero h = bit_and-bitwise 0 0
nothing_set zero (suc a) h = absurd (omega arith)
nothing_set (suc top) (suc a) h =
    let rest = nothing_set top (suc a / 2) (omega arith) in
    omega (arith, rest, lowest_digit (suc a) 0)

split_product : (q k : ℕ) → q * 2 ^ suc k ≡ 2 * (q * 2 ^ k)
split_product q k = omega (arith, ap (λ (t : ℕ). q * t) (pow-suc 2 k))

mask_of_sum : (k q r : ℕ) → r < 2 ^ k → bit_and (q * 2 ^ k + r) (2 ^ k - 1) ≡ r
mask_of_sum zero q r h = omega (arith, nothing_set (q * 1 + r) (q * 1 + r) (omega arith))
mask_of_sum (suc k) q r h = ground (
  arith,
  lowest_digit (q * 2 ^ suc k + r) (2 ^ suc k - 1),
  split_product q k,
  pow-suc 2 k,
  one-le-pow k 2,
  mask_of_sum k q (r / 2) (omega (arith, pow-suc 2 k)),
)

pub bit_and_mask : (k a : ℕ) → bit_and a (2 ^ k - 1) ≡ a % 2 ^ k
bit_and_mask k a = ground (arith, one-le-pow k 2, mask_of_sum k (a / 2 ^ k) (a % 2 ^ k))
