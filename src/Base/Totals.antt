-- ===== src/Base/Totals.antt =====
-- Sums over a list.
use Prim.Native.Nat.{ℕ, zero, suc, ◌+◌, ◌*◌, ◌≤◌, ◌<◌}
use mathlib.Core.Path.{◌≡◌, refl}
use mathlib.Core.List.{List, [], ◌∷◌, ◌++◌}
use mathlib.Core.Option.{some}
use native.Mathlib.Decide.{dec_lt}
use native.Mathlib.Omega.{arith}
use nexusq.Base.Lists.{length, get_elem?, set}

module _ {ℓ} {A : Type ℓ} (w : A → ℕ) where
  unfoldable pub total : List A → ℕ
  total [] = 0
  total (x ∷ xs) = w x + total xs

  pub total-set :
      (xs : List A) (k : ℕ) (x y : A)
      → get_elem? xs k ≡ some x
      → total (set xs k y) + w x ≡ total xs + w y
  unfolding total
  total-set [] k x y e = cc
  total-set (z ∷ xs) zero x y e = ground arith
  total-set (z ∷ xs) (suc k) x y e = omega (arith, total-set xs k x y e)

  pub total-snoc : (xs : List A) (x : A) → total (xs ++ x ∷ []) ≡ total xs + w x
  unfolding total
  total-snoc [] x = omega arith
  total-snoc (y ∷ xs) x = omega (arith, total-snoc xs x)

  pub le-total : (xs : List A) (k : ℕ) (x : A) → get_elem? xs k ≡ some x → w x ≤ total xs
  unfolding total
  le-total [] k x e = cc
  le-total (y ∷ xs) zero x e = ground arith
  le-total (y ∷ xs) (suc k) x e = omega (arith, le-total xs k x e)

  pub total-le : (b : ℕ) → ((x : A) → w x ≤ b) → (xs : List A) → total xs ≤ b * length xs
  unfolding total
  total-le b h [] = omega arith
  total-le b h (x ∷ xs) = grind (arith, h x, total-le b h xs)

  -- Where a sum is not 0, some entry is not 0.
  pub of_total_pos :
      (xs : List A) → 0 < total xs → (k : ℕ) × (x : A) × (get_elem? xs k ≡ some x) × (0 < w x)
  unfolding total
  of_total_pos [] h = absurd (omega arith)
  of_total_pos (x ∷ xs) h = elim (dec_lt 0 (w x)) [
    | yes p ↦ (zero, x, refl, p)
    | no n ↦ let (k, y, e, p) = of_total_pos xs (omega arith) in (suc k, y, e, p)
  ]
