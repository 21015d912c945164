-- ===== src/Base/Lists.antt =====
-- Lists measured and indexed by native numbers, under the library's names.
use Prim.Native.Nat.{ℕ, zero, suc, ◌+◌, ◌≤◌, ◌<◌}
use mathlib.Core.Path.{◌≡◌, refl, ap, sym}
use mathlib.Core.Logic.{◌≢◌, ◌⊎◌, inl, inr}
use mathlib.Core.List.{List, [], ◌∷◌, ◌++◌, map}
use mathlib.Core.Option.{Option, none, some, none-ne-some, some-injective}
use native.Mathlib.Omega.{arith}

module _ {ℓ} {A : Type ℓ} where
  abbrev pub length : List A → ℕ
  length [] = 0
  length (x ∷ xs) = suc (length xs)

  abbrev pub get_elem? : List A → ℕ → Option A
  get_elem? [] i = none
  get_elem? (x ∷ xs) zero = some x
  get_elem? (x ∷ xs) (suc i) = get_elem? xs i

  -- A write out of bounds changes nothing.
  abbrev pub set : List A → ℕ → A → List A
  set [] i v = []
  set (x ∷ xs) zero v = v ∷ xs
  set (x ∷ xs) (suc i) v = x ∷ set xs i v

  -- The first `n` elements, or as many as there are.
  abbrev pub take : ℕ → List A → List A
  take zero xs = []
  take (suc n) [] = []
  take (suc n) (x ∷ xs) = x ∷ take n xs

  -- The list without its `i`-th element.
  abbrev pub erase_idx : List A → ℕ → List A
  erase_idx [] i = []
  erase_idx (x ∷ xs) zero = xs
  erase_idx (x ∷ xs) (suc i) = x ∷ erase_idx xs i

module _ {ℓ} {A : Type ℓ} where
  pub length-append : (xs ys : List A) → length (xs ++ ys) ≡ length xs + length ys
  length-append [] ys = omega arith
  length-append (x ∷ xs) ys = omega (arith, length-append xs ys)

  pub length-set : (xs : List A) (i : ℕ) (v : A) → length (set xs i v) ≡ length xs
  length-set [] i v = refl
  length-set (x ∷ xs) zero v = refl
  length-set (x ∷ xs) (suc i) v = ap suc (length-set xs i v)

  pub get_elem?-set_self :
      (xs : List A) (i : ℕ) (x v : A) → get_elem? xs i ≡ some x → get_elem? (set xs i v) i ≡ some v
  get_elem?-set_self [] i x v h = cc
  get_elem?-set_self (y ∷ xs) zero x v h = refl
  get_elem?-set_self (y ∷ xs) (suc i) x v h = get_elem?-set_self xs i x v h

  pub set-set : (xs : List A) (i : ℕ) (v w : A) → set (set xs i v) i w ≡ set xs i w
  set-set [] i v w = refl
  set-set (y ∷ xs) zero v w = refl
  set-set (y ∷ xs) (suc i) v w = ap (λ ys. y ∷ ys) (set-set xs i v w)

  -- To write what is there changes nothing.
  pub set-get_elem? : (xs : List A) (i : ℕ) (x : A) → get_elem? xs i ≡ some x → set xs i x ≡ xs
  set-get_elem? [] i x h = refl
  set-get_elem? (y ∷ xs) zero x h = ap (λ z. z ∷ xs) (cc)
  set-get_elem? (y ∷ xs) (suc i) x h = ap (λ ys. y ∷ ys) (set-get_elem? xs i x h)

  pub length-erase_idx :
      (xs : List A) (i : ℕ) (x : A)
      → get_elem? xs i ≡ some x
      → length (erase_idx xs i) + 1 ≡ length xs
  length-erase_idx [] i x h = cc
  length-erase_idx (y ∷ xs) zero x h = omega arith
  length-erase_idx (y ∷ xs) (suc i) x h = omega (arith, length-erase_idx xs i x h)

  pub get_elem?-append_left :
      (xs ys : List A) (i : ℕ) → i < length xs → get_elem? (xs ++ ys) i ≡ get_elem? xs i
  get_elem?-append_left [] ys i h = absurd (omega arith)
  get_elem?-append_left (x ∷ xs) ys zero h = refl
  get_elem?-append_left (x ∷ xs) ys (suc i) h = get_elem?-append_left xs ys i (omega arith)

  pub get_elem?-append_of_some :
      (xs ys : List A) (i : ℕ) (x : A) → get_elem? xs i ≡ some x → get_elem? (xs ++ ys) i ≡ some x
  get_elem?-append_of_some [] ys i x e = cc
  get_elem?-append_of_some (y ∷ xs) ys zero x e = e
  get_elem?-append_of_some (y ∷ xs) ys (suc i) x e = get_elem?-append_of_some xs ys i x e

  pub get_elem?-append_last : (xs : List A) (x : A) → get_elem? (xs ++ x ∷ []) (length xs) ≡ some x
  get_elem?-append_last [] x = refl
  get_elem?-append_last (y ∷ xs) x = get_elem?-append_last xs x

  pub get_elem?-none_of_le : (xs : List A) (i : ℕ) → length xs ≤ i → get_elem? xs i ≡ none
  get_elem?-none_of_le [] i h = refl
  get_elem?-none_of_le (x ∷ xs) zero h = absurd (omega arith)
  get_elem?-none_of_le (x ∷ xs) (suc i) h = get_elem?-none_of_le xs i (omega arith)

  pub get_elem?-some_of_lt :
      (xs : List A) (i : ℕ) → i < length xs → (x : A) × (get_elem? xs i ≡ some x)
  get_elem?-some_of_lt [] i h = absurd (omega arith)
  get_elem?-some_of_lt (x ∷ xs) zero h = (x, refl)
  get_elem?-some_of_lt (x ∷ xs) (suc i) h = get_elem?-some_of_lt xs i (omega arith)

  pub length-take-le : (n : ℕ) (xs : List A) → length (take n xs) ≤ n
  length-take-le zero xs = omega arith
  length-take-le (suc n) [] = omega arith
  length-take-le (suc n) (x ∷ xs) = omega (arith, length-take-le n xs)

  pub take-append_left : (n : ℕ) (xs ys : List A) → n ≤ length xs → take n (xs ++ ys) ≡ take n xs
  take-append_left zero xs ys h = refl
  take-append_left (suc n) [] ys h = absurd (omega arith)
  take-append_left (suc n) (x ∷ xs) ys h =
      ap (λ zs. x ∷ zs) (take-append_left n xs ys (omega arith))

  pub take-snoc :
      (n : ℕ) (xs : List A) (x : A)
      → get_elem? xs n ≡ some x
      → take n xs ++ x ∷ [] ≡ take (suc n) xs
  take-snoc n [] x e = cc
  take-snoc zero (y ∷ xs) x e = ap (λ z. z ∷ []) (some-injective x y (sym e))
  take-snoc (suc n) (y ∷ xs) x e = ap (λ zs. y ∷ zs) (take-snoc n xs x e)

module _ {ℓ κ} {A : Type ℓ} {B : Type κ} (f : A → B) where
  pub length-map : (xs : List A) → length (map f xs) ≡ length xs
  length-map [] = refl
  length-map (x ∷ xs) = ap suc (length-map xs)

  pub map-set : (xs : List A) (i : ℕ) (v : A) → map f (set xs i v) ≡ set (map f xs) i (f v)
  map-set [] i v = refl
  map-set (x ∷ xs) zero v = refl
  map-set (x ∷ xs) (suc i) v = ap (λ ys. f x ∷ ys) (map-set xs i v)

  pub map-erase_idx : (xs : List A) (i : ℕ) → map f (erase_idx xs i) ≡ erase_idx (map f xs) i
  map-erase_idx [] i = refl
  map-erase_idx (x ∷ xs) zero = refl
  map-erase_idx (x ∷ xs) (suc i) = ap (λ ys. f x ∷ ys) (map-erase_idx xs i)

  pub get_elem?-map-some :
      (xs : List A) (i : ℕ) (x : A) → get_elem? xs i ≡ some x → get_elem? (map f xs) i ≡ some (f x)
  get_elem?-map-some [] i x h = cc
  get_elem?-map-some (y ∷ xs) zero x h = let e : y ≡ x = cc in ap (λ z. some (f z)) e
  get_elem?-map-some (y ∷ xs) (suc i) x h = get_elem?-map-some xs i x h

  pub get_elem?-map-none :
      (xs : List A) (i : ℕ) → get_elem? xs i ≡ none → get_elem? (map f xs) i ≡ none
  get_elem?-map-none [] i h = refl
  get_elem?-map-none (y ∷ xs) zero h = cc
  get_elem?-map-none (y ∷ xs) (suc i) h = get_elem?-map-none xs i h

  pub map-snoc : (xs : List A) (x : A) → map f (xs ++ x ∷ []) ≡ map f xs ++ f x ∷ []
  map-snoc [] x = refl
  map-snoc (y ∷ xs) x = ap (λ ys. f y ∷ ys) (map-snoc xs x)

-- What stands at an index after a write.
pub get_elem?-set {ℓ} :
    {A : Type ℓ} (xs : List A) (k i : ℕ) (v y : A)
    → get_elem? (set xs k v) i ≡ some y
    → ((i ≡ k) × (y ≡ v)) ⊎ ((i ≢ k) × (get_elem? xs i ≡ some y))
get_elem?-set [] k i v y e = inr (λ _. none-ne-some y e, e)
get_elem?-set (x ∷ xs) zero zero v y e = inl (refl, some-injective y v (sym e))
get_elem?-set (x ∷ xs) zero (suc i) v y e = inr (λ h. omega arith, e)
get_elem?-set (x ∷ xs) (suc k) zero v y e = inr (λ h. omega arith, e)
get_elem?-set (x ∷ xs) (suc k) (suc i) v y e = elim (get_elem?-set xs k i v y e) [
  | inl (a, b) ↦ inl (ap suc a, b)
  | inr (a, b) ↦ inr (λ h. a (omega arith), b)
]

-- What stands at an index after an element is put behind.
pub get_elem?-snoc {ℓ} :
    {A : Type ℓ} (xs : List A) (x : A) (i : ℕ) (y : A)
    → get_elem? (xs ++ x ∷ []) i ≡ some y
    → (get_elem? xs i ≡ some y) ⊎ (y ≡ x)
get_elem?-snoc [] x zero y e = inr (some-injective y x (sym e))
get_elem?-snoc [] x (suc i) y e = absurd (none-ne-some y e)
get_elem?-snoc (z ∷ xs) x zero y e = inl e
get_elem?-snoc (z ∷ xs) x (suc i) y e = get_elem?-snoc xs x i y e
