-- ===== src/Ring/Occupancy.antt =====
-- How many receivers stand on a cell.
use nexusq.Base.{
  ℕ, zero, suc, ◌+◌, ◌≤◌, ◌≡◌, arith, List, [], ◌∷◌, ◌++◌, some, length, get_elem?, set, erase_idx,
  ◌==◌, if◌then◌else◌,
}
use nexusq.Receiver.{Receiver}

abbrev pub stands : ℕ → Receiver → ℕ
stands i r = if r.previous_cell_index == i then 1 else 0

unfoldable pub occupancy : ℕ → List Receiver → ℕ
occupancy i [] = 0
occupancy i (r ∷ rs) = stands i r + occupancy i rs

pub occupancy-le-length : (i : ℕ) (rs : List Receiver) → occupancy i rs ≤ length rs
unfolding occupancy
occupancy-le-length i [] = omega arith
occupancy-le-length i (r ∷ rs) = ground (arith, occupancy-le-length i rs)

pub occupancy-set :
    (i : ℕ) (rs : List Receiver) (j : ℕ) (r r' : Receiver)
    → get_elem? rs j ≡ some r
    → occupancy i (set rs j r') + stands i r ≡ occupancy i rs + stands i r'
unfolding occupancy
occupancy-set i [] j r r' e = cc
occupancy-set i (x ∷ rs) zero r r' e = ground arith
occupancy-set i (x ∷ rs) (suc j) r r' e = omega (arith, occupancy-set i rs j r r' e)

pub occupancy-erase_idx :
    (i : ℕ) (rs : List Receiver) (j : ℕ) (r : Receiver)
    → get_elem? rs j ≡ some r
    → occupancy i (erase_idx rs j) + stands i r ≡ occupancy i rs
unfolding occupancy
occupancy-erase_idx i [] j r e = cc
occupancy-erase_idx i (x ∷ rs) zero r e = ground arith
occupancy-erase_idx i (x ∷ rs) (suc j) r e = omega (arith, occupancy-erase_idx i rs j r e)

pub occupancy-snoc :
    (i : ℕ) (rs : List Receiver) (r : Receiver)
    → occupancy i (rs ++ r ∷ []) ≡ occupancy i rs + stands i r
unfolding occupancy
occupancy-snoc i [] r = omega arith
occupancy-snoc i (x ∷ rs) r = omega (arith, occupancy-snoc i rs r)
