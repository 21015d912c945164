-- ===== src/Ring/Cells.antt =====
-- Where the ids of the ring lie: which cell is the next to be written, and who stands on it.
use native.Mathlib.Nat.{add-mod_right}
use nexusq.Base.{ℕ, ◌+◌, ◌-◌, ◌%◌, ◌≤◌, ◌≡◌, arith, List, [], ◌∷◌, All, round_of_mod-eq, ◌⊎◌}
use nexusq.FastMod.{fast_mod}
use nexusq.FastMod.Laws.{fast_mod-eq-mod}
use nexusq.Cell.{Cell}
use nexusq.Receiver.{Receiver}
use nexusq.Ring.Occupancy.{occupancy, stands}
use nexusq.Ring.Defs.{IsAnchored, IsRing}

-- A receiver stands on the cell that the next message wants exactly when it is a round behind.
pub stands-next :
    {len m : ℕ} {r : Receiver}
    → IsAnchored len m r
    → ((stands ((m + 1) % len) r ≡ 0) × (m + 3 ≤ r.cursor + len))
      ⊎ ((stands ((m + 1) % len) r ≡ 1) × (m + 2 ≡ r.cursor + len))
stands-next {len} {m} {r} h = ground (
  arith,
  h,
  round_of_mod-eq len (r.cursor - 1) (m + 1) (omega arith) (omega arith),
  add-mod_right (r.cursor - 1) len,
)

-- With nobody on that cell, every receiver is still near after one more message.
pub All-IsAnchored-suc :
    (len m : ℕ) (rs : List Receiver)
    → All (IsAnchored len m) rs
    → occupancy ((m + 1) % len) rs ≡ 0
    → All (IsAnchored len (m + 1)) rs
unfolding occupancy
All-IsAnchored-suc len m [] h e = tt
All-IsAnchored-suc len m (r ∷ rs) h e =
    (ground (arith, h.0, stands-next h.0), All-IsAnchored-suc len m rs h.1 (omega arith))

-- The code's index of an id is its remainder.
pub index-eq-mod {ℓ} :
    {A : Type ℓ} {len : ℕ} {cells : ℕ → Cell A} {rs : List Receiver} {log : List A}
    → IsRing len cells rs log
    → (id : ℕ) → fast_mod id len ≡ id % len
index-eq-mod v id = rw (v.is_power) (fast_mod-eq-mod v.exponent id)
