-- ===== src/Ring/Defs.antt =====
-- The invariant of the ring, of src/lib.rs `NexusQ` and src/receiver.rs `Receiver`.
use nexusq.Base.{ℕ, ◌+◌, ◌-◌, ◌%◌, ◌^◌, ◌≤◌, ◌<◌, ◌≡◌, List, length, get_elem?, usize_max, All}
use nexusq.Cell.{Cell}
use nexusq.Nexus.{NexusQ}
use nexusq.Receiver.{Receiver}
use nexusq.Ring.Occupancy.{occupancy}

-- How many messages a receiver has read.
abbrev pub position : Receiver → ℕ
position r = r.cursor - 1

-- A receiver stands on the cell of the last message that it read, no more than a round behind.
pub record IsAnchored (len sent : ℕ) (r : Receiver) : Type 0 where
  pub started : 1 ≤ r.cursor
  pub behind : r.cursor ≤ sent + 1
  pub near : sent + 2 ≤ r.cursor + len
  pub on_cell : r.previous_cell_index ≡ (r.cursor - 1) % len

-- The cells, `len` of them, with the receivers `rs`, when the messages `log` have been published.
pub record IsRing {ℓ} {A : Type ℓ} (len : ℕ) (cells : ℕ → Cell A) (rs : List Receiver)
    (log : List A) : Type ℓ where
  pub exponent : ℕ
  pub is_power : len ≡ 2 ^ exponent
  pub at_least_two : 2 ≤ len
  pub fits : len ≤ 2 ^ 63
  pub few : length rs < usize_max
  pub log_fits : length log + 1 ≤ usize_max
  pub anchored : All (IsAnchored len (length log)) rs
  pub counted : (i : ℕ) → (cells i).read_counter ≡ occupancy i rs
  pub ids :
      (id : ℕ)
      → 1 ≤ id
      → id ≤ length log
      → length log < id + len
      → (cells (id % len)).current_id ≡ id
  pub values :
      (id : ℕ)
      → 1 ≤ id
      → id ≤ length log
      → length log < id + len
      → (cells (id % len)).value ≡ get_elem? log (id - 1)
  pub unwritten : (id : ℕ) → length log < id → id ≤ len → (cells (id % len)).current_id ≡ usize_max

-- The whole shared state between two calls: the token is free and holds the next id.
pub record IsValid {ℓ} {A : Type ℓ} (q : NexusQ A) (rs : List Receiver) (log : List A)
    : Type ℓ where
  pub ring : IsRing q.len q.cells rs log
  pub head : q.write_head ≡ length log + 1
  pub registered : q.num_receivers ≡ length rs
