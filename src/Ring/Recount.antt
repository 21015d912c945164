-- ===== src/Ring/Recount.antt =====
-- Readers that come, go and move change the counts of the cells and nothing else: the invariant
-- holds for the new readers, once the counts agree with where they stand.
use nexusq.Base.{
  ℕ, ◌%◌, ◌<◌, ◌≡◌, ◌∙◌, arith, List, [], ◌∷◌, ◌++◌, some, All, update, length, get_elem?, set,
  erase_idx, usize_max,
}
use nexusq.Cell
use nexusq.Cell.{Cell}
use nexusq.Receiver.{Receiver}
use nexusq.Ring.Occupancy.{
  occupancy, occupancy-set, occupancy-erase_idx, occupancy-snoc, occupancy-le-length,
}
use nexusq.Ring.Defs.{IsAnchored, IsRing}

module _ {ℓ} {A : Type ℓ} where
  abbrev pub entered : (ℕ → Cell A) → ℕ → ℕ → Cell A
  entered cells i = update cells i (Cell.move_to (cells i))

  abbrev pub left : (ℕ → Cell A) → ℕ → ℕ → Cell A
  left cells i = update cells i (Cell.move_from (cells i))

  -- Two tables of cells that hold the same messages.
  abbrev pub SameMessages : (ℕ → Cell A) → (ℕ → Cell A) → Type ℓ
  SameMessages cells cells' =
      (i : ℕ)
      → ((cells' i).current_id ≡ (cells i).current_id) × ((cells' i).value ≡ (cells i).value)

  pub entered-SameMessages : (cells : ℕ → Cell A) (i : ℕ) → SameMessages cells (entered cells i)
  unfolding Cell.move_to
  entered-SameMessages cells i j = ground arith

  pub left-SameMessages : (cells : ℕ → Cell A) (i : ℕ) → SameMessages cells (left cells i)
  unfolding Cell.move_from
  left-SameMessages cells i j = ground arith

  pub moved-SameMessages :
      (cells : ℕ → Cell A) (i p : ℕ) → SameMessages cells (left (entered cells i) p)
  moved-SameMessages cells i p j =
      let a = entered-SameMessages cells i j in
      let b = left-SameMessages (entered cells i) p j in (b.0 ∙ a.0, b.1 ∙ a.1)

  pub recount-IsRing :
      {len : ℕ} {cells : ℕ → Cell A} {rs : List Receiver} {log : List A}
      (v : IsRing len cells rs log) (cells' : ℕ → Cell A) (rs' : List Receiver)
      → SameMessages cells cells'
      → length rs' < usize_max
      → All (IsAnchored len (length log)) rs'
      → ((i : ℕ) → (cells' i).read_counter ≡ occupancy i rs')
      → IsRing len cells' rs' log
  recount-IsRing {len} v cells' rs' same few anchored counted = record {
    exponent = v.exponent;
    is_power = v.is_power;
    at_least_two = v.at_least_two;
    fits = v.fits;
    few = few;
    log_fits = v.log_fits;
    anchored = anchored;
    counted = counted;
    ids = λ id lo hi near. (same (id % len)).0 ∙ v.ids id lo hi near;
    values = λ id lo hi near. (same (id % len)).1 ∙ v.values id lo hi near;
    unwritten = λ id lo hi. (same (id % len)).0 ∙ v.unwritten id lo hi;
  }

module _ {ℓ} {A : Type ℓ} (cells : ℕ → Cell A) (rs : List Receiver) (few : length rs < usize_max)
    (counted : (i : ℕ) → (cells i).read_counter ≡ occupancy i rs) where
  -- A receiver more: its cell is entered.
  pub snoc-counted :
      (r : Receiver) (i : ℕ)
      → (entered cells r.previous_cell_index i).read_counter ≡ occupancy i (rs ++ r ∷ [])
  unfolding Cell.move_to
  snoc-counted r i = ground (arith, counted i, occupancy-snoc i rs r, occupancy-le-length i rs)

  -- A receiver less: its cell is left.
  pub erase-counted :
      (k : ℕ) (r : Receiver)
      → get_elem? rs k ≡ some r
      → (i : ℕ) → (left cells r.previous_cell_index i).read_counter ≡ occupancy i (erase_idx rs k)
  unfolding Cell.move_from
  erase-counted k r e i =
      ground (arith, counted i, occupancy-erase_idx i rs k r e, occupancy-le-length i rs)

  -- A receiver that moves enters one cell and leaves the other.
  pub set-counted :
      (k : ℕ) (r r' : Receiver)
      → get_elem? rs k ≡ some r
      → (i : ℕ)
      → (left (entered cells r'.previous_cell_index) r.previous_cell_index i).read_counter
        ≡ occupancy i (set rs k r')
  unfolding Cell.move_from Cell.move_to
  set-counted k r r' e i = ground (
    arith,
    counted i,
    occupancy-set i rs k r r' e,
    occupancy-erase_idx i rs k r e,
    occupancy-le-length i rs,
  )
