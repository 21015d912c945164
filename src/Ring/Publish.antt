-- ===== src/Ring/Publish.antt =====
-- Writing the next message into the ring keeps the invariant, with the message at the log's end.
use nexusq.Base.{
  ℕ, ◌+◌, ◌-◌, ◌%◌, ◌≤◌, ◌<◌, ◌≡◌, ◌≢◌, ◌∙◌, sym, ap, arith, List, [], ◌∷◌, ◌++◌, mod-ne, update,
  update_self, update_ne, length, length-append, get_elem?, get_elem?-append_left,
  get_elem?-append_last, dec_lt, ℕ_discrete, usize_max,
}
use nexusq.Cell
use nexusq.Cell.{Cell}
use nexusq.Receiver.{Receiver}
use nexusq.Ring.Occupancy.{occupancy}
use nexusq.Ring.Defs.{IsRing}
use nexusq.Ring.Cells.{All-IsAnchored-suc}

module _ {ℓ} {A : Type ℓ} {len : ℕ} {cells : ℕ → Cell A} {rs : List Receiver} {log : List A}
    (v : IsRing len cells rs log) (free : occupancy ((length log + 1) % len) rs ≡ 0)
    (more : length log + 2 ≤ usize_max) (value : A) where
  open v use {at_least_two, anchored, counted, ids, values, unwritten}

  abbrev next_id : ℕ
  next_id = length log + 1

  abbrev pub published : ℕ → Cell A
  published =
      update cells (next_id % len)
        ((Cell.write_and_publish (cells (next_id % len)) value next_id).0)

  abbrev longer : List A
  longer = log ++ value ∷ []

  length-longer : length longer ≡ length log + 1
  length-longer = length-append log (value ∷ []) ∙ omega arith

  published_self :
      published (next_id % len) ≡ (Cell.write_and_publish (cells (next_id % len)) value next_id).0
  published_self = update_self cells (next_id % len) _

  published_old : (id : ℕ) → (next_id % len) ≢ (id % len) → published (id % len) ≡ cells (id % len)
  published_old id h = update_ne cells (next_id % len) (id % len) _ h

  -- Every other id within a round of the new one has another cell.
  other_cell :
      (id : ℕ)
      → id ≢ next_id
      → next_id < id + len
      → id < next_id + len
      → (next_id % len) ≢ (id % len)
  other_cell id ne lo hi e = elim (dec_lt id next_id) [
    | yes h ↦ mod-ne len id next_id h lo (sym e)
    | no h ↦ mod-ne len next_id id (omega arith) hi e
  ]

  published-counted : (i : ℕ) → (published i).read_counter ≡ occupancy i rs
  unfolding Cell.write_and_publish
  published-counted i = ground (arith, counted i)

  published-ids :
      (id : ℕ)
      → 1 ≤ id
      → id ≤ length longer
      → length longer < id + len
      → (published (id % len)).current_id ≡ id
  unfolding Cell.write_and_publish
  published-ids id lo hi near = elim (ℕ_discrete id next_id) [
    | yes e ↦ rw (e, published_self)
    | no ne ↦
        let near' : length log + 1 < id + len = rw (← length-longer) near in
        let hi' : id ≤ length log + 1 = rw (← length-longer) hi in
        rw (published_old id (other_cell id ne near' (omega arith)))
          (ids id lo (omega arith) (omega arith))
  ]

  published-values :
      (id : ℕ)
      → 1 ≤ id
      → id ≤ length longer
      → length longer < id + len
      → (published (id % len)).value ≡ get_elem? longer (id - 1)
  unfolding Cell.write_and_publish
  published-values id lo hi near = elim (ℕ_discrete id next_id) [
    | yes e ↦
        rw (e, published_self) (sym (ap (get_elem? longer) last ∙ get_elem?-append_last log value))
    | no ne ↦
        let near' : length log + 1 < id + len = rw (← length-longer) near in
        let hi' : id ≤ length log + 1 = rw (← length-longer) hi in
        rw (published_old id (other_cell id ne near' (omega arith))) (
          values id lo (omega arith) (omega arith)
          ∙ sym (get_elem?-append_left log (value ∷ []) (id - 1) (omega arith)))
  ]
    where
      last : length log + 1 - 1 ≡ length log
      last = omega arith

  published-unwritten :
      (id : ℕ) → length longer < id → id ≤ len → (published (id % len)).current_id ≡ usize_max
  published-unwritten id lo hi =
      let lo' : length log + 1 < id = rw (← length-longer) lo in
      rw (published_old id (mod-ne len next_id id lo' (omega arith)))
        (unwritten id (omega arith) hi)

  pub publish-IsRing : IsRing len published rs longer
  publish-IsRing = record {
    exponent = v.exponent;
    is_power = v.is_power;
    at_least_two = v.at_least_two;
    fits = v.fits;
    few = v.few;
    log_fits = rw length-longer (omega arith);
    anchored = rw length-longer (All-IsAnchored-suc len (length log) rs anchored free);
    counted = published-counted;
    ids = published-ids;
    values = published-values;
    unwritten = published-unwritten;
  }
