-- ===== src/Receiver/Lifetime.antt =====
-- src/receiver.rs, src/lib.rs: handles that are cloned and dropped, and a channel that is made.
use nexusq.Base.{
  ℕ, ◌+◌, ◌<◌, ◌≡◌, ◌∙◌, refl, arith, List, [], ◌∷◌, ◌++◌, false, some, All-get_elem?, All-snoc,
  All-erase_idx, length, length-append, length-erase_idx, get_elem?, erase_idx, usize_max,
}
use nexusq.Nexus.{NexusQ}
use nexusq.Receiver.{Receiver, clone, drop}
use nexusq.Ring.{IsAnchored, IsValid, position}
use nexusq.Ring.Recount.{
  entered, left, entered-SameMessages, left-SameMessages, recount-IsRing, snoc-counted,
  erase-counted,
}

module _ {ℓ} {A : Type ℓ} {q : NexusQ A} {rs : List Receiver} {log : List A} (v : IsValid q rs log)
    (k : ℕ) (r : Receiver) (alive : get_elem? rs k ≡ some r) where
  anchor : IsAnchored q.len (length log) r
  anchor = All-get_elem? (IsAnchored q.len (length log)) rs k r v.ring.anchored alive

  copy : Receiver
  copy = record r { current_event = false }

  copy-IsAnchored : IsAnchored q.len (length log) copy
  unfolding copy
  copy-IsAnchored = record {
    started = anchor.started;
    behind = anchor.behind;
    near = anchor.near;
    on_cell = anchor.on_cell;
  }

  length-snoc : length (rs ++ copy ∷ []) ≡ length rs + 1
  length-snoc = length-append rs (copy ∷ []) ∙ omega arith

  -- A clone has read as far as the receiver that it is made from, and joins the receivers of a
  -- state that is valid again.
  pub clone-IsValid :
      length rs + 1 < usize_max
      → (position (clone r q).0 ≡ position r) × IsValid (clone r q).1 (rs ++ (clone r q).0 ∷ []) log
  unfolding clone copy
  clone-IsValid few = (
    refl,
    record {
      ring =
          recount-IsRing v.ring (entered q.cells r.previous_cell_index) (rs ++ copy ∷ [])
            (entered-SameMessages q.cells r.previous_cell_index) (rw length-snoc few)
            (All-snoc (IsAnchored q.len (length log)) rs copy v.ring.anchored copy-IsAnchored)
            (snoc-counted q.cells rs v.ring.few v.ring.counted copy);
      head = v.head;
      registered = omega (arith, v.registered, v.ring.few, length-snoc);
    },
  )

  -- A receiver that is dropped leaves a valid state to the others.
  pub drop-IsValid : IsValid (drop r q) (erase_idx rs k) log
  unfolding drop
  drop-IsValid = record {
    ring =
        recount-IsRing v.ring (left q.cells r.previous_cell_index) (erase_idx rs k)
          (left-SameMessages q.cells r.previous_cell_index)
          (omega (arith, v.ring.few, length-erase_idx rs k r alive))
          (All-erase_idx (IsAnchored q.len (length log)) rs k v.ring.anchored)
          (erase-counted q.cells rs v.ring.few v.ring.counted k r alive);
    head = v.head;
    registered = omega (arith, v.registered, v.ring.few, length-erase_idx rs k r alive);
  }
