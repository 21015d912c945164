-- ===== src/Values/Moves.antt =====
-- A write to one cell changes one value; readers that come, go and move change none.
use mathlib.Core.List.{Perm, perm_append_comm}
use mathlib.Core.List.Perm
use nexusq.Base.{
  ℕ, zero, suc, ◌<◌, ◌≡◌, refl, ap, arith, List, ◌++◌, append_assoc, Option, none, some, update,
  update_ne, ℕ_discrete, ==_self, ==_ne,
}
use nexusq.Cell.{Cell}
use nexusq.Nexus.{NexusQ, index}
use nexusq.Receiver
use nexusq.Receiver.{Receiver}
use nexusq.Batch
use nexusq.Ring.Recount.{entered-SameMessages, left-SameMessages, moved-SameMessages}
use nexusq.Values.{list_of, held_by, held}

module _ {ℓ} {A : Type ℓ} where
  -- The outer two of three parts change places.
  swap_ends-perm : (xs ys zs : List A) → Perm (xs ++ (ys ++ zs)) (zs ++ (ys ++ xs))
  swap_ends-perm xs ys zs =
      Perm.trans (perm_append_comm xs (ys ++ zs))
        (rw (← append_assoc zs ys xs) (Perm.append_right xs (perm_append_comm ys zs)))

  held_by_ext :
      (cells cells' : ℕ → Cell A) (n : ℕ)
      → ((j : ℕ) → j < n → (cells' j).value ≡ (cells j).value)
      → held_by cells' n ≡ held_by cells n
  unfolding held_by
  held_by_ext cells cells' zero same = refl
  held_by_ext cells cells' (suc n) same =
      rw (held_by_ext cells cells' n (λ j h. same j (omega arith)), same n (omega arith)) refl

  -- A cell that is replaced lets its value out, and takes the new one in.
  pub held_by-update :
      (cells : ℕ → Cell A) (i : ℕ) (c : Cell A) (n : ℕ)
      → i < n
      → Perm
          (list_of (cells i).value ++ held_by (update cells i c) n)
          (list_of c.value ++ held_by cells n)
  unfolding held_by
  held_by-update cells i c zero inside = absurd (omega arith)
  held_by-update cells i c (suc n) inside = elim (ℕ_discrete i n) [
    | yes here ↦
        rw
          (
            ← here,
            ==_self i,
            held_by_ext cells (update cells i c) i
                λ j h. ap (λ x. x.value) (update_ne cells i j c (omega arith)),
          )
          (swap_ends-perm (list_of (cells i).value) (held_by cells i) (list_of c.value))
    | no other ↦
        rw
          (
            update_ne cells i n c other,
            ← append_assoc (list_of (cells i).value) (held_by (update cells i c) n)
                (list_of (cells n).value),
            ← append_assoc (list_of c.value) (held_by cells n) (list_of (cells n).value),
          )
          (Perm.append_right (list_of (cells n).value) (held_by-update cells i c n (omega arith)))
  ]

  -- Two states that hold the same values.
  abbrev pub HoldsAs : NexusQ A → NexusQ A → Type ℓ
  HoldsAs q q' = (q'.len ≡ q.len) × ((i : ℕ) → (q'.cells i).value ≡ (q.cells i).value)

  pub held-HoldsAs : (q q' : NexusQ A) → HoldsAs q q' → held q' ≡ held q
  held-HoldsAs q q' (same_len, same) =
      rw same_len (held_by_ext q.cells q'.cells q.len (λ j h. same j))

  pub advance-HoldsAs : (r : Receiver) (q : NexusQ A) → HoldsAs q (Receiver.advance r q).2
  unfolding Receiver.advance
  advance-HoldsAs r q =
      (refl, λ i. (moved-SameMessages q.cells (index q r.cursor) r.previous_cell_index i).1)

  pub try_recv-HoldsAs : (r : Receiver) (q : NexusQ A) → HoldsAs q (Receiver.try_recv r q).2
  unfolding Receiver.try_recv
  try_recv-HoldsAs r q =
      (ground (arith, (advance-HoldsAs r q).0), λ i. ground (arith, (advance-HoldsAs r q).1 i))

  pub poll_next-HoldsAs : (r : Receiver) (q : NexusQ A) → HoldsAs q (Receiver.poll_next r q).2
  unfolding Receiver.poll_next
  poll_next-HoldsAs r q =
      (ground (arith, (advance-HoldsAs r q).0), λ i. ground (arith, (advance-HoldsAs r q).1 i))

  pub clone-HoldsAs : (r : Receiver) (q : NexusQ A) → HoldsAs q (Receiver.clone r q).1
  unfolding Receiver.clone
  clone-HoldsAs r q = (refl, λ i. (entered-SameMessages q.cells r.previous_cell_index i).1)

  pub drop-HoldsAs : (r : Receiver) (q : NexusQ A) → HoldsAs q (Receiver.drop r q)
  unfolding Receiver.drop
  drop-HoldsAs r q = (refl, λ i. (left-SameMessages q.cells r.previous_cell_index i).1)

  move_reader-HoldsAs :
      (at : Option ℕ) (r : Receiver) (q : NexusQ A) → HoldsAs q (Batch.move_reader at r q).1
  unfolding Batch.move_reader
  move_reader-HoldsAs none r q = (refl, λ i. refl)
  move_reader-HoldsAs (some to) r q =
      (refl, λ i. (moved-SameMessages q.cells to r.previous_cell_index i).1)

  pub try_recv_batch-HoldsAs :
      (r : Receiver) (q : NexusQ A) (n : ℕ) (buffer : List (Option A))
      → HoldsAs q (Batch.try_recv_batch r q n buffer).3
  unfolding Batch.try_recv_batch
  try_recv_batch-HoldsAs r q zero buffer = (refl, λ i. refl)
  try_recv_batch-HoldsAs r q (suc n) buffer =
      rw (==_ne (suc n) 0 (omega arith)) (move_reader-HoldsAs _ _ q)
