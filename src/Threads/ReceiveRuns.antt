-- ===== src/Threads/ReceiveRuns.antt =====
-- src/receiver.rs: a call of `try_recv`, `Drop::drop` and `Clone::clone` that no other thread
-- disturbs takes its steps one by one to the state that the whole method makes.
use nexusq.Base.{
  ℕ, ◌+◌, ◌%◌, ◌^◌, ◌≤◌, ◌≡◌, ◌∙◌, refl, ap, arith, usize_max, ℕ_discrete, ◌==◌, ==_self, ==_ne,
}
use nexusq.Cell
use nexusq.Nexus.{NexusQ, index, with_cell}
use nexusq.Receiver
use nexusq.Receiver.{Receiver, advance, try_recv}
use nexusq.Threads.SendRuns.{index-mod}
use nexusq.Threads.Receiving
use nexusq.Threads.Receiving.{ReceiverPc, ReceiveMove, enter_cell, leave_cell}

-- The steps of one receiver, with no steps of others between them.
pub data ReceiveRun {ℓ} {A : Type ℓ} : NexusQ A → ReceiverPc → NexusQ A → ReceiverPc → Type ℓ where
  stay : {q : NexusQ A} {r : ReceiverPc} → ReceiveRun q r q r
  go :
      {q q' q'' : NexusQ A} {r r' r'' : ReceiverPc}
      → ReceiveMove q r q' r'
      → ReceiveRun q' r' q'' r''
      → ReceiveRun q r q'' r''

-- The handle of a receiver that has read the messages up to `last`
pub record IsHandle (len : ℕ) (r : Receiver) (last : ℕ) : Type 0 where
  pub next : r.cursor ≡ last + 1
  pub on_cell : r.previous_cell_index ≡ last % len

module _ {ℓ} {A : Type ℓ} (q : NexusQ A) (k : ℕ) (power : q.len ≡ 2 ^ k) (r : Receiver) (last : ℕ)
    (handle : IsHandle q.len r last) (bound : last + 2 ≤ usize_max) where
  next_cell : index q r.cursor ≡ (last + 1) % q.len
  next_cell = ap (λ n. index q n) handle.next ∙ index-mod q k (last + 1) power

  moved : leave_cell (enter_cell q (last + 1)) last ≡ (advance r q).2
  unfolding advance enter_cell leave_cell with_cell
  moved = rw (next_cell, handle.on_cell) refl

  advance-IsHandle : IsHandle q.len (advance r q).1 (last + 1)
  unfolding advance
  advance-IsHandle = record { next = omega (arith, handle.next); on_cell = next_cell }

  -- The look of `try_recv`
  look :
      ((q.cells (index q r.cursor)).current_id == r.cursor)
      ≡ ((q.cells ((last + 1) % q.len)).current_id == last + 1)
  look = rw (next_cell, handle.next) refl

  -- A call of `try_recv` that runs alone, on a ring whose length is a power of two, with ids left:
  -- its steps, one access at a time, lead to the state that the method returns, and the handle that
  -- it leaves is the one of where the receiver stands then.
  pub try_recv_runs :
      (last' : ℕ) × ReceiveRun q (Receiving.resting last) (try_recv r q).2 (Receiving.resting last')
      × IsHandle q.len (try_recv r q).1 last'
  unfolding try_recv Cell.get_published
  try_recv_runs = elim (ℕ_discrete (q.cells ((last + 1) % q.len)).current_id (last + 1)) [
    | yes there ↦ (
      last + 1,
      rw (look, there, ==_self (last + 1), ← moved)
          (go (Receiving.see there)
            (go Receiving.enter (go Receiving.leave (go Receiving.read stay)))),
      rw (look, there, ==_self (last + 1)) advance-IsHandle,
    )
    | no missing ↦ (
      last,
      rw (look, ==_ne _ (last + 1) missing) stay,
      rw (look, ==_ne _ (last + 1) missing) handle,
    )
  ]

-- `Drop::drop`: first the count of receivers, then the cell.
pub drop_runs {ℓ} :
    {A : Type ℓ} (q : NexusQ A) (r : Receiver) (last : ℕ)
    → IsHandle q.len r last
    → ReceiveRun q (Receiving.resting last) (Receiver.drop r q) Receiving.gone
unfolding Receiver.drop leave_cell with_cell
drop_runs q r last handle = rw handle.on_cell (go Receiving.unregister (go Receiving.depart stay))
