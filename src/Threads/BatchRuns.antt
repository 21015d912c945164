-- ===== src/Threads/BatchRuns.antt =====
-- src/receiver.rs: a call of `try_recv_batch` that no other thread disturbs takes its steps one by
-- one to the state that the whole method makes.
use native.Mathlib.Numerals.{add-one}
use nexusq.Base.{
  ℕ, zero, suc, ◌+◌, ◌%◌, ◌^◌, ◌≤◌, ◌<◌, ◌≡◌, ◌∙◌, ◌⊎◌, inl, inr, refl, sym, ap, append-nil,
  append_assoc, arith, Option, none, some, List, [], ◌∷◌, ◌++◌, usize_max, ℕ_discrete, ◌==◌,
  wrapping_add, ==_self, ==_ne,
}
use nexusq.Cell
use nexusq.Nexus.{NexusQ, index, with_cell}
use nexusq.Receiver.{Receiver}
use nexusq.Batch.{Progress, clamp_results, read_loop, move_reader, try_recv_batch}
use nexusq.Threads.SendRuns.{index-mod}
use nexusq.Threads.Receiving
use nexusq.Threads.Receiving.{ReceiverPc, enter_cell, leave_cell}
use nexusq.Threads.ReceiveRuns.{ReceiveRun, stay, go, IsHandle}

-- What the cells of the `n` ids after `last` hold, which the steps from `copying` read.
abbrev pub copied {ℓ} : {A : Type ℓ} → NexusQ A → (last n : ℕ) → List (Option A)
copied q last zero = []
copied q last (suc n) = copied q last n ++ (q.cells ((last + n + 1) % q.len)).value ∷ []

module _ {ℓ} {A : Type ℓ} (q : NexusQ A) (k : ℕ) (power : q.len ≡ 2 ^ k) (r : Receiver) (last : ℕ)
    (handle : IsHandle q.len r last) (room : last + q.len < usize_max) where
  -- What the loop carries: the number read, and the cell of the last message read.
  abbrev IsAt : Progress A → Type 0
  IsAt p =
      ((p.num_read ≡ 0) × (p.cell ≡ none))
      ⊎ ((1 ≤ p.num_read) × (p.cell ≡ some ((last + p.num_read) % q.len)))

  -- The rounds of the loop are steps.
  record IsGathered (p : Progress A) (rounds : ℕ) (out : Progress A) : Type ℓ where
    at : IsAt out
    few : out.num_read ≤ p.num_read + rounds
    before :
        {q' : NexusQ A} {r' : ReceiverPc}
        → ReceiveRun q (Receiving.gathering last out.num_read) q' r'
        → ReceiveRun q (Receiving.gathering last p.num_read) q' r'

  next_id : (n : ℕ) → n + 1 < q.len → wrapping_add r.cursor n ≡ last + n + 1
  next_id n h = omega (arith, handle.next, room)

  -- The look of a round
  look :
      (n : ℕ)
      → n + 1 < q.len
      → ((q.cells (index q (wrapping_add r.cursor n))).current_id == wrapping_add r.cursor n)
        ≡ ((q.cells ((last + n + 1) % q.len)).current_id == last + n + 1)
  look n h = rw (next_id n h, index-mod q k (last + n + 1) power) refl

  -- The cell of a round, and what is carried on from it
  next_cell : (n : ℕ) → n + 1 < q.len → index q (wrapping_add r.cursor n) ≡ (last + (n + 1)) % q.len
  next_cell n h =
      ap (λ id. index q id) (next_id n h)
      ∙ index-mod q k (last + n + 1) power
      ∙ ap (λ id. id % q.len) (omega arith)

  abbrev next_progress : Progress A → Progress A
  next_progress p =
      let i = index q (wrapping_add r.cursor p.num_read) in
      record {
        num_read = p.num_read + 1;
        buffer = p.buffer ++ Cell.read_opt (q.cells i) ∷ [];
        cell = some i;
      }

  loop_runs :
      (rounds : ℕ) (p : Progress A)
      → p.num_read + rounds + 1 ≤ q.len
      → IsAt p
      → IsGathered p rounds (read_loop r q rounds p)
  unfolding read_loop Cell.get_published
  loop_runs zero p short at = record { at = at; few = omega arith; before = λ run. run }
  loop_runs (suc rounds) p short at =
      let inside : p.num_read + 1 < q.len = omega arith in
      elim (ℕ_discrete (q.cells ((last + p.num_read + 1) % q.len)).current_id
        (last + p.num_read + 1)) [
          | yes there ↦
              let rest =
                loop_runs rounds (next_progress p) (omega arith)
                  (inr (omega arith, ap some (next_cell p.num_read inside))) in
              rw (look p.num_read inside, there, ==_self (last + p.num_read + 1))
                (record {
                  at = rest.at;
                  few = omega (arith, rest.few);
                  before =
                      λ run. go (Receiving.find inside there) (go Receiving.copy (rest.before run));
                })
          | no missing ↦
              rw (look p.num_read inside, ==_ne _ (last + p.num_read + 1) missing)
                (record { at = at; few = omega arith; before = λ run. run })
        ]

  grows :
      (base buffer : List (Option A)) (n : ℕ)
      → n + 1 < q.len
      → buffer ≡ base ++ copied q last n
      → buffer ++ (q.cells (index q (wrapping_add r.cursor n))).value ∷ []
        ≡ base ++ copied q last (n + 1)
  grows base buffer n inside so_far =
      rw (so_far, next_id n inside, index-mod q k (last + n + 1) power)
        (append_assoc base (copied q last n) (_ ∷ [])
          ∙ ap (λ m. base ++ copied q last m) (sym (add-one n)))

  loop_copies :
      (base : List (Option A)) (rounds : ℕ) (p : Progress A)
      → p.num_read + rounds + 1 ≤ q.len
      → p.buffer ≡ base ++ copied q last p.num_read
      → (read_loop r q rounds p).buffer ≡ base ++ copied q last (read_loop r q rounds p).num_read
  unfolding read_loop Cell.get_published Cell.read_opt
  loop_copies base zero p short so_far = so_far
  loop_copies base (suc rounds) p short so_far =
      let inside : p.num_read + 1 < q.len = omega arith in
      elim (ℕ_discrete (q.cells ((last + p.num_read + 1) % q.len)).current_id
        (last + p.num_read + 1)) [
          | yes there ↦
              rw (look p.num_read inside, there, ==_self (last + p.num_read + 1))
                (loop_copies base rounds (next_progress p) (omega arith)
                  (grows base p.buffer p.num_read inside so_far))
          | no missing ↦ rw (look p.num_read inside, ==_ne _ (last + p.num_read + 1) missing) so_far
        ]

  -- The end of the batch: with nothing read it is over, otherwise it moves.
  move_runs :
      (p : Progress A)
      → p.num_read + 1 ≤ q.len
      → IsAt p
      → ReceiveRun q
          (Receiving.gathering last p.num_read)
          (move_reader p.cell (record r { cursor = wrapping_add r.cursor p.num_read }) q).1
          (Receiving.resting (last + p.num_read))
        × IsHandle q.len
            (move_reader p.cell (record r { cursor = wrapping_add r.cursor p.num_read }) q).0
            (last + p.num_read)
  unfolding move_reader enter_cell leave_cell with_cell
  move_runs p short (inl (nothing, nowhere)) =
      let same : last + 0 ≡ last = omega arith in
      rw (nothing, nowhere, same)
        (
          go (Receiving.stop refl) stay,
          record { next = omega (arith, handle.next, room); on_cell = handle.on_cell },
        )
  move_runs p short (inr (some_read, there)) =
      let moved : leave_cell (enter_cell q (last + p.num_read)) last
          ≡ (move_reader p.cell (record r { cursor = wrapping_add r.cursor p.num_read }) q).1 =
        rw (there, handle.on_cell) refl in
      (
        rw (← moved) (go (Receiving.jump (λ e. omega arith)) (go Receiving.settle stay)),
        rw there (record { next = omega (arith, handle.next, room); on_cell = refl }),
      )

  -- A call of `try_recv_batch` that runs alone, on a ring of at least two cells whose length is a
  -- power of two, with ids left: its steps, one access at a time, lead to the state that the method
  -- returns and as many messages on as it counts; the vector has got the values of the cells of just
  -- these ids, in order, behind what it held; and the handle that is left is the one of where the
  -- receiver stands then.
  pub try_recv_batch_runs :
      2 ≤ q.len
      → (max_results : ℕ) (buffer : List (Option A))
      → ReceiveRun q
          (Receiving.resting last)
          (try_recv_batch r q max_results buffer).3
          (Receiving.resting (last + (try_recv_batch r q max_results buffer).0))
        × ((try_recv_batch r q max_results buffer).1
            ≡ buffer ++ copied q last (try_recv_batch r q max_results buffer).0)
        × IsHandle q.len
            (try_recv_batch r q max_results buffer).2
            (last + (try_recv_batch r q max_results buffer).0)
  unfolding try_recv_batch
  try_recv_batch_runs wide max_results buffer = elim (ℕ_discrete max_results 0) [
    | yes nothing ↦
        let same : last + 0 ≡ last = omega arith in
        rw (nothing, same) (stay, sym (append-nil buffer), handle)
    | no some_asked ↦
        let start : Progress A = record { num_read = 0; buffer = buffer; cell = none } in
        let rounds : ℕ = clamp_results max_results q in
        let bound : rounds + 1 ≤ q.len = unfold clamp_results in ground arith in
        let g = loop_runs rounds start (omega (arith, bound)) (inl (refl, refl)) in
        let out = read_loop r q rounds start in
        let (run, stands) = move_runs out (omega (arith, g.few, bound)) g.at in
        rw (==_ne max_results 0 some_asked) (
          go Receiving.gather (g.before run),
          loop_copies buffer rounds start (omega (arith, bound)) (sym (append-nil buffer)),
          stands,
        )
  ]
