-- ===== src/Batch.antt =====
-- src/receiver.rs: `try_recv_batch`, which reads the messages that are there and then moves once.
pub mod Reading
pub mod Laws
use nexusq.Base.{
  ℕ, zero, suc, ◌+◌, ◌-◌, Option, none, some, List, [], ◌∷◌, ◌++◌, wrapping_add, ltb, ◌==◌,
  if◌then◌else◌,
}
use nexusq.Cell
use nexusq.Nexus.{NexusQ, index, with_cell}
use nexusq.Receiver.{Receiver}

-- What the loop carries: the number read, the caller's vector and the index of the last cell read.
-- An unwrapped value may be `none`, which Rust leaves undefined.
pub record Progress {ℓ} (A : Type ℓ) : Type ℓ where
  pub num_read : ℕ
  pub buffer : List (Option A)
  pub cell : Option ℕ

module _ {ℓ} {A : Type ℓ} where
  -- `max_results.clamp(0, len - 1)`
  unfoldable pub clamp_results : ℕ → NexusQ A → ℕ
  clamp_results max_results q = if ltb (q.len - 1) max_results then q.len - 1 else max_results

  -- `for i in 0..max_results`, from round `p.num_read` with `rounds` left: one message a round.
  unfoldable pub read_loop : Receiver → NexusQ A → (rounds : ℕ) → Progress A → Progress A
  unfolding Cell.get_published Cell.read_opt
  read_loop r q zero p = p
  read_loop r q (suc rounds) p =
      let id = wrapping_add r.cursor p.num_read in
      let current_cell = q.cells (index q id) in
      let rest = read_loop r q rounds (record {
        num_read = p.num_read + 1;
        buffer = p.buffer ++ (Cell.read_opt current_cell ∷ []);
        cell = some (index q id);
      }) in
      if Cell.get_published current_cell == id then rest else p

  -- The move from the previous cell to the last one read.
  unfoldable pub move_reader : Option ℕ → Receiver → NexusQ A → Receiver × NexusQ A
  unfolding with_cell Cell.move_to Cell.move_from
  move_reader none r q = (r, q)
  move_reader (some i) r q = (
    record r { previous_cell_index = i },
    with_cell (with_cell q i Cell.move_to) r.previous_cell_index Cell.move_from,
  )

  -- The count, the vector with the messages behind what it held, and the new states.
  unfoldable pub try_recv_batch :
      Receiver → NexusQ A → ℕ → List (Option A) → ℕ × List (Option A) × Receiver × NexusQ A
  unfolding clamp_results
  try_recv_batch r q max_results buffer =
      let start : Progress A = record { num_read = 0; buffer = buffer; cell = none } in
      let p = read_loop r q (clamp_results max_results q) start in
      let r' = record r { cursor = wrapping_add r.cursor p.num_read } in
      let (r'', q') = move_reader p.cell r' q in
      if max_results == 0 then (0, buffer, r, q) else (p.num_read, p.buffer, r'', q')
