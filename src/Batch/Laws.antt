-- ===== src/Batch/Laws.antt =====
-- src/receiver.rs: `try_recv_batch` in a valid state.
use nexusq.Base.{
  ℕ, zero, suc, append-nil, ◌+◌, ◌-◌, ◌%◌, ◌≤◌, ◌<◌, ◌≡◌, ◌∙◌, inl, inr, refl, sym, ap, arith, List,
  ◌++◌, Option, none, some, All-set, length, length-set, get_elem?, set, le_or_later, ==_ne,
  wrapping_add, set-get_elem?,
}
use nexusq.Nexus.{NexusQ}
use nexusq.Receiver.{Receiver}
use nexusq.Batch.Reading.{
  next_messages_enough, next_messages-zero, anchor, wrap, IsAt, read_loop-IsReadTo,
}
use nexusq.Broadcast.{next_messages}
use nexusq.Batch.{Progress, clamp_results, read_loop, move_reader, try_recv_batch}
use nexusq.Ring.{IsAnchored, IsValid, position}
use nexusq.Ring.Recount.{entered, left, moved-SameMessages, recount-IsRing, set-counted}

module _ {ℓ} {A : Type ℓ} {q : NexusQ A} {rs : List Receiver} {log : List A} (v : IsValid q rs log)
    (k : ℕ) (r : Receiver) (alive : get_elem? rs k ≡ some r) where
  own : IsAnchored q.len (length log) r
  own = anchor v k r alive

  -- The receiver and the state after `n` messages, read in one move.
  abbrev moved_by : ℕ → Receiver
  moved_by n = record r { cursor = r.cursor + n; previous_cell_index = (r.cursor + n - 1) % q.len }

  abbrev moved_state : ℕ → NexusQ A
  moved_state n = record q {
    cells = left (entered q.cells ((r.cursor + n - 1) % q.len)) r.previous_cell_index;
  }

  moved_by-IsValid :
      (n : ℕ) → r.cursor + n ≤ length log + 1 → IsValid (moved_state n) (set rs k (moved_by n)) log
  moved_by-IsValid n bound = record {
    ring =
        recount-IsRing v.ring _ (set rs k (moved_by n))
          (moved-SameMessages q.cells ((r.cursor + n - 1) % q.len) r.previous_cell_index)
          (rw (length-set rs k (moved_by n)) v.ring.few)
          (All-set (IsAnchored q.len (length log)) rs k (moved_by n) v.ring.anchored (record {
            started = omega (arith, own.started);
            behind = bound;
            near = omega (arith, own.near);
            on_cell = refl;
          }))
          (set-counted q.cells rs v.ring.few v.ring.counted k r (moved_by n) alive);
    head = v.head;
    registered = v.registered ∙ sym (length-set rs k (moved_by n));
  }

  -- What the end of the batch makes of the loop's progress.
  finish : Progress A → Receiver × NexusQ A
  finish p = move_reader p.cell (record r { cursor = wrapping_add r.cursor p.num_read }) q

  finish-IsValid :
      (p : Progress A)
      → IsAt v k r alive p
      → r.cursor + p.num_read ≤ length log + 1
      → (position (finish p).0 ≡ position r + p.num_read)
        × IsValid (finish p).1 (set rs k (finish p).0) log
  unfolding finish move_reader
  finish-IsValid p (inl (none_read, no_cell)) bound =
      rw (no_cell, none_read, wrap v k r alive 0 (omega arith))
        (omega arith, rw (stay, set-get_elem? rs k r alive) v)
    where
      stay : r.cursor + 0 ≡ r.cursor
      stay = omega arith
  finish-IsValid p (inr (some_read, last)) bound =
      rw (last, wrap v k r alive p.num_read bound)
        (omega (arith, own.started), moved_by-IsValid p.num_read bound)

  -- The receiver is never more than `len - 1` messages behind.
  clamped :
      (max_results : ℕ)
      → next_messages log (position r) (clamp_results max_results q)
        ≡ next_messages log (position r) max_results
  unfolding clamp_results
  clamped max_results = elim (le_or_later max_results (q.len - 1)) [
    | inl small ↦ ap (next_messages log (position r)) (within small)
    | inr large ↦
        ap (next_messages log (position r)) (beyond large)
        ∙ next_messages_enough log (position r) (q.len - 1) max_results
            (omega (arith, own.near, own.started, v.ring.at_least_two))
            (omega (arith, own.near, own.started, v.ring.at_least_two))
  ]
    where
      within : max_results ≤ q.len - 1 → clamp_results max_results q ≡ max_results
      within h = ground arith

      beyond : q.len - 1 < max_results → clamp_results max_results q ≡ q.len - 1
      beyond h = ground arith

  batch_done :
      (max_results : ℕ) (buffer : List (Option A))
      → let ms = next_messages log (position r) max_results in
        let p =
          read_loop r q
            (clamp_results max_results q)
            (record { num_read = 0; buffer = buffer; cell = none }) in
        (p.num_read ≡ length ms)
        × (p.buffer ≡ buffer ++ ms)
        × (position (finish p).0 ≡ position r + length ms)
        × IsValid (finish p).1 (set rs k (finish p).0) log
  batch_done max_results buffer =
      let start : Progress A = record { num_read = 0; buffer = buffer; cell = none } in
      let rounds = clamp_results max_results q in
      let done =
        read_loop-IsReadTo v k r alive rounds start (inl (refl, refl))
          (omega (arith, own.behind)) in
      let same : next_messages log (position r + 0) rounds
          ≡ next_messages log (position r) max_results =
        ap (λ i. next_messages log i rounds) (omega arith) ∙ clamped max_results in
      let (moved, valid) = finish-IsValid (read_loop r q rounds start) done.at done.in_log in
      (
        omega (arith, done.count, ap length same),
        done.appended ∙ ap (λ ms. buffer ++ ms) same,
        omega (arith, moved, done.count, ap length same),
        valid,
      )

  -- In a valid state `try_recv_batch` appends to the buffer the next messages of the log, at most
  -- `max_results` of them, and returns how many they are; the receiver has read as many more, and
  -- the state is valid again.
  pub try_recv_batch_refines :
      (max_results : ℕ) (buffer : List (Option A))
      → let ms = next_messages log (position r) max_results in
        let (count, buffer', r', q') = try_recv_batch r q max_results buffer in
        (count ≡ length ms)
        × (buffer' ≡ buffer ++ ms)
        × (position r' ≡ position r + length ms)
        × IsValid q' (set rs k r') log
  unfolding try_recv_batch finish
  try_recv_batch_refines zero buffer =
      rw (next_messages-zero log (position r))
        (refl, sym (append-nil buffer), omega arith, rw (set-get_elem? rs k r alive) v)
  try_recv_batch_refines (suc m) buffer =
      rw (==_ne (suc m) 0 (omega arith)) (batch_done (suc m) buffer)
