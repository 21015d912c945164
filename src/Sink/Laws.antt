-- ===== src/Sink/Laws.antt =====
-- src/sender.rs: `poll_ready` and `start_send` beside `try_send`, on every branch.
use nexusq.Base.{
  Bool, Bool-cases, ◌⊎◌, inl, inr, pending, err, ℕ, ◌+◌, ◌-◌, ◌≤◌, ◌≡◌, ◌≢◌, ◌∙◌, refl, List, [],
  ◌∷◌, ◌++◌, true, false, some, none, ready, ok, length, map, usize_max, ◌==◌,
}
use nexusq.Cell
use nexusq.Nexus.{NexusQ, index}
use nexusq.Receiver.{Receiver}
use nexusq.Broadcast.{has_room}
use nexusq.Sender
use nexusq.Sender.{Sender, pass_token, full, disconnected}
use nexusq.Sink.{poll_cell, poll_ready, start_send}
use nexusq.Ring.{IsValid, position}
use nexusq.Sender.Publishing.{holding}
use nexusq.Sender.Methods.{try_send_lem, takes_id, takes_state, somebody, nobody}
use nexusq.Sender.Waiting.{cell_room}

pub poll_cell-free {ℓ} :
    {A : Type ℓ} (s : Sender) (id : ℕ) (q : NexusQ A)
    → ((q.cells (index q id)).read_counter == 0) ≡ true
    → poll_cell s id q ≡ (ready (ok tt), record s { event_guard = false }, pass_token q id)
unfolding poll_cell
poll_cell-free s id q free = rw (is_ready, poll_cell)
  where
    is_ready : Cell.poll_write_safe (q.cells (index q id)) ≡ ready tt
    is_ready = unfold Cell.poll_write_safe in rw free

empty_or_not {ℓ} : {A : Type ℓ} (xs : List A) → (xs ≡ []) ⊎ (xs ≢ [])
empty_or_not [] = inl refl
empty_or_not (x ∷ xs) = inr (λ e. cc)

poll_cell-used {ℓ} :
    {A : Type ℓ} (s : Sender) (id : ℕ) (q : NexusQ A)
    → ((q.cells (index q id)).read_counter == 0) ≡ false
    → poll_cell s id q ≡ (pending, record s { event_guard = true }, q)
unfolding poll_cell
poll_cell-used s id q used = rw (is_pending, poll_cell)
  where
    is_pending : Cell.poll_write_safe (q.cells (index q id)) ≡ pending
    is_pending = unfold Cell.poll_write_safe in rw used

module _ {ℓ} {A : Type ℓ} {q : NexusQ A} {rs : List Receiver} {log : List A} (v : IsValid q rs log)
    (more : length log + 2 ≤ usize_max) (value : A) (s : Sender) (idle : s.id ≡ none) where
  -- The sender that has its id.
  claimed : Bool → Sender
  claimed event_guard = record { id = some (length log + 1); event_guard = event_guard }

  poll_ready-refuses : rs ≡ [] → poll_ready s q ≡ (ready (err (disconnected none)), s, q)
  unfolding poll_ready
  poll_ready-refuses none_left = rw (poll_ready, nobody v more value none_left) refl

  poll_ready-claims :
      rs ≢ [] → poll_ready s q ≡ poll_cell (claimed false) (length log + 1) (holding q)
  unfolding poll_ready claimed
  poll_ready-claims some_left =
      rw
        (
          idle,
          takes_id v more value,
          takes_state v more value,
          poll_ready,
          somebody v more value some_left,
        )
        refl

  -- A sender that has no id, in a valid state whose ids have not run out. With a receiver and room,
  -- `poll_ready` and then `start_send`, with nothing in between, send the value as `try_send` does:
  -- the sender ends with no id, and the value is at the end of the log. With a receiver and no room,
  -- `try_send` reports `Full` and changes nothing, while `poll_ready` is pending and keeps the token,
  -- with the id in the sender. Without receivers both report `Disconnected` and change nothing.
  pub poll_ready-start_send :
      ((rs ≢ [])
        × (has_room (q.len - 1) (length log) (map position rs) ≡ true)
        × ((poll_ready s q).0 ≡ ready (ok tt))
        × (start_send (poll_ready s q).1 (poll_ready s q).2 value
            ≡ some (ok tt, record { id = none; event_guard = false }, (Sender.try_send q value).1))
        × ((Sender.try_send q value).0 ≡ ok tt)
        × IsValid (Sender.try_send q value).1 rs (log ++ value ∷ []))
      ⊎ ((rs ≢ [])
          × (has_room (q.len - 1) (length log) (map position rs) ≡ false)
          × (poll_ready s q
              ≡ (pending, record { id = some (length log + 1); event_guard = true }, holding q))
          × (Sender.try_send q value ≡ (err (full value), q)))
      ⊎ ((rs ≡ [])
          × (poll_ready s q ≡ (ready (err (disconnected none)), s, q))
          × (Sender.try_send q value ≡ (err (disconnected (some value)), q)))
  unfolding start_send claimed
  poll_ready-start_send = elim (empty_or_not rs) [
    | inl none_left ↦
        inr (inr (none_left, poll_ready-refuses none_left, (try_send_lem v more value).0 none_left))
    | inr some_left ↦ elim (Bool-cases (has_room (q.len - 1) (length log) (map position rs))) [
      | inl has ↦
          let polled =
            poll_ready-claims some_left
            ∙ poll_cell-free (claimed false) (length log + 1) (holding q)
                (cell_room q v.ring ∙ has) in
          let (result, valid) = (try_send_lem v more value).2 some_left has in
          inl (
            some_left,
            has,
            rw polled refl,
            rw (polled, result) refl,
            rw result refl,
            rw result valid,
          )
      | inr missing ↦
          let polled =
            poll_ready-claims some_left
            ∙ poll_cell-used (claimed false) (length log + 1) (holding q)
                (cell_room q v.ring ∙ missing) in
          inr (inl (some_left, missing, polled, (try_send_lem v more value).1 some_left missing))
    ]
  ]
