-- ===== src/Sender/Draining.antt =====
-- src/sender.rs: `send` and `try_send_before` that find the next cell in use, and wait for it.
use mathlib.Core.Path.{subst}
use nexusq.Base.{
  ◌+◌, ◌-◌, ◌%◌, ◌≤◌, ◌≡◌, ◌∙◌, refl, ap, arith, List, [], ◌∷◌, ◌++◌, true, false, some, none, ok,
  err, length, map, usize_max, ◌==◌,
}
use nexusq.WaitStrategy
use nexusq.FastMod.{fast_mod}
use nexusq.Cell
use nexusq.Nexus.{NexusQ, index}
use nexusq.Receiver.{Receiver}
use nexusq.Broadcast.{has_room}
use nexusq.Sender.{
  Others, timeout, restore_head, pass_token, publish, send_held, send, send_held_before,
  try_send_before,
}
use nexusq.Ring.{IsRing, IsValid, position}
use nexusq.Ring.Occupancy.{occupancy}
use nexusq.Sender.Publishing.{has_room-occupancy, holding, sent-IsValid}
use nexusq.Sender.Waiting.{id, cell_room, taken_now, send-held, wait_result}

-- The other threads cannot send while this one has the token: in the state of its last look the
-- log is the same, with other receivers.
pub record IsLater {ℓ} {A : Type ℓ} (q later : NexusQ A) (rs : List Receiver) (log : List A)
    : Type ℓ where
  pub ring : IsRing later.len later.cells rs log
  pub registered : later.num_receivers ≡ length rs
  pub same_len : later.len ≡ q.len

module _ {ℓ} {A : Type ℓ} {q : NexusQ A} {rs rs' : List Receiver} {log : List A}
    (v : IsValid q rs log) (more : length log + 2 ≤ usize_max) (value : A) (others : Others A)
    (w : IsLater q (others.draining (holding q)) rs' log)
    (in_use : has_room (q.len - 1) (length log) (map position rs) ≡ false) where
  abbrev later : NexusQ A
  later = others.draining (holding q)

  later_room :
      ((later.cells (index q (id v more value))).read_counter == 0)
      ≡ has_room (q.len - 1) (length log) (map position rs')
  later_room =
      subst
        (λ n.
          ((later.cells (fast_mod (id v more value) n)).read_counter == 0)
          ≡ has_room (n - 1) (length log) (map position rs'))
        w.same_len (cell_room later w.ring)

  nobody_there :
      has_room (q.len - 1) (length log) (map position rs') ≡ true
      → occupancy ((length log + 1) % later.len) rs' ≡ 0
  nobody_there freed =
      let freed' : has_room (later.len - 1) (length log) (map position rs') ≡ true =
        ap (λ n. has_room (n - 1) (length log) (map position rs')) w.same_len ∙ freed in
      ground (arith, has_room-occupancy later.len (length log) rs' w.ring.anchored)

  wait_ends :
      has_room (q.len - 1) (length log) (map position rs') ≡ true
      → wait_result v more value later ≡ some false
  unfolding Cell.wait_for_write_safe
  wait_ends freed = rw (cell_room q v.ring, in_use, later_room, freed)

  wait_goes_on :
      has_room (q.len - 1) (length log) (map position rs') ≡ false
      → wait_result v more value later ≡ none
  unfolding Cell.wait_for_write_safe
  wait_goes_on still = rw (cell_room q v.ring, in_use, later_room, still)

  -- `send` that waits for the slowest receiver goes through as soon as that one has moved on or is
  -- dropped. It looks for receivers no more: the value is published even when none is left.
  pub send_drained :
      has_room (q.len - 1) (length log) (map position rs') ≡ true
      → (send others q value
          ≡ some (ok tt, publish (pass_token later (length log + 1)) (length log + 1) value))
        × IsValid
            (publish (pass_token later (length log + 1)) (length log + 1) value)
            rs'
            (log ++ value ∷ [])
  unfolding send_held
  send_drained freed = (
    send-held v more value others ∙ rw (wait_ends freed, send_held),
    sent-IsValid later rs' log value w.ring w.registered (nobody_there freed) more,
  )

  -- `send` waits as long as some receiver has the whole ring to read.
  pub send_waits :
      has_room (q.len - 1) (length log) (map position rs') ≡ false → send others q value ≡ none
  unfolding send_held
  send_waits still = send-held v more value others ∙ rw (wait_goes_on still, send_held)

  -- `try_send_before` that is still waiting at its deadline returns the value, and puts the token
  -- back: the state is valid, with the same log.
  pub try_send_before_timeout :
      has_room (q.len - 1) (length log) (map position rs') ≡ false
      → ((try_send_before false others q value).0 ≡ err (timeout value))
        × IsValid (try_send_before false others q value).1 rs' log
  try_send_before_timeout still = rw ends (refl, restored)
    where
      wait_fails :
          Cell.wait_for_write_safe_before
            (q.cells (index q (id v more value)))
            (later.cells (index q (id v more value)))
          ≡ err WaitStrategy.timeout
      wait_fails =
          unfold Cell.wait_for_write_safe_before in
          rw (cell_room q v.ring, in_use, later_room, still)

      in_time :
          try_send_before false others q value
          ≡ send_held_before others.draining (length log + 1) (holding q) value
      in_time =
          unfold try_send_before in
          rw (
            ap (λ p. p.0) (taken_now v more value others.taking),
            ap (λ p. p.1) (taken_now v more value others.taking),
            try_send_before,
          )

      ends :
          try_send_before false others q value
          ≡ (err (timeout value), restore_head later (length log + 1))
      ends = in_time ∙ unfold send_held_before in rw (wait_fails, send_held_before)

      restored : IsValid (restore_head later (length log + 1)) rs' log
      restored =
          unfold restore_head in record { ring = w.ring; head = refl; registered = w.registered }
