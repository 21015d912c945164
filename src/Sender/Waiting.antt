-- ===== src/Sender/Waiting.antt =====
-- src/sender.rs: `send` and `try_send_before`, which wait for the token and for the cell.
use nexusq.Base.{
  ℕ, ◌+◌, ◌-◌, ◌%◌, ◌≤◌, ◌≡◌, ◌≢◌, ◌∙◌, refl, ap, List, [], ◌∷◌, ◌++◌, Bool, true, false, some,
  none, Option, length, map, usize_max, ok, err, ◌==◌, if◌then◌else◌,
}
use nexusq.WaitStrategy.{taken}
use nexusq.Cell
use nexusq.Nexus.{NexusQ, index}
use nexusq.Receiver.{Receiver}
use nexusq.Broadcast.{has_room}
use nexusq.Sender.{Others, timeout, disconnected, take_head, send_held, send, try_send_before}
use nexusq.Ring.{IsRing, IsValid, position}
use nexusq.Ring.Cells.{index-eq-mod}
use nexusq.Sender.Publishing.{has_room-occupancy, holding, take_fails, sent-IsValid}
use nexusq.Sender.Methods.{sent, room, takes_id, takes_state, free_of_room, nobody, somebody}

-- A cell's test in terms of the receivers of the ring.
pub cell_room {ℓ} :
    {A : Type ℓ} (q : NexusQ A) {rs : List Receiver} {log : List A}
    → IsRing q.len q.cells rs log
    → ((q.cells (index q (length log + 1))).read_counter == 0)
      ≡ has_room (q.len - 1) (length log) (map position rs)
cell_room q {rs} {log} ring =
    ap (λ i. (q.cells i).read_counter == 0) (index-eq-mod ring (length log + 1))
    ∙ ap (λ c. c == 0) (ring.counted ((length log + 1) % q.len))
    ∙ has_room-occupancy q.len (length log) rs ring.anchored

-- A take fails as long as the token is away.
pub take_head_fails {ℓ} :
    {A : Type ℓ} (others : NexusQ A → NexusQ A) (q : NexusQ A)
    → q.write_head ≡ taken
    → (others (holding q)).write_head ≡ taken
    → (take_head others q).0 ≡ none
unfolding take_head
take_head_fails others q h k = rw (
  ap (λ p. p.0) (take_fails q h),
  ap (λ p. p.1) (take_fails q h),
  take_head,
  ap (λ p. p.0) (take_fails (others (holding q)) k),
)

module _ {ℓ} {A : Type ℓ} {q : NexusQ A} {rs : List Receiver} {log : List A} (v : IsValid q rs log)
    (more : length log + 2 ≤ usize_max) (value : A) where
  abbrev pub id : ℕ
  id = length log + 1

  -- A free token is taken at once, whatever the others would do.
  pub taken_now : (others : NexusQ A → NexusQ A) → take_head others q ≡ (some id, holding q)
  unfolding take_head
  taken_now others = rw (takes_id v more value, takes_state v more value, take_head)

  pub send-held :
      (others : Others A) → send others q value ≡ send_held others.draining id (holding q) value
  unfolding send
  send-held others =
      rw (ap (λ p. p.0) (taken_now others.taking), ap (λ p. p.1) (taken_now others.taking), send)

  -- How the wait for the cell ends.
  abbrev pub wait_result : NexusQ A → Option Bool
  wait_result later = Cell.wait_for_write_safe (q.cells (index q id)) (later.cells (index q id))

  free_now : (later : NexusQ A) → room v more value ≡ true → wait_result later ≡ some true
  unfolding Cell.wait_for_write_safe
  free_now later has = rw (cell_room q v.ring, has)

  send_now-eq :
      (others : Others A)
      → room v more value ≡ true
      → send others q value ≡ (
          if q.num_receivers == 0
          then some (err (disconnected (some value)), holding q)
          else some (ok tt, sent v more value))
  unfolding send_held
  send_now-eq others has =
      send-held others ∙ rw (free_now (others.draining (holding q)) has, send_held)

  -- `send` with no receivers reports `Disconnected` and keeps the token: a second `send` never
  -- returns, as long as no other thread puts a token back, and a `try_send_before` in time times
  -- out.
  pub send_disconnected :
      (others again : Others A) (value' : A)
      → rs ≡ []
      → (again.taking (holding q)).write_head ≡ taken
      → (send others q value ≡ some (err (disconnected (some value)), holding q))
        × (send again (holding q) value' ≡ none)
        × ((try_send_before false again (holding q) value').0 ≡ err (timeout value'))
  send_disconnected others again value' none_left lost = (
    send_now-eq others has ∙ rw (nobody v more value none_left),
    unfold send in rw (take_head_fails again.taking (holding q) refl lost, send),
    unfold try_send_before in
        rw (take_head_fails again.taking (holding q) refl lost, try_send_before),
  )
    where
      has : room v more value ≡ true
      has = unfold has_room in rw none_left

  -- `send` with a receiver, when no receiver has a whole ring to read: the value goes to the end
  -- of the log at once.
  pub send_now :
      (others : Others A)
      → rs ≢ []
      → room v more value ≡ true
      → (send others q value ≡ some (ok tt, sent v more value))
        × IsValid (sent v more value) rs (log ++ value ∷ [])
  send_now others some_left has = (
    send_now-eq others has ∙ rw (somebody v more value some_left),
    sent-IsValid (holding q) rs log value v.ring v.registered (free_of_room v more value has) more,
  )
