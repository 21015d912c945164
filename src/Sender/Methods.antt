-- ===== src/Sender/Methods.antt =====
-- src/sender.rs: `try_send`, `send` and `try_send_before` in a valid state, on every branch.
use nexusq.Base.{
  ℕ, ◌+◌, ◌-◌, ◌%◌, ◌≤◌, ◌≡◌, ◌≢◌, ◌∙◌, refl, sym, ap, arith, List, [], ◌∷◌, ◌++◌, Bool, true,
  false, some, length, map, usize_max, ◌==◌, ok, err, ==_ne,
}
use nexusq.Cell
use nexusq.Nexus.{NexusQ, index}
use nexusq.Receiver.{Receiver}
use nexusq.Broadcast.{has_room}
use nexusq.Sender.{full, disconnected, try_take_head, restore_head, pass_token, publish, try_send}
use nexusq.Ring.{IsValid, position}
use nexusq.Ring.Occupancy.{occupancy}
use nexusq.Ring.Cells.{index-eq-mod}
use nexusq.Sender.Publishing.{has_room-occupancy, holding, take_succeeds, sent-IsValid}

nil_of_length {ℓ} : {A : Type ℓ} (xs : List A) → length xs ≡ 0 → xs ≡ []
nil_of_length [] e = refl
nil_of_length (x ∷ xs) e = absurd (omega arith)

module _ {ℓ} {A : Type ℓ} {q : NexusQ A} {rs : List Receiver} {log : List A} (v : IsValid q rs log)
    (more : length log + 2 ≤ usize_max) (value : A) where
  abbrev pub next : ℕ
  next = length log + 1

  -- The state after a send that goes through.
  abbrev pub sent : NexusQ A
  sent = publish (pass_token (holding q) next) next value

  abbrev pub room : Bool
  room = has_room (q.len - 1) (length log) (map position rs)

  pub takes : try_take_head q ≡ (some next, holding q)
  takes = take_succeeds q (omega (arith, v.head)) ∙ ap (λ h. (some h, holding q)) v.head

  pub takes_id : (try_take_head q).0 ≡ some next
  takes_id = ap (λ p. p.0) takes

  pub takes_state : (try_take_head q).1 ≡ holding q
  takes_state = ap (λ p. p.1) takes

  cell-safe : Cell.safe_to_write (q.cells (index q next)) ≡ room
  unfolding Cell.safe_to_write
  cell-safe =
      ap (λ i. (q.cells i).read_counter == 0) (index-eq-mod v.ring next)
      ∙ ap (λ c. c == 0) (v.ring.counted (next % q.len))
      ∙ has_room-occupancy q.len (length log) rs v.ring.anchored

  pub free_of_room : room ≡ true → occupancy (next % q.len) rs ≡ 0
  free_of_room h = ground (arith, has_room-occupancy q.len (length log) rs v.ring.anchored)

  pub restored : restore_head (holding q) next ≡ q
  unfolding restore_head
  restored = ap (λ h. record q { write_head = h }) (sym v.head)

  pub nobody : rs ≡ [] → (q.num_receivers == 0) ≡ true
  nobody e = ap (λ n. n == 0) (v.registered ∙ ap length e)

  pub somebody : rs ≢ [] → (q.num_receivers == 0) ≡ false
  somebody ne = ap (λ n. n == 0) v.registered ∙ ==_ne (length rs) 0 (λ e. ne (nil_of_length rs e))

  -- `try_send` in a valid state: with no receivers it reports `Disconnected`, with a receiver that
  -- has a whole ring to read `Full`, and changes nothing either way; otherwise it succeeds, and
  -- the state is valid with the value at the end of the log.
  pub try_send_lem :
      (rs ≡ [] → try_send q value ≡ (err (disconnected (some value)), q))
      × (rs ≢ [] → room ≡ false → try_send q value ≡ (err (full value), q))
      × (rs ≢ []
          → room ≡ true
          → (try_send q value ≡ (ok tt, sent)) × IsValid sent rs (log ++ value ∷ []))
  try_send_lem = (
    λ none_left. unfold try_send in rw (nobody none_left),
    λ some_left no_room.
        unfold try_send in
        rw (takes_id, takes_state, try_send, somebody some_left, cell-safe, no_room, restored),
    λ some_left has. (
      unfold try_send in rw (takes_id, takes_state, try_send, somebody some_left, cell-safe, has),
      sent-IsValid (holding q) rs log value v.ring v.registered (free_of_room has) more,
    ),
  )
