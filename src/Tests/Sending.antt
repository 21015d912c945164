-- ===== src/Tests/Sending.antt =====
-- The theorems on senders at concrete input.
use nexusq.Base.{
  ℕ, ◌+◌, ◌-◌, ◌≡◌, refl, arith, false, true, [], ◌∷◌, ◌++◌, none, some, ok, err, ready, pending,
  ◌⊎◌, ◌≢◌, map,
}
use nexusq.FastMod.{fast_mod, maybe_next_power_of_two}
use nexusq.Cell
use nexusq.Nexus.{index}
use nexusq.Sender
use nexusq.Sender.{Sender, Others, full, timeout, disconnected, pass_token, publish}
use nexusq.Sender.Publishing.{holding}
use nexusq.Sender.Waiting.{send_disconnected, send_now}
use nexusq.Sender.Draining.{IsLater, send_drained, try_send_before_timeout}
use nexusq.Sink.{poll_ready, start_send}
use nexusq.Sink.Laws.{poll_ready-start_send}
use nexusq.Sink.Rewinds.{poll_ready_rewinds}
use nexusq.Receiver
use nexusq.Receiver.Lifetime.{drop-IsValid}
use nexusq.Broadcast.{has_room}
use nexusq.Ring.{IsValid, position}
use nexusq.Tests.States.{
  reader, readers, some_reader, opened, opened-IsValid, opened_room, first, packed, packed-IsValid,
  packed_no_room, deserted, deserted-IsValid,
}

-- Nothing happens in the meantime, or the reader is dropped.
abbrev idle : Others ℕ
idle = record { taking = λ q. q; draining = λ q. q }

abbrev leaving : Others ℕ
leaving = record { taking = λ q. q; draining = λ q. Receiver.drop reader q }

send_disconnected_example :
    (Sender.send idle deserted 8 ≡ some (err (disconnected (some 8)), holding deserted))
    × (Sender.send idle (holding deserted) 9 ≡ none)
    × ((Sender.try_send_before false idle (holding deserted) 9).0 ≡ err (timeout 9))
send_disconnected_example = send_disconnected deserted-IsValid (omega arith) 8 idle idle 9 refl refl

send_now_example :
    (Sender.send idle opened 7 ≡ some (ok tt, first)) × IsValid first readers ([] ++ 7 ∷ [])
send_now_example = send_now opened-IsValid (omega arith) 7 idle some_reader opened_room

packed-IsLater : IsLater packed (holding packed) readers (7 ∷ 8 ∷ 9 ∷ [])
packed-IsLater = record {
  ring = packed-IsValid.ring;
  registered = packed-IsValid.registered;
  same_len = refl;
}

left-IsLater : IsLater packed (Receiver.drop reader (holding packed)) [] (7 ∷ 8 ∷ 9 ∷ [])
unfolding Receiver.drop
left-IsLater =
    let v = drop-IsValid packed-IsValid 0 reader refl in
    record { ring = v.ring; registered = v.registered; same_len = refl }

none_left_room : has_room (packed.len - 1) 3 [] ≡ true
unfolding has_room
none_left_room = refl

send_drained_example :
    (Sender.send leaving packed 10
      ≡ some (ok tt, publish (pass_token (Receiver.drop reader (holding packed)) 4) 4 10))
    × IsValid
        (publish (pass_token (Receiver.drop reader (holding packed)) 4) 4 10)
        []
        (7 ∷ 8 ∷ 9 ∷ 10 ∷ [])
send_drained_example =
    send_drained packed-IsValid (omega arith) 10 leaving left-IsLater packed_no_room none_left_room

try_send_before_timeout_example :
    ((Sender.try_send_before false idle packed 10).0 ≡ err (timeout 10))
    × IsValid (Sender.try_send_before false idle packed 10).1 readers (7 ∷ 8 ∷ 9 ∷ [])
try_send_before_timeout_example =
    try_send_before_timeout packed-IsValid (omega arith) 10 idle packed-IsLater packed_no_room
      packed_no_room

-- In a new channel of four cells
cells_are_free :
    ((opened.cells (index opened 1)).read_counter ≡ 0)
    × ((opened.cells (index opened (1 + 1))).read_counter ≡ 0)
unfolding fast_mod Receiver.new maybe_next_power_of_two Cell.new
cells_are_free = (refl, refl)

poll_ready_rewinds_example :
    let first = poll_ready Sender.new opened in
    let between = Sender.try_send first.2 8 in
    let again = poll_ready first.1 between.1 in
    let last = Sender.try_send again.2 9 in
    (first.0 ≡ ready (ok tt))
    × (between.0 ≡ ok tt)
    × (between.1.write_head ≡ 1 + 2)
    × ((between.1.cells (index opened (1 + 1))).current_id ≡ 1 + 1)
    × ((between.1.cells (index opened (1 + 1))).value ≡ some 8)
    × (again.0 ≡ ready (ok tt))
    × (again.2.write_head ≡ 1 + 1)
    × (last.0 ≡ ok tt)
    × ((last.1.cells (index opened (1 + 1))).current_id ≡ 1 + 1)
    × ((last.1.cells (index opened (1 + 1))).value ≡ some 9)
unfolding Sender.new Receiver.new
poll_ready_rewinds_example =
    poll_ready_rewinds Sender.new opened 1 8 9 refl refl (omega arith) (omega arith)
      cells_are_free.0 cells_are_free.1

poll_ready-start_send_example :
    ((readers ≢ [])
      × (has_room (opened.len - 1) 0 (map position readers) ≡ true)
      × ((poll_ready Sender.new opened).0 ≡ ready (ok tt))
      × (start_send (poll_ready Sender.new opened).1 (poll_ready Sender.new opened).2 7
          ≡ some (ok tt, record { id = none; event_guard = false }, (Sender.try_send opened 7).1))
      × ((Sender.try_send opened 7).0 ≡ ok tt)
      × IsValid (Sender.try_send opened 7).1 readers ([] ++ 7 ∷ []))
    ⊎ ((readers ≢ [])
        × (has_room (opened.len - 1) 0 (map position readers) ≡ false)
        × (poll_ready Sender.new opened
            ≡ (pending, record { id = some 1; event_guard = true }, holding opened))
        × (Sender.try_send opened 7 ≡ (err (full 7), opened)))
    ⊎ ((readers ≡ [])
        × (poll_ready Sender.new opened ≡ (ready (err (disconnected none)), Sender.new, opened))
        × (Sender.try_send opened 7 ≡ (err (disconnected (some 7)), opened)))
unfolding Sender.new
poll_ready-start_send_example = poll_ready-start_send opened-IsValid (omega arith) 7 Sender.new refl
