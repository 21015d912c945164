-- ===== src/Tests/Interleaved.antt =====
-- Two senders and a receiver on a channel of two cells, step by step: the first message is
-- published, and while the receiver reads it the second one is written.
use nexusq.Base.{
  ℕ, ◌-◌, ◌≤◌, [], ◌∷◌, ◌%◌, ◌≡◌, ◌≢◌, refl, arith, true, false, some, get_elem?, total,
}
use nexusq.WaitStrategy.{try_take, restore}
use nexusq.Cell
use nexusq.FastMod.{maybe_next_power_of_two}
use nexusq.Receiver
use nexusq.Channel.Made.{new_channel, make_channel-fits}
use nexusq.Threads.Sending
use nexusq.Threads.Receiving
use nexusq.Threads.Receiving.{enter_cell, leave_cell, counts, registered}
use nexusq.Threads.System.{System, Reach, start, later, sends, receives, begin}
use nexusq.Threads.Reachable.{IsRoomy}
use nexusq.Threads.Exclusion.{
  reader_writer_exclusion, reads_message, writer_exclusion, counters_exact,
}
use nexusq.Threads.Ordered.{send_writer_exclusion}
use nexusq.Threads.Race.{try_send_race}
use nexusq.Threads.Events.{trace, put, got, Plays}
use nexusq.Threads.Refine.{line_of, first_line, trace_refines}
use nexusq.Threads.Got.{messages_put, got_by}
use nexusq.Threads.InOrder.{receives_in_order}
use nexusq.Threads.Calm.{Calm}
use nexusq.Threads.Progress.{receive_goes_on}
use nexusq.Broadcast.{next_messages}

-- The first sender publishes 7; the receiver finds it and goes on to its cell; meanwhile the
-- second sender takes the next id, for the cell that the receiver has left.
busy : (s : System ℕ) × Reach false 2 s
unfolding begin Receiver.new Cell.move_to Cell.new maybe_next_power_of_two try_take restore
    Sending.replace_value Sending.store_id enter_cell leave_cell
busy =
    let r0 = start (new_channel ℕ 2) (make_channel-fits ℕ 2 (omega arith) (omega arith)) in
    let r1 = later r0 (sends 0 (Sending.take {id = 1} {v = 7} refl)) in
    let r2 = later r1 (sends 0 (Sending.look_free refl)) in
    let r3 = later r2 (sends 0 (Sending.connected (omega arith))) in
    let r4 = later r3 (sends 0 Sending.pass) in
    let r5 = later r4 (sends 0 Sending.write) in
    let r6 = later r5 (sends 0 Sending.publish) in
    let r7 = later r6 (receives 0 {r = Receiving.resting 0} refl (Receiving.see refl)) in
    let r8 = later r7 (receives 0 {r = Receiving.seen 0} refl Receiving.enter) in
    let r9 = later r8 (receives 0 {r = Receiving.entered 0} refl Receiving.leave) in
    let r10 = later r9 (sends 1 (Sending.take {id = 2} {v = 8} refl)) in
    let r11 = later r10 (sends 1 (Sending.look_free refl)) in
    let r12 = later r11 (sends 1 (Sending.connected (omega arith))) in
    let r13 = later r12 (sends 1 Sending.pass) in (_, r13)

busy-IsRoomy : IsRoomy busy.0
unfolding busy
busy-IsRoomy = record { ids = omega arith; few = omega arith }

-- While the first message is read from cell 1, the second one is written to cell 0.
reader_writer_exclusion_example : ◌≢◌ {A = ℕ} (2 % busy.0.nexus.len) (1 % busy.0.nexus.len)
unfolding busy
reader_writer_exclusion_example =
    reader_writer_exclusion busy-IsRoomy busy.1 0 (Receiving.left 0) 1 refl refl 1 2 refl

reads_message_example :
    (message : ℕ) × ((busy.0.nexus.cells (1 % busy.0.nexus.len)).value ≡ some message)
    × (get_elem? busy.0.log 0 ≡ some message)
unfolding busy
reads_message_example = reads_message busy-IsRoomy busy.1 0 (Receiving.left 0) 1 refl refl

writer_exclusion_example : ◌≡◌ {A = ℕ} 1 1
unfolding busy
writer_exclusion_example =
    writer_exclusion busy-IsRoomy busy.1 0 (Receiving.left 0) refl refl 1 1 2 2 refl refl refl

counters_exact_example :
    ((i : ℕ)
      → (busy.0.nexus.cells i).read_counter ≡ total (counts busy.0.nexus.len i) busy.0.receivers)
    × (busy.0.nexus.num_receivers ≡ total registered busy.0.receivers)
counters_exact_example = counters_exact busy-IsRoomy busy.1

send_writer_exclusion_example : ◌≡◌ {A = ℕ} 1 1
unfolding busy
send_writer_exclusion_example = send_writer_exclusion busy-IsRoomy busy.1 1 1 2 2 refl refl refl

try_send_race_example :
    (s : System ℕ) × Reach true 2 s
    × (i : ℕ) × (j : ℕ) × (id : ℕ) × (id' : ℕ) × (i ≢ j)
    × (s.senders i ≡ Sending.writing id 7)
    × (s.senders j ≡ Sending.writing id' 7)
    × (id % s.nexus.len ≡ id' % s.nexus.len)
try_send_race_example = try_send_race 7 2 (omega arith) (omega arith)

-- The receiver then reads the first message.
busy_read : (s : System ℕ) × Reach false 2 s
unfolding busy
busy_read = (_, later busy.1 (receives 0 {r = Receiving.left 0} refl Receiving.read))

busy_read-IsRoomy : IsRoomy busy_read.0
unfolding busy_read busy
busy_read-IsRoomy = record { ids = omega arith; few = omega arith }

trace_refines_example :
    Plays (first_line 2) (put 7 ∷ put 8 ∷ got 0 (some 7) ∷ []) (line_of busy_read.0)
unfolding busy_read busy trace
trace_refines_example = trace_refines busy_read-IsRoomy busy_read.1

receives_in_order_example :
    (from : ℕ) × (◌≡◌ {A = ℕ} 0 0 → from ≡ 0)
    × (from ≤ 1)
    × (◌≤◌ 1 2)
    × (got_by 0 (trace busy_read.1)
        ≡ next_messages (messages_put (trace busy_read.1)) from (1 - from))
unfolding busy_read busy trace
receives_in_order_example =
    receives_in_order busy_read-IsRoomy busy_read.1 0 1 (Receiving.resting 1) refl refl

-- The second message is not published yet.
receive_goes_on_example :
    (t : System ℕ) × Calm false busy_read.0 t
    × (get_elem? t.receivers 0 ≡ some (Receiving.resting 2))
    × (t.log ≡ busy_read.0.log)
unfolding busy_read busy
receive_goes_on_example =
    receive_goes_on busy_read.0 0 1 busy_read-IsRoomy busy_read.1 refl (omega arith)

-- A third sender then takes the id whose cell the receiver rests on.
busy_waiting : (s : System ℕ) × Reach false 2 s
unfolding busy_read busy try_take
busy_waiting =
    let r1 = later busy_read.1 (sends 2 (Sending.take {id = 3} {v = 9} refl)) in
    (_, later r1 (sends 2 (Sending.look_used (omega arith))))
