-- ===== src/Tests/Units/Docs.antt =====
-- The examples in the documentation of src/lib.rs, src/sender.rs, src/receiver.rs and
-- src/wait_strategy/mod.rs.
use nexusq.Base.{true, none, false, ℕ, ◌≡◌, refl, Option, some, List, [], ◌∷◌, Result, ok, err}
use nexusq.WaitStrategy.{check, taken, try_take}
use nexusq.FastMod.{fast_mod, maybe_next_power_of_two}
use nexusq.Cell
use nexusq.Nexus
use nexusq.Channel.{make_channel}
use nexusq.Sender
use nexusq.Sender.{SendResult}
use nexusq.Receiver
use nexusq.Receiver.{RecvError, no_new_data, timeout}
use nexusq.Batch.{read_loop, clamp_results, move_reader, try_recv_batch}
use nexusq.Tests.Units.{
  Call, send, try_send, recv, idle, call, calls, test, sends, received_by, ◌>>=◌,
}

-- Of `make_channel`, `Sender::send` and `Receiver::recv`
abbrev make_channel_doc : List Call
make_channel_doc = send 42 ∷ send 2 ∷ recv ∷ recv ∷ []

abbrev send_doc : List Call
send_doc = send 1 ∷ send 2 ∷ recv ∷ recv ∷ []

abbrev recv_doc : List Call
recv_doc = send 1 ∷ recv ∷ []

-- Of `Takeable::try_take`: two attempts, and the word after them
try_take_doc : Option ℕ × Option ℕ × ℕ
unfolding try_take
try_take_doc = let (first, x) = try_take 42 in let (second, x') = try_take x in (first, second, x')

-- Of `Sender::try_send`: the answer to the fourth value, and what is received then
try_send_doc : Option (SendResult ℕ × List (Option ℕ))
unfolding test
try_send_doc = do
  t ← test 3 (try_send 1 ∷ try_send 2 ∷ try_send 3 ∷ [])
  let (refused, q) = Sender.try_send t.handles.nexus 4
  t' ← calls (record t { handles = record t.handles { nexus = q } }) (recv ∷ recv ∷ recv ∷ [])
  some (refused, t'.received)

-- Of `Sender::try_send_before`, whose deadlines lie ahead
try_send_before_doc : Option (SendResult ℕ × List (Option ℕ))
unfolding test sends
try_send_before_doc = do
  t0 ← test 3 []
  t1 ← sends t0 1 (Sender.try_send_before false idle t0.handles.nexus 1)
  t2 ← sends t1 2 (Sender.try_send_before false idle t1.handles.nexus 2)
  t3 ← sends t2 3 (Sender.try_send_before false idle t2.handles.nexus 3)
  let (late, q) = Sender.try_send_before false idle t3.handles.nexus 4
  t4 ← calls (record t3 { handles = record t3.handles { nexus = q } }) (recv ∷ recv ∷ recv ∷ [])
  some (late, t4.received)

-- Of `Receiver::try_recv_batch`: the count, the messages, and the answers to two `try_recv` with a
-- `send` between them
try_recv_batch_doc :
    Option (ℕ × List (Option ℕ) × Result (Option ℕ) RecvError × Result (Option ℕ) RecvError)
unfolding test idle
try_recv_batch_doc = do
  t ← test 10 (send 16 ∷ send 32 ∷ send 64 ∷ send 128 ∷ [])
  let (count, messages, r, q) = try_recv_batch t.handles.receiver t.handles.nexus 4 []
  let (no_more, r', q') = Receiver.try_recv r q
  answer ← Sender.send idle q' 256
  some (count, messages, no_more, (Receiver.try_recv r' answer.1).0)

-- Of `Receiver::try_recv_until`
try_recv_until_doc : Option (Result (Option ℕ) RecvError)
unfolding test
try_recv_until_doc = do
  t ← test 3 []
  some (Receiver.try_recv_until (λ q. q) t.handles.receiver t.handles.nexus).0

-- Of `Receiver::try_recv`: before, at and after the message
try_recv_doc : Option (List (Result (Option ℕ) RecvError))
unfolding test idle
try_recv_doc = do
  t ← test 3 []
  let (none_yet, r, q) = Receiver.try_recv t.handles.receiver t.handles.nexus
  answer ← Sender.send idle q 1
  let (message, r', q') = Receiver.try_recv r answer.1
  some (none_yet ∷ message ∷ (Receiver.try_recv r' q').0 ∷ [])

examples_pass :
    (received_by 4 make_channel_doc ≡ some (some 42 ∷ some 2 ∷ []))
    × (received_by 5 send_doc ≡ some (some 1 ∷ some 2 ∷ []))
    × (received_by 3 recv_doc ≡ some (some 1 ∷ []))
    × (try_take_doc ≡ (some 42, none, taken))
    × (check 42 42 ≡ true)
    × (check 42 21 ≡ false)
    × (try_send_doc ≡ some (err (Sender.full 4), some 1 ∷ some 2 ∷ some 3 ∷ []))
    × (try_send_before_doc ≡ some (err (Sender.timeout 4), some 1 ∷ some 2 ∷ some 3 ∷ []))
    × (try_recv_batch_doc
        ≡ some (4, some 16 ∷ some 32 ∷ some 64 ∷ some 128 ∷ [], err no_new_data, ok (some 256)))
    × (try_recv_until_doc ≡ some (err timeout))
    × (try_recv_doc ≡ some (err no_new_data ∷ ok (some 1) ∷ err no_new_data ∷ []))
unfolding received_by try_take_doc try_send_doc try_send_before_doc try_recv_batch_doc
    try_recv_until_doc try_recv_doc make_channel calls call Sender.new Sender.send Sender.take_head
    Sender.try_take_head Sender.send_held Sender.try_send Sender.try_send_before
    Sender.send_held_before Sender.restore_head Cell.safe_to_write Cell.wait_for_write_safe
    Cell.wait_for_write_safe_before fast_mod maybe_next_power_of_two Cell.new Sender.publish
    Sender.pass_token Receiver.new Receiver.recv Receiver.try_recv Receiver.try_recv_until
    Receiver.awaited Cell.wait_for_published Cell.wait_for_published_until Receiver.advance
    Nexus.with_strategies try_recv_batch read_loop clamp_results move_reader
examples_pass = (refl, refl, refl, refl, refl, refl, refl, refl, refl, refl, refl)
