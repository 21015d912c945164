-- ===== src/Tests/Units/Channel.antt =====
-- The unit tests of src/lib.rs, `mod tests` and `mod drop_tests`.
use mathlib.Core.Option
use nexusq.Base.{
  ℕ, zero, suc, ◌+◌, ◌≡◌, refl, Option, none, some, List, [], ◌∷◌, ◌++◌, ok, err, length, isize_max,
}
use nexusq.FastMod.{fast_mod, maybe_next_power_of_two}
use nexusq.Cell
use nexusq.Nexus
use nexusq.Nexus.{NexusError, buffer_too_small, buffer_too_large}
use nexusq.Channel.{make_channel}
use nexusq.Sender
use nexusq.Sender.{SendResult, disconnected}
use nexusq.Sink
use nexusq.Receiver
use nexusq.Values
use nexusq.Values.{held}
use nexusq.Tests.Units.{
  Trial, Call, send, try_send, send_async, recv, next, idle, call, calls, test, send_polled,
  received_by, ◌>>=◌,
}

abbrev basic_channel : List Call
basic_channel =
    send 1
    ∷ send 2
    ∷ send 3
    ∷ recv
    ∷ recv
    ∷ recv
    ∷ send 4
    ∷ send 5
    ∷ send 6
    ∷ recv
    ∷ recv
    ∷ recv
    ∷ []

abbrev basic_channel_async : List Call
basic_channel_async =
    send_async 1
    ∷ send_async 2
    ∷ send_async 3
    ∷ next
    ∷ next
    ∷ next
    ∷ send_async 4
    ∷ send_async 5
    ∷ send_async 6
    ∷ next
    ∷ next
    ∷ next
    ∷ []

abbrev basic_channel_try : List Call
basic_channel_try =
    try_send 1
    ∷ try_send 2
    ∷ try_send 3
    ∷ recv
    ∷ recv
    ∷ recv
    ∷ try_send 4
    ∷ try_send 5
    ∷ try_send 6
    ∷ recv
    ∷ recv
    ∷ recv
    ∷ []

send_without_receiver_fails : Option (SendResult ℕ)
unfolding test
send_without_receiver_fails = do
  t ← test 4 (send 1 ∷ send 2 ∷ recv ∷ [])
  answer ← Sender.send idle (Receiver.drop t.handles.receiver t.handles.nexus) 1
  some answer.0

-- `buffer_min_size` and `buffer_too_big`
size_error : ℕ → Option NexusError
size_error size = elim (make_channel {A = ℕ} size) [ err e ↦ some e | ok handles ↦ none ]

-- The values of the drop tests count how often they are dropped; a message that `recv` returns is
-- dropped at once.
counter : Trial → ℕ
counter t = length t.received + length t.dropped

-- After `drop(sender)` and `drop(receiver)`
counter_at_end : Trial → ℕ
unfolding counter
counter_at_end t = counter t + length (held t.handles.nexus)

sends_of : ℕ → List Call
sends_of zero = []
sends_of (suc n) = send n ∷ sends_of n

valid_drop_full_buffer : Option ℕ
unfolding test sends_of counter_at_end
valid_drop_full_buffer = Option.map counter_at_end (test 16 (sends_of 15 ++ recv ∷ send 15 ∷ []))

valid_drop_partial_buffer : Option ℕ
unfolding test sends_of counter_at_end
valid_drop_partial_buffer = Option.map counter_at_end (test 16 (sends_of 3))

valid_drop_empty_buffer : Option ℕ
unfolding test counter_at_end
valid_drop_empty_buffer = Option.map counter_at_end (test 10 [])

valid_drop_overwrite : Option (List ℕ)
unfolding test sends_of counter counter_at_end
valid_drop_overwrite = do
  t0 ← test 4 (sends_of 3 ++ recv ∷ recv ∷ recv ∷ [])
  t1 ← calls t0 (send 4 ∷ [])
  t2 ← calls t1 (send 5 ∷ [])
  t3 ← calls t2 (send 6 ∷ [])
  some (counter t0 ∷ counter t1 ∷ counter t2 ∷ counter t3 ∷ counter_at_end t3 ∷ [])

abbrev one_to_six : Option (List (Option ℕ))
one_to_six = some (some 1 ∷ some 2 ∷ some 3 ∷ some 4 ∷ some 5 ∷ some 6 ∷ [])

tests_pass :
    (received_by 4 basic_channel ≡ one_to_six)
    × (received_by 4 basic_channel_async ≡ one_to_six)
    × (received_by 4 basic_channel_try ≡ one_to_six)
    × (send_without_receiver_fails ≡ some (err (disconnected (some 1))))
    × (size_error 0 ≡ some buffer_too_small)
    × (size_error 1 ≡ some buffer_too_small)
    × (size_error 2 ≡ none)
    × (size_error (isize_max + 1) ≡ some buffer_too_large)
unfolding received_by send_without_receiver_fails size_error make_channel calls call Sender.new
    Sender.send Sender.take_head Sender.try_take_head Sender.send_held Sender.try_send
    Sink.poll_ready Sink.poll_cell Sink.start_send send_polled Cell.safe_to_write
    Cell.wait_for_write_safe Cell.poll_write_safe fast_mod maybe_next_power_of_two Cell.new
    Sender.publish Sender.pass_token Receiver.new Receiver.drop Receiver.recv Receiver.poll_next
    Receiver.awaited Cell.wait_for_published Cell.poll_published Receiver.advance
    Nexus.with_strategies
tests_pass = (refl, refl, refl, refl, refl, refl, refl, refl)

drop_tests_pass :
    (valid_drop_full_buffer ≡ some 17)
    × (valid_drop_partial_buffer ≡ some 3)
    × (valid_drop_empty_buffer ≡ some 0)
    × (valid_drop_overwrite ≡ some (3 ∷ 3 ∷ 4 ∷ 5 ∷ 9 ∷ []))
unfolding valid_drop_full_buffer valid_drop_partial_buffer valid_drop_empty_buffer
    valid_drop_overwrite Values.held_by make_channel calls call Sender.new Sender.send
    Sender.take_head Sender.try_take_head Sender.send_held Cell.wait_for_write_safe fast_mod
    maybe_next_power_of_two Cell.new Sender.publish Sender.pass_token Receiver.new Receiver.recv
    Receiver.awaited Cell.wait_for_published Receiver.advance Nexus.with_strategies
drop_tests_pass = (refl, refl, refl, refl)
