-- ===== src/Tests/Receiving.antt =====
-- The theorems on receivers and on new channels at concrete input.
use nexusq.Base.{
  ℕ, ◌*◌, ◌^◌, ◌%◌, ◌≤◌, ◌<◌, ◌≡◌, ◌⊎◌, ◌↔◌, refl, arith, List, [], ◌∷◌, Option, none, some,
  isize_max, ok, err, set, get_elem?, length, ◌+◌,
}
use nexusq.FastMod.{fast_mod, maybe_next_power_of_two}
use nexusq.FastMod.Laws.{fast_mod-eq-mod, maybe_next_power_of_two-least}
use nexusq.Nexus.{NexusQ, buffer_too_small}
use nexusq.Sender
use nexusq.Receiver
use nexusq.Receiver.{Receiver, timeout}
use nexusq.Receiver.Reading.{IsReceived}
use nexusq.Receiver.Waiting.{recv_later, try_recv_until_timeout}
use nexusq.Broadcast.{accept, next_messages}
use nexusq.Ring.{IsValid, position}
use nexusq.Channel.{Handles, make_channel, make_channel_of}
use nexusq.Channel.Made.{SizeError, make_channel-IsValid, make_channel_error}
use nexusq.Session.View.{view, try_send_refines}
use nexusq.Tests.States.{
  reader, readers, opened, opened-IsValid, first, first-IsValid, second, second-IsValid,
}
use nexusq.Batch.{try_recv_batch}
use nexusq.Batch.Laws.{try_recv_batch_refines}

abbrev one : List ℕ
one = 7 ∷ []

abbrev two : List ℕ
two = 7 ∷ 8 ∷ []

try_send_refines_example :
    ((Sender.try_send opened 7).0 ≡ (accept (view opened readers []) 7).0)
    × IsValid (Sender.try_send opened 7).1 readers (accept (view opened readers []) 7).1
try_send_refines_example = try_send_refines opened-IsValid (omega arith) 7

-- Nothing happens, or the first message is sent.
abbrev idle : NexusQ ℕ → NexusQ ℕ
idle q = q

abbrev one_comes : NexusQ ℕ → NexusQ ℕ
one_comes q = first

same_ring : first.len ≡ opened.len
unfolding Sender.publish Sender.pass_token
same_ring = refl

recv_later_example :
    (message : ℕ) × (get_elem? one (position reader) ≡ some message)
    × (result : Option ℕ × Receiver × NexusQ ℕ) × (Receiver.recv one_comes reader opened
        ≡ some result)
    × IsReceived first-IsValid 0 reader refl message result
unfolding Receiver.new
recv_later_example =
    recv_later opened-IsValid one_comes first-IsValid same_ring 0 reader refl refl (omega arith)
      (omega arith)

try_recv_until_timeout_example :
    Receiver.try_recv_until idle reader opened ≡ (err timeout, reader, opened)
unfolding Receiver.new
try_recv_until_timeout_example =
    try_recv_until_timeout opened-IsValid idle opened-IsValid refl 0 reader refl refl (omega arith)
      (omega arith)

make_channel-IsValid_example :
    ((isize_max < maybe_next_power_of_two 5 * 64) × (make_channel_of {A = ℕ} 64 5 ≡ none))
    ⊎ ((maybe_next_power_of_two 5 * 64 ≤ isize_max)
        × (c : Handles ℕ) × (make_channel_of 64 5 ≡ some (ok c))
        × (5 ≤ c.nexus.len)
        × (c.nexus.len < 2 * 5)
        × IsValid c.nexus (c.receiver ∷ []) [])
make_channel-IsValid_example = make_channel-IsValid ℕ 5 64 (omega arith) (omega arith)

make_channel_error_example :
    (make_channel {A = ℕ} 1 ≡ err buffer_too_small) ↔ SizeError 1 buffer_too_small
make_channel_error_example = make_channel_error ℕ 1 buffer_too_small

fast_mod-eq-mod_example : fast_mod 13 (2 ^ 2) ≡ 13 % 2 ^ 2
fast_mod-eq-mod_example = fast_mod-eq-mod 2 13

maybe_next_power_of_two-least_example :
    (k : ℕ) × (maybe_next_power_of_two 10 ≡ 2 ^ k) × (10 ≤ 2 ^ k) × ((2 ^ k ≡ 1) ⊎ (2 ^ k < 2 * 10))
maybe_next_power_of_two-least_example = maybe_next_power_of_two-least 10 (omega arith)

try_recv_batch_refines_example :
    let ms = next_messages two 0 5 in
    let (count, buffer, r', q') = try_recv_batch reader second 5 [] in
    (count ≡ length ms)
    × (buffer ≡ ms)
    × (position r' ≡ 0 + length ms)
    × IsValid q' (set readers 0 r') two
unfolding Receiver.new
try_recv_batch_refines_example = try_recv_batch_refines second-IsValid 0 reader refl 5 []
