-- ===== src/Tests/Alone.antt =====
-- Calls that run alone on a channel of four cells: a send on a new one, a batch of at most five
-- messages where there are two, and the two after one another.
use nexusq.Base.{◌+◌, ◌≡◌, refl, arith, [], ◌∷◌, some, ok}
use nexusq.FastMod.{maybe_next_power_of_two}
use nexusq.Sender.{publish, pass_token}
use nexusq.Batch.{try_recv_batch}
use nexusq.Receiver
use nexusq.Threads.Sending
use nexusq.Threads.Receiving
use nexusq.Threads.ReceiveRuns.{ReceiveRun, IsHandle}
use nexusq.Threads.BatchRuns.{copied, try_recv_batch_runs}
use nexusq.Session.RoundTrip.{send_all, send_all-try_recv_batch}
use nexusq.Ring.{IsValid, position}
use nexusq.Tests.States.{opened, opened-IsValid, second, reader}

reader-IsHandle : IsHandle second.len reader 0
unfolding Receiver.new maybe_next_power_of_two publish pass_token
reader-IsHandle = record { next = refl; on_cell = refl }

try_recv_batch_runs_example :
    ReceiveRun second
      (Receiving.resting 0)
      (try_recv_batch reader second 5 []).3
      (Receiving.resting (0 + (try_recv_batch reader second 5 []).0))
    × ((try_recv_batch reader second 5 []).1
        ≡ copied second 0 (try_recv_batch reader second 5 []).0)
    × IsHandle second.len
        (try_recv_batch reader second 5 []).2
        (0 + (try_recv_batch reader second 5 []).0)
unfolding Receiver.new maybe_next_power_of_two publish pass_token
try_recv_batch_runs_example =
    try_recv_batch_runs second 2 refl reader 0 reader-IsHandle (omega arith) (omega arith) 5 []

-- Two numbers sent to the new channel, and a batch of at most five.
send_all-try_recv_batch_example :
    let (results, q1) = send_all opened (7 ∷ 8 ∷ []) in
    let (count, messages, r', q2) = try_recv_batch reader q1 5 [] in
    (results ≡ ok tt ∷ ok tt ∷ [])
    × (count ≡ 2)
    × (messages ≡ some 7 ∷ some 8 ∷ [])
    × (position r' ≡ position reader + 2)
    × IsValid q2 (r' ∷ []) (7 ∷ 8 ∷ [])
unfolding Receiver.new maybe_next_power_of_two
send_all-try_recv_batch_example =
    send_all-try_recv_batch opened-IsValid 0 reader refl refl (7 ∷ 8 ∷ []) (omega arith, tt)
      (omega arith) 5 (omega arith)
