-- ===== src/Tests/Sessions.antt =====
-- A session of calls on a channel of four cells, by the code and by the abstract channel.
use nexusq.Base.{ready, ℕ, ◌≡◌, refl, arith, List, [], ◌∷◌, some, ok, err}
use nexusq.FastMod.{fast_mod, maybe_next_power_of_two}
use nexusq.Cell
use nexusq.Sender
use nexusq.Sender.{full, disconnected}
use nexusq.Receiver
use nexusq.Receiver.{Receiver, no_new_data}
use nexusq.Broadcast
use nexusq.Broadcast.{
  Op, send, recv, clone, drop, sent, received, done, no_receiver, poll, recv_batch, polled, batched,
  has_room,
}
use nexusq.Session.{Session, step, run}
use nexusq.Session.Agrees.{view_of}
use nexusq.Session.Refine.{run_refines}
use nexusq.Tests.States.{readers, opened, opened-IsValid}

abbrev script : List (Op ℕ)
script =
    send 7
    ∷ clone 0
    ∷ recv 0
    ∷ recv 0
    ∷ send 8
    ∷ send 9
    ∷ send 10
    ∷ recv 1
    ∷ send 10
    ∷ poll 1
    ∷ recv_batch 1 5
    ∷ drop 0
    ∷ recv 1
    ∷ drop 0
    ∷ send 11
    ∷ []

abbrev calls : List (Op ℕ)
calls =
    send 7
    ∷ clone 0
    ∷ recv 0
    ∷ recv 0
    ∷ send 8
    ∷ send 9
    ∷ send 10
    ∷ recv 1
    ∷ send 10
    ∷ drop 0
    ∷ recv 1
    ∷ drop 0
    ∷ send 11
    ∷ []

abbrev session : Session ℕ
session = record { nexus = opened; receivers = readers }

run_refines_example : run session script ≡ Broadcast.run (view_of session []) script
run_refines_example = run_refines script {s = session} opened-IsValid (omega arith) (omega arith)

-- What the calls are answered, by the code.
run-calls :
    run session calls
    ≡ sent (ok tt)
      ∷ done
      ∷ received (ok (some 7))
      ∷ received (err no_new_data)
      ∷ sent (ok tt)
      ∷ sent (ok tt)
      ∷ sent (err (full 10))
      ∷ received (ok (some 7))
      ∷ sent (ok tt)
      ∷ done
      ∷ no_receiver
      ∷ done
      ∷ sent (err (disconnected (some 11)))
      ∷ []
unfolding run step Sender.try_send Sender.try_take_head Sender.restore_head Sender.pass_token
    Sender.publish Receiver.new Receiver.clone Receiver.drop Receiver.try_recv Receiver.advance
    maybe_next_power_of_two fast_mod Cell.safe_to_write Cell.new
run-calls = refl

-- What the abstract channel answers to the script.
run-script :
    Broadcast.run (view_of session []) script
    ≡ sent (ok tt)
      ∷ done
      ∷ received (ok (some 7))
      ∷ received (err no_new_data)
      ∷ sent (ok tt)
      ∷ sent (ok tt)
      ∷ sent (err (full 10))
      ∷ received (ok (some 7))
      ∷ sent (ok tt)
      ∷ polled (ready (some 8))
      ∷ batched 2 (some 9 ∷ some 10 ∷ [])
      ∷ done
      ∷ no_receiver
      ∷ done
      ∷ sent (err (disconnected (some 11)))
      ∷ []
unfolding Broadcast.run Broadcast.step has_room Receiver.new maybe_next_power_of_two
run-script = refl
