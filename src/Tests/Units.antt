-- ===== src/Tests/Units.antt =====
-- One thread with the sender and the receiver of a new channel. Nobody else acts, so a call that has
-- to wait never returns, and a test that it stands in gives `none`.
mod Channel
mod Docs
mod Masks
use mathlib.Core.Option
use nexusq.Base.{ℕ, ◌+◌, Option, none, some, List, [], ◌∷◌, ◌++◌, ok, err, Poll, ready, pending}
use nexusq.Nexus.{NexusQ}
use nexusq.Channel.{Handles, make_channel}
use nexusq.Sender
use nexusq.Sender.{Sender, Others, SendResult}
use nexusq.Sink
use nexusq.Receiver
use nexusq.Receiver.{Receiver}
use nexusq.Values.{dropped_by}

infixl 5 ◌>>=◌
abbrev pub ◌>>=◌ {ℓ κ} : {A : Type ℓ} {B : Type κ} → Option A → (A → Option B) → Option B
none >>= f = none
some a >>= f = f a

-- What a test has, and what it has seen: the messages received, and the values dropped by sends
pub record Trial : Type 0 where
  pub handles : Handles ℕ
  pub received : List (Option ℕ)
  pub dropped : List ℕ

-- Its calls: `send` and `SinkExt::send` with `expect`, `try_send` with `unwrap`, `recv` and `next`
pub data Call : Type 0 where
  send try_send send_async : ℕ → Call
  recv next : Call

unfoldable pub idle : Others ℕ
idle = record { taking = λ q. q; draining = λ q. q }

unfoldable pub sends : Trial → ℕ → SendResult ℕ × NexusQ ℕ → Option Trial
unfolding dropped_by
sends t value (ok done, q) = some (record t {
  handles = record t.handles { nexus = q };
  dropped = t.dropped ++ dropped_by t.handles.nexus value (ok done);
})
sends t value (err _, q) = none

unfoldable pub receives : Trial → Option ℕ × Receiver × NexusQ ℕ → Option Trial
receives t (message, r, q) = some (record t {
  handles = record t.handles { nexus = q; receiver = r };
  received = t.received ++ message ∷ [];
})

-- `SinkExt::send`: `poll_ready`, `start_send`, and `poll_flush`, which is always ready
unfoldable pub send_polled : Trial → ℕ → Option Trial
send_polled t value = do
  (s, q) ← claimed (Sink.poll_ready t.handles.sender t.handles.nexus)
  (result, s', q') ← Sink.start_send s q value
  sends (record t { handles = record t.handles { sender = s' } }) value (result, q')
  where
    claimed : Poll (SendResult ℕ) × Sender × NexusQ ℕ → Option (Sender × NexusQ ℕ)
    claimed (ready (ok _), s, q) = some (s, q)
    claimed (_, s, q) = none

unfoldable pub call : Trial → Call → Option Trial
unfolding idle sends receives
call t (send value) = do answer ← Sender.send idle t.handles.nexus value; sends t value answer
call t (try_send value) = sends t value (Sender.try_send t.handles.nexus value)
call t (send_async value) = send_polled t value
call t recv = do
  answer ← Receiver.recv (λ q. q) t.handles.receiver t.handles.nexus
  receives t answer
call t next = polled (Receiver.poll_next t.handles.receiver t.handles.nexus)
  where
    polled : Poll (Option ℕ) × Receiver × NexusQ ℕ → Option Trial
    polled (ready message, r, q) = receives t (message, r, q)
    polled (pending, r, q) = none

unfoldable pub calls : Trial → List Call → Option Trial
calls t [] = some t
calls t (c ∷ cs) = do t' ← call t c; calls t' cs

unfoldable pub test : (size : ℕ) → List Call → Option Trial
test size cs = elim (make_channel {A = ℕ} size) [
  | err _ ↦ none
  | ok handles ↦ calls (record { handles = handles; received = []; dropped = [] }) cs
]

-- What is received, if the test comes to its end
unfoldable pub received_by : (size : ℕ) → List Call → Option (List (Option ℕ))
unfolding test
received_by size cs = Option.map (λ t. t.received) (test size cs)
