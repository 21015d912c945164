-- ===== src/Session.antt =====
-- A program's calls in order: one sender, and the receivers that are alive. The calls are those of
-- src/sender.rs and src/receiver.rs that do not wait.
pub mod View
pub mod Agrees
pub mod Refine
pub mod RoundTrip
use nexusq.Base.{List, [], ◌∷◌, ◌++◌, none, some, get_elem?, set, erase_idx}
use nexusq.Nexus.{NexusQ}
use nexusq.Sender
use nexusq.Receiver
use nexusq.Receiver.{Receiver}
use nexusq.Batch
use nexusq.Broadcast.{
  Op, send, recv, poll, recv_batch, polled, batched, clone, drop, Reply, sent, received, done,
  no_receiver,
}

pub record Session {ℓ} (A : Type ℓ) : Type ℓ where
  pub nexus : NexusQ A
  pub receivers : List Receiver

module _ {ℓ} {A : Type ℓ} where
  unfoldable pub step : Session A → Op A → Reply A × Session A
  step s (send value) =
      let (result, q) = Sender.try_send s.nexus value in (sent result, record s { nexus = q })
  step s (recv k) = elim (get_elem? s.receivers k) [
    | none ↦ (no_receiver, s)
    | some r ↦
        let (result, r', q) = Receiver.try_recv r s.nexus in
        (received result, record { nexus = q; receivers = set s.receivers k r' })
  ]
  step s (poll k) = elim (get_elem? s.receivers k) [
    | none ↦ (no_receiver, s)
    | some r ↦
        let (result, r', q) = Receiver.poll_next r s.nexus in
        (polled result, record { nexus = q; receivers = set s.receivers k r' })
  ]
  step s (recv_batch k max_results) = elim (get_elem? s.receivers k) [
    | none ↦ (no_receiver, s)
    | some r ↦
        let (count, buffer, r', q) = Batch.try_recv_batch r s.nexus max_results [] in
        (batched count buffer, record { nexus = q; receivers = set s.receivers k r' })
  ]
  step s (clone k) = elim (get_elem? s.receivers k) [
    | none ↦ (no_receiver, s)
    | some r ↦
        let (r', q) = Receiver.clone r s.nexus in
        (done, record { nexus = q; receivers = s.receivers ++ r' ∷ [] })
  ]
  step s (drop k) = elim (get_elem? s.receivers k) [
    | none ↦ (no_receiver, s)
    | some r ↦
        (done, record { nexus = Receiver.drop r s.nexus; receivers = erase_idx s.receivers k })
  ]

  unfoldable pub run : Session A → List (Op A) → List (Reply A)
  run s [] = []
  run s (op ∷ ops) = (step s op).0 ∷ run (step s op).1 ops
