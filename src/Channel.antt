-- ===== src/Channel.antt =====
-- src/lib.rs: `make_channel_with` and `make_channel`; the wait strategies are the handles' concern.
pub mod Made
use nexusq.Base.{ℕ, Option, Result, ok, err}
use nexusq.Nexus.{NexusQ, NexusError, with_strategies, allocated}
use nexusq.Sender
use nexusq.Sender.{Sender}
use nexusq.Receiver
use nexusq.Receiver.{Receiver}

-- The two handles, and the state that they share.
pub record Handles {ℓ} (A : Type ℓ) : Type ℓ where
  pub sender : Sender
  pub receiver : Receiver
  pub nexus : NexusQ A

module _ {ℓ} {A : Type ℓ} where
  unfoldable pub make_channel : ℕ → Result (Handles A) NexusError
  unfolding with_strategies Receiver.new Sender.new
  make_channel size = elim (with_strategies {A = A} size) [
    | err e ↦ err e
    | ok q ↦
        let (receiver, nexus) = Receiver.new q in
        ok (record { sender = Sender.new; receiver = receiver; nexus = nexus })
  ]

  -- The same with the panic of the allocation, for cells of `cell_size` bytes
  unfoldable pub make_channel_of : (cell_size size : ℕ) → Option (Result (Handles A) NexusError)
  unfolding allocated
  make_channel_of cell_size size = allocated cell_size size (make_channel size)
