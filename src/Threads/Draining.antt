-- ===== src/Threads/Draining.antt =====
-- A sender that waits for its cell does not wait for ever if the receivers read on: each receiver
-- gets off the cell of the next id.
use nexusq.Base.{ℕ, ◌+◌, ◌%◌, ◌≡◌, Bool, length, total}
use nexusq.Threads.Sending
use nexusq.Threads.Receiving.{ReceiverPc, counts}
use nexusq.Threads.System.{System}
use nexusq.Threads.Calm.{Calm}
use nexusq.Threads.Progress.{Moved}

module _ {ℓ} {A : Type ℓ} where
  -- The cell of the next id, and how often receivers stand on it
  abbrev next_cell : System A → ℕ
  next_cell s = (length s.log + 1) % s.nexus.len

  abbrev in_the_way : System A → ℕ
  in_the_way s = total (counts s.nexus.len (next_cell s)) s.receivers

  record Cleared (tries : Bool) (s : System A) (k i : ℕ) : Type ℓ where
    receiver : ReceiverPc
    way : Moved tries s k receiver
    clear : counts s.nexus.len i receiver ≡ 0

  -- Nobody is on the cell of the next id.
  record Drained (tries : Bool) (s : System A) : Type ℓ where
    after : System A
    run : Calm tries s after
    free : (after.nexus.cells (next_cell s)).read_counter ≡ 0
