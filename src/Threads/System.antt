-- ===== src/Threads/System.antt =====
-- The threads and the state that they share, and what is reachable from a new channel.
use nexusq.Base.{ℕ, ◌≡◌, Bool, some, ok, List, [], ◌∷◌, ◌++◌, get_elem?, set, update}
use nexusq.Nexus.{NexusQ}
use nexusq.Channel.{Handles, make_channel}
use nexusq.Threads.Sending.{SenderPc, idle, SendMove}
use nexusq.Threads.Receiving.{ReceiverPc, resting, born, ReceiveMove, enter_cell}

-- A table of senders, of which any number may be in use, a list of all receivers that ever were,
-- and the messages put in line so far: the one with id `n` stands at `n - 1`.
pub record System {ℓ} (A : Type ℓ) : Type ℓ where
  pub nexus : NexusQ A
  pub senders : ℕ → SenderPc A
  pub receivers : List ReceiverPc
  pub log : List A

module _ {ℓ} {A : Type ℓ} where
  pub data Step (tries : Bool) (s : System A) : System A → Type ℓ where
    sends :
        (i : ℕ) {q : NexusQ A} {messages : List A} {p : SenderPc A}
        → SendMove tries s.nexus (s.senders i) q messages p
        → Step tries s
            (record s { nexus = q; senders = update s.senders i p; log = s.log ++ messages })
    receives :
        (k : ℕ) {r r' : ReceiverPc} {q : NexusQ A}
        → get_elem? s.receivers k ≡ some r
        → ReceiveMove s.nexus r q r'
        → Step tries s (record s { nexus = q; receivers = set s.receivers k r' })
    -- The beginning of a clone: the new receiver counts on its cell.
    clones :
        (k : ℕ) {last : ℕ}
        → get_elem? s.receivers k ≡ some (resting last)
        → Step tries s (record s {
          nexus = enter_cell s.nexus last;
          receivers = s.receivers ++ born last ∷ [];
        })

  -- `make_channel` leaves the receiver on the cell of id 0.
  unfoldable pub begin : Handles A → System A
  begin c = record { nexus = c.nexus; senders = λ _. idle; receivers = resting 0 ∷ []; log = [] }

  pub data Reach (tries : Bool) (size : ℕ) : System A → Type ℓ where
    start : (c : Handles A) → make_channel size ≡ ok c → Reach tries size (begin c)
    later : {s t : System A} → Reach tries size s → Step tries s t → Reach tries size t
