-- ===== src/Threads/Invariant.antt =====
-- What holds of all threads in every reachable state.
use nexusq.Base.{
  ℕ, ◌+◌, ◌-◌, ◌%◌, ◌≤◌, ◌<◌, ◌≡◌, ◌≢◌, ◌⊎◌, true, some, List, length, get_elem?, total, usize_max,
}
use nexusq.WaitStrategy.{taken}
use nexusq.Nexus.{NexusQ}
use nexusq.Threads.Sending.{SenderPc, holds, outstanding, unwritten, may_write, writing}
use nexusq.Threads.Receiving.{ReceiverPc, low, high, present, counts, registered}
use nexusq.Threads.System.{System}

module _ {ℓ} {A : Type ℓ} where
  -- The token, with `sent` ids passed on so far: the next id, which one sender has or the word; and
  -- the ids that are passed on and not published.
  pub record IsFair (sent : ℕ) (head : ℕ) (pc : ℕ → SenderPc A) : Type ℓ where
    pub here_or_away : (head ≡ sent + 1) ⊎ (head ≡ taken)
    pub held : (i id : ℕ) → holds (pc i) ≡ some id → (id ≡ sent + 1) × (head ≡ taken)
    pub alone : (i j a b : ℕ) → holds (pc i) ≡ some a → holds (pc j) ≡ some b → i ≡ j
    pub passed : (i id : ℕ) → outstanding (pc i) ≡ some id → (1 ≤ id) × (id ≤ sent)
    pub once : (i j id : ℕ) → outstanding (pc i) ≡ some id → outstanding (pc j) ≡ some id → i ≡ j

  -- The counters of the cells and of the receivers.
  pub record IsCounted (q : NexusQ A) (rs : List ReceiverPc) : Type 0 where
    pub readers : (i : ℕ) → (q.cells i).read_counter ≡ total (counts q.len i) rs
    pub alive : q.num_receivers ≡ total registered rs

  -- An id that stands in its cell has been passed on, and its sender has finished.
  abbrev pub IsPublished : NexusQ A → (ℕ → SenderPc A) → ℕ → Type 0
  IsPublished q pc sent =
      (id : ℕ)
      → id < usize_max
      → (q.cells (id % q.len)).current_id ≡ id
      → (id ≤ sent) × ((i : ℕ) → outstanding (pc i) ≢ some id)

  -- What holds of a receiver that stands on the cell of `a` and knows the messages up to `h`.
  pub record IsWatched (q : NexusQ A) (pc : ℕ → SenderPc A) (log : List A) (a h : ℕ) : Type ℓ where
    pub near : length log < a + q.len
    pub ahead : a ≤ h
    pub known : h ≤ length log
    pub finished : (i id : ℕ) → outstanding (pc i) ≡ some id → h < id
    -- A sender that may write has seen that nobody stands on its cell.
    pub clear : (i : ℕ) → may_write (pc i) ≡ true → length log + 1 < a + q.len
    -- The messages from `a` on are in their cells, once they are written.
    pub content :
        (id : ℕ)
        → 1 ≤ id
        → a ≤ id
        → id ≤ length log
        → ((i : ℕ) → unwritten (pc i) ≢ some id)
        → (q.cells (id % q.len)).value ≡ get_elem? log (id - 1)

  pub record Inv (s : System A) : Type ℓ where
    pub size : 2 ≤ s.nexus.len
    pub fair : IsFair (length s.log) s.nexus.write_head s.senders
    pub counted : IsCounted s.nexus s.receivers
    pub published : IsPublished s.nexus s.senders (length s.log)
    -- A sender writes the message that it has put in line.
    pub carried :
        (i id : ℕ) (v : A) → s.senders i ≡ writing id v → get_elem? s.log (id - 1) ≡ some v
    pub watched :
        (k : ℕ) (r : ReceiverPc)
        → get_elem? s.receivers k ≡ some r
        → present r ≡ true
        → IsWatched s.nexus s.senders s.log (low r) (high r)
