-- ===== src/Threads/Sending.antt =====
-- src/sender.rs: a thread that runs `send`, `try_send` or `try_send_before`, again and again, an
-- access to the shared state at a time. The cell of an id is its remainder by the ring's length,
-- which is what `fast_mod` computes. A `Sink` that is polled by `poll_ready` until it is ready, and
-- then given its item, takes the steps of a `try_send` that does not find its cell in use; one that
-- is dropped on the way stays where it is.
use nexusq.Base.{
  ℕ, ◌+◌, ◌%◌, ◌≡◌, ◌≢◌, Bool, true, false, Option, none, some, List, [], ◌∷◌, wrapping_add,
}
use nexusq.WaitStrategy.{try_take, restore}
use nexusq.Cell
use nexusq.Cell.{Cell}
use nexusq.Nexus.{NexusQ, with_cell}

-- Where a sender stands, with the id that it took and the value to be sent.
pub data SenderPc {ℓ} (A : Type ℓ) : Type ℓ where
  idle : SenderPc A
  asked : A → SenderPc A  -- `try_send` has seen a receiver
  holding : ℕ → A → SenderPc A  -- `send` has the token
  found_free : ℕ → A → SenderPc A  -- the first look found the cell free
  waiting : ℕ → A → SenderPc A  -- the first look found it in use
  trying : ℕ → A → SenderPc A  -- `try_send` has the token
  returning : ℕ → SenderPc A  -- before the token is given back
  cleared : ℕ → A → SenderPc A  -- before the token is passed on
  writing : ℕ → A → SenderPc A  -- the value is being written
  publishing : ℕ → SenderPc A  -- before the id is stored in the cell

module _ {ℓ} {A : Type ℓ} where
  -- The cell of an id
  abbrev pub cell_of : NexusQ A → ℕ → Cell A
  cell_of q id = q.cells (id % q.len)

  -- The two halves of `write_and_publish`: `value.replace`, which is no atomic access, and the
  -- store of the id with the notification behind it.
  unfoldable pub replace_value : NexusQ A → ℕ → A → NexusQ A
  unfolding with_cell
  replace_value q id value = with_cell q (id % q.len) (λ c. record c { value = some value })

  unfoldable pub store_id : NexusQ A → ℕ → NexusQ A
  unfolding with_cell Cell.notify_all
  store_id q id = with_cell q (id % q.len) (λ c. Cell.notify_all (record c { current_id = id }))

  -- One step of one sender: the state after it, the message that it puts in line, and where it
  -- stands then. `tries` says whether the program calls `try_send`.
  pub data SendMove (tries : Bool) (q : NexusQ A)
      : SenderPc A → NexusQ A → List A → SenderPc A → Type ℓ where
    -- `take` and `take_before`: an attempt
    take :
        {id : ℕ} {v : A}
        → (try_take q.write_head).0 ≡ some id
        → SendMove tries q idle
            (record q { write_head = (try_take q.write_head).1 })
            []
            (holding id v)
    miss :
        (try_take q.write_head).0 ≡ none
        → SendMove tries q idle (record q { write_head = (try_take q.write_head).1 }) [] idle
    -- The first look of `wait_for_write_safe`
    look_free :
        {id : ℕ} {v : A}
        → (cell_of q id).read_counter ≡ 0
        → SendMove tries q (holding id v) q [] (found_free id v)
    look_used :
        {id : ℕ} {v : A}
        → (cell_of q id).read_counter ≢ 0
        → SendMove tries q (holding id v) q [] (waiting id v)
    -- After a cell that was free at once, `num_receivers`; with none the token is not given back.
    connected :
        {id : ℕ} {v : A}
        → q.num_receivers ≢ 0
        → SendMove tries q (found_free id v) q [] (cleared id v)
    disconnected :
        {id : ℕ} {v : A} → q.num_receivers ≡ 0 → SendMove tries q (found_free id v) q [] idle
    -- The end of a wait for the cell
    drained :
        {id : ℕ} {v : A}
        → (cell_of q id).read_counter ≡ 0
        → SendMove tries q (waiting id v) q [] (cleared id v)
    timed_out : {id : ℕ} {v : A} → SendMove tries q (waiting id v) q [] (returning id)
    -- `try_send`
    ask : {v : A} → tries ≡ true → q.num_receivers ≢ 0 → SendMove tries q idle q [] (asked v)
    try_wins :
        {id : ℕ} {v : A}
        → (try_take q.write_head).0 ≡ some id
        → SendMove tries q
            (asked v)
            (record q { write_head = (try_take q.write_head).1 })
            []
            (trying id v)
    try_misses :
        {v : A}
        → (try_take q.write_head).0 ≡ none
        → SendMove tries q (asked v) (record q { write_head = (try_take q.write_head).1 }) [] idle
    try_free :
        {id : ℕ} {v : A}
        → (cell_of q id).read_counter ≡ 0
        → SendMove tries q (trying id v) q [] (cleared id v)
    try_full :
        {id : ℕ} {v : A}
        → (cell_of q id).read_counter ≢ 0
        → SendMove tries q (trying id v) q [] (returning id)
    -- `restore(id)`, `restore(id + 1)` with its `notify_one`, and the two halves of `write_and_publish`
    give_back :
        {id : ℕ}
        → SendMove tries q
            (returning id)
            (record q { write_head = restore q.write_head id })
            []
            idle
    pass :
        {id : ℕ} {v : A}
        → SendMove tries q
            (cleared id v)
            (record q {
              write_head = restore q.write_head (wrapping_add id 1);
              head_notices = q.head_notices + 1;
            })
            (v ∷ [])
            (writing id v)
    write :
        {id : ℕ} {v : A} → SendMove tries q (writing id v) (replace_value q id v) [] (publishing id)
    publish : {id : ℕ} → SendMove tries q (publishing id) (store_id q id) [] idle

  -- The id whose token a sender has.
  abbrev pub holds : SenderPc A → Option ℕ
  holds (holding id v) = some id
  holds (found_free id v) = some id
  holds (waiting id v) = some id
  holds (trying id v) = some id
  holds (returning id) = some id
  holds (cleared id v) = some id
  holds _ = none

  -- The id that a sender has passed on and not published yet.
  abbrev pub outstanding : SenderPc A → Option ℕ
  outstanding (writing id v) = some id
  outstanding (publishing id) = some id
  outstanding _ = none

  -- The id whose value has still to be written.
  abbrev pub unwritten : SenderPc A → Option ℕ
  unwritten (writing id v) = some id
  unwritten _ = none

  -- A sender that has found its cell free.
  abbrev pub may_write : SenderPc A → Bool
  may_write (found_free id v) = true
  may_write (cleared id v) = true
  may_write _ = false
