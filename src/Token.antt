-- ===== src/Token.antt =====
-- src/sender.rs: the write token between threads that run `send`, `try_send` and
-- `try_send_before`, one access to `write_head` a step, in any order.
pub mod Exclusion
use nexusq.Base.{ℕ, Option, none, some, List, [], ◌∷◌, ◌++◌, ◌≡◌, get_elem?, set, wrapping_add}
use nexusq.WaitStrategy.{try_take, restore}

-- The word `write_head`, and of each thread the id that it holds.
pub record Tokens : Type 0 where
  pub word : ℕ
  pub held : List (Option ℕ)

-- A step, with the id that it publishes, if it does.
pub data Step : Tokens → List ℕ → Tokens → Type 0 where
  -- `take` and `try_take`, with success and without
  take :
      (t : Tokens) (k id : ℕ)
      → get_elem? t.held k ≡ some none
      → (try_take t.word).0 ≡ some id
      → Step t [] (record { word = (try_take t.word).1; held = set t.held k (some id) })
  miss :
      (t : Tokens)
      → (try_take t.word).0 ≡ none
      → Step t [] (record t { word = (try_take t.word).1 })
  -- `restore(id + 1)`, after which the thread publishes the message with the id
  pass :
      (t : Tokens) (k id : ℕ)
      → get_elem? t.held k ≡ some (some id)
      → Step t
          (id ∷ [])
          (record { word = restore t.word (wrapping_add id 1); held = set t.held k none })
  -- `restore(id)`, where the cell is in use
  give_back :
      (t : Tokens) (k id : ℕ)
      → get_elem? t.held k ≡ some (some id)
      → Step t [] (record { word = restore t.word id; held = set t.held k none })
  -- the return with `Disconnected` from `send` and `try_send_before`
  lose :
      (t : Tokens) (k id : ℕ)
      → get_elem? t.held k ≡ some (some id)
      → Step t [] (record t { held = set t.held k none })

-- Any number of steps, with the ids published, in order.
pub data Run (t : Tokens) : List ℕ → Tokens → Type 0 where
  start : Run t [] t
  more : {ids ids' : List ℕ} (u w : Tokens) → Run t ids u → Step u ids' w → Run t (ids ++ ids') w
