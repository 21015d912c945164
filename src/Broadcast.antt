-- ===== src/Broadcast.antt =====
-- What the channel promises, with no ring: one log of messages, and for each receiver how many of
-- them it has read. A sender is refused while some receiver is `room` messages behind.
pub mod Laws
use nexusq.Base.{
  Poll, ready, pending, ℕ, zero, suc, ◌+◌, Bool, true, false, ◌&&◌, List, [], ◌∷◌, ◌++◌, Option,
  none, some, Result, ok, err, length, get_elem?, set, erase_idx, ltb, if◌then◌else◌,
}
use nexusq.Sender.{SendError, SendResult, full, disconnected}
use nexusq.Receiver.{RecvError, no_new_data}

pub record Broadcast {ℓ} (A : Type ℓ) : Type ℓ where
  pub room : ℕ
  pub log : List A
  pub positions : List ℕ

-- What a client asks of the channel, by one sender or by the receiver that stands at an index.
pub data Op {ℓ} (A : Type ℓ) : Type ℓ where
  send : A → Op A
  recv poll clone drop : ℕ → Op A
  recv_batch : (k max_results : ℕ) → Op A

pub data Reply {ℓ} (A : Type ℓ) : Type ℓ where
  sent : Result (Unit {0}) (SendError A) → Reply A
  received : Result (Option A) RecvError → Reply A
  polled : Poll (Option A) → Reply A
  batched : ℕ → List (Option A) → Reply A
  done no_receiver : Reply A

-- No receiver is `room` messages behind.
unfoldable pub has_room : ℕ → ℕ → List ℕ → Bool
has_room room count [] = true
has_room room count (p ∷ ps) = ltb count (p + room) && has_room room count ps

-- Is there a receiver?
abbrev pub any_receiver : List ℕ → Bool
any_receiver [] = false
any_receiver (p ∷ ps) = true

-- A poll is ready with the message, and is pending when there is none.
abbrev pub as_poll {ℓ} : {A : Type ℓ} → Result (Option A) RecvError → Poll (Option A)
as_poll (ok message) = ready message
as_poll (err _) = pending

module _ {ℓ} {A : Type ℓ} where
  -- The answer to a send, and the log after it.
  unfoldable pub accept : Broadcast A → A → SendResult A × List A
  accept b value =
      if any_receiver b.positions
      then if has_room b.room (length b.log) b.positions
        then (ok tt, b.log ++ value ∷ [])
        else (err (full value), b.log)
      else (err (disconnected (some value)), b.log)

  -- The answer to a receiver that has read `p` messages, and how many it has read then.
  unfoldable pub next_message : List A → ℕ → Result (Option A) RecvError × ℕ
  next_message log p = elim (get_elem? log p) [
    | none ↦ (err no_new_data, p)
    | some value ↦ (ok (some value), p + 1)
  ]

  -- The messages behind position `p`, `n` of them or as many as there are.
  unfoldable pub next_messages : List A → (p n : ℕ) → List (Option A)
  next_messages log p zero = []
  next_messages log p (suc n) = elim (get_elem? log p) [
    | none ↦ []
    | some value ↦ some value ∷ next_messages log (p + 1) n
  ]

  unfoldable pub step : Broadcast A → Op A → Reply A × Broadcast A
  unfolding accept next_message next_messages
  step b (send value) = let (result, log) = accept b value in (sent result, record b { log = log })
  step b (recv k) = elim (get_elem? b.positions k) [
    | none ↦ (no_receiver, b)
    | some p ↦
        let (result, p') = next_message b.log p in
        (received result, record b { positions = set b.positions k p' })
  ]
  step b (poll k) = elim (get_elem? b.positions k) [
    | none ↦ (no_receiver, b)
    | some p ↦
        let (result, p') = next_message b.log p in
        (polled (as_poll result), record b { positions = set b.positions k p' })
  ]
  step b (recv_batch k max_results) = elim (get_elem? b.positions k) [
    | none ↦ (no_receiver, b)
    | some p ↦
        let ms = next_messages b.log p max_results in
        (batched (length ms) ms, record b { positions = set b.positions k (p + length ms) })
  ]
  step b (clone k) = elim (get_elem? b.positions k) [
    | none ↦ (no_receiver, b)
    | some p ↦ (done, record b { positions = b.positions ++ p ∷ [] })
  ]
  step b (drop k) = elim (get_elem? b.positions k) [
    | none ↦ (no_receiver, b)
    | some p ↦ (done, record b { positions = erase_idx b.positions k })
  ]

  unfoldable pub run : Broadcast A → List (Op A) → List (Reply A)
  run b [] = []
  run b (op ∷ ops) = (step b op).0 ∷ run (step b op).1 ops
