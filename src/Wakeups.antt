-- ===== src/Wakeups.antt =====
-- src/wait_strategy/block.rs, src/sender.rs: who is woken when the write token comes back. The
-- threads take the token by `take`, `take_before` or `try_take`, the tasks by `poll`, and they tell
-- the event of `write_head_wait_strategy`; one access to the word or to the event is a step.
pub mod Invariant
pub mod Served
pub mod Progress
pub mod Lost
pub mod Waiting
pub mod Told
pub mod Returns
use nexusq.Base.{ℕ, ◌≡◌, ◌≢◌, ◌≤◌, Bool, true, false, none, some, update, usize_max, wrapping_add}
use nexusq.WaitStrategy.{try_take, restore}

-- The listener that a thread has at the event
pub data Listener : Type 0 where
  absent armed notified : Listener

abbrev pub Listeners : Type 0
Listeners = ℕ → Listener

abbrev pub present : Listener → Bool
present absent = false
present _ = true

-- `Event` of the crate event_listener: what a call of `notify` and the drop of a listener may make
-- of the listeners.
pub record Event : Type 1 where
  pub notify : (n : ℕ) → (before after : Listeners) → Type 0
  pub discard : (i : ℕ) → (before after : Listeners) → Type 0

-- What the crate documents: `notify(n)` makes sure that at least `n` of the listeners there are
-- notified, and with `usize::MAX` all of them; a listener that is dropped with a notification passes
-- it on to another, and without one it is only gone.
pub record IsEvent (e : Event) : Type 0 where
  pub notifies : (n : ℕ) (l : Listeners) → (l' : Listeners) × e.notify n l l'
  pub notify_present :
      (n : ℕ) (l l' : Listeners) → e.notify n l l' → (j : ℕ) → present (l' j) ≡ present (l j)
  pub notify_reaches :
      (n : ℕ) (l l' : Listeners) (i : ℕ)
      → e.notify n l l'
      → 1 ≤ n
      → present (l i) ≡ true
      → (j : ℕ) × (l' j ≡ notified)
  pub notify_every :
      (l l' : Listeners) (i : ℕ) → e.notify usize_max l l' → present (l i) ≡ true → l' i ≡ notified
  pub discards : (i : ℕ) (l : Listeners) → (l' : Listeners) × e.discard i l l'
  pub discard_gone : (i : ℕ) (l l' : Listeners) → e.discard i l l' → l' i ≡ absent
  pub discard_present :
      (i : ℕ) (l l' : Listeners)
      → e.discard i l l'
      → (j : ℕ) → i ≢ j
      → present (l' j) ≡ present (l j)
  pub discard_keeps :
      (i : ℕ) (l l' : Listeners)
      → e.discard i l l'
      → (j : ℕ) → i ≢ j
      → l j ≡ notified
      → l' j ≡ notified
  pub discard_silent :
      (i : ℕ) (l l' : Listeners)
      → e.discard i l l'
      → l i ≢ notified
      → (j : ℕ) → l' j ≡ notified
      → l j ≡ notified
  pub discard_passes :
      (i : ℕ) (l l' : Listeners) (k : ℕ)
      → e.discard i l l'
      → l i ≡ notified
      → i ≢ k
      → present (l k) ≡ true
      → (j : ℕ) × (l' j ≡ notified)

-- `notify_one` and `notify_all` of `BlockStrategy`, which the other strategies share
abbrev pub NotifiesOne : Event → Listeners → Listeners → Type 0
NotifiesOne e = e.notify 1

abbrev pub NotifiesAll : Event → Listeners → Listeners → Type 0
NotifiesAll e = e.notify usize_max

-- Where a thread stands.
pub data TakerPc : Type 0 where
  idle : TakerPc
  arming : TakerPc  -- at the head of the loop of `take`
  looking : TakerPc  -- its listener is armed, before the first `try_take`
  sleeping : TakerPc  -- in `wait` or `wait_deadline`, or after a `poll` that is pending
  woken : TakerPc  -- before the second `try_take`
  holding : ℕ → TakerPc
  passing : TakerPc  -- after `restore(id + 1)`, before `notify_one`

-- One step of thread `i`: the word, the listeners and where it stands after it. `gives` says
-- whether the program has calls that give the token back unused, which are `try_send` and
-- `try_send_before`.
pub data TakerMove (e : Event) (gives : Bool) (i word : ℕ) (l : Listeners)
    : TakerPc → ℕ → Listeners → TakerPc → Type 0 where
  -- A spin of `HybridWait`, the first look of a `poll`, or a `try_take` of its own
  grab :
      {id : ℕ}
      → (try_take word).0 ≡ some id
      → TakerMove e gives i word l idle (try_take word).1 l (holding id)
  miss : (try_take word).0 ≡ none → TakerMove e gives i word l idle (try_take word).1 l idle
  -- The loop of `BlockStrategy`; the listener is dropped at a return. For a task, `first_miss` is a
  -- `poll` that ends pending, `wake` the next one, whose listener is ready, and `expire` its drop.
  call : TakerMove e gives i word l idle word l arming
  listen : TakerMove e gives i word l arming word (update l i armed) looking
  first_hit :
      {id : ℕ} {l' : Listeners}
      → (try_take word).0 ≡ some id
      → e.discard i l l'
      → TakerMove e gives i word l looking (try_take word).1 l' (holding id)
  first_miss :
      (try_take word).0 ≡ none → TakerMove e gives i word l looking (try_take word).1 l sleeping
  wake : l i ≡ notified → TakerMove e gives i word l sleeping word (update l i absent) woken
  expire : {l' : Listeners} → e.discard i l l' → TakerMove e gives i word l sleeping word l' idle
  second_hit :
      {id : ℕ}
      → (try_take word).0 ≡ some id
      → TakerMove e gives i word l woken (try_take word).1 l (holding id)
  second_miss :
      (try_take word).0 ≡ none → TakerMove e gives i word l woken (try_take word).1 l arming
  -- What is done with the token: `restore(id + 1)` and `notify_one`, the return with
  -- `Disconnected`, or `restore(id)`
  pass :
      {id : ℕ}
      → TakerMove e gives i word l (holding id) (restore word (wrapping_add id 1)) l passing
  notify : {l' : Listeners} → NotifiesOne e l l' → TakerMove e gives i word l passing word l' idle
  lose : {id : ℕ} → TakerMove e gives i word l (holding id) word l idle
  give_back :
      {id : ℕ} → gives ≡ true → TakerMove e gives i word l (holding id) (restore word id) l idle

pub record Takers : Type 0 where
  pub word : ℕ
  pub listeners : Listeners
  pub pcs : ℕ → TakerPc

pub data Step (e : Event) (gives : Bool) (t : Takers) : Takers → Type 0 where
  moves :
      (i : ℕ) {w : ℕ} {l : Listeners} {p : TakerPc}
      → TakerMove e gives i t.word t.listeners (t.pcs i) w l p
      → Step e gives t (record { word = w; listeners = l; pcs = update t.pcs i p })
  -- A task whose `poll` is pending is polled before it is woken: it looks again, with the listener
  -- that it has.
  polled : (i : ℕ) → t.pcs i ≡ sleeping → Step e gives t (record t { pcs = update t.pcs i looking })

-- The token with the first id, and nobody at the event
abbrev pub begin : Takers
begin = record { word = 1; listeners = λ _. absent; pcs = λ _. idle }

pub data Run (e : Event) (gives : Bool) (t : Takers) : Takers → Type 0 where
  stay : Run e gives t t
  later : {u v : Takers} → Run e gives t u → Step e gives u v → Run e gives t v

-- A run in which no thread begins a call
pub data Onward (e : Event) (gives : Bool) (t : Takers) : Takers → Type 0 where
  stand : Onward e gives t t
  go :
      {u : Takers} {w : ℕ} {l : Listeners} {p : TakerPc}
      → Onward e gives t u
      → (i : ℕ) → u.pcs i ≢ idle
      → TakerMove e gives i u.word u.listeners (u.pcs i) w l p
      → Onward e gives t (record { word = w; listeners = l; pcs = update u.pcs i p })
