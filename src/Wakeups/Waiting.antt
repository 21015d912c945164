-- ===== src/Wakeups/Waiting.antt =====
-- src/cell.rs, src/wait_strategy/block.rs: who is woken when a cell changes. Threads wait for the
-- cell by `wait_for` and `wait_until`, and tasks by `poll`; they enter and leave it, and publish in
-- it. One access to a word or to the event of the cell's `wait_strategy` is a step.
use nexusq.Base.{ℕ, ◌≡◌, ◌≢◌, ◌<◌, Bool, true, false, update, usize_max, wrapping_add, wrapping_sub}
use nexusq.WaitStrategy.{check}
use nexusq.Wakeups.{Listeners, absent, armed, notified, Event, NotifiesAll}

-- What a thread waits for: `wait_for_write_safe` or `wait_for_published`
pub data Awaited : Type 0 where
  drained : Awaited
  published : ℕ → Awaited

-- Where a thread stands.
pub data WaiterPc : Type 0 where
  idle : WaiterPc
  arming looking sleeping woken : Awaited → WaiterPc
  found : Awaited → WaiterPc  -- its wait has ended well
  telling : WaiterPc  -- before `notify_all`

-- The words of the cell
pub record Words : Type 0 where
  pub read_counter : ℕ
  pub current_id : ℕ

-- `waitable.check(expected_value)`
abbrev pub holds : Words → Awaited → Bool
holds c drained = check c.read_counter 0
holds c (published id) = check c.current_id id

-- One step of thread `i`: the words, the listeners and where it stands after it.
pub data WaiterMove (e : Event) (i : ℕ) (c : Words) (l : Listeners)
    : WaiterPc → Words → Listeners → WaiterPc → Type 0 where
  -- The loop of `BlockStrategy`; the listener is dropped at a return. For a task, `first_miss` is a
  -- `poll` that ends pending, `wake` the next one, whose listener is ready, and `expire` its drop.
  -- Before it a task looks once, and a thread spins in `HybridWait`.
  at_once : {a : Awaited} → holds c a ≡ true → WaiterMove e i c l idle c l (found a)
  call : {a : Awaited} → WaiterMove e i c l idle c l (arming a)
  listen : {a : Awaited} → WaiterMove e i c l (arming a) c (update l i armed) (looking a)
  first_hit :
      {a : Awaited} {l' : Listeners}
      → holds c a ≡ true
      → e.discard i l l'
      → WaiterMove e i c l (looking a) c l' (found a)
  first_miss : {a : Awaited} → holds c a ≡ false → WaiterMove e i c l (looking a) c l (sleeping a)
  wake :
      {a : Awaited}
      → l i ≡ notified
      → WaiterMove e i c l (sleeping a) c (update l i absent) (woken a)
  expire :
      {a : Awaited} {l' : Listeners} → e.discard i l l' → WaiterMove e i c l (sleeping a) c l' idle
  second_hit : {a : Awaited} → holds c a ≡ true → WaiterMove e i c l (woken a) c l (found a)
  second_miss : {a : Awaited} → holds c a ≡ false → WaiterMove e i c l (woken a) c l (arming a)
  return : {a : Awaited} → WaiterMove e i c l (found a) c l idle
  -- `move_to`, with fewer readers than a word counts; `move_from`, with the notification of the last
  -- reader; `write_and_publish`
  enter :
      c.read_counter < usize_max
      → WaiterMove e i c l idle (record c { read_counter = wrapping_add c.read_counter 1 }) l idle
  leave_last :
      c.read_counter ≡ 1
      → WaiterMove e i c l idle
          (record c { read_counter = wrapping_sub c.read_counter 1 })
          l
          telling
  leave :
      c.read_counter ≢ 1
      → WaiterMove e i c l idle (record c { read_counter = wrapping_sub c.read_counter 1 }) l idle
  publish : {id : ℕ} → WaiterMove e i c l idle (record c { current_id = id }) l telling
  tell : {l' : Listeners} → NotifiesAll e l l' → WaiterMove e i c l telling c l' idle

pub record Waiters : Type 0 where
  pub words : Words
  pub listeners : Listeners
  pub pcs : ℕ → WaiterPc

pub data WaiterRun (e : Event) (t : Waiters) : Waiters → Type 0 where
  stay : WaiterRun e t t
  later :
      {u : Waiters} {c : Words} {l : Listeners} {p : WaiterPc}
      → WaiterRun e t u
      → (i : ℕ) → WaiterMove e i u.words u.listeners (u.pcs i) c l p
      → WaiterRun e t (record { words = c; listeners = l; pcs = update u.pcs i p })
  -- A task whose `poll` is pending is polled before it is woken: it looks again, with the listener
  -- that it has.
  polled :
      {u : Waiters}
      → WaiterRun e t u
      → (i : ℕ) (a : Awaited) → u.pcs i ≡ sleeping a
      → WaiterRun e t (record u { pcs = update u.pcs i (looking a) })

-- A cell with nobody at its event
abbrev pub quiet : Words → Waiters
quiet c = record { words = c; listeners = λ _. absent; pcs = λ _. idle }

-- A run in which no thread begins a call, so that the words stay as they are
pub data Ahead (e : Event) (t : Waiters) : Waiters → Type 0 where
  stand : Ahead e t t
  go :
      {u : Waiters} {c : Words} {l : Listeners} {p : WaiterPc}
      → Ahead e t u
      → (i : ℕ) → u.pcs i ≢ idle
      → WaiterMove e i u.words u.listeners (u.pcs i) c l p
      → Ahead e t (record { words = c; listeners = l; pcs = update u.pcs i p })
