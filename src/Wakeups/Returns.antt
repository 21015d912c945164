-- ===== src/Wakeups/Returns.antt =====
-- A thread that sleeps at a cell for what is there returns, with no help of new calls.
use nexusq.Base.{
  ℕ, ◌≡◌, ◌≢◌, ◌≤◌, ◌∙◌, inl, inr, refl, sym, ap, true, update, update_self, ==_ne, usize_max,
}
use nexusq.Wakeups.{Listeners, notified, Event, IsEvent}
use nexusq.Wakeups.Waiting
use nexusq.Wakeups.Waiting.{
  Awaited, WaiterPc, Words, holds, WaiterMove, Waiters, WaiterRun, quiet, Ahead, stand, go,
}
use nexusq.Wakeups.Told.{Inv, registered, WaiterRun-Inv}

Ahead-trans : {e : Event} {t u v : Waiters} → Ahead e t u → Ahead e u v → Ahead e t v
Ahead-trans r stand = r
Ahead-trans r (go r' i busy mv) = go (Ahead-trans r r') i busy mv

-- A run to where the wait of thread `i` has ended well, with the words as they are
abbrev pub IsReturned : Event → Waiters → ℕ → Awaited → Type 0
IsReturned e t i a = (u : Waiters) × Ahead e t u × (u.words ≡ t.words) × (u.pcs i ≡ Waiting.found a)

module _ (e : Event) (law : IsEvent e) where
  step_of :
      (t : Waiters) (i : ℕ) {p p' : WaiterPc} {c : Words} {l : Listeners}
      → t.pcs i ≡ p
      → p ≢ Waiting.idle
      → WaiterMove e i t.words t.listeners p c l p'
      → Ahead e t (record { words = c; listeners = l; pcs = update t.pcs i p' })
  step_of t i here busy mv = go stand i (λ resting. busy (sym here ∙ resting)) (rw here mv)

  looks_again :
      (t : Waiters) (i : ℕ) (a : Awaited)
      → holds t.words a ≡ true
      → t.pcs i ≡ Waiting.woken a
      → IsReturned e t i a
  looks_again t i a there here =
      (_, step_of t i here (λ x. cc) (Waiting.second_hit there), refl, update_self t.pcs i _)

  wakes :
      (t : Waiters) (i : ℕ) (a : Awaited)
      → holds t.words a ≡ true
      → t.pcs i ≡ Waiting.sleeping a
      → t.listeners i ≡ notified
      → IsReturned e t i a
  wakes t i a there here told =
      let first = step_of t i here (λ x. cc) (Waiting.wake told) in
      let (u, r, same, has) = looks_again _ i a there (update_self t.pcs i (Waiting.woken a)) in
      (u, Ahead-trans first r, same, has)

  is_told :
      (t : Waiters) (i j : ℕ) (a : Awaited)
      → Inv t
      → holds t.words a ≡ true
      → t.pcs i ≡ Waiting.sleeping a
      → t.pcs j ≡ Waiting.telling
      → IsReturned e t i a
  is_told t i j a inv there here tells =
      let (l, n) = law.notifies usize_max t.listeners in
      let first = step_of t j tells (λ x. cc) (Waiting.tell n) in
      let woken = law.notify_every t.listeners l i n (inv.known i ∙ ap registered here) in
      let apart : j ≢ i = λ same. cc (ap t.pcs same, here, tells) in
      let (u, r, same, has) = wakes _ i a there (rw (==_ne j i apart) here) woken in
      (u, Ahead-trans first r, same, has)

-- Threads wait for a cell, by the blocking loop, and tasks by `poll`, which may come at any time,
-- while others enter the cell, leave it and publish in it, with fewer readers than a word counts.
-- Whenever one of them sleeps and what it waits for is there, steps that begin no new call, and no
-- `poll` of a task that is not woken, lead to where its wait has ended well, with the words of the
-- cell as they are.
pub sleeper_returns :
    (e : Event) {c : Words} {t : Waiters}
    → IsEvent e
    → c.read_counter ≤ usize_max
    → WaiterRun e (quiet c) t
    → (i : ℕ) (a : Awaited) → t.pcs i ≡ Waiting.sleeping a
    → holds t.words a ≡ true
    → IsReturned e t i a
sleeper_returns e {t = t} law word r i a here there =
    let inv = WaiterRun-Inv law word r in
    elim (inv.told i a here there) [
      | inl told ↦ wakes e law t i a there here told
      | inr (j, tells) ↦ is_told e law t i j a inv there here tells
    ]
