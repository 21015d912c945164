-- ===== src/Wakeups/Told.antt =====
-- A thread that sleeps at a cell for what is there has been notified, or will be.
use nexusq.Base.{
  ℕ, ◌≡◌, ◌≢◌, ◌≤◌, ◌∙◌, ◌⊎◌, inl, inr, refl, sym, ap, arith, Bool, true, false, update,
  update_self, ℕ_discrete, ==_ne, ==_self, wrapping_add, wrapping_sub, usize_max,
}
use nexusq.Wakeups.{Listeners, absent, armed, notified, present, Event, IsEvent}
use nexusq.Wakeups.Waiting
use nexusq.Wakeups.Waiting.{
  Awaited, WaiterPc, Words, holds, WaiterMove, Waiters, WaiterRun, stay, later, polled, quiet,
}

abbrev pub registered : WaiterPc → Bool
registered (Waiting.looking a) = true
registered (Waiting.sleeping a) = true
registered _ = false

-- A thread that sleeps, and what it waits for is there: it has a notification, or some thread is
-- about to notify all.
abbrev pub IsTold : Waiters → Type 0
IsTold t =
    (i : ℕ) (a : Awaited)
    → t.pcs i ≡ Waiting.sleeping a
    → holds t.words a ≡ true
    → (t.listeners i ≡ notified) ⊎ ((j : ℕ) × (t.pcs j ≡ Waiting.telling))

pub record Inv (t : Waiters) : Type 0 where
  pub known : (i : ℕ) → present (t.listeners i) ≡ registered (t.pcs i)
  pub word : t.words.read_counter ≤ usize_max
  pub told : IsTold t

module _ {e : Event} (law : IsEvent e) {t : Waiters} (inv : Inv t) (i : ℕ) where
  open inv use {known, told}

  dropped :
      {l' : Listeners} (p : WaiterPc)
      → e.discard i t.listeners l'
      → registered p ≡ false
      → (j : ℕ) → present (l' j) ≡ registered (update t.pcs i p j)
  dropped {l'} p d out j = elim (ℕ_discrete i j) [
    | yes same ↦ rw (← same, ==_self i, law.discard_gone i t.listeners l' d) (sym out)
    | no apart ↦ rw (==_ne i j apart) (law.discard_present i t.listeners l' d j apart ∙ known j)
  ]

  move-known :
      {p p' : WaiterPc} {c : Words} {l : Listeners}
      → WaiterMove e i t.words t.listeners p c l p'
      → t.pcs i ≡ p
      → (j : ℕ) → present (l j) ≡ registered (update t.pcs i p' j)
  move-known (Waiting.first_hit got d) here j = dropped _ d refl j
  move-known (Waiting.expire d) here j = dropped _ d refl j
  move-known (Waiting.tell n) here j =
      law.notify_present usize_max t.listeners _ n j ∙ ground (arith, known j)
  move-known mv here j = ground (arith, known j)

  move-word :
      {p p' : WaiterPc} {c : Words} {l : Listeners}
      → WaiterMove e i t.words t.listeners p c l p'
      → c.read_counter ≤ usize_max
  move-word (Waiting.enter few) = omega arith
  move-word (Waiting.leave h) = omega arith
  move-word mv = ground (arith, inv.word)

  -- What a step leaves of a thread's having been told
  carried :
      {p : WaiterPc} (p' : WaiterPc) (l : Listeners) (k : ℕ)
      → t.pcs i ≡ p
      → p ≢ Waiting.telling
      → (t.listeners k ≡ notified → l k ≡ notified)
      → (t.listeners k ≡ notified) ⊎ ((j : ℕ) × (t.pcs j ≡ Waiting.telling))
      → (l k ≡ notified) ⊎ ((j : ℕ) × (update t.pcs i p' j ≡ Waiting.telling))
  carried p' l k here calm keeps (inl old) = inl (keeps old)
  carried p' l k here calm keeps (inr (j, tells)) = inr (
    j,
    elim (ℕ_discrete i j) [
      | yes same ↦ absurd (calm (sym here ∙ ap t.pcs same ∙ tells))
      | no apart ↦ rw (==_ne i j apart) tells
    ],
  )

  -- Another thread sleeps.
  other :
      (p' : WaiterPc) (k : ℕ) {a : Awaited}
      → ((b : Awaited) → p' ≢ Waiting.sleeping b)
      → update t.pcs i p' k ≡ Waiting.sleeping a
      → (i ≢ k) × (t.pcs k ≡ Waiting.sleeping a)
  other p' k {a} awake asleep = elim (ℕ_discrete i k) [
    | yes same ↦ absurd (awake a (rw (same, ==_self k) at asleep))
    | no apart ↦ (apart, rw (==_ne i k apart) at asleep)
  ]

  by_other :
      {p : WaiterPc} (p' : WaiterPc) (l : Listeners) (k : ℕ) (a : Awaited)
      → t.pcs i ≡ p
      → p ≢ Waiting.telling
      → ((b : Awaited) → p' ≢ Waiting.sleeping b)
      → (i ≢ k → t.listeners k ≡ notified → l k ≡ notified)
      → holds t.words a ≡ true
      → update t.pcs i p' k ≡ Waiting.sleeping a
      → (l k ≡ notified) ⊎ ((j : ℕ) × (update t.pcs i p' j ≡ Waiting.telling))
  by_other p' l k a here calm awake keeps there asleep =
      let (apart, sleeps) = other p' k awake asleep in
      carried p' l k here calm (keeps apart) (told k a sleeps there)

  -- What holds after a reader that is not the last one has moved held before.
  held_before :
      (n : ℕ) (a : Awaited)
      → n ≢ 0
      → holds (record t.words { read_counter = n }) a ≡ true
      → holds t.words a ≡ true
  held_before n Waiting.drained busy there = absurd (busy (ground arith))
  held_before n (Waiting.published id) busy there = there

  move-told :
      {p p' : WaiterPc} {c : Words} {l : Listeners}
      → WaiterMove e i t.words t.listeners p c l p'
      → t.pcs i ≡ p
      → (k : ℕ) (a : Awaited) → update t.pcs i p' k ≡ Waiting.sleeping a
      → holds c a ≡ true
      → (l k ≡ notified) ⊎ ((j : ℕ) × (update t.pcs i p' j ≡ Waiting.telling))
  move-told (Waiting.leave_last one) here k a asleep there = inr (i, update_self t.pcs i _)
  move-told Waiting.publish here k a asleep there = inr (i, update_self t.pcs i _)
  move-told (Waiting.tell n) here k a asleep there =
      let (apart, sleeps) = other Waiting.idle k (λ b x. cc) asleep in
      inl (law.notify_every t.listeners _ k n (known k ∙ ap registered sleeps))
  move-told (Waiting.enter few) here k a asleep there =
      by_other _ t.listeners k a here (λ x. cc) (λ b x. cc) (λ apart x. x)
        (held_before (wrapping_add t.words.read_counter 1) a (λ x. omega arith) there) asleep
  move-told (Waiting.leave more) here k a asleep there =
      by_other _ t.listeners k a here (λ x. cc) (λ b x. cc) (λ apart x. x)
        (held_before (wrapping_sub t.words.read_counter 1) a (λ x. omega (arith, inv.word)) there)
        asleep
  move-told (Waiting.listen) here k a asleep there =
      by_other _ (update t.listeners i armed) k a here (λ x. cc) (λ b x. cc)
        (λ apart x. rw (==_ne i k apart) x) there asleep
  move-told (Waiting.wake w) here k a asleep there =
      by_other _ (update t.listeners i absent) k a here (λ x. cc) (λ b x. cc)
        (λ apart x. rw (==_ne i k apart) x) there asleep
  move-told (Waiting.first_hit {l' = m} got d) here k a asleep there =
      by_other _ m k a here (λ x. cc) (λ b x. cc) (law.discard_keeps i t.listeners m d k) there
        asleep
  move-told (Waiting.expire {l' = m} d) here k a asleep there =
      by_other _ m k a here (λ x. cc) (λ b x. cc) (law.discard_keeps i t.listeners m d k) there
        asleep
  move-told (Waiting.first_miss {a = b} miss) here k a asleep there = elim (ℕ_discrete i k) [
    | yes same ↦
        let it : Waiting.sleeping b ≡ Waiting.sleeping a = rw (same, ==_self k) at asleep in
        absurd (cc (it, miss, there))
    | no apart ↦
        carried _ t.listeners k here (λ x. cc) (λ x. x)
          (told k a (rw (==_ne i k apart) at asleep) there)
  ]
  move-told mv here k a asleep there =
      by_other _ t.listeners k a here (λ x. cc) (λ b x. cc) (λ apart x. x) there asleep

move-Inv :
    {e : Event} {t : Waiters} (law : IsEvent e) (inv : Inv t) (i : ℕ) {c : Words} {l : Listeners}
    {p : WaiterPc}
    → WaiterMove e i t.words t.listeners (t.pcs i) c l p
    → Inv (record { words = c; listeners = l; pcs = update t.pcs i p })
move-Inv law inv i mv = record {
  known = move-known law inv i mv refl;
  word = move-word law inv i mv;
  told = move-told law inv i mv refl;
}

polled-Inv :
    {e : Event} {t : Waiters} (law : IsEvent e) (inv : Inv t) (i : ℕ) (a : Awaited)
    → t.pcs i ≡ Waiting.sleeping a
    → Inv (record t { pcs = update t.pcs i (Waiting.looking a) })
polled-Inv {t = t} law inv i a here = record {
  known = λ j. ground (arith, inv.known j);
  word = inv.word;
  told = λ k b asleep there.
      by_other law inv i _ t.listeners k b here (λ x. cc) (λ c x. cc) (λ apart x. x) there asleep;
}

pub WaiterRun-Inv :
    {e : Event} {c : Words} {t : Waiters}
    → IsEvent e
    → c.read_counter ≤ usize_max
    → WaiterRun e (quiet c) t
    → Inv t
WaiterRun-Inv law word stay = record {
  known = λ i. refl;
  word = word;
  told = λ i a asleep there. cc;
}
WaiterRun-Inv law word (later r i mv) = move-Inv law (WaiterRun-Inv law word r) i mv
WaiterRun-Inv law word (polled r i a here) = polled-Inv law (WaiterRun-Inv law word r) i a here
