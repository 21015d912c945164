-- ===== src/WaitStrategy/Lawful.antt =====
-- src/wait_strategy/mod.rs: what `Wait` and `Take` promise to the code that waits, and that each of
-- the strategies keeps it.
use nexusq.Base.{
  ℕ, zero, suc, ◌+◌, ◌≤◌, ◌<◌, ◌≡◌, refl, arith, Option, none, Option-cases, Result, Poll, ◌⊎◌, inl,
  inr,
}
use nexusq.WaitStrategy.{WaitError, try_take}
use nexusq.WaitStrategy.Moments.{Moments, checked, attempted}
use nexusq.WaitStrategy.Block
use nexusq.WaitStrategy.Hybrid
use nexusq.WaitStrategy.Hybrid.{HybridWait}
use nexusq.WaitStrategy.Backoff
use nexusq.WaitStrategy.Ends.{
  IsFoundFrom, IsNotified, IsFound, spin-cases, block-IsFound, hybrid-IsFound,
}
use nexusq.WaitStrategy.Deadlines.{
  IsTimely, IsTimelyBy-IsTimely, IsTimer, snooze_until-IsTimely, block_until-IsTimely,
  hybrid_until-IsTimely,
}
use nexusq.WaitStrategy.Polls.{IsPolled, IsQuiet, block_poll-IsPolled}
use nexusq.WaitStrategy.Traits.{
  Wait, Take, Strategy, block_strategy, hybrid_wait, backoff_wait, wait_of, take_of,
}

-- A wait for what `attempt` finds, a wait with a deadline and a poll.
pub record IsLawful {ℓ} {B : Type ℓ} (m : Moments) (attempt : ℕ → Option B)
    (forever : (rounds now : ℕ) → Option (B × ℕ))
    (until : (deadline rounds now : ℕ) → Option (Result (B × ℕ) WaitError))
    (poll : (rounds now : ℕ) → Option ℕ → Option (Poll B × Option ℕ × ℕ)) : Type ℓ where
  -- What it returns is what it found in its last look.
  pub honest : (rounds now : ℕ) → (forever rounds now ≡ none) ⊎ IsFound attempt (forever rounds now)
  -- It ends after the notification that follows a change for good.
  pub ends :
      (s n now : ℕ)
      → s ≤ n
      → IsFoundFrom attempt s
      → IsNotified m n
      → IsFound attempt (forever (suc s) now)
  -- With a deadline it ends, not before it, or with what it found.
  pub timely :
      (deadline d n now : ℕ)
      → ((t : ℕ) → d ≤ t → deadline ≤ m.clock t)
      → IsTimer m deadline n
      → IsTimely m attempt deadline (until deadline (suc (n + d)) now)
  -- A poll does not miss a notification.
  pub polled :
      (n now : ℕ) (event_listener : Option ℕ)
      → IsQuiet m n
      → Block.get_or_insert (now + 1) event_listener < now + 2
      → IsPolled m attempt (poll (suc n) now event_listener)

abbrev pub IsWait : Wait → Type 0
IsWait w =
    (m : Moments) (expected : ℕ)
    → IsLawful m (checked m expected) (w.wait_for m expected) (w.wait_until m expected)
        (w.poll m expected)

abbrev pub IsTake : Take → Type 0
IsTake t =
    ((word : ℕ) → t.try_take word ≡ try_take word)
    × ((m : Moments) → IsLawful m (attempted m) (t.take m) (t.take_before m) (t.poll m))

module _ {ℓ} {B : Type ℓ} (m : Moments) (attempt : ℕ → Option B) where
  block-honest :
      (rounds now : ℕ)
      → (Block.block m attempt rounds now ≡ none)
        ⊎ IsFound attempt (Block.block m attempt rounds now)
  unfolding Block.block
  block-honest zero now = inl refl
  block-honest (suc rounds) now = elim (Option-cases (attempt (now + 1))) [
    | inr (v, e) ↦ inr (v, now + 1, rw (e, Block.block), e)
    | inl e ↦ elim (Option-cases (m.wait now (now + 2))) [
      | inl w ↦ inl (rw (e, w, Block.block))
      | inr (woken, w) ↦ elim (Option-cases (attempt woken)) [
        | inr (v, e') ↦ inr (v, woken, rw (e, w, e', Block.block), e')
        | inl e' ↦ rw (e, w, e', Block.block) (block-honest rounds (woken + 1))
      ]
    ]
  ]

  hybrid-honest :
      (h : HybridWait) (rounds now : ℕ)
      → (Hybrid.hybrid m attempt h rounds now ≡ none)
        ⊎ IsFound attempt (Hybrid.hybrid m attempt h rounds now)
  unfolding Hybrid.hybrid
  hybrid-honest h rounds now = elim (spin-cases m attempt h.num_spin now) [
    | inl (v, t, e, f) ↦ inr (v, t, rw (e, Hybrid.hybrid), f)
    | inr (spun, e) ↦ elim (spin-cases m attempt h.num_yield spun) [
      | inl (v, t, e', f) ↦ inr (v, t, rw (e, e', Hybrid.hybrid), f)
      | inr (yielded, e') ↦ elim (Option-cases (attempt yielded)) [
        | inr (v, f) ↦ inr (v, yielded, rw (e, e', f, Hybrid.hybrid), f)
        | inl missing ↦ rw (e, e', missing, Hybrid.hybrid) (block-honest rounds (yielded + 1))
      ]
    ]
  ]

  snooze-honest :
      (rounds now : ℕ)
      → (Backoff.snooze m attempt rounds now ≡ none)
        ⊎ IsFound attempt (Backoff.snooze m attempt rounds now)
  unfolding Backoff.snooze
  snooze-honest zero now = inl refl
  snooze-honest (suc rounds) now = elim (Option-cases (attempt now)) [
    | inr (v, e) ↦ inr (v, now, rw (e, Backoff.snooze), e)
    | inl e ↦ rw (e, Backoff.snooze) (snooze-honest rounds (now + 1))
  ]

  snooze-IsFound :
      (s rounds now : ℕ)
      → IsFoundFrom attempt s
      → s ≤ now + rounds
      → IsFound attempt (Backoff.snooze m attempt (suc rounds) now)
  unfolding Backoff.snooze
  snooze-IsFound s zero now found near =
      let (v, e) = found now (omega arith) in (v, now, rw (e, Backoff.snooze), e)
  snooze-IsFound s (suc rounds) now found near = elim (Option-cases (attempt now)) [
    | inr (v, e) ↦ (v, now, rw (e, Backoff.snooze), e)
    | inl e ↦ rw (e, Backoff.snooze) (snooze-IsFound s rounds (now + 1) found (omega arith))
  ]

  later-IsTimer : {deadline n : ℕ} (d : ℕ) → IsTimer m deadline n → IsTimer m deadline (n + d)
  later-IsTimer d timer = record {
    forward = timer.forward;
    expired = timer.expired;
    prompt = timer.prompt;
    quiet = λ armed since h. timer.quiet armed since (omega arith);
  }

  block-IsLawful :
      IsLawful m attempt
        (Block.block m attempt)
        (Block.block_until m attempt)
        (Block.block_poll m attempt)
  block-IsLawful = record {
    honest = block-honest;
    ends = λ s n now later found notified.
        block-IsFound m attempt found later notified s now (omega arith);
    timely = λ deadline d n now reached timer.
        let late : ℕ = now + n + d in
        IsTimelyBy-IsTimely m attempt deadline (late + 4) (
          block_until-IsTimely m attempt deadline late (λ t h. reached t (omega arith)) timer
            (omega arith) (n + d) now (omega arith) (omega arith));
    polled = λ n now event_listener quiet before.
        block_poll-IsPolled m attempt quiet now event_listener before;
  }

  hybrid-IsLawful :
      (h : HybridWait)
      → IsLawful m attempt
          (Hybrid.hybrid m attempt h)
          (Hybrid.hybrid_until m attempt h)
          (Block.block_poll m attempt)
  hybrid-IsLawful h = record {
    honest = hybrid-honest h;
    ends = λ s n now later found notified. hybrid-IsFound m attempt found later notified h now;
    timely = λ deadline d n now reached timer.
        let late : ℕ = now + n + d in
        IsTimelyBy-IsTimely m attempt deadline (late + 4) (
          hybrid_until-IsTimely m attempt deadline late (λ t h. reached t (omega arith))
            (later-IsTimer d timer) (omega arith) h now (omega arith));
    polled = block-IsLawful.polled;
  }

  snooze-IsLawful :
      IsLawful m attempt
        (Backoff.snooze m attempt)
        (Backoff.snooze_until m attempt)
        (Block.block_poll m attempt)
  snooze-IsLawful = record {
    honest = snooze-honest;
    ends = λ s n now later found notified. snooze-IsFound s s now found (omega arith);
    timely = λ deadline d n now reached timer.
        snooze_until-IsTimely m attempt deadline d reached (n + d) now (omega arith);
    polled = block-IsLawful.polled;
  }

-- Each of the three strategies, as a `Wait` and as a `Take`: what a wait returns is what its last
-- look found; it returns after a notification that follows a change for good; with a deadline it
-- returns what it found, or `Timeout` after a look that found nothing and with the clock at the
-- deadline; and a poll is ready with what it found or leaves a guard armed before a look that found
-- nothing.
pub strategy-IsLawful : (s : Strategy) → IsWait (wait_of s) × IsTake (take_of s)
unfolding wait_of take_of Block.wait_for Block.wait_until Block.poll_wait Block.take
    Block.take_before Block.poll_take Hybrid.wait_for Hybrid.wait_until Hybrid.poll_wait Hybrid.take
    Hybrid.take_before Hybrid.poll_take Backoff.wait_for Backoff.wait_until Backoff.poll_wait
    Backoff.take Backoff.take_before Backoff.poll_take
strategy-IsLawful block_strategy = (
  λ m expected. block-IsLawful m (checked m expected),
  (λ word. refl, λ m. block-IsLawful m (attempted m)),
)
strategy-IsLawful (hybrid_wait h) = (
  λ m expected. hybrid-IsLawful m (checked m expected) h,
  (λ word. refl, λ m. hybrid-IsLawful m (attempted m) h),
)
strategy-IsLawful backoff_wait = (
  λ m expected. snooze-IsLawful m (checked m expected),
  (λ word. refl, λ m. snooze-IsLawful m (attempted m)),
)
