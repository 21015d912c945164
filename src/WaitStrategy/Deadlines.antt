-- ===== src/WaitStrategy/Deadlines.antt =====
-- src/wait_strategy/: the waits with a deadline end, and end in time.
use nexusq.Base.{
  ℕ, zero, suc, ◌+◌, ◌≤◌, ◌<◌, ◌≡◌, ◌⊎◌, inl, inr, refl, true, false, Bool-cases, Option, none,
  some, Option-cases, Result, ok, err, le_or_later, leb_of_le, leb_of_lt, arith,
}
use nexusq.WaitStrategy.{WaitError, timeout}
use nexusq.WaitStrategy.Moments.{Moments}
use nexusq.WaitStrategy.Block
use nexusq.WaitStrategy.Hybrid
use nexusq.WaitStrategy.Hybrid.{HybridWait}
use nexusq.WaitStrategy.Backoff

-- A wait that has ended, well: with what its last look found, or, after a look that found nothing,
-- because the clock had come to the deadline.
abbrev pub IsTimely {ℓ} :
    {B : Type ℓ}
    → Moments
    → (ℕ → Option B)
    → (deadline : ℕ) → Option (Result (B × ℕ) WaitError)
    → Type ℓ
IsTimely {B = B} m attempt deadline result =
    ((v : B) × (t : ℕ) × (result ≡ some (ok (v, t))) × (attempt t ≡ some v))
    ⊎ ((t : ℕ) × (u : ℕ) × (result ≡ some (err timeout))
        × (attempt t ≡ none)
        × (t < u)
        × (deadline ≤ m.clock u))

-- The same, with the moment of the end bounded.
abbrev pub IsTimelyBy {ℓ} :
    {B : Type ℓ}
    → Moments
    → (ℕ → Option B)
    → (deadline limit : ℕ) → Option (Result (B × ℕ) WaitError)
    → Type ℓ
IsTimelyBy {B = B} m attempt deadline limit result =
    ((v : B) × (t : ℕ) × (result ≡ some (ok (v, t))) × (attempt t ≡ some v) × (t ≤ limit))
    ⊎ ((t : ℕ) × (u : ℕ) × (result ≡ some (err timeout))
        × (attempt t ≡ none)
        × (t < u)
        × (deadline ≤ m.clock u)
        × (u ≤ limit))

pub IsTimelyBy-IsTimely {ℓ} :
    {B : Type ℓ} (m : Moments) (attempt : ℕ → Option B) (deadline limit : ℕ)
    {result : Option (Result (B × ℕ) WaitError)}
    → IsTimelyBy m attempt deadline limit result
    → IsTimely m attempt deadline result
IsTimelyBy-IsTimely m attempt deadline limit (inl (v, t, e, found, by)) = inl (v, t, e, found)
IsTimelyBy-IsTimely m attempt deadline limit (inr (t, u, e, missing, after, due, by)) =
    inr (t, u, e, missing, after, due)

-- What `wait_deadline` does when no notification comes to a listener that was armed at moment `n`
-- or later: it takes no time back, says that it was not notified only after the deadline, and does not outlast
-- a moment at which the clock has come to the deadline.
pub record IsTimer (m : Moments) (deadline n : ℕ) : Type 0 where
  pub forward : (armed since : ℕ) → since ≤ (m.wait_deadline armed since deadline).1
  pub expired :
      (armed since : ℕ)
      → (m.wait_deadline armed since deadline).0 ≡ false
      → deadline ≤ m.clock (m.wait_deadline armed since deadline).1
  pub prompt :
      (armed since t : ℕ)
      → since ≤ t
      → deadline ≤ m.clock t
      → (m.wait_deadline armed since deadline).1 ≤ t
  pub quiet : (armed since : ℕ) → n ≤ armed → (m.wait_deadline armed since deadline).0 ≡ false

module _ {ℓ} {B : Type ℓ} (m : Moments) (attempt : ℕ → Option B) (deadline : ℕ) where
  -- With the clock at the deadline from moment `d` on, the timed waits of `BackoffWait` return
  -- once they have the rounds that lead past `d`: with what the last look found, or with
  -- `Timeout`, after a look that found nothing and a clock that had come to the deadline.
  pub snooze_until-IsTimely :
      (d : ℕ)
      → ((t : ℕ) → d ≤ t → deadline ≤ m.clock t)
      → (rounds now : ℕ) → d ≤ now + rounds + 1
      → IsTimely m attempt deadline (Backoff.snooze_until m attempt deadline (suc rounds) now)
  unfolding Backoff.snooze_until
  snooze_until-IsTimely d reached zero now near = elim (Option-cases (attempt now)) [
    | inr (v, e) ↦ inl (v, now, rw (e, Backoff.snooze_until), e)
    | inl e ↦
        let due = reached (now + 1) (omega arith) in
        inr (
          now,
          now + 1,
          rw (e, leb_of_le deadline _ due, Backoff.snooze_until),
          e,
          omega arith,
          due,
        )
  ]
  snooze_until-IsTimely d reached (suc rounds) now near = elim (Option-cases (attempt now)) [
    | inr (v, e) ↦ inl (v, now, rw (e, Backoff.snooze_until), e)
    | inl e ↦ elim (le_or_later deadline (m.clock (now + 1))) [
      | inl due ↦ inr (
        now,
        now + 1,
        rw (e, leb_of_le deadline _ due, Backoff.snooze_until),
        e,
        omega arith,
        due,
      )
      | inr early ↦
          rw (e, leb_of_lt deadline _ early, Backoff.snooze_until)
            (snooze_until-IsTimely d reached rounds (now + 2) (omega arith))
    ]
  ]

-- With the clock at the deadline from moment `late` on
module _ {ℓ} {B : Type ℓ} (m : Moments) (attempt : ℕ → Option B) (deadline late : ℕ)
    (reached : (t : ℕ) → late ≤ t → deadline ≤ m.clock t) where
  still_early : (t : ℕ) → m.clock t < deadline → t < late
  still_early t early = elim (le_or_later late t) [
    | inl past ↦ absurd (omega (arith, reached t past))
    | inr before ↦ before
  ]

  -- A spin loop with a deadline ends well, or after its last turn, which begins in time.
  spin_until-cases :
      (turns now : ℕ)
      → now ≤ late
      → ((r : Result (B × ℕ) WaitError) × (Hybrid.spin_until m attempt deadline turns now ≡ ok r)
          × IsTimelyBy m attempt deadline (late + 4) (some r))
        ⊎ ((t : ℕ) × (Hybrid.spin_until m attempt deadline turns now ≡ err t) × (t ≤ late))
  unfolding Hybrid.spin_until
  spin_until-cases zero now soon = inr (now, refl, soon)
  spin_until-cases (suc turns) now soon = elim (Option-cases (attempt now)) [
    | inr (v, e) ↦ inl (ok (v, now), rw (e, Hybrid.spin_until), inl (v, now, refl, e, omega arith))
    | inl e ↦ elim (le_or_later deadline (m.clock (now + 1))) [
      | inl due ↦ inl (
        err timeout,
        rw (e, leb_of_le deadline _ due, Hybrid.spin_until),
        inr (now, now + 1, refl, e, omega arith, due, omega arith),
      )
      | inr early ↦
          rw (e, leb_of_lt deadline _ early, Hybrid.spin_until)
            (spin_until-cases turns (now + 2) (omega (arith, still_early (now + 1) early)))
    ]
  ]

  module _ {n : ℕ} (timer : IsTimer m deadline n) (last : n ≤ late) where
    -- A wait that was not notified ended at the deadline.
    block_until_expired :
        (rounds now : ℕ)
        → now ≤ late + 2
        → attempt (now + 1) ≡ none
        → (m.wait_deadline now (now + 2) deadline).0 ≡ false
        → IsTimelyBy m attempt deadline
            (late + 4)
            (Block.block_until m attempt deadline (suc rounds) now)
    unfolding Block.block_until
    block_until_expired rounds now soon e w =
        let after = timer.forward now (now + 2) in
        inr (
          now + 1,
          (m.wait_deadline now (now + 2) deadline).1,
          rw (e, w, Block.block_until),
          e,
          omega arith,
          timer.expired now (now + 2) w,
          timer.prompt now (now + 2) (late + 4) (omega arith) (reached (late + 4) (omega arith)),
        )

    -- A wait that was notified began before the last notification.
    woken_early :
        (now : ℕ)
        → (m.wait_deadline now (now + 2) deadline).0 ≡ true
        → (m.wait_deadline now (now + 2) deadline).1 ≤ late + 1
    woken_early now w = elim (le_or_later n now) [
      | inl quiet ↦ cc (w, timer.quiet now (now + 2) quiet)
      | inr before ↦
          timer.prompt now (now + 2) (late + 1) (omega arith) (reached (late + 1) (omega arith))
    ]

    pub block_until-IsTimely :
        (rounds now : ℕ)
        → now ≤ late + 2
        → n ≤ now + rounds
        → IsTimelyBy m attempt deadline
            (late + 4)
            (Block.block_until m attempt deadline (suc rounds) now)
    unfolding Block.block_until
    block_until-IsTimely zero now soon near = elim (Option-cases (attempt (now + 1))) [
      | inr (v, e) ↦ inl (v, now + 1, rw (e, Block.block_until), e, omega arith)
      | inl e ↦ block_until_expired zero now soon e (timer.quiet now (now + 2) (omega arith))
    ]
    block_until-IsTimely (suc rounds) now soon near = elim (Option-cases (attempt (now + 1))) [
      | inr (v, e) ↦ inl (v, now + 1, rw (e, Block.block_until), e, omega arith)
      | inl e ↦ elim (Bool-cases (m.wait_deadline now (now + 2) deadline).0) [
        | inr w ↦ block_until_expired (suc rounds) now soon e w
        | inl w ↦
            let woken = (m.wait_deadline now (now + 2) deadline).1 in
            let after = timer.forward now (now + 2) in
            let early = woken_early now w in
            elim (Option-cases (attempt woken)) [
              | inr (v, e') ↦ inl (v, woken, rw (e, w, e', Block.block_until), e', omega arith)
              | inl e' ↦
                  rw (e, w, e', Block.block_until)
                    (block_until-IsTimely rounds (woken + 1) (omega arith) (omega arith))
            ]
      ]
    ]

    pub hybrid_until-IsTimely :
        (h : HybridWait) (now : ℕ)
        → now ≤ late
        → IsTimelyBy m attempt deadline
            (late + 4)
            (Hybrid.hybrid_until m attempt h deadline (suc n) now)
    unfolding Hybrid.hybrid_until
    hybrid_until-IsTimely h now soon = elim (spin_until-cases h.num_spin now soon) [
      | inl (r, e, timely) ↦ rw (e, Hybrid.hybrid_until) timely
      | inr (spun, e, soon') ↦ elim (spin_until-cases h.num_yield spun soon') [
        | inl (r, e', timely) ↦ rw (e, e', Hybrid.hybrid_until) timely
        | inr (yielded, e', early) ↦ elim (Option-cases (attempt yielded)) [
          | inr (v, f) ↦ inl (v, yielded, rw (e, e', f, Hybrid.hybrid_until), f, omega arith)
          | inl missing ↦
              rw (e, e', missing, Hybrid.hybrid_until)
                (block_until-IsTimely n (yielded + 1) (omega arith) (omega arith))
        ]
      ]
    ]
