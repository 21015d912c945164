-- ===== src/WaitStrategy/Polls.antt =====
-- src/wait_strategy/block.rs: the polls, on which the asynchronous calls stand and which the other
-- strategies share.
use nexusq.Base.{
  ℕ, zero, suc, ◌+◌, ◌≤◌, ◌<◌, ◌≡◌, ◌⊎◌, inl, inr, false, Bool-cases, Option, none, some,
  Option-cases, Poll, ready, pending, arith,
}
use nexusq.WaitStrategy.Moments.{Moments}
use nexusq.WaitStrategy.Block

-- A poll that has returned, well: with what its last look found, and no guard; or pending, with a
-- guard that was not notified, and that was armed before a look that found nothing.
abbrev pub IsPolled {ℓ} :
    {B : Type ℓ} → Moments → (ℕ → Option B) → Option (Poll B × Option ℕ × ℕ) → Type ℓ
IsPolled {B = B} m attempt result =
    ((v : B) × (t : ℕ) × (result ≡ some (ready v, none, t)) × (attempt t ≡ some v))
    ⊎ ((armed : ℕ) × (look : ℕ) × (t : ℕ) × (result ≡ some (pending, some armed, t))
        × (m.poll_event armed t ≡ false)
        × (armed < look)
        × (look < t)
        × (attempt look ≡ none))

-- No notification comes to a listener that was armed at moment `n` or later.
abbrev pub IsQuiet : Moments → ℕ → Type 0
IsQuiet m n = (armed now : ℕ) → n ≤ armed → m.poll_event armed now ≡ false

module _ {ℓ} {B : Type ℓ} (m : Moments) (attempt : ℕ → Option B) {n : ℕ} (quiet : IsQuiet m n) where
  -- A guard that was not notified is kept.
  poll_loop_pending :
      (rounds now armed : ℕ)
      → armed < now
      → attempt now ≡ none
      → m.poll_event armed (now + 1) ≡ false
      → IsPolled m attempt (Block.poll_loop m attempt (suc rounds) now armed)
  unfolding Block.poll_loop
  poll_loop_pending rounds now armed before e w =
      inr (armed, now, now + 1, rw (e, w, Block.poll_loop), w, before, omega arith, e)

  pub poll_loop-IsPolled :
      (rounds now armed : ℕ)
      → armed < now
      → n ≤ armed + rounds
      → IsPolled m attempt (Block.poll_loop m attempt (suc rounds) now armed)
  unfolding Block.poll_loop
  poll_loop-IsPolled zero now armed before near = elim (Option-cases (attempt now)) [
    | inr (v, e) ↦ inl (v, now, rw (e, Block.poll_loop), e)
    | inl e ↦ poll_loop_pending zero now armed before e (quiet armed (now + 1) (omega arith))
  ]
  poll_loop-IsPolled (suc rounds) now armed before near = elim (Option-cases (attempt now)) [
    | inr (v, e) ↦ inl (v, now, rw (e, Block.poll_loop), e)
    | inl e ↦ elim (Bool-cases (m.poll_event armed (now + 1))) [
      | inr w ↦ poll_loop_pending (suc rounds) now armed before e w
      | inl w ↦ elim (Option-cases (attempt (now + 2))) [
        | inr (v, e') ↦ inl (v, now + 2, rw (e, w, e', Block.poll_loop), e')
        | inl e' ↦
            rw (e, w, e', Block.poll_loop)
              (poll_loop-IsPolled rounds (now + 4) (now + 3) (omega arith) (omega arith))
      ]
    ]
  ]

  -- When no notification comes after moment `n`, a poll, with a guard that was armed earlier or
  -- with none, returns within `n + 1` rounds: ready, with what its last look found and no guard
  -- left, or pending, with a guard that was not notified and that was armed before a look that
  -- found nothing.
  pub block_poll-IsPolled :
      (now : ℕ) (event_listener : Option ℕ)
      → Block.get_or_insert (now + 1) event_listener < now + 2
      → IsPolled m attempt (Block.block_poll m attempt (suc n) now event_listener)
  unfolding Block.block_poll
  block_poll-IsPolled now event_listener before = elim (Option-cases (attempt now)) [
    | inr (v, e) ↦ inl (v, now, rw (e, Block.block_poll), e)
    | inl e ↦
        rw (e, Block.block_poll)
          (poll_loop-IsPolled n (now + 2) (Block.get_or_insert (now + 1) event_listener) before
            (omega arith))
  ]
