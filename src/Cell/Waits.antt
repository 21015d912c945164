-- ===== src/Cell/Waits.antt =====
-- src/cell.rs: the waits of a cell over its wait strategy, any that keeps the promises of `Wait`.
-- Between two moments other threads may change the cell; each wait amounts to a look at the cell
-- when it begins and one at the moment it ends, as `Cell` has it.
use nexusq.Base.{
  ℕ, suc, ◌+◌, ◌≤◌, ◌<◌, ◌≡◌, ◌≢◌, ◌∙◌, sym, arith, Bool, true, false, Option, none, some,
  none-ne-some, Result, ok, err, ◌⊎◌, inl, inr, ℕ_discrete, ==_self, ==_ne, if◌then◌else◌,
}
use nexusq.WaitStrategy.{WaitError, timeout, check}
use nexusq.WaitStrategy.Moments.{Moments, checked}
use nexusq.WaitStrategy.Ends.{IsFoundFrom, IsNotified, checked_hit, checked_only}
use nexusq.WaitStrategy.Deadlines.{IsTimer}
use nexusq.WaitStrategy.Traits.{Wait}
use nexusq.WaitStrategy.Lawful.{IsWait}
use nexusq.Cell
use nexusq.Cell.{Cell}

-- The waits, with the moment of the return. `m` is the word that is waited for.
unfoldable pub safe_by : Wait → Moments → (rounds now : ℕ) → Option (Bool × ℕ)
safe_by w m rounds now =
    if check (m.word now) 0
    then some (true, now)
    else elim (w.wait_for m 0 rounds (now + 1)) [ none ↦ none | some (_, t) ↦ some (false, t) ]

unfoldable pub safe_before_by :
    Wait → Moments → (deadline rounds now : ℕ) → Option (Result (Bool × ℕ) WaitError)
safe_before_by w m deadline rounds now =
    if check (m.word now) 0
    then some (ok (true, now))
    else elim (w.wait_until m 0 deadline rounds (now + 1)) [
      | none ↦ none
      | some (err e) ↦ some (err e)
      | some (ok (_, t)) ↦ some (ok (false, t))
    ]

-- A look that finds nothing
checked_miss : (m : Moments) (expected t : ℕ) → checked m expected t ≡ none → m.word t ≢ expected
checked_miss m expected t e h = none-ne-some _ (sym e ∙ checked_hit m expected t h)

module _ {ℓ} {A : Type ℓ} {w : Wait} (lawful : IsWait w) (m : Moments) (cell : ℕ → Cell A) where
  -- A wait for the readers of a cell to leave, by any strategy that keeps the promises of `Wait`:
  -- when the cell has no readers from moment `s` on and a notification follows, it returns within
  -- `s + 1` rounds; and it returns what a look at the cell then and a look at the cell at the
  -- moment of the return give, which is whether the cell was free at once.
  pub safe_by_refines :
      (s n now : ℕ)
      → ((t : ℕ) → m.word t ≡ (cell t).read_counter)
      → s ≤ n
      → ((t : ℕ) → s ≤ t → (cell t).read_counter ≡ 0)
      → IsNotified m n
      → (free : Bool) × (t : ℕ) × (safe_by w m (suc s) now ≡ some (free, t))
        × (Cell.wait_for_write_safe (cell now) (cell t) ≡ some free)
  unfolding safe_by Cell.wait_for_write_safe
  safe_by_refines s n now same later empty notified = elim (ℕ_discrete (m.word now) 0) [
    | yes free ↦ (true, now, rw (free), rw (← same now, free, ==_self 0))
    | no busy ↦
        let found : IsFoundFrom (checked m 0) s =
          λ t after. (tt, checked_hit m 0 t (same t ∙ empty t after)) in
        let (v, t, e, f) = (lawful m 0).ends s n (now + 1) later found notified in
        let left = sym (same t) ∙ checked_only m 0 t f in
        (
          false,
          t,
          rw (==_ne (m.word now) 0 busy, e),
          rw (← same now, ==_ne (m.word now) 0 busy, left),
        )
  ]

  -- The same wait with a deadline, when the clock is at the deadline from moment `d` on and the
  -- timer gives no notification after moment `n`: it returns within `n + d + 1` rounds. It tells
  -- whether the cell was free at once, as looks at the cell at the beginning and at the moment of
  -- the return do; or it times out, after a look that found readers and with the clock at the
  -- deadline later.
  pub safe_before_by_refines :
      (deadline d n now : ℕ)
      → ((t : ℕ) → m.word t ≡ (cell t).read_counter)
      → ((t : ℕ) → d ≤ t → deadline ≤ m.clock t)
      → IsTimer m deadline n
      → ((free : Bool) × (t : ℕ) × (safe_before_by w m deadline (suc (n + d)) now
            ≡ some (ok (free, t)))
          × (Cell.wait_for_write_safe_before (cell now) (cell t) ≡ ok free))
        ⊎ ((t : ℕ) × (u : ℕ) × (safe_before_by w m deadline (suc (n + d)) now ≡ some (err timeout))
            × (Cell.wait_for_write_safe_before (cell now) (cell t) ≡ err timeout)
            × (t < u)
            × (deadline ≤ m.clock u))
  unfolding safe_before_by Cell.wait_for_write_safe_before
  safe_before_by_refines deadline d n now same reached timer = elim (ℕ_discrete (m.word now) 0) [
    | yes free ↦ inl (true, now, rw free, rw (← same now, free))
    | no busy ↦
        let used = ==_ne (m.word now) 0 busy in
        elim ((lawful m 0).timely deadline d n (now + 1) reached timer) [
          | inl (v, t, e, f) ↦
              let left = sym (same t) ∙ checked_only m 0 t f in
              inl (false, t, rw (used, e), rw (← same now, used, left))
          | inr (t, u, e, f, before, due) ↦
              let there = ==_ne (m.word t) 0 (checked_miss m 0 t f) in
              inr (t, u, rw (used, e), rw (← same now, used, ← same t, there), before, due)
        ]
  ]

  -- A wait for an id by any strategy that keeps the promises of `Wait`, when the id stands in the
  -- cell from moment `s` on and a notification follows: it returns within `s + 1` rounds, and so
  -- does the wait that looks at the cell when it begins and at the moment of the return.
  pub published_by_refines :
      (expected s n now : ℕ)
      → ((t : ℕ) → m.word t ≡ (cell t).current_id)
      → s ≤ n
      → ((t : ℕ) → s ≤ t → (cell t).current_id ≡ expected)
      → IsNotified m n
      → (t : ℕ) × (w.wait_for m expected (suc s) now ≡ some (tt, t))
        × (Cell.wait_for_published (cell now) (cell t) expected ≡ some tt)
  unfolding Cell.wait_for_published
  published_by_refines expected s n now same later there notified =
      let found : IsFoundFrom (checked m expected) s =
        λ t after. (tt, checked_hit m expected t (same t ∙ there t after)) in
      let (v, t, e, f) = (lawful m expected).ends s n now later found notified in
      let last = sym (same t) ∙ checked_only m expected t f in
      (t, e, rw (last, ==_self expected) (ground arith))

  -- The same wait with a deadline, when the clock is at the deadline from moment `d` on and the
  -- timer gives no notification after moment `n`: it returns within `n + d + 1` rounds. The id
  -- stands in the cell at the moment of the return; or the wait times out, after a look that did
  -- not find the id and with the clock at the deadline later.
  pub published_until_by_refines :
      (expected deadline d n now : ℕ)
      → ((t : ℕ) → m.word t ≡ (cell t).current_id)
      → ((t : ℕ) → d ≤ t → deadline ≤ m.clock t)
      → IsTimer m deadline n
      → ((t : ℕ) × (w.wait_until m expected deadline (suc (n + d)) now ≡ some (ok (tt, t)))
          × (Cell.wait_for_published_until (cell t) (cell t) expected ≡ ok tt))
        ⊎ ((t : ℕ) × (u : ℕ) × (w.wait_until m expected deadline (suc (n + d)) now
              ≡ some (err timeout))
            × (Cell.wait_for_published_until (cell t) (cell t) expected ≡ err timeout)
            × (t < u)
            × (deadline ≤ m.clock u))
  unfolding Cell.wait_for_published_until
  published_until_by_refines expected deadline d n now same reached timer =
      elim ((lawful m expected).timely deadline d n now reached timer) [
        | inl (v, t, e, f) ↦
            inl (t, e, rw (sym (same t) ∙ checked_only m expected t f, ==_self expected))
        | inr (t, u, e, f, before, due) ↦
            let missing = ==_ne (m.word t) expected (checked_miss m expected t f) in
            inr (t, u, e, rw (← same t, missing), before, due)
      ]
