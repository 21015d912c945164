-- ===== src/Tests/Wakeups.antt =====
-- An event that tells every listener, and two threads at it: the one sleeps while the other has the
-- token, and then the token comes back.
use nexusq.Base.{ℕ, ◌≡◌, ◌≢◌, ◌⊎◌, ◌∙◌, refl, arith, Bool, true, false, ==_ne, ◌==◌, if◌then◌else◌}
use nexusq.WaitStrategy.{try_take, restore}
use nexusq.Wakeups
use nexusq.Wakeups.{
  Listener, Listeners, absent, armed, notified, present, Event, IsEvent, Takers, Run, stay, later,
  begin, Step, moves, polled, stand,
}
use nexusq.Wakeups.Invariant.{stirs}
use nexusq.Wakeups.Progress.{waits, IsTakenBy, sleeper_served}
use nexusq.Wakeups.Waiting
use nexusq.Wakeups.Waiting.{Words, Waiters, WaiterRun, quiet}
use nexusq.Wakeups.Returns.{IsReturned, sleeper_returns}
use nexusq.Wakeups.Lost.{given_back, given_back_sleeps}

abbrev told : Listener → Listener
told absent = absent
told _ = notified

abbrev is_notified : Listener → Bool
is_notified notified = true
is_notified _ = false

abbrev without : ℕ → Listeners → Listeners
without i l j = if i == j then absent else if is_notified (l i) then told (l j) else l j

abbrev loud : Event
loud = record {
  notify = λ n l l'. (j : ℕ) → l' j ≡ told (l j);
  discard = λ i l l'. (j : ℕ) → l' j ≡ without i l j;
}

told_present : (l : Listener) → present (told l) ≡ present l
told_present absent = refl
told_present armed = refl
told_present notified = refl

told_notified : (l : Listener) → present l ≡ true → told l ≡ notified
told_notified absent e = cc
told_notified l e = ground arith

unnotified : (l : Listener) → l ≢ notified → is_notified l ≡ false
unnotified notified quiet = absurd (quiet refl)
unnotified l quiet = ground arith

loud-IsEvent : IsEvent loud
loud-IsEvent = record {
  notifies = λ n l. (λ j. told (l j), λ j. refl);
  notify_present = λ n l l' same j. rw (same j) (told_present (l j));
  notify_reaches = λ n l l' i same some_one there. (i, same i ∙ told_notified (l i) there);
  notify_every = λ l l' i same there. same i ∙ told_notified (l i) there;
  discards = λ i l. (without i l, λ j. refl);
  discard_gone = λ i l l' same. same i ∙ ground arith;
  discard_present =
      λ i l l' same j other. rw (same j, ==_ne i j other) (ground (arith, told_present (l j)));
  discard_keeps = λ i l l' same j other e. rw (same j, ==_ne i j other) (ground arith);
  discard_silent = λ i l l' same quiet j e. ground (arith, same j, unnotified (l i) quiet);
  discard_passes = λ i l l' k same e other there.
      (k, rw (same k, e, ==_ne i k other) (told_notified (l k) there));
}

-- Thread 1 takes the token; task 0 arms its listener, finds no token, and again none when it is
-- polled once more.
asleep : (gives : Bool) → (t : Takers) × Run loud gives begin t
unfolding try_take
asleep gives =
    let r1 = later stay (moves 1 (Wakeups.grab {id = 1} refl)) in
    let r2 = later r1 (moves 0 Wakeups.call) in
    let r3 = later r2 (moves 0 Wakeups.listen) in
    let r4 = later r3 (moves 0 (Wakeups.first_miss refl)) in
    let r5 = later r4 (polled 0 refl) in (_, later r5 (moves 0 (Wakeups.first_miss refl)))

-- Thread 1 has passed the token on and not yet notified.
passed : (t : Takers) × Run loud false begin t
unfolding asleep restore
passed = let (t, r) = asleep false in (_, later r (moves 1 Wakeups.pass))

sleeper_served_example : (k : ℕ) × (waits (passed.0.pcs k) ≡ true) × IsTakenBy loud false passed.0 k
unfolding passed asleep restore
sleeper_served_example = sleeper_served loud loud-IsEvent passed.1 (omega arith) 0 refl

nobody_stirs : (j : ℕ) → stirs ((asleep true).0.pcs j) ((asleep true).0.listeners j) ≡ false
unfolding asleep
nobody_stirs j = ground arith

given_back_sleeps_example :
    Step loud true (asleep true).0 (given_back (asleep true).0 1 1)
    × ((given_back (asleep true).0 1 1).word ≡ 1)
    × (((given_back (asleep true).0 1 1).pcs 0 ≡ Wakeups.sleeping)
        ⊎ ((given_back (asleep true).0 1 1).pcs 0 ≡ Wakeups.idle))
unfolding asleep
given_back_sleeps_example =
    given_back_sleeps loud loud-IsEvent (asleep true).1 1 0 1 refl refl nobody_stirs stand

-- A cell with one reader, for which task 0 waits, twice polled; thread 1, which is the reader, has
-- left it and not yet notified.
abbrev occupied : Words
occupied = record { read_counter = 1; current_id = 0 }

drained : (t : Waiters) × WaiterRun loud (quiet occupied) t
drained =
    let r1 = WaiterRun.later WaiterRun.stay 0 (Waiting.call {a = Waiting.drained}) in
    let r2 = WaiterRun.later r1 0 Waiting.listen in
    let r3 = WaiterRun.later r2 0 (Waiting.first_miss refl) in
    let r4 = WaiterRun.polled r3 0 Waiting.drained refl in
    let r5 = WaiterRun.later r4 0 (Waiting.first_miss refl) in
    (_, WaiterRun.later r5 1 (Waiting.leave_last refl))

sleeper_returns_example : IsReturned loud drained.0 0 Waiting.drained
unfolding drained
sleeper_returns_example =
    sleeper_returns loud loud-IsEvent (omega arith) drained.1 0 Waiting.drained refl refl
