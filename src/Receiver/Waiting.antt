-- ===== src/Receiver/Waiting.antt =====
-- src/receiver.rs: `recv` and `try_recv_until`, which wait for the next message.
use nexusq.Base.{
  ℕ, ◌∙◌, refl, ap, ◌≤◌, ◌<◌, ◌≡◌, ◌≢◌, List, Option, none, some, ok, err, ◌⊎◌, inl, inr, length,
  get_elem?, ==_self, ==_ne, arith,
}
use nexusq.FastMod.{fast_mod}
use nexusq.WaitStrategy
use nexusq.Cell
use nexusq.Nexus.{NexusQ, index}
use nexusq.Receiver.{Receiver, timeout, try_recv_until, advance, awaited, recv}
use nexusq.Ring.{IsValid, position}
use nexusq.Receiver.Reading.{IsReceived, advance-IsReceived, published-unread, published-all_read}

-- The receives that wait: `others q` is the state at the last look, in which the same receiver is
-- the `k`-th of those alive.
module _ {ℓ} {A : Type ℓ} {q : NexusQ A} {rs rs' : List Receiver} {log log' : List A}
    (v : IsValid q rs log) (others : NexusQ A → NexusQ A) (w : IsValid (others q) rs' log')
    (same_ring : (others q).len ≡ q.len) (k : ℕ) (r : Receiver) (alive : get_elem? rs k ≡ some r)
    (still_alive : get_elem? rs' k ≡ some r) where
  seen_now : position r < length log → awaited others r q ≡ q
  unfolding awaited
  seen_now unread = rw (published-unread v k r alive unread, ==_self r.cursor)

  seen_later : length log ≤ position r → awaited others r q ≡ others q
  unfolding awaited
  seen_later read =
      rw (
        ==_ne (q.cells (index q r.cursor)).current_id r.cursor
          (published-all_read v k r alive read))

  later_index : index (others q) r.cursor ≡ index q r.cursor
  later_index = ap (fast_mod r.cursor) same_ring

  later_unread :
      position r < length log' → ((others q).cells (index q r.cursor)).current_id ≡ r.cursor
  later_unread unread = rw later_index at (published-unread w k r still_alive unread)

  later_all_read :
      length log' ≤ position r → ((others q).cells (index q r.cursor)).current_id ≢ r.cursor
  later_all_read read = rw later_index at (published-all_read w k r still_alive read)

  -- The wait for the message, and its end.
  abbrev wait_result : Option (Unit {0})
  wait_result =
      Cell.wait_for_published (q.cells (index q r.cursor)) ((others q).cells (index q r.cursor))
        r.cursor

  wait_ends : (position r < length log) ⊎ (position r < length log') → wait_result ≡ some tt
  unfolding Cell.wait_for_published
  wait_ends (inl unread) = rw (published-unread v k r alive unread, ==_self r.cursor)
  wait_ends (inr unread) = ground (arith, later_unread unread)

  wait_goes_on : length log ≤ position r → length log' ≤ position r → wait_result ≡ none
  unfolding Cell.wait_for_published
  wait_goes_on read read' = rw (
    ==_ne (q.cells (index q r.cursor)).current_id r.cursor (published-all_read v k r alive read),
    ==_ne ((others q).cells (index q r.cursor)).current_id r.cursor (later_all_read read'),
  )

  recv-returns :
      (position r < length log) ⊎ (position r < length log')
      → recv others r q ≡ some (advance r (awaited others r q))
  unfolding recv
  recv-returns h = rw (wait_ends h, recv)

  -- `recv` with a message at hand takes the next one of the log at once, and leaves a valid state.
  pub recv_now :
      position r < length log
      → (message : A) × (get_elem? log (position r) ≡ some message)
        × (result : Option A × Receiver × NexusQ A) × (recv others r q ≡ some result)
        × IsReceived v k r alive message result
  recv_now unread =
      let (message, there, done) = advance-IsReceived v k r alive unread in
      (
        message,
        there,
        advance r q,
        recv-returns (inl unread) ∙ ap some (ap (advance r) (seen_now unread)),
        done,
      )

  -- `recv` that has read the whole log takes the next message as soon as the other threads have
  -- sent it, in the state that they have made by then.
  pub recv_later :
      length log ≤ position r
      → position r < length log'
      → (message : A) × (get_elem? log' (position r) ≡ some message)
        × (result : Option A × Receiver × NexusQ A) × (recv others r q ≡ some result)
        × IsReceived w k r still_alive message result
  recv_later read unread =
      let (message, there, done) = advance-IsReceived w k r still_alive unread in
      (
        message,
        there,
        advance r (others q),
        recv-returns (inr unread) ∙ ap some (ap (advance r) (seen_later read)),
        done,
      )

  -- `recv` goes on waiting exactly as long as the log has no unread message: it has not returned
  -- when the others have sent none by its last look.
  pub recv_waits : length log ≤ position r → length log' ≤ position r → recv others r q ≡ none
  unfolding recv
  recv_waits read read' = rw (wait_goes_on read read', recv)

  until_now :
      (position r < length log) ⊎ (position r < length log')
      → Cell.wait_for_published_until
          (q.cells (index q r.cursor))
          ((others q).cells (index q r.cursor))
          r.cursor
        ≡ ok tt
  unfolding Cell.wait_for_published_until
  until_now (inl unread) = rw (published-unread v k r alive unread, ==_self r.cursor)
  until_now (inr unread) = ground (arith, later_unread unread)

  -- `try_recv_until` that has read the whole log when its deadline comes times out, and its
  -- receiver stays where it is.
  pub try_recv_until_timeout :
      length log ≤ position r
      → length log' ≤ position r
      → try_recv_until others r q ≡ (err timeout, r, others q)
  unfolding try_recv_until
  try_recv_until_timeout read read' = rw (fails, try_recv_until)
    where
      fails :
          Cell.wait_for_published_until
            (q.cells (index q r.cursor))
            ((others q).cells (index q r.cursor))
            r.cursor
          ≡ err WaitStrategy.timeout
      fails =
          unfold Cell.wait_for_published_until in
          rw (
            ==_ne (q.cells (index q r.cursor)).current_id r.cursor
                (published-all_read v k r alive read),
            ==_ne ((others q).cells (index q r.cursor)).current_id r.cursor (later_all_read read'),
          )

  -- `try_recv_until` in time takes the message that has come by its last look.
  pub try_recv_until_later :
      length log ≤ position r
      → position r < length log'
      → (message : A) × (get_elem? log' (position r) ≡ some message)
        × ((try_recv_until others r q).0 ≡ ok (some message))
        × IsReceived w k r still_alive message
            (some message, (try_recv_until others r q).1, (try_recv_until others r q).2)
  try_recv_until_later read unread =
      let (message, there, done) = advance-IsReceived w k r still_alive unread in
      (
        message,
        there,
        rw (in_time) (ap ok done.value),
        rw (in_time) record { value = refl; position_suc = done.position_suc; valid = done.valid },
      )
    where
      in_time :
          try_recv_until others r q
          ≡ (ok (advance r (others q)).0, (advance r (others q)).1, (advance r (others q)).2)
      in_time =
          unfold try_recv_until in rw (until_now (inr unread), try_recv_until, seen_later read)
