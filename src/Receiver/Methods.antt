-- ===== src/Receiver/Methods.antt =====
-- src/receiver.rs: `try_recv` and `poll_next` on every branch.
use nexusq.Base.{
  ℕ, ◌+◌, ap, set, ◌≤◌, ◌<◌, ◌≡◌, List, some, ok, err, ready, pending, length, get_elem?,
  get_elem?-set_self, set-set, false, true, ==_self, ==_ne,
}
use nexusq.Cell
use nexusq.Nexus.{NexusQ, index}
use nexusq.Receiver.{Receiver, no_new_data, advance, try_recv, poll_next}
use nexusq.Ring.{IsValid, position}
use nexusq.Receiver.Reading.{
  event-IsValid, advance-IsReceived, published-unread, published-all_read,
}

module _ {ℓ} {A : Type ℓ} {q : NexusQ A} {rs : List Receiver} {log : List A} (v : IsValid q rs log)
    (k : ℕ) (r : Receiver) (alive : get_elem? rs k ≡ some r) where
  try_recv-unread :
      position r < length log
      → try_recv r q ≡ (ok (advance r q).0, (advance r q).1, (advance r q).2)
  unfolding try_recv
  try_recv-unread unread = rw (published-unread v k r alive unread, ==_self r.cursor)

  -- What `try_recv` does in a valid state. With an unread message it returns the next one of the
  -- log, and the receiver has read one more in a state that is valid again; with none it
  -- reports `NoNewData` and changes nothing.
  pub try_recv_lem :
      (position r < length log
        → (message : A) × (get_elem? log (position r) ≡ some message)
          × ((try_recv r q).0 ≡ ok (some message))
          × (position (try_recv r q).1 ≡ position r + 1)
          × IsValid (try_recv r q).2 (set rs k (try_recv r q).1) log)
      × (length log ≤ position r → try_recv r q ≡ (err no_new_data, r, q))
  try_recv_lem = (
    λ unread.
        let (message, there, done) = advance-IsReceived v k r alive unread in
        (
          message,
          there,
          rw (try_recv-unread unread) (ap ok done.value),
          rw (try_recv-unread unread) done.position_suc,
          rw (try_recv-unread unread) done.valid,
        ),
    λ read.
        unfold try_recv in
        rw (
          ==_ne (q.cells (index q r.cursor)).current_id r.cursor
            (published-all_read v k r alive read)),
  )

  poll_next-unread :
      position r < length log
      → poll_next r q
        ≡ (ready (advance r q).0, record (advance r q).1 { current_event = false }, (advance r q).2)
  unfolding poll_next
  poll_next-unread unread = rw (found, poll_next)
    where
      found : Cell.poll_published (q.cells (index q r.cursor)) r.cursor ≡ ready tt
      found =
          unfold Cell.poll_published in rw (published-unread v k r alive unread, ==_self r.cursor)

  poll_next-all_read :
      length log ≤ position r → poll_next r q ≡ (pending, record r { current_event = true }, q)
  unfolding poll_next
  poll_next-all_read read = rw (absent, poll_next)
    where
      absent : Cell.poll_published (q.cells (index q r.cursor)) r.cursor ≡ pending
      absent =
          unfold Cell.poll_published in
          rw (
            ==_ne (q.cells (index q r.cursor)).current_id r.cursor
              (published-all_read v k r alive read))

  -- What `poll_next` does in a valid state. With an unread message it is ready with the next one of
  -- the log, has cleared its event and leaves a valid state; with none it is pending, holds an
  -- event, and has changed nothing else.
  pub poll_next_lem :
      (position r < length log
        → (message : A) × (get_elem? log (position r) ≡ some message)
          × ((poll_next r q).0 ≡ ready (some message))
          × (position (poll_next r q).1 ≡ position r + 1)
          × ((poll_next r q).1.current_event ≡ false)
          × IsValid (poll_next r q).2 (set rs k (poll_next r q).1) log)
      × (length log ≤ position r → poll_next r q ≡ (pending, record r { current_event = true }, q))
  poll_next_lem = (
    λ unread.
        let (message, there, done) = advance-IsReceived v k r alive unread in
        let r' = (advance r q).1 in
        let alive' = get_elem?-set_self rs k r r' alive in
        (
          message,
          there,
          rw (poll_next-unread unread) (ap ready done.value),
          rw (poll_next-unread unread) done.position_suc,
          rw (poll_next-unread unread),
          rw (poll_next-unread unread, ← set-set rs k r' (record r' { current_event = false }))
              (event-IsValid done.valid k r' alive' false),
        ),
    poll_next-all_read,
  )
