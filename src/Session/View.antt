-- ===== src/Session/View.antt =====
-- The abstract channel that a valid state stands for, and each call against it.
use nexusq.Base.{
  none, ℕ, zero, suc, ==_ne, ◌+◌, ◌-◌, ◌≤◌, ◌≡◌, ◌∙◌, inl, inr, refl, sym, arith, List, [], ◌∷◌,
  true, Bool-cases, Option, some, ok, err, dec_lt, length, map, get_elem?, get_elem?-none_of_le,
  set, usize_max, set-get_elem?, leb, leb_of_lt, leb_of_le,
}
use nexusq.Nexus.{NexusQ}
use nexusq.Sender
use nexusq.Sender.Methods.{try_send_lem}
use nexusq.Receiver
use nexusq.Batch
use nexusq.Receiver.{Receiver, no_new_data}
use nexusq.Receiver.Reading.{event-IsValid}
use nexusq.Receiver.Methods.{try_recv_lem, poll_next_lem}
use nexusq.Broadcast.{as_poll, Broadcast, accept, next_message, has_room}
use nexusq.Ring.{IsValid, position}

module _ {ℓ} {A : Type ℓ} where
  -- One cell of the ring is always kept free.
  abbrev pub view : NexusQ A → List Receiver → List A → Broadcast A
  view q rs log = record { room = q.len - 1; log = log; positions = map position rs }

  pub len-try_send : (q : NexusQ A) (value : A) → (Sender.try_send q value).1.len ≡ q.len
  unfolding Sender.try_send Sender.try_take_head Sender.restore_head Sender.pass_token
      Sender.publish
  len-try_send q value = ground arith

  pub len-try_recv : (q : NexusQ A) (r : Receiver) → (Receiver.try_recv r q).2.len ≡ q.len
  unfolding Receiver.try_recv Receiver.advance
  len-try_recv q r = ground arith

  pub len-poll_next : (q : NexusQ A) (r : Receiver) → (Receiver.poll_next r q).2.len ≡ q.len
  unfolding Receiver.poll_next Receiver.advance
  len-poll_next q r = ground arith

  len-move_reader :
      (i : Option ℕ) (q : NexusQ A) (r : Receiver) → (Batch.move_reader i r q).1.len ≡ q.len
  unfolding Batch.move_reader
  len-move_reader none q r = refl
  len-move_reader (some i) q r = refl

  pub len-try_recv_batch :
      (q : NexusQ A) (r : Receiver) (n : ℕ) (buffer : List (Option A))
      → (Batch.try_recv_batch r q n buffer).3.len ≡ q.len
  unfolding Batch.try_recv_batch
  len-try_recv_batch q r zero buffer = refl
  len-try_recv_batch q r (suc n) buffer = rw (==_ne (suc n) 0 (omega arith)) (len-move_reader _ q _)

  -- In a valid state whose ids have not run out, `try_send` answers as the abstract channel does,
  -- and leaves a valid state with its log.
  pub try_send_refines :
      {q : NexusQ A} {rs : List Receiver} {log : List A}
      → IsValid q rs log
      → length log + 2 ≤ usize_max
      → (value : A)
      → ((Sender.try_send q value).0 ≡ (accept (view q rs log) value).0)
        × IsValid (Sender.try_send q value).1 rs (accept (view q rs log) value).1
  unfolding accept
  try_send_refines {rs = []} v more value = rw ((try_send_lem v more value).0 refl) (refl, v)
  try_send_refines {q = q} {rs = r ∷ rs} {log = log} v more value =
      elim (Bool-cases (has_room (q.len - 1) (length log) (map position (r ∷ rs)))) [
        | inl has ↦
            let (e, w) = (try_send_lem v more value).2 (λ e. cc) has in rw (e, has) (refl, w)
        | inr full ↦ rw ((try_send_lem v more value).1 (λ e. cc) full, full) (refl, v)
      ]

  next_message_of_some :
      (log : List A) (p : ℕ) (message : A)
      → get_elem? log p ≡ some message
      → next_message log p ≡ (ok (some message), p + 1)
  unfolding next_message
  next_message_of_some log p message e = rw (e, next_message)

  next_message_of_none :
      (log : List A) (p : ℕ) → length log ≤ p → next_message log p ≡ (err no_new_data, p)
  unfolding next_message
  next_message_of_none log p h = rw (get_elem?-none_of_le log p h, next_message)

  -- In a valid state `try_recv` of a receiver alive answers as the abstract channel does, moves the
  -- receiver as far, and leaves a valid state.
  pub try_recv_refines :
      {q : NexusQ A} {rs : List Receiver} {log : List A}
      → IsValid q rs log
      → (k : ℕ) (r : Receiver) → get_elem? rs k ≡ some r
      → let (reply, r', q') = Receiver.try_recv r q in
        (reply ≡ (next_message log (position r)).0)
        × (position r' ≡ (next_message log (position r)).1)
        × IsValid q' (set rs k r') log
  try_recv_refines {q} {rs} {log} v k r alive = elim (dec_lt (position r) (length log)) [
    | yes unread ↦
        let (message, there, reply, moved, w) = (try_recv_lem v k r alive).0 unread in
        rw (next_message_of_some log (position r) message there) (reply, moved, w)
    | no read ↦
        rw
          (
            next_message_of_none log (position r) (omega arith),
            (try_recv_lem v k r alive).1 (omega arith),
          )
          (refl, refl, rw (set-get_elem? rs k r alive) v)
  ]

  -- In a valid state `poll_next` of a receiver alive answers as the abstract channel does, with
  -- `Pending` for no new data, moves the receiver as far, and leaves a valid state; it holds an
  -- event exactly when it is pending.
  pub poll_next_refines :
      {q : NexusQ A} {rs : List Receiver} {log : List A}
      → IsValid q rs log
      → (k : ℕ) (r : Receiver) → get_elem? rs k ≡ some r
      → let (reply, r', q') = Receiver.poll_next r q in
        (reply ≡ as_poll (next_message log (position r)).0)
        × (position r' ≡ (next_message log (position r)).1)
        × (r'.current_event ≡ leb (length log) (position r))
        × IsValid q' (set rs k r') log
  poll_next_refines {q} {rs} {log} v k r alive = elim (dec_lt (position r) (length log)) [
    | yes unread ↦
        let (message, there, reply, moved, event, w) = (poll_next_lem v k r alive).0 unread in
        rw (next_message_of_some log (position r) message there)
          (reply, moved, event ∙ sym (leb_of_lt _ _ unread), w)
    | no read ↦
        rw
          (
            next_message_of_none log (position r) (omega arith),
            (poll_next_lem v k r alive).1 (omega arith),
          )
          (refl, refl, sym (leb_of_le _ _ (omega arith)), event-IsValid v k r alive true)
  ]
