-- ===== src/Batch/Reading.antt =====
-- src/receiver.rs: what the loop of `try_recv_batch` reads in a valid state.
use native.Mathlib.Nat.{add-mod_right}
use nexusq.Base.{
  ℕ, zero, suc, append-nil, append_assoc, ◌+◌, ◌-◌, ◌%◌, ◌≤◌, ◌<◌, ◌≡◌, ◌≢◌, ◌∙◌, ◌⊎◌, inl, inr,
  refl, sym, ap, arith, List, [], ◌∷◌, ◌++◌, Option, none, some, All-get_elem?, length, get_elem?,
  get_elem?-some_of_lt, get_elem?-none_of_le, dec_le, le_or_later, ==_self, ==_ne, wrapping_add,
}
use nexusq.Nexus.{NexusQ, index}
use nexusq.Receiver.{Receiver}
use nexusq.Broadcast.{next_messages}
use nexusq.Batch.{Progress, read_loop}
use nexusq.Ring.{IsAnchored, IsValid, position}
use nexusq.Ring.Cells.{index-eq-mod}

module _ {ℓ} {A : Type ℓ} where
  -- The steps of `next_messages`.
  pub next_messages-some :
      (log : List A) (p n : ℕ) (message : A)
      → get_elem? log p ≡ some message
      → next_messages log p (suc n) ≡ some message ∷ next_messages log (p + 1) n
  unfolding next_messages
  next_messages-some log p n message e = rw (e, next_messages)

  pub next_messages-none : (log : List A) (p n : ℕ) → length log ≤ p → next_messages log p n ≡ []
  unfolding next_messages
  next_messages-none log p zero h = refl
  next_messages-none log p (suc n) h = rw (get_elem?-none_of_le log p h, next_messages)

  pub next_messages-zero : (log : List A) (p : ℕ) → next_messages log p 0 ≡ []
  unfolding next_messages
  next_messages-zero log p = refl

  -- More than there are is no more.
  pub next_messages_enough :
      (log : List A) (p m n : ℕ)
      → length log ≤ p + m
      → length log ≤ p + n
      → next_messages log p m ≡ next_messages log p n
  next_messages_enough log p zero n h k =
      rw (next_messages-none log p n (omega arith), next_messages-none log p 0 (omega arith))
  next_messages_enough log p (suc m) zero h k =
      rw (next_messages-none log p (suc m) (omega arith), next_messages-none log p 0 (omega arith))
  next_messages_enough log p (suc m) (suc n) h k = elim (le_or_later (length log) p) [
    | inl read ↦ rw (next_messages-none log p (suc m) read, next_messages-none log p (suc n) read)
    | inr unread ↦
        let (message, there) = get_elem?-some_of_lt log p unread in
        rw (
          next_messages-some log p m message there,
          next_messages-some log p n message there,
          next_messages_enough log (p + 1) m n (omega arith) (omega arith),
        )
  ]

module _ {ℓ} {A : Type ℓ} {q : NexusQ A} {rs : List Receiver} {log : List A} (v : IsValid q rs log)
    (k : ℕ) (r : Receiver) (alive : get_elem? rs k ≡ some r) where
  pub anchor : IsAnchored q.len (length log) r
  anchor = All-get_elem? (IsAnchored q.len (length log)) rs k r v.ring.anchored alive

  pub wrap : (j : ℕ) → r.cursor + j ≤ length log + 1 → wrapping_add r.cursor j ≡ r.cursor + j
  wrap j h = omega (arith, v.ring.log_fits)

  -- The cell of an id, as the loop finds it: it holds an unread message, and the first id that is
  -- not sent yet is not there.
  unread_cell :
      (j : ℕ)
      → r.cursor + j ≤ length log
      → ((q.cells (index q (wrapping_add r.cursor j))).current_id ≡ wrapping_add r.cursor j)
        × ((q.cells (index q (wrapping_add r.cursor j))).value ≡ get_elem? log (position r + j))
        × (index q (wrapping_add r.cursor j) ≡ (r.cursor + j) % q.len)
  unread_cell j unread =
      let far : length log < r.cursor + j + q.len = omega (arith, anchor.near) in
      let low : 1 ≤ r.cursor + j = omega (arith, anchor.started) in
      let place : r.cursor + j - 1 ≡ position r + j = omega (arith, anchor.started) in
      rw (wrap j (omega arith), index-eq-mod v.ring (r.cursor + j))
        (
          v.ring.ids (r.cursor + j) low unread far,
          v.ring.values (r.cursor + j) low unread far ∙ ap (get_elem? log) place,
          refl,
        )

  read_cell :
      (j : ℕ)
      → r.cursor + j ≡ length log + 1
      → (q.cells (index q (wrapping_add r.cursor j))).current_id ≢ wrapping_add r.cursor j
  read_cell j read =
      rw (wrap j (omega arith), index-eq-mod v.ring (r.cursor + j))
        (elim (dec_le (r.cursor + j) q.len) [
          | yes first_round ↦
              omega (arith, v.ring.unwritten (r.cursor + j) (omega arith) first_round, v.ring.fits)
          | no later ↦
              let old : ℕ = r.cursor + j - q.len in
              let around : (r.cursor + j) % q.len ≡ old % q.len =
                ap (λ c. c % q.len) (omega arith) ∙ add-mod_right old q.len in
              let held =
                v.ring.ids old (omega arith) (omega (arith, v.ring.at_least_two))
                  (omega (arith, v.ring.at_least_two)) in
              rw around (omega (arith, held, v.ring.at_least_two))
        ])

  -- What the loop carries: the last cell read is the one before the next id.
  abbrev pub IsAt : Progress A → Type 0
  IsAt p =
      ((p.num_read ≡ 0) × (p.cell ≡ none))
      ⊎ ((1 ≤ p.num_read) × (p.cell ≡ some ((r.cursor + p.num_read - 1) % q.len)))

  -- The loop has appended the messages `ms`.
  pub record IsReadTo (p : Progress A) (ms : List (Option A)) (out : Progress A) : Type ℓ where
    pub count : out.num_read ≡ p.num_read + length ms
    pub appended : out.buffer ≡ p.buffer ++ ms
    pub at : IsAt out
    pub in_log : r.cursor + out.num_read ≤ length log + 1

  -- A round of the loop: it stops at the first id that is not there, or reads its message.
  loop_stops :
      (rounds : ℕ) (p : Progress A)
      → r.cursor + p.num_read ≡ length log + 1
      → read_loop r q (suc rounds) p ≡ p
  unfolding read_loop
  loop_stops rounds p read = rw (==_ne _ _ (read_cell p.num_read read))

  abbrev after_message : Progress A → A → Progress A
  after_message p message = record {
    num_read = p.num_read + 1;
    buffer = p.buffer ++ some message ∷ [];
    cell = some ((r.cursor + p.num_read) % q.len);
  }

  loop_reads :
      (rounds : ℕ) (p : Progress A) (message : A)
      → r.cursor + p.num_read ≤ length log
      → get_elem? log (position r + p.num_read) ≡ some message
      → read_loop r q (suc rounds) p ≡ read_loop r q rounds (after_message p message)
  unfolding read_loop
  loop_reads rounds p message unread there =
      let (id, value, place) = unread_cell p.num_read unread in
      rw (id, ==_self (wrapping_add r.cursor p.num_read)) (rw (value, there, place))

  one_more-IsAt : (p : Progress A) (message : A) → IsAt (after_message p message)
  one_more-IsAt p message = inr (omega arith, ap (λ i. some (i % q.len)) (omega arith))

  read_more :
      (rounds : ℕ) (p : Progress A) (message : A) (out : Progress A)
      → IsReadTo
          (after_message p message)
          (next_messages log (position r + (p.num_read + 1)) rounds)
          out
      → IsReadTo p (some message ∷ next_messages log (position r + p.num_read + 1) rounds) out
  read_more rounds p message out done =
      let same : next_messages log (position r + (p.num_read + 1)) rounds
          ≡ next_messages log (position r + p.num_read + 1) rounds =
        ap (λ i. next_messages log i rounds) (omega arith) in
      record {
        count = omega (arith, done.count, ap length same);
        appended =
            done.appended
            ∙ append_assoc p.buffer (some message ∷ []) _
            ∙ ap (λ ms. p.buffer ++ some message ∷ ms) same;
        at = done.at;
        in_log = done.in_log;
      }

  pub read_loop-IsReadTo :
      (rounds : ℕ) (p : Progress A)
      → IsAt p
      → r.cursor + p.num_read ≤ length log + 1
      → IsReadTo p (next_messages log (position r + p.num_read) rounds) (read_loop r q rounds p)
  unfolding read_loop next_messages
  read_loop-IsReadTo zero p at bound = record {
    count = omega arith;
    appended = sym (append-nil p.buffer);
    at = at;
    in_log = bound;
  }
  read_loop-IsReadTo (suc rounds) p at bound =
      elim (le_or_later (r.cursor + p.num_read) (length log)) [
        | inr read ↦
            rw
              (
                loop_stops rounds p (omega arith),
                next_messages-none log (position r + p.num_read) (suc rounds) (omega arith),
              )
              (record {
                count = omega arith;
                appended = sym (append-nil p.buffer);
                at = at;
                in_log = bound;
              })
        | inl unread ↦
            let (message, there) =
              get_elem?-some_of_lt log (position r + p.num_read) (omega (arith, anchor.started)) in
            let rest =
              read_loop-IsReadTo rounds (after_message p message) (one_more-IsAt p message)
                (omega arith) in
            rw
              (
                loop_reads rounds p message unread there,
                next_messages-some log (position r + p.num_read) rounds message there,
              )
              (read_more rounds p message _ rest)
      ]
