-- ===== src/Values/Oldest.antt =====
-- In what order publications drop the values that they replace: a whole program.
use nexusq.Base.{
  ℕ, ◌+◌, ◌-◌, ◌%◌, ◌≤◌, ◌<◌, ◌≡◌, ◌∙◌, inl, inr, refl, sym, ap, arith, List, [], ◌∷◌, ◌++◌,
  append-nil, append_assoc, ok, length, get_elem?, Option-cases, All, length-take-le, usize_max,
}
use nexusq.Cell
use nexusq.Sender.Methods.{sent}
use nexusq.Receiver
use nexusq.Receiver.{Receiver}
use nexusq.Broadcast
use nexusq.Broadcast.{Broadcast, Op, send, recv, poll, recv_batch, clone, drop}
use nexusq.Ring.{IsValid, IsAnchored, position}
use nexusq.Channel.{Handles, make_channel}
use nexusq.Channel.Made.{new_channel, make_channel_only, new-IsValid}
use nexusq.Session.{Session, step}
use nexusq.Session.Agrees.{view_of}
use nexusq.Session.Refine.{step-Agrees}
use nexusq.Values.Replaced.{send-Replaces}
use nexusq.Values.Kept.{step-HoldsAs, step-len}
use nexusq.Values.{taken_in, dropped_of, all_dropped, expired, log_after, IsFresh, after}

module _ {ℓ} {A : Type ℓ} where
  -- The abstract channel's log is longer after a send only.
  quiet_log : (b : Broadcast A) (op : Op A) → taken_in op ≡ [] → (Broadcast.step b op).1.log ≡ b.log
  unfolding Broadcast.step
  quiet_log b (send value) e = absurd (cc)
  quiet_log b (recv k) e = elim (Option-cases (get_elem? b.positions k)) [
    | inl absent ↦ rw (absent, Broadcast.step) refl
    | inr (p, alive) ↦ rw (alive, Broadcast.step) refl
  ]
  quiet_log b (poll k) e = elim (Option-cases (get_elem? b.positions k)) [
    | inl absent ↦ rw (absent, Broadcast.step) refl
    | inr (p, alive) ↦ rw (alive, Broadcast.step) refl
  ]
  quiet_log b (recv_batch k n) e = elim (Option-cases (get_elem? b.positions k)) [
    | inl absent ↦ rw (absent, Broadcast.step) refl
    | inr (p, alive) ↦ rw (alive, Broadcast.step) refl
  ]
  quiet_log b (clone k) e = elim (Option-cases (get_elem? b.positions k)) [
    | inl absent ↦ rw (absent, Broadcast.step) refl
    | inr (p, alive) ↦ rw (alive, Broadcast.step) refl
  ]
  quiet_log b (drop k) e = elim (Option-cases (get_elem? b.positions k)) [
    | inl absent ↦ rw (absent, Broadcast.step) refl
    | inr (p, alive) ↦ rw (alive, Broadcast.step) refl
  ]

  -- A call, against the log that the abstract channel has then
  record Follows (s : Session A) (log : List A) (op : Op A) (log' : List A) : Type ℓ where
    order : expired s.nexus.len log ++ dropped_of s op ≡ expired s.nexus.len log'
    fresh : IsFresh (step s op).1.nexus log'

  quiet-Follows :
      (s : Session A) (log : List A) (op : Op A)
      → IsFresh s.nexus log
      → taken_in op ≡ []
      → dropped_of s op ≡ []
      → Follows s log op (Broadcast.step (view_of s log) op).1.log
  quiet-Follows s log op fresh e none_out =
      let (same_len, same) = step-HoldsAs s op e in
      rw (quiet_log (view_of s log) op e) (record {
        order = rw none_out (append-nil (expired s.nexus.len log));
        fresh = rw same_len (λ id lo hi. same (id % s.nexus.len) ∙ fresh id lo hi);
      })

  step-Follows :
      (s : Session A) (log : List A) (op : Op A)
      → IsValid s.nexus s.receivers log
      → IsFresh s.nexus log
      → length log + 2 ≤ usize_max
      → Follows s log op (Broadcast.step (view_of s log) op).1.log
  unfolding step Broadcast.step
  step-Follows s log (send value) v fresh more =
      let r = send-Replaces v fresh value more in record { order = r.order; fresh = r.fresh' }
  step-Follows s log (recv k) v fresh more = quiet-Follows s log (recv k) fresh refl refl
  step-Follows s log (poll k) v fresh more = quiet-Follows s log (poll k) fresh refl refl
  step-Follows s log (recv_batch k n) v fresh more =
      quiet-Follows s log (recv_batch k n) fresh refl refl
  step-Follows s log (clone k) v fresh more = quiet-Follows s log (clone k) fresh refl refl
  step-Follows s log (drop k) v fresh more = quiet-Follows s log (drop k) fresh refl refl

  all_dropped_lem :
      (ops : List (Op A)) (s : Session A) (log : List A)
      → IsValid s.nexus s.receivers log
      → IsFresh s.nexus log
      → length log + length ops + 1 ≤ usize_max
      → length s.receivers + length ops < usize_max
      → let log' = log_after (view_of s log) ops in
        (expired s.nexus.len log ++ all_dropped s ops ≡ expired s.nexus.len log')
        × IsValid (after s ops).nexus (after s ops).receivers log'
        × ((after s ops).nexus.len ≡ s.nexus.len)
  unfolding all_dropped log_after after
  all_dropped_lem [] s log v fresh more few = (append-nil (expired s.nexus.len log), v, refl)
  all_dropped_lem (op ∷ ops) s log v fresh more few =
      let a = step-Agrees op {s = s} v (omega (arith, more)) (omega (arith, few)) in
      let f = step-Follows s log op v fresh (omega (arith, more)) in
      let s' = (step s op).1 in
      let b' = (Broadcast.step (view_of s log) op).1 in
      let same : a.log' ≡ b'.log = ap (λ b. b.log) a.state in
      let view_same : view_of s' b'.log ≡ b' = ap (λ l. view_of s' l) (sym same) ∙ a.state in
      let (order, valid, len_same) =
        all_dropped_lem ops s' b'.log (rw (← same) a.valid) f.fresh
          (rw (← same) (omega (arith, a.longer))) (omega (arith, a.more_receivers)) in
      let order' = rw (view_same, step-len s op) at order in
      (
        sym (append_assoc (expired s.nexus.len log) (dropped_of s op) (all_dropped s' ops))
            ∙ ap (λ values. values ++ all_dropped s' ops) f.order
            ∙ order',
        rw view_same at valid,
        len_same ∙ step-len s op,
      )

-- The program's first state, with the receiver that comes with the channel
abbrev pub started {ℓ} : {A : Type ℓ} → Handles A → Session A
started c = record { nexus = c.nexus; receivers = c.receiver ∷ [] }

started-IsFresh {ℓ} : (A : Type ℓ) (size : ℕ) → IsFresh (started (new_channel A size)).nexus []
unfolding Receiver.new Cell.move_to Cell.new
started-IsFresh A size id lo hi = ground arith

expired-nil {ℓ} : {A : Type ℓ} (len : ℕ) → expired {A = A} len [] ≡ []
expired-nil len = let none_yet : 0 - len ≡ 0 = omega arith in rw none_yet refl

read_before :
    (len sent n : ℕ) (rs : List Receiver)
    → n ≤ sent - len
    → All (IsAnchored len sent) rs
    → All (λ r. n ≤ position r) rs
read_before len sent n [] few h = tt
read_before len sent n (r ∷ rs) few h =
    (omega (arith, few, h.0.near, h.0.started), read_before len sent n rs few h.1)

-- Of the values that the sends on a new channel publish, the publications behind them drop the
-- oldest, in the order they were sent in: after any sequence of `try_send`, `try_recv`, `poll_next`,
-- `try_recv_batch`, clones and drops of receivers exactly those messages have been dropped that are
-- a whole ring behind the last one, and each receiver that is alive has read them all. The log is
-- that of the abstract channel; neither the ids nor the receivers run out of words.
pub drops_oldest {ℓ} :
    {A : Type ℓ} (size : ℕ) {c : Handles A}
    → make_channel size ≡ ok c
    → (ops : List (Op A)) → length ops + 2 < usize_max
    → let s = started c in
      let log = log_after (view_of s []) ops in
      (all_dropped s ops ≡ expired c.nexus.len log)
      × All (λ r. length (expired c.nexus.len log) ≤ position r) (after s ops).receivers
drops_oldest {A = A} size {c} made ops few =
    let (lo, hi, same) = make_channel_only A size made in
    let (order, valid, len_same) =
      all_dropped_lem ops (started (new_channel A size)) [] (new-IsValid A size lo hi)
        (started-IsFresh A size) (omega arith) (omega arith) in
    let s = started (new_channel A size) in
    let log = log_after (view_of s []) ops in
    let n = length (expired s.nexus.len log) in
    rw (← same) (
      ap (λ values. values ++ all_dropped s ops) (sym (expired-nil s.nexus.len)) ∙ order,
      read_before s.nexus.len (length log) n (after s ops).receivers
          (length-take-le (length log - s.nexus.len) log) (rw len_same at (valid.ring.anchored)),
    )
