-- ===== src/Receiver/Reading.antt =====
-- src/receiver.rs: what a receive returns and what it leaves behind, in a valid state.
use native.Mathlib.Nat.{add-mod_right}
use nexusq.Base.{
  ℕ, ◌+◌, ◌-◌, ◌%◌, ◌≤◌, ◌<◌, ◌≡◌, ◌≢◌, ◌∙◌, refl, sym, ap, arith, List, Bool, Option, some,
  All-get_elem?, All-set, length, length-set, get_elem?, get_elem?-some_of_lt, set, dec_le,
  wrapping_add,
}
use nexusq.Nexus.{NexusQ, index}
use nexusq.Receiver.{Receiver, advance}
use nexusq.Ring.{IsAnchored, IsValid, position}
use nexusq.Ring.Cells.{index-eq-mod}
use nexusq.Ring.Occupancy.{occupancy-set}
use nexusq.Ring.Recount.{entered, left, moved-SameMessages, recount-IsRing, set-counted}

module _ {ℓ} {A : Type ℓ} {q : NexusQ A} {rs : List Receiver} {log : List A} (v : IsValid q rs log)
    (k : ℕ) (r : Receiver) (alive : get_elem? rs k ≡ some r) where
  anchor : IsAnchored q.len (length log) r
  anchor = All-get_elem? (IsAnchored q.len (length log)) rs k r v.ring.anchored alive

  moved_on : Receiver
  moved_on = record r { cursor = r.cursor + 1; previous_cell_index = r.cursor % q.len }

  moved_on-IsAnchored : r.cursor ≤ length log → IsAnchored q.len (length log) moved_on
  unfolding moved_on
  moved_on-IsAnchored unread = record {
    started = omega arith;
    behind = omega arith;
    near = omega (arith, anchor.near);
    on_cell = ap (λ c. c % q.len) (omega arith);
  }

  -- The state that a receive leaves.
  moved_state : NexusQ A
  moved_state = record q { cells = left (entered q.cells (r.cursor % q.len)) r.previous_cell_index }

  moved-IsValid : r.cursor ≤ length log → IsValid moved_state (set rs k moved_on) log
  unfolding moved_state
  moved-IsValid unread = record {
    ring =
        recount-IsRing v.ring _ (set rs k moved_on)
          (moved-SameMessages q.cells (r.cursor % q.len) r.previous_cell_index)
          (rw (length-set rs k moved_on) v.ring.few)
          (All-set (IsAnchored q.len (length log)) rs k moved_on v.ring.anchored
            (moved_on-IsAnchored unread))
          (unfold moved_on in set-counted q.cells rs v.ring.few v.ring.counted k r moved_on alive);
    head = v.head;
    registered = v.registered ∙ sym (length-set rs k moved_on);
  }

  -- `advance` with its machine arithmetic done.
  advance-eq :
      r.cursor ≤ length log
      → advance r q ≡ ((q.cells (r.cursor % q.len)).value, moved_on, moved_state)
  unfolding advance moved_on moved_state
  advance-eq unread =
      rw (index-eq-mod v.ring r.cursor, wrap)
        (ap (λ x. (x, moved_on, moved_state))
          (moved-SameMessages q.cells (r.cursor % q.len) r.previous_cell_index
            (r.cursor % q.len)).1)
    where
      wrap : wrapping_add r.cursor 1 ≡ r.cursor + 1
      wrap = omega (arith, v.ring.log_fits)

  -- The cell of the cursor holds the cursor's id exactly when the message has been sent.
  unread_id : r.cursor ≤ length log → (q.cells (r.cursor % q.len)).current_id ≡ r.cursor
  unread_id unread = v.ring.ids r.cursor anchor.started unread (omega (arith, anchor.near))

  all_read_id : length log < r.cursor → (q.cells (r.cursor % q.len)).current_id ≢ r.cursor
  all_read_id read = elim (dec_le r.cursor q.len) [
    | yes first_round ↦ omega (arith, v.ring.unwritten r.cursor read first_round, v.ring.fits)
    | no later ↦
        let old : ℕ = r.cursor - q.len in
        let around : r.cursor % q.len ≡ old % q.len =
          ap (λ c. c % q.len) (omega arith) ∙ add-mod_right old q.len in
        let held =
          v.ring.ids old (omega arith) (omega (arith, anchor.behind))
            (omega (arith, anchor.behind)) in
        rw around (omega (arith, held, v.ring.at_least_two))
  ]

  -- What a receive of the next message returns: the message, with the receiver one message on in a
  -- state that is valid again.
  pub record IsReceived (message : A) (result : Option A × Receiver × NexusQ A) : Type ℓ where
    pub value : result.0 ≡ some message
    pub position_suc : position result.1 ≡ position r + 1
    pub valid : IsValid result.2 (set rs k result.1) log

  pub advance-IsReceived :
      position r < length log
      → (message : A) × (get_elem? log (position r) ≡ some message)
        × IsReceived message (advance r q)
  unfolding moved_on
  advance-IsReceived unread =
      let unread' : r.cursor ≤ length log = omega (arith, anchor.started) in
      let (message, there) = get_elem?-some_of_lt log (position r) unread in
      let stored = v.ring.values r.cursor anchor.started unread' (omega (arith, anchor.near)) in
      (
        message,
        there,
        rw (advance-eq unread') (record {
          value = stored ∙ there;
          position_suc = omega (arith, anchor.started);
          valid = moved-IsValid unread';
        }),
      )

  -- The code's test for a message.
  pub published-unread :
      position r < length log → (q.cells (index q r.cursor)).current_id ≡ r.cursor
  published-unread unread =
      rw (index-eq-mod v.ring r.cursor) (unread_id (omega (arith, anchor.started)))

  pub published-all_read :
      length log ≤ position r → (q.cells (index q r.cursor)).current_id ≢ r.cursor
  published-all_read read =
      rw (index-eq-mod v.ring r.cursor) (all_read_id (omega (arith, anchor.started)))

-- Only the async guard of a receiver changes.
pub event-IsValid {ℓ} :
    {A : Type ℓ} {q : NexusQ A} {rs : List Receiver} {log : List A}
    → IsValid q rs log
    → (k : ℕ) (r : Receiver) → get_elem? rs k ≡ some r
    → (e : Bool) → IsValid q (set rs k (record r { current_event = e })) log
event-IsValid {q} {rs} {log} v k r alive e = record {
  ring =
      recount-IsRing v.ring q.cells (set rs k r') (λ i. (refl, refl))
        (rw (length-set rs k r') v.ring.few)
        (All-set (IsAnchored q.len (length log)) rs k r' v.ring.anchored same_anchor)
        (λ i. omega (arith, v.ring.counted i, occupancy-set i rs k r r' alive));
  head = v.head;
  registered = v.registered ∙ sym (length-set rs k r');
}
  where
    r' : Receiver
    r' = record r { current_event = e }

    same_anchor : IsAnchored q.len (length log) r'
    same_anchor =
        let a = All-get_elem? (IsAnchored q.len (length log)) rs k r v.ring.anchored alive in
        record { started = a.started; behind = a.behind; near = a.near; on_cell = a.on_cell }
