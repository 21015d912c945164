-- ===== src/Threads/Receives.antt =====
-- A step of a receiver keeps what is known of the receivers.
use nexusq.Base.{
  ℕ, ◌+◌, ◌%◌, ◌≤◌, ◌<◌, ◌≡◌, ◌∙◌, ap, refl, sym, arith, true, some, List, length, usize_max,
  get_elem?, le-total, ℕ_discrete,
}
use nexusq.Nexus.{NexusQ}
use nexusq.Threads.Sending.{SenderPc, outstanding}
use nexusq.Threads.Receiving
use nexusq.Threads.Receiving.{
  ReceiverPc, ReceiveMove, low, high, present, counts, enter_cell, leave_cell,
}
use nexusq.Ring.Recount.{entered-SameMessages, left-SameMessages}
use nexusq.Threads.Invariant.{IsCounted, IsPublished, IsWatched}

-- A receiver counts on the cell of its first id.
pub stands_low : (len : ℕ) (r : ReceiverPc) → present r ≡ true → 1 ≤ counts len (low r % len) r
stands_low len Receiving.gone e = cc
stands_low len r e = ground arith

module _ {ℓ} {A : Type ℓ} {q : NexusQ A} where
  -- Every receiver stands on a cell that is in use.
  pub stood :
      {rs : List ReceiverPc} (k : ℕ) (r : ReceiverPc)
      → IsCounted q rs
      → get_elem? rs k ≡ some r
      → present r ≡ true
      → 1 ≤ (q.cells (low r % q.len)).read_counter
  stood {rs} k r c e p = omega (
    arith,
    c.readers (low r % q.len),
    le-total (counts q.len (low r % q.len)) rs k r e,
    stands_low q.len r p,
  )

  -- What no receiver changes.
  pub receive_keeps :
      {r r' : ReceiverPc} {q' : NexusQ A}
      → ReceiveMove q r q' r'
      → (q'.len ≡ q.len)
        × (q'.write_head ≡ q.write_head)
        × ((i : ℕ)
            → ((q'.cells i).current_id ≡ (q.cells i).current_id)
              × ((q'.cells i).value ≡ (q.cells i).value))
  unfolding enter_cell leave_cell
  receive_keeps (Receiving.enter {last = last}) =
      (refl, refl, entered-SameMessages q.cells ((last + 1) % q.len))
  receive_keeps (Receiving.jump {last = last} {n = n} g) =
      (refl, refl, entered-SameMessages q.cells ((last + n) % q.len))
  receive_keeps (Receiving.leave {last = last}) =
      (refl, refl, left-SameMessages q.cells (last % q.len))
  receive_keeps (Receiving.settle {last = last}) =
      (refl, refl, left-SameMessages q.cells (last % q.len))
  receive_keeps (Receiving.depart {last = last}) =
      (refl, refl, left-SameMessages q.cells (last % q.len))
  receive_keeps mv = (refl, refl, λ i. (refl, refl))

module _ {ℓ} {A : Type ℓ} {q : NexusQ A} {pc : ℕ → SenderPc A} where
  -- The counters do not matter for what is known.
  pub same-IsWatched :
      {q' : NexusQ A} {log : List A} {a h : ℕ}
      → q'.len ≡ q.len
      → ((i : ℕ) → (q'.cells i).value ≡ (q.cells i).value)
      → IsWatched q pc log a h
      → IsWatched q' pc log a h
  same-IsWatched {q'} {log} {a} {h} len values w = record {
    near = rw len w.near;
    ahead = w.ahead;
    known = w.known;
    finished = w.finished;
    clear = λ i e. rw len (w.clear i e);
    content = λ id lo after top done. rw len (values (id % q.len) ∙ w.content id lo after top done);
  }

  -- A receiver that goes on, to cells and messages that it knows.
  raise-IsWatched :
      {log : List A} {a h a' h' : ℕ}
      → IsWatched q pc log a h
      → a ≤ a'
      → a' ≤ h'
      → h' ≤ length log
      → ((i id : ℕ) → outstanding (pc i) ≡ some id → h' < id)
      → IsWatched q pc log a' h'
  raise-IsWatched w up order known finished = record {
    near = omega (arith, w.near);
    ahead = order;
    known = known;
    finished = finished;
    clear = λ i e. omega (arith, w.clear i e);
    content = λ id lo after top done. w.content id lo (omega arith) top done;
  }

  -- One message more is known once its id stands in its cell.
  found-IsWatched :
      {log : List A} {a h : ℕ}
      → length log + 2 ≤ usize_max
      → IsPublished q pc (length log)
      → (q.cells ((h + 1) % q.len)).current_id ≡ h + 1
      → IsWatched q pc log a h
      → IsWatched q pc log a (h + 1)
  found-IsWatched {log} {a} {h} bound published there w =
      let (known, done) = published (h + 1) (omega (arith, w.known)) there in
      raise-IsWatched w (omega arith) (omega (arith, w.ahead)) known (λ i id x.
        elim (ℕ_discrete id (h + 1)) [
          | yes e ↦ absurd (done i (x ∙ ap some e))
          | no n ↦ omega (arith, w.finished i id x)
        ])

  receive-IsWatched :
      {r r' : ReceiverPc} {q' : NexusQ A} {log : List A}
      → length log + 2 ≤ usize_max
      → IsPublished q pc (length log)
      → ReceiveMove q r q' r'
      → present r' ≡ true
      → IsWatched q pc log (low r) (high r)
      → IsWatched q pc log (low r') (high r')
  receive-IsWatched bound published (Receiving.see there) e w =
      found-IsWatched bound published there w
  receive-IsWatched bound published (Receiving.find small there) e w =
      found-IsWatched bound published there w
  receive-IsWatched bound published Receiving.depart e w = cc
  receive-IsWatched bound published mv e w =
      raise-IsWatched w (omega arith) (omega arith) (omega (arith, w.known))
        (λ i id x. omega (arith, w.finished i id x))

  pub ReceiveMove-IsWatched :
      {r r' : ReceiverPc} {q' : NexusQ A} {log : List A}
      → length log + 2 ≤ usize_max
      → IsPublished q pc (length log)
      → ReceiveMove q r q' r'
      → present r' ≡ true
      → IsWatched q pc log (low r) (high r)
      → IsWatched q' pc log (low r') (high r')
  ReceiveMove-IsWatched bound published mv e w =
      let (len, head, same) = receive_keeps mv in
      same-IsWatched len (λ i. (same i).1) (receive-IsWatched bound published mv e w)

pub same-IsPublished {ℓ} :
    {A : Type ℓ} (q q' : NexusQ A) (pc : ℕ → SenderPc A) (m : ℕ)
    → q'.len ≡ q.len
    → ((i : ℕ) → (q'.cells i).current_id ≡ (q.cells i).current_id)
    → IsPublished q pc m
    → IsPublished q' pc m
same-IsPublished q q' pc m len ids published id small there =
    published id small (sym (ids (id % q.len)) ∙ rw len at there)

pub mover_present {ℓ} :
    {A : Type ℓ} {q q' : NexusQ A} {r r' : ReceiverPc} → ReceiveMove q r q' r' → present r ≡ true
mover_present Receiving.depart = refl
mover_present mv = refl
