-- ===== src/Threads/Sends.antt =====
-- A step of a sender keeps what is known of the cells and of the receivers.
use native.Mathlib.Nat.{add-mod_right}
use nexusq.Base.{
  ℕ, ◌+◌, ◌-◌, ◌%◌, ◌≤◌, ◌<◌, ◌≡◌, ◌≢◌, ◌∙◌, ap, refl, sym, arith, Bool, true, some, List, [], ◌∷◌,
  ◌++◌, length, update, append-nil, length-append, get_elem?, get_elem?-append_of_some,
  get_elem?-append_left, eq_of_mod-eq, ==_self, ==_ne, get_elem?-append_last, ℕ_discrete,
}
use nexusq.Cell
use nexusq.Nexus.{NexusQ}
use nexusq.Threads.Sending
use nexusq.Threads.Sending.{SenderPc, SendMove, outstanding, unwritten, may_write, holds, writing}
use nexusq.Threads.Receiving.{ReceiverPc}
use nexusq.Threads.Invariant.{IsFair, IsCounted, IsPublished, IsWatched}

module _ {ℓ} {A : Type ℓ} {tries : Bool} {q : NexusQ A} where
  -- What no sender changes.
  pub send_keeps :
      {p p' : SenderPc A} {q' : NexusQ A} {vs : List A}
      → SendMove tries q p q' vs p'
      → (q'.len ≡ q.len)
        × (q'.num_receivers ≡ q.num_receivers)
        × ((i : ℕ) → (q'.cells i).read_counter ≡ (q.cells i).read_counter)
  unfolding Sending.replace_value Sending.store_id
  send_keeps SendMove.publish = (ground arith, ground arith, λ i. ground arith)
  send_keeps mv = (ground arith, ground arith, λ i. ground arith)

  pub SendMove-IsCounted :
      {p p' : SenderPc A} {q' : NexusQ A} {vs : List A} (rs : List ReceiverPc)
      → SendMove tries q p q' vs p'
      → IsCounted q rs
      → IsCounted q' rs
  SendMove-IsCounted rs mv c =
      let (len, num, counters) = send_keeps mv in
      record { readers = λ i. rw len (counters i ∙ c.readers i); alive = num ∙ c.alive }

may_write-holds {ℓ} :
    {A : Type ℓ} (p : SenderPc A) → may_write p ≡ true → (id : ℕ) × (holds p ≡ some id)
may_write-holds (Sending.found_free id v) e = (id, refl)
may_write-holds (Sending.cleared id v) e = (id, refl)
may_write-holds p e = cc

store_id-value {ℓ} :
    {A : Type ℓ} (q : NexusQ A) (id k : ℕ)
    → ((Sending.store_id q id).cells k).value ≡ (q.cells k).value
unfolding Sending.store_id Cell.notify_all
store_id-value q id k = elim (ℕ_discrete (id % q.len) k) [
  | yes e ↦ rw (e, ==_self k)
  | no n ↦ rw (==_ne (id % q.len) k n)
]

-- The cell of an id that is free is not the one of a receiver a whole round behind.
not_behind {ℓ} :
    {A : Type ℓ} (q : NexusQ A) (a id : ℕ)
    → id ≤ a + q.len
    → 1 ≤ (q.cells (a % q.len)).read_counter
    → (q.cells (id % q.len)).read_counter ≡ 0
    → id < a + q.len
not_behind q a id near stood free = elim (ℕ_discrete id (a + q.len)) [
  | yes behind ↦
      let same : id % q.len ≡ a % q.len = ap (λ n. n % q.len) behind ∙ add-mod_right a q.len in
      absurd (omega (arith, ap (λ n. (q.cells n).read_counter) same))
  | no other ↦ omega arith
]

module _ {ℓ} {A : Type ℓ} {tries : Bool} {q : NexusQ A} {pc : ℕ → SenderPc A} {m : ℕ}
    (fair : IsFair m q.write_head pc) (i : ℕ) where
  pub send-IsPublished :
      {p p' : SenderPc A} {q' : NexusQ A} {vs : List A}
      → SendMove tries q p q' vs p'
      → pc i ≡ p
      → IsPublished q pc m
      → IsPublished q' (update pc i p') (m + length vs)
  unfolding Sending.replace_value Sending.store_id
  send-IsPublished (SendMove.pass {id = id'}) e old id small there =
      let (bound, finished) = old id small there in
      (ground arith, λ j x. ground (arith, finished j, fair.held i id'))
  send-IsPublished (SendMove.publish {id = id'}) e old id small there = elim (ℕ_discrete id id') [
    | yes same ↦ (ground (arith, fair.passed i id'), λ j x. ground (arith, fair.once i j id'))
    | no other ↦
        let (bound, finished) = old id small (ground arith) in
        (ground arith, λ j x. ground (arith, finished j))
  ]
  send-IsPublished (SendMove.write {id = id'}) e old id small there =
      let (bound, finished) = old id small (ground arith) in
      (ground arith, λ j x. ground (arith, finished j, finished i))
  send-IsPublished mv e old id small there =
      let (bound, finished) = old id small there in
      (ground arith, λ j x. ground (arith, finished j))

  pub send-carried :
      {p p' : SenderPc A} {q' : NexusQ A} {vs : List A} (log : List A)
      → length log ≡ m
      → SendMove tries q p q' vs p'
      → pc i ≡ p
      → ((j id : ℕ) (v : A) → pc j ≡ writing id v → get_elem? log (id - 1) ≡ some v)
      → (j id : ℕ) (v : A) → update pc i p' j ≡ writing id v
      → get_elem? (log ++ vs) (id - 1) ≡ some v
  send-carried log size (SendMove.pass {id = id'} {v = v'}) e old j id v x = elim (ℕ_discrete i j) [
    | yes same ↦
        let place : id - 1 ≡ length log = ground (arith, fair.held i id') in
        let it : v' ≡ v = ground arith in rw (place, ← it) (get_elem?-append_last log v')
    | no other ↦ get_elem?-append_of_some log (v' ∷ []) (id - 1) v (old j id v (ground arith))
  ]
  send-carried {vs = vs} log size mv e old j id v x = elim (ℕ_discrete i j) [
    | yes same ↦ ground arith
    | no other ↦ get_elem?-append_of_some log vs (id - 1) v (old j id v (ground arith))
  ]

  -- For a receiver: on the cell of `a`, with the messages up to `h` known.
  module _ {log : List A} {a h : ℕ} (size : length log ≡ m) (w : IsWatched q pc log a h) where
    send-clear :
        {p p' : SenderPc A} {q' : NexusQ A} {vs : List A}
        → SendMove tries q p q' vs p'
        → pc i ≡ p
        → 1 ≤ (q.cells (a % q.len)).read_counter
        → (j : ℕ) → may_write (update pc i p' j) ≡ true
        → length (log ++ vs) + 1 < a + q'.len
    unfolding Sending.replace_value Sending.store_id
    send-clear (SendMove.drained {id = id'} free) e stood j x =
        ground (arith, fair.held i id', not_behind q a id', w.near, w.clear j, append-nil log)
    send-clear (SendMove.try_free {id = id'} free) e stood j x =
        ground (arith, fair.held i id', not_behind q a id', w.near, w.clear j, append-nil log)
    send-clear (SendMove.look_free {id = id'} free) e stood j x =
        ground (arith, fair.held i id', not_behind q a id', w.near, w.clear j, append-nil log)
    send-clear (SendMove.pass {id = id'}) e stood j x = elim (ℕ_discrete i j) [
      | yes same ↦ ground arith
      | no other ↦
          let (id, y) = may_write-holds (pc j) (ground arith) in
          absurd (other (fair.alone i j id' id (ap holds e) y))
    ]
    send-clear mv e stood j x = ground (arith, w.clear j, w.clear i, append-nil log)

    send_near :
        {p p' : SenderPc A} {q' : NexusQ A} {vs : List A}
        → SendMove tries q p q' vs p'
        → pc i ≡ p
        → length (log ++ vs) < a + q'.len
    unfolding Sending.replace_value Sending.store_id
    send_near (SendMove.pass {v = v}) e =
        omega (arith, w.clear i (ap may_write e), length-append log (v ∷ []))
    send_near mv e = ground (arith, w.near, ap length (append-nil log))

    send-finished :
        {p p' : SenderPc A} {q' : NexusQ A} {vs : List A}
        → SendMove tries q p q' vs p'
        → pc i ≡ p
        → (j id : ℕ) → outstanding (update pc i p' j) ≡ some id
        → h < id
    send-finished (SendMove.pass {id = id'}) e j id x =
        ground (arith, w.finished j id, w.known, fair.held i id')
    send-finished mv e j id x = ground (arith, w.finished j id, w.finished i id)

    -- The ids that are not written after a step other than `pass` and `write` were not before.
    send-content :
        {p p' : SenderPc A} {q' : NexusQ A} {vs : List A}
        → SendMove tries q p q' vs p'
        → pc i ≡ p
        → ((j id : ℕ) (v : A) → pc j ≡ writing id v → get_elem? log (id - 1) ≡ some v)
        → (id : ℕ) → 1 ≤ id
        → a ≤ id
        → id ≤ length (log ++ vs)
        → ((j : ℕ) → unwritten (update pc i p' j) ≢ some id)
        → (q'.cells (id % q'.len)).value ≡ get_elem? (log ++ vs) (id - 1)
    unfolding Sending.replace_value Sending.store_id
    send-content (SendMove.pass {id = id'} {v = v}) e carried id low after top done =
        elim (ℕ_discrete id id') [
          | yes same ↦ absurd (done i (ground arith))
          | no other ↦
              let below : id ≤ length log =
                omega (arith, length-append log (v ∷ []), (fair.held i id' (ap holds e)).0) in
              w.content id low after below (λ j x. done j (ground arith))
              ∙ sym (get_elem?-append_left log (v ∷ []) (id - 1) (omega arith))
        ]
    send-content (SendMove.write {id = id'} {v = v}) e carried id low after top done =
        let below : id ≤ length log = omega (arith, ap length (append-nil log)) in
        rw (append-nil log) (elim (ℕ_discrete id id') [
          | yes same ↦ ground (arith, carried i id' v)
          | no other ↦
              let apart : id % q.len ≢ id' % q.len = λ meet. other (
                eq_of_mod-eq q.len a id id' after (omega (arith, w.near))
                  (omega (arith, w.finished i id' (ap outstanding e), w.ahead))
                  (omega (arith, (fair.passed i id' (ap outstanding e)).1, w.near)) meet) in
              let old = w.content id low after below (λ j x. done j (ground arith)) in ground arith
        ])
    send-content SendMove.publish e carried id low after top done =
        let below : id ≤ length log = omega (arith, ap length (append-nil log)) in
        rw (append-nil log, store_id-value q _ (id % q.len))
          (w.content id low after below (λ j x. done j (ground arith)))
    send-content mv e carried id low after top done =
        let below : id ≤ length log = omega (arith, ap length (append-nil log)) in
        rw (append-nil log) (w.content id low after below (λ j x. done j (ground arith)))

    pub SendMove-IsWatched :
        {p' : SenderPc A} {q' : NexusQ A} {vs : List A}
        → SendMove tries q (pc i) q' vs p'
        → ((j id : ℕ) (v : A) → pc j ≡ writing id v → get_elem? log (id - 1) ≡ some v)
        → 1 ≤ (q.cells (a % q.len)).read_counter
        → IsWatched q' (update pc i p') (log ++ vs) a h
    SendMove-IsWatched {vs = vs} mv carried stood = record {
      near = send_near mv refl;
      ahead = w.ahead;
      known = omega (arith, w.known, length-append log vs);
      finished = send-finished mv refl;
      clear = send-clear mv refl stood;
      content = send-content mv refl carried;
    }
