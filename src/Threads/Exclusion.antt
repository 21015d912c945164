-- ===== src/Threads/Exclusion.antt =====
-- No message is read while it is written, and none is written over another: what holds at every
-- moment of every run.
use nexusq.Base.{
  ℕ, ◌+◌, ◌-◌, ◌%◌, ◌≤◌, ◌≡◌, ◌≢◌, ◌∙◌, sym, ap, arith, Bool, true, Option, some, none, get_elem?,
  get_elem?-some_of_lt, total, mod-ne, eq_of_mod-eq,
}
use nexusq.Threads.Sending.{SenderPc, outstanding, unwritten, writing}
use nexusq.Threads.Receiving
use nexusq.Threads.Receiving.{ReceiverPc, low, high, present, counts, registered}
use nexusq.Threads.System.{System, Reach}
use nexusq.Threads.Invariant.{Inv}
use nexusq.Threads.Reachable.{IsRoomy, Reach-Inv}

-- The id of the message that a receiver is reading.
abbrev pub reads : ReceiverPc → Option ℕ
reads (Receiving.left last) = some (last + 1)
reads (Receiving.copying last n) = some (last + n + 1)
reads _ = none

-- A receiver knows the message that it reads, and stands on its cell or before it.
record IsReading (r : ReceiverPc) (id : ℕ) : Type 0 where
  here : present r ≡ true
  known : high r ≡ id
  from : low r ≤ id
  one : 1 ≤ id

reading : (r : ReceiverPc) (id : ℕ) → reads r ≡ some id → IsReading r id
reading (Receiving.left last) id e = ground arith
reading (Receiving.copying last n) id e = ground arith
reading r id e = cc

unwritten_out {ℓ} :
    {A : Type ℓ} (p : SenderPc A) (id : ℕ) → unwritten p ≡ some id → outstanding p ≡ some id
unwritten_out (writing id' v) id e = e
unwritten_out p id e = cc

module _ {ℓ} {A : Type ℓ} {tries : Bool} {size : ℕ} {s : System A} (room : IsRoomy s)
    (run : Reach tries size s) where
  inv : Inv s
  inv = Reach-Inv room run

  -- In every reachable state, with room for ids and receivers: while a receiver reads a message,
  -- no sender is writing to that message's cell.
  pub reader_writer_exclusion :
      (k : ℕ) (r : ReceiverPc) (id : ℕ)
      → get_elem? s.receivers k ≡ some r
      → reads r ≡ some id
      → (i id' : ℕ) → outstanding (s.senders i) ≡ some id'
      → id' % s.nexus.len ≢ id % s.nexus.len
  reader_writer_exclusion k r id there reads_it i id' writes meet =
      let f = reading r id reads_it in
      let w = inv.watched k r there f.here in
      mod-ne s.nexus.len id id' (omega (arith, w.finished i id' writes, f.known))
        (omega (arith, w.near, f.from, inv.fair.passed i id' writes)) (sym meet)

  -- In every reachable state, with room for ids and receivers: what a receiver reads as the
  -- message with an id is there, and is the message that was put in line with that id.
  pub reads_message :
      (k : ℕ) (r : ReceiverPc) (id : ℕ)
      → get_elem? s.receivers k ≡ some r
      → reads r ≡ some id
      → (message : A) × ((s.nexus.cells (id % s.nexus.len)).value ≡ some message)
        × (get_elem? s.log (id - 1) ≡ some message)
  reads_message k r id there reads_it =
      let f = reading r id reads_it in
      let w = inv.watched k r there f.here in
      let (message, logged) =
        get_elem?-some_of_lt s.log (id - 1) (omega (arith, w.known, f.known, f.one)) in
      let stored = w.content id f.one f.from (omega (arith, w.known, f.known)) (λ i x.
        absurd (omega (arith, w.finished i id (unwritten_out (s.senders i) id x), f.known))) in
      (message, stored ∙ logged, logged)

  -- In every reachable state, with room for ids and receivers, and with some receiver not gone:
  -- two senders with messages for the same cell are the same sender.
  pub writer_exclusion :
      (k : ℕ) (r : ReceiverPc)
      → get_elem? s.receivers k ≡ some r
      → present r ≡ true
      → (i j id id' : ℕ) → outstanding (s.senders i) ≡ some id
      → outstanding (s.senders j) ≡ some id'
      → id % s.nexus.len ≡ id' % s.nexus.len
      → i ≡ j
  writer_exclusion k r there here i j id id' x y meet =
      let w = inv.watched k r there here in
      let same =
        eq_of_mod-eq s.nexus.len (low r) id id' (omega (arith, w.finished i id x, w.ahead))
          (omega (arith, w.near, inv.fair.passed i id x))
          (omega (arith, w.finished j id' y, w.ahead))
          (omega (arith, w.near, inv.fair.passed j id' y)) meet in
      inv.fair.once i j id x (y ∙ ap some (sym same))

  -- In every reachable state, with room for ids and receivers: the counter of each cell is the
  -- number of times that receivers stand on it, and `num_receivers` is the number of handles that
  -- are neither dropped nor still being cloned.
  pub counters_exact :
      ((i : ℕ) → (s.nexus.cells i).read_counter ≡ total (counts s.nexus.len i) s.receivers)
      × (s.nexus.num_receivers ≡ total registered s.receivers)
  counters_exact = (inv.counted.readers, inv.counted.alive)
