-- ===== src/Threads/Recounts.antt =====
-- A step of a receiver keeps the counters of the cells and of the receivers.
use nexusq.Base.{
  ℕ, ◌+◌, ◌*◌, ◌^◌, ◌≤◌, ◌<◌, ◌≡◌, arith, some, List, [], ◌∷◌, ◌++◌, length, get_elem?, set, total,
  total-set, total-snoc, le-total, total-le,
}
use nexusq.Cell
use nexusq.Nexus.{NexusQ}
use nexusq.Threads.Receiving
use nexusq.Threads.Receiving.{
  ReceiverPc, ReceiveMove, born, counts, registered, enter_cell, leave_cell,
}
use nexusq.Threads.Invariant.{IsCounted}

counts-le : (len i : ℕ) (r : ReceiverPc) → counts len i r ≤ 2
counts-le len i Receiving.gone = omega arith
counts-le len i r = ground arith

registered-le : (r : ReceiverPc) → registered r ≤ 1
registered-le Receiving.gone = omega arith
registered-le r = ground arith

-- Counting, with room in the words for all receivers.
module _ {ℓ} {A : Type ℓ} {q : NexusQ A} {rs : List ReceiverPc} (few : length rs < 2 ^ 62)
    (c : IsCounted q rs) (k : ℕ) where
  -- The counter of cell `i`, before and after, and the receiver's part in it.
  record IsRecounted (i : ℕ) (r r' : ReceiverPc) : Type 0 where
    before : (q.cells i).read_counter ≡ total (counts q.len i) rs
    change :
        total (counts q.len i) (set rs k r') + counts q.len i r
        ≡ total (counts q.len i) rs + counts q.len i r'
    part : counts q.len i r ≤ total (counts q.len i) rs
    room : total (counts q.len i) rs ≤ 2 * length rs

  recounted : (i : ℕ) (r r' : ReceiverPc) → get_elem? rs k ≡ some r → IsRecounted i r r'
  recounted i r r' e = record {
    before = c.readers i;
    change = total-set (counts q.len i) rs k r r' e;
    part = le-total (counts q.len i) rs k r e;
    room = total-le (counts q.len i) 2 (counts-le q.len i) rs;
  }

  receive-readers :
      {r r' : ReceiverPc} {q' : NexusQ A}
      → ReceiveMove q r q' r'
      → (i : ℕ) → IsRecounted i r r'
      → (q'.cells i).read_counter ≡ total (counts q'.len i) (set rs k r')
  unfolding enter_cell leave_cell Cell.move_to Cell.move_from
  receive-readers Receiving.read i f = ground arith
  receive-readers mv i f = ground arith

  receive-alive :
      {r r' : ReceiverPc} {q' : NexusQ A}
      → get_elem? rs k ≡ some r
      → ReceiveMove q r q' r'
      → q'.num_receivers ≡ total registered (set rs k r')
  unfolding enter_cell leave_cell
  receive-alive {r = r} {r' = r'} e Receiving.read =
      ground (arith, c.alive, total-set registered rs k r r' e)
  receive-alive {r = r} {r' = r'} e mv = ground (
    arith,
    c.alive,
    total-set registered rs k r r' e,
    le-total registered rs k r e,
    total-le registered 1 registered-le rs,
  )

  pub ReceiveMove-IsCounted :
      {r r' : ReceiverPc} {q' : NexusQ A}
      → get_elem? rs k ≡ some r
      → ReceiveMove q r q' r'
      → IsCounted q' (set rs k r')
  ReceiveMove-IsCounted {r = r} {r' = r'} e mv = record {
    readers = λ i. receive-readers mv i (recounted i r r' e);
    alive = receive-alive e mv;
  }

  -- A clone counts on the cell of the receiver that it is made from.
  pub clone-IsCounted : (last : ℕ) → IsCounted (enter_cell q last) (rs ++ born last ∷ [])
  unfolding enter_cell Cell.move_to
  clone-IsCounted last = record {
    readers = λ i. ground (
      arith,
      c.readers i,
      total-snoc (counts q.len i) rs (born last),
      total-le (counts q.len i) 2 (counts-le q.len i) rs,
    );
    alive = omega (arith, c.alive, total-snoc registered rs (born last));
  }
