-- ===== src/Threads/Receiving.antt =====
-- src/receiver.rs: a receiver that is used by its thread, an access to the shared state at a time:
-- the receives of one message, `try_recv_batch`, `Clone::clone` and `Drop::drop`. Instead of the
-- cursor a receiver has the id of the last message that it read, one less and with no wrap-around;
-- `previous_cell_index` is the cell of that id.
use nexusq.Base.{
  ℕ, ◌+◌, ◌%◌, ◌≡◌, ◌≢◌, ◌<◌, Bool, true, false, wrapping_add, wrapping_sub, ◌==◌, if◌then◌else◌,
}
use nexusq.Cell
use nexusq.Nexus.{NexusQ, with_cell}

-- Where a receiver stands that has read the messages up to `last`; in a batch, `n` more.
pub data ReceiverPc : Type 0 where
  resting : (last : ℕ) → ReceiverPc  -- between two calls
  seen : (last : ℕ) → ReceiverPc  -- the next message is there
  entered : (last : ℕ) → ReceiverPc  -- on the next cell, and still on the last one
  left : (last : ℕ) → ReceiverPc  -- on the next cell only: the message is read
  gathering : (last n : ℕ) → ReceiverPc  -- at the head of the loop of a batch
  copying : (last n : ℕ) → ReceiverPc  -- the message after those `n` is read
  jumped : (last n : ℕ) → ReceiverPc  -- on the last cell of the batch, and still on the old one
  born : (last : ℕ) → ReceiverPc  -- a clone that is not counted yet
  dropping : (last : ℕ) → ReceiverPc  -- dropped, and still on its cell
  gone : ReceiverPc

module _ {ℓ} {A : Type ℓ} where
  unfoldable pub enter_cell : NexusQ A → ℕ → NexusQ A
  unfolding with_cell Cell.move_to
  enter_cell q id = with_cell q (id % q.len) Cell.move_to

  unfoldable pub leave_cell : NexusQ A → ℕ → NexusQ A
  unfolding with_cell Cell.move_from
  leave_cell q id = with_cell q (id % q.len) Cell.move_from

  -- One step of one receiver.
  pub data ReceiveMove (q : NexusQ A) : ReceiverPc → NexusQ A → ReceiverPc → Type ℓ where
    -- `recv`, `try_recv`, `try_recv_until`, `poll_next`: a look that finds the message
    see :
        {last : ℕ}
        → (q.cells ((last + 1) % q.len)).current_id ≡ last + 1
        → ReceiveMove q (resting last) q (seen last)
    enter : {last : ℕ} → ReceiveMove q (seen last) (enter_cell q (last + 1)) (entered last)
    leave : {last : ℕ} → ReceiveMove q (entered last) (leave_cell q last) (left last)
    read : {last : ℕ} → ReceiveMove q (left last) q (resting (last + 1))
    -- `try_recv_batch`, which reads at most `len - 1` messages
    gather : {last : ℕ} → ReceiveMove q (resting last) q (gathering last 0)
    find :
        {last n : ℕ}
        → n + 1 < q.len
        → (q.cells ((last + n + 1) % q.len)).current_id ≡ last + n + 1
        → ReceiveMove q (gathering last n) q (copying last n)
    copy : {last n : ℕ} → ReceiveMove q (copying last n) q (gathering last (n + 1))
    stop : {last n : ℕ} → n ≡ 0 → ReceiveMove q (gathering last n) q (resting last)
    jump :
        {last n : ℕ}
        → n ≢ 0
        → ReceiveMove q (gathering last n) (enter_cell q (last + n)) (jumped last n)
    settle : {last n : ℕ} → ReceiveMove q (jumped last n) (leave_cell q last) (resting (last + n))
    -- The end of a clone, and the two steps of a drop
    register :
        {last : ℕ}
        → ReceiveMove q
            (born last)
            (record q { num_receivers = wrapping_add q.num_receivers 1 })
            (resting last)
    unregister :
        {last : ℕ}
        → ReceiveMove q
            (resting last)
            (record q { num_receivers = wrapping_sub q.num_receivers 1 })
            (dropping last)
    depart : {last : ℕ} → ReceiveMove q (dropping last) (leave_cell q last) gone

-- The first id whose cell a receiver stands on, and the last one that it knows to be published.
abbrev pub low : ReceiverPc → ℕ
low (resting last) = last
low (seen last) = last
low (entered last) = last
low (left last) = last + 1
low (gathering last n) = last
low (copying last n) = last
low (jumped last n) = last
low (born last) = last
low (dropping last) = last
low gone = 0

abbrev pub high : ReceiverPc → ℕ
high (resting last) = last
high (seen last) = last + 1
high (entered last) = last + 1
high (left last) = last + 1
high (gathering last n) = last + n
high (copying last n) = last + n + 1
high (jumped last n) = last + n
high (born last) = last
high (dropping last) = last
high gone = 0

abbrev pub present : ReceiverPc → Bool
present gone = false
present _ = true

-- How often a receiver counts on cell `i` of `len`, and in `num_receivers`.
abbrev pub on : (len i id : ℕ) → ℕ
on len i id = if id % len == i then 1 else 0

abbrev pub counts : (len i : ℕ) → ReceiverPc → ℕ
counts len i (resting last) = on len i last
counts len i (seen last) = on len i last
counts len i (entered last) = on len i last + on len i (last + 1)
counts len i (left last) = on len i (last + 1)
counts len i (gathering last n) = on len i last
counts len i (copying last n) = on len i last
counts len i (jumped last n) = on len i last + on len i (last + n)
counts len i (born last) = on len i last
counts len i (dropping last) = on len i last
counts len i gone = 0

abbrev pub registered : ReceiverPc → ℕ
registered (born last) = 0
registered (dropping last) = 0
registered gone = 0
registered _ = 1
