-- ===== src/Threads/Ordered.antt =====
-- A program that does not call `try_send`: no two senders write to one cell, even when the last
-- receiver is dropped.
use nexusq.Base.{
  ℕ, ◌+◌, ◌-◌, ◌%◌, ◌≤◌, ◌<◌, ◌≡◌, ◌≢◌, ◌∙◌, ◌⊎◌, inl, inr, refl, sym, ap, arith, Bool, true, false,
  some, List, length, length-append, update, get_elem?, of_total_pos, eq_of_mod-eq, round_of_mod-eq,
  ℕ_discrete,
}
use nexusq.Nexus.{NexusQ}
use nexusq.Threads.Sending
use nexusq.Threads.Sending.{SenderPc, SendMove, outstanding, holds}
use nexusq.Threads.Sends.{send_keeps}
use nexusq.Threads.Receives.{receive_keeps}
use nexusq.Threads.Receiving
use nexusq.Threads.Receiving.{ReceiverPc, low, high, present, counts, registered, enter_cell}
use nexusq.Threads.System.{System, Step, sends, receives, clones, begin, Reach, start, later}
use nexusq.Threads.Invariant.{Inv}
use nexusq.Threads.Reachable.{IsRoomy, Step-IsRoomy, Reach-Inv}

-- A sender that has begun to wait for its cell, or need not.
abbrev waited {ℓ} : {A : Type ℓ} → SenderPc A → Bool
waited (Sending.waiting id v) = true
waited (Sending.cleared id v) = true
waited _ = false

abbrev tried {ℓ} : {A : Type ℓ} → SenderPc A → Bool
tried (Sending.asked v) = true
tried (Sending.trying id v) = true
tried _ = false

-- The messages that are on the way are the last ones, less than a round of them.
record IsOrdered {ℓ} {A : Type ℓ} (len sent : ℕ) (pc : ℕ → SenderPc A) : Type ℓ where
  window : (i id : ℕ) → outstanding (pc i) ≡ some id → sent < id + len
  next : (j i id : ℕ) → waited (pc j) ≡ true → outstanding (pc i) ≡ some id → sent + 1 < id + len
  plain : (i : ℕ) → tried (pc i) ≡ false

-- A receiver counts on the cell of its first id or of its last one.
counted_at :
    (len i : ℕ) (r : ReceiverPc)
    → 0 < counts len i r
    → (present r ≡ true) × (x : ℕ) × ((x ≡ low r) ⊎ (x ≡ high r)) × (x % len ≡ i)
counted_at len i Receiving.gone h = absurd (omega arith)
counted_at len i (Receiving.entered last) h = elim (ℕ_discrete (last % len) i) [
  | yes e ↦ (refl, last, inl refl, e)
  | no n ↦ (refl, last + 1, inr refl, ground arith)
]
counted_at len i (Receiving.jumped last n) h = elim (ℕ_discrete (last % len) i) [
  | yes e ↦ (refl, last, inl refl, e)
  | no apart ↦ (refl, last + n, inr refl, ground arith)
]
counted_at len i r h = (refl, low r, inl refl, ground arith)

registered_present : (r : ReceiverPc) → 0 < registered r → present r ≡ true
registered_present Receiving.gone h = absurd (omega arith)
registered_present r h = refl

waited-holds {ℓ} : {A : Type ℓ} (p : SenderPc A) → waited p ≡ true → (id : ℕ) × (holds p ≡ some id)
waited-holds (Sending.waiting id v) e = (id, refl)
waited-holds (Sending.cleared id v) e = (id, refl)
waited-holds p e = cc

module _ {ℓ} {A : Type ℓ} {s : System A} (inv : Inv s) where
  open inv use {fair, counted, watched}

  -- Who stands on the cell of the next id is a round behind, and all that is on the way is newer.
  behind :
      (r : ReceiverPc) (x i id : ℕ)
      → ((x ≡ low r) ⊎ (x ≡ high r))
      → (k : ℕ) → get_elem? s.receivers k ≡ some r
      → present r ≡ true
      → x % s.nexus.len ≡ (length s.log + 1) % s.nexus.len
      → outstanding (s.senders i) ≡ some id
      → length s.log + 1 < id + s.nexus.len
  behind r x i id which k there here meet out =
      let w = watched k r there here in
      let place : (low r ≤ x) × (x ≤ high r) = ground (arith, w.ahead) in
      let far =
        round_of_mod-eq s.nexus.len x (length s.log + 1) (omega (arith, place, w.known))
          (omega (arith, place, w.near)) meet in
      omega (arith, far, place, w.finished i id out)

  -- The cell of the next id is in use, or some receiver is counted: all that is on the way is new.
  in_use :
      (i id id' : ℕ)
      → id' ≡ length s.log + 1
      → (s.nexus.cells (id' % s.nexus.len)).read_counter ≢ 0
      → outstanding (s.senders i) ≡ some id
      → length s.log + 1 < id + s.nexus.len
  in_use i id id' next used out =
      let slot = id' % s.nexus.len in
      let (k, r, there, on_it) =
        of_total_pos (counts s.nexus.len slot) s.receivers
          (omega (arith, counted.readers slot, used)) in
      let (here, x, which, meet) = counted_at s.nexus.len slot r on_it in
      behind r x i id which k there here (meet ∙ ap (λ n. n % s.nexus.len) next) out

  in_touch :
      (i id : ℕ)
      → s.nexus.num_receivers ≢ 0
      → outstanding (s.senders i) ≡ some id
      → length s.log + 1 < id + s.nexus.len
  in_touch i id some_there out =
      let (k, r, there, one) =
        of_total_pos registered s.receivers (omega (arith, counted.alive, some_there)) in
      let w = watched k r there (registered_present r one) in
      omega (arith, w.near, w.ahead, w.finished i id out)

  module _ (o : IsOrdered s.nexus.len (length s.log) s.senders) (i : ℕ) where
    send-window :
        {p p' : SenderPc A} {q' : NexusQ A} {vs : List A}
        → SendMove false s.nexus p q' vs p'
        → s.senders i ≡ p
        → (j id : ℕ) → outstanding (update s.senders i p' j) ≡ some id
        → length s.log + length vs < id + s.nexus.len
    send-window (Sending.pass {id = id'}) e j id x =
        ground (arith, o.window j id, o.next i j id, fair.held i id', inv.size)
    send-window mv e j id x = ground (arith, o.window j id, o.window i id)

    send-next :
        {p p' : SenderPc A} {q' : NexusQ A} {vs : List A}
        → SendMove false s.nexus p q' vs p'
        → s.senders i ≡ p
        → (k j id : ℕ) → waited (update s.senders i p' k) ≡ true
        → outstanding (update s.senders i p' j) ≡ some id
        → length s.log + length vs + 1 < id + s.nexus.len
    send-next (Sending.look_used {id = id'} used) e k j id x y =
        ground (arith, o.next k j id, in_use j id id', fair.held i id')
    send-next (Sending.connected {id = id'} some_there) e k j id x y =
        ground (arith, o.next k j id, in_touch j id)
    send-next (Sending.pass {id = id'}) e k j id x y = elim (ℕ_discrete i k) [
      | yes same ↦ ground arith
      | no other ↦
          let (id'', z) = waited-holds (s.senders k) (ground arith) in
          absurd (other (fair.alone i k id' id'' (ap holds e) z))
    ]
    send-next (Sending.try_free g) e k j id x y = ground (arith, o.plain i)
    send-next mv e k j id x y = ground (arith, o.next k j id, o.next i j id, o.next k i id)

    send-plain :
        {p p' : SenderPc A} {q' : NexusQ A} {vs : List A}
        → SendMove false s.nexus p q' vs p'
        → s.senders i ≡ p
        → (j : ℕ) → tried (update s.senders i p' j) ≡ false
    send-plain (Sending.ask g _) e j = cc
    send-plain (Sending.try_wins g) e j = ground (arith, o.plain i)
    send-plain mv e j = ground (arith, o.plain j)

Step-IsOrdered {ℓ} :
    {A : Type ℓ} {s t : System A}
    → Inv s
    → Step false s t
    → IsOrdered s.nexus.len (length s.log) s.senders
    → IsOrdered t.nexus.len (length t.log) t.senders
unfolding enter_cell
Step-IsOrdered {s = s} inv (sends i {messages = vs} mv) o =
    rw ((send_keeps mv).0, length-append s.log vs)
      (record {
        window = send-window inv o i mv refl;
        next = send-next inv o i mv refl;
        plain = send-plain inv o i mv refl;
      })
Step-IsOrdered inv (receives k e mv) o = rw (receive_keeps mv).0 o
Step-IsOrdered inv (clones k e) o = o

Reach-IsOrdered {ℓ} :
    {A : Type ℓ} {size : ℕ} {s : System A}
    → IsRoomy s
    → Reach false size s
    → IsOrdered s.nexus.len (length s.log) s.senders
unfolding begin
Reach-IsOrdered room (start c made) = record {
  window = λ i id e. cc;
  next = λ j i id e f. cc;
  plain = λ i. refl;
}
Reach-IsOrdered room (later r st) =
    let before = Step-IsRoomy {tries = false} st room in
    Step-IsOrdered (Reach-Inv before r) st (Reach-IsOrdered before r)

-- In every reachable state of a program that does not call `try_send`, with room for ids and
-- receivers, and also when all receivers are gone: two senders with messages for the same cell are
-- the same sender.
pub send_writer_exclusion {ℓ} :
    {A : Type ℓ} {size : ℕ} {s : System A}
    → IsRoomy s
    → Reach false size s
    → (i j id id' : ℕ) → outstanding (s.senders i) ≡ some id
    → outstanding (s.senders j) ≡ some id'
    → id % s.nexus.len ≡ id' % s.nexus.len
    → i ≡ j
send_writer_exclusion {s = s} room run i j id id' x y meet =
    let fair = (Reach-Inv room run).fair in
    let o = Reach-IsOrdered room run in
    let a : ℕ = length s.log + 1 - s.nexus.len in
    let same =
      eq_of_mod-eq s.nexus.len a id id' (omega (arith, o.window i id x))
        (omega (arith, fair.passed i id x, o.window i id x)) (omega (arith, o.window j id' y))
        (omega (arith, fair.passed j id' y, o.window j id' y)) meet in
    fair.once i j id x (y ∙ ap some (sym same))
