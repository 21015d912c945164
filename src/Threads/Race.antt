-- ===== src/Threads/Race.antt =====
-- src/sender.rs: what `try_send` allows that `send` does not. Calls that have seen a receiver go on
-- after it is dropped, with nobody on the cells to stop them.
use native.Mathlib.Nat.{zero-mod, add-mod_right}
use nexusq.Base.{
  ℕ, zero, suc, ◌+◌, ◌%◌, ◌≤◌, ◌<◌, ◌≡◌, ◌≢◌, ◌∙◌, refl, sym, ap, arith, Bool, true, some, List, [],
  ◌∷◌, ◌++◌, update, update_self, isize_max, wrapping_add, wrapping_sub, ◌^◌, ==_ne, ℕ_discrete,
}
use nexusq.WaitStrategy.{taken, try_take, restore}
use nexusq.Cell
use nexusq.FastMod.{maybe_next_power_of_two}
use nexusq.Nexus.{NexusQ}
use nexusq.Receiver
use nexusq.Channel.Made.{new_channel, make_channel-fits, new-IsValid}
use nexusq.Threads.Sending
use nexusq.Threads.Sending.{SenderPc, SendMove}
use nexusq.Threads.Receiving
use nexusq.Threads.Receiving.{leave_cell}
use nexusq.Threads.System.{System, sends, receives, begin, Reach, start, later}

module _ {ℓ} {A : Type ℓ} {tries : Bool} {size : ℕ} where
  pub sends_next :
      {s : System A}
      → Reach tries size s
      → (i : ℕ) {p p' : SenderPc A} {q : NexusQ A} {vs : List A} → s.senders i ≡ p
      → SendMove tries s.nexus p q vs p'
      → Reach tries size
          (record s { nexus = q; senders = update s.senders i p'; log = s.log ++ vs })
  sends_next r i e mv = later r (sends i (rw e mv))

module _ {ℓ} {A : Type ℓ} (v : A) (size : ℕ) (lo : 2 ≤ size) (hi : size ≤ isize_max) where
  len : ℕ
  len = maybe_next_power_of_two size

  first : NexusQ A
  first = (new_channel A size).nexus

  asking : (ℕ → SenderPc A) → System A
  asking pc = record { nexus = first; senders = pc; receivers = Receiving.resting 0 ∷ []; log = [] }

  -- The first `k` senders have seen the receiver.
  record IsAsking (k : ℕ) (pc : ℕ → SenderPc A) : Type ℓ where
    reached : Reach true size (asking pc)
    asked : (i : ℕ) → i < k → pc i ≡ Sending.asked v
    others : (i : ℕ) → k ≤ i → pc i ≡ Sending.idle

  asks : (k : ℕ) → (pc : ℕ → SenderPc A) × IsAsking k pc
  unfolding asking begin first Receiver.new
  asks zero = (
    λ _. Sending.idle,
    record {
      reached = start (new_channel A size) (make_channel-fits A size lo hi);
      asked = λ i h. absurd (omega arith);
      others = λ i h. refl;
    },
  )
  asks (suc k) =
      let (pc, a) = asks k in
      (
        update pc k (Sending.asked v),
        record {
          reached =
              sends_next a.reached k (a.others k (omega arith))
                (Sending.ask {v = v} refl (omega arith));
          asked = λ i h. ground (arith, a.asked i);
          others = λ i h. ground (arith, a.others i);
        },
      )

  -- The channel without its receiver.
  deserted : NexusQ A
  deserted = leave_cell (record first { num_receivers = wrapping_sub first.num_receivers 1 }) 0

  deserted_len : deserted.len ≡ len
  unfolding deserted first Receiver.new leave_cell len
  deserted_len = refl

  deserted_head : deserted.write_head ≡ 1
  unfolding deserted first Receiver.new leave_cell
  deserted_head = refl

  deserted_cells : (i : ℕ) → (deserted.cells i).read_counter ≡ 0
  unfolding deserted first Receiver.new Cell.move_to Cell.move_from Cell.new leave_cell
  deserted_cells i = ground (arith, zero-mod (maybe_next_power_of_two size))

  racing : (k : ℕ) → (ℕ → SenderPc A) → List A → System A
  racing k pc log = record {
    nexus = record deserted { write_head = k + 1; head_notices = k };
    senders = pc;
    receivers = Receiving.gone ∷ [];
    log = log;
  }

  -- The first `k` senders have passed on the ids up to `k` and write.
  record IsRacing (k : ℕ) (pc : ℕ → SenderPc A) (log : List A) : Type ℓ where
    reached : Reach true size (racing k pc log)
    writing : (i : ℕ) → i < k → pc i ≡ Sending.writing (i + 1) v
    asked : (i : ℕ) → k ≤ i → i ≤ len → pc i ≡ Sending.asked v

  -- All senders that are needed have asked, and then the receiver is dropped.
  deserts : (pc : ℕ → SenderPc A) × IsRacing 0 pc []
  unfolding asking racing deserted leave_cell first Receiver.new
  deserts =
      let (pc, a) = asks (suc len) in
      let dropped = later a.reached (receives 0 refl Receiving.unregister) in
      (
        pc,
        record {
          reached = rw (← deserted_head) (later dropped (receives 0 refl Receiving.depart));
          writing = λ i h. absurd (omega arith);
          asked = λ i h h'. a.asked i (omega arith);
        },
      )

  fits : len ≤ 2 ^ 63
  unfolding len Receiver.new
  fits = (new-IsValid A size lo hi).ring.fits

  wide : 2 ≤ len
  unfolding len Receiver.new
  wide = (new-IsValid A size lo hi).ring.at_least_two

  wins : (k : ℕ) → k ≤ len → (try_take (k + 1)).0 ≡ some (k + 1)
  unfolding try_take
  wins k h = rw (==_ne (k + 1) taken (λ e. omega (arith, fits)))

  next_head : (k : ℕ) → k ≤ len → wrapping_add (k + 1) 1 ≡ suc k + 1
  next_head k h = omega (arith, fits)

  next_count : (k : ℕ) → k + 1 ≡ suc k
  next_count k = omega arith

  after_pass : (ℕ → SenderPc A) → ℕ → ℕ → SenderPc A
  after_pass pc k =
      update (update (update pc k (Sending.trying (k + 1) v)) k (Sending.cleared (k + 1) v)) k
        (Sending.writing (k + 1) v)

  -- One more of them takes the token, finds its cell free and passes the token on.
  passes :
      (k : ℕ) (pc : ℕ → SenderPc A) (log : List A)
      → k ≤ len
      → IsRacing k pc log
      → IsRacing (suc k) (after_pass pc k) (((log ++ []) ++ []) ++ v ∷ [])
  unfolding racing after_pass restore
  passes k pc log h r =
      let won =
        sends_next r.reached k (r.asked k (omega arith) h)
          (Sending.try_wins {id = k + 1} {v = v} (wins k h)) in
      let free =
        sends_next won k (update_self pc k (Sending.trying (k + 1) v))
          (Sending.try_free (deserted_cells ((k + 1) % deserted.len))) in
      let passed =
        sends_next free k
          (update_self (update pc k (Sending.trying (k + 1) v)) k (Sending.cleared (k + 1) v))
          Sending.pass in
      record {
        reached = rw (← next_head k h, ← next_count k) passed;
        writing = λ i below. elim (ℕ_discrete k i) [
          | yes same ↦ rw (← same) (
              update_self
                (update (update pc k (Sending.trying (k + 1) v)) k (Sending.cleared (k + 1) v)) k
                (Sending.writing (k + 1) v))
          | no other ↦ rw (==_ne k i other) (r.writing i (omega arith))
        ];
        asked = λ i above top. rw (==_ne k i (λ e. omega arith)) (r.asked i (omega arith) top);
      }

  races : (k : ℕ) → k ≤ len + 1 → (pc : ℕ → SenderPc A) × (log : List A) × IsRacing k pc log
  races zero h = let (pc, d) = deserts in (pc, [], d)
  races (suc k) h =
      let (pc, log, r) = races k (omega arith) in (_, _, passes k pc log (omega arith) r)

  -- In a program that calls `try_send`, two different senders can write to one cell at the same
  -- time, for every size that makes a channel: each of the calls has seen the receiver before it
  -- is dropped.
  pub try_send_race :
      (s : System A) × Reach true size s
      × (i : ℕ) × (j : ℕ) × (id : ℕ) × (id' : ℕ) × (i ≢ j)
      × (s.senders i ≡ Sending.writing id v)
      × (s.senders j ≡ Sending.writing id' v)
      × (id % s.nexus.len ≡ id' % s.nexus.len)
  unfolding racing
  try_send_race =
      let (pc, log, r) = races (len + 1) (omega arith) in
      (
        racing (len + 1) pc log,
        r.reached,
        0,
        len,
        1,
        len + 1,
        λ e. omega (arith, wide),
        r.writing 0 (omega arith),
        r.writing len (omega arith),
        rw deserted_len (sym (ap (λ n. n % len) (omega arith) ∙ add-mod_right 1 len)),
      )
