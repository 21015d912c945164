-- ===== src/Threads/Settling.antt =====
-- A receiver ends the call that it is in, whatever the other threads do.
use nexusq.Base.{ℕ, zero, suc, ◌+◌, ◌≤◌, refl, arith}
use nexusq.Nexus.{NexusQ}
use nexusq.Threads.Receiving
use nexusq.Threads.Receiving.{ReceiverPc, ReceiveMove, resting, gone, low, leave_cell}
use nexusq.Threads.Calm.{Going, stays, goes}

-- Between two calls, having read at least up to `a`, or gone.
pub data IsSettled (a : ℕ) : ReceiverPc → Type 0 where
  at_rest : {m : ℕ} → a ≤ m → IsSettled a (resting m)
  is_gone : IsSettled a gone

pub record Settles {ℓ} {A : Type ℓ} (q : NexusQ A) (r : ReceiverPc) : Type ℓ where
  pub nexus : NexusQ A
  pub receiver : ReceiverPc
  pub going : Going q r nexus receiver
  pub settled : IsSettled (low r) receiver

module _ {ℓ} {A : Type ℓ} where
  -- A way to rest that begins with one more move.
  first :
      {q q' : NexusQ A} {r r' : ReceiverPc}
      → ReceiveMove q r q' r'
      → Receiving.registered r ≤ Receiving.registered r'
      → low r ≤ low r'
      → Settles q' r'
      → Settles q r
  first {r = r} {r' = r'} mv up on_ more = record {
    nexus = more.nexus;
    receiver = more.receiver;
    going = goes mv up more.going;
    settled = raise on_ more.settled;
  }
    where
      raise : {a b : ℕ} {x : ReceiverPc} → a ≤ b → IsSettled b x → IsSettled a x
      raise le (at_rest up) = at_rest (omega arith)
      raise le is_gone = is_gone

  rests : {q : NexusQ A} (m : ℕ) → Settles q (resting m)
  rests m = record {
    nexus = _;
    receiver = resting m;
    going = stays;
    settled = at_rest (omega arith);
  }

  pub settle_down : (q : NexusQ A) (r : ReceiverPc) → Settles q r
  settle_down q (Receiving.resting m) = rests m
  settle_down q (Receiving.seen m) = first Receiving.enter (omega arith) (omega arith) (
      first Receiving.leave (omega arith) (omega arith)
        (first Receiving.read (omega arith) (omega arith) (rests (m + 1))))
  settle_down q (Receiving.entered m) =
      first Receiving.leave (omega arith) (omega arith)
        (first Receiving.read (omega arith) (omega arith) (rests (m + 1)))
  settle_down q (Receiving.left m) =
      first Receiving.read (omega arith) (omega arith) (rests (m + 1))
  settle_down q (Receiving.gathering m zero) =
      first (Receiving.stop refl) (omega arith) (omega arith) (rests m)
  settle_down q (Receiving.gathering m (suc n)) =
      first (Receiving.jump (λ e. omega arith)) (omega arith) (omega arith)
        (first Receiving.settle (omega arith) (omega arith) (rests (m + suc n)))
  settle_down q (Receiving.copying m n) = first Receiving.copy (omega arith) (omega arith) (
      first (Receiving.jump (λ e. omega arith)) (omega arith) (omega arith)
        (first Receiving.settle (omega arith) (omega arith) (rests (m + (n + 1)))))
  settle_down q (Receiving.jumped m n) =
      first Receiving.settle (omega arith) (omega arith) (rests (m + n))
  settle_down q (Receiving.born m) = first Receiving.register (omega arith) (omega arith) (rests m)
  settle_down q (Receiving.dropping m) = record {
    nexus = leave_cell q m;
    receiver = gone;
    going = goes Receiving.depart (omega arith) stays;
    settled = is_gone;
  }
  settle_down q Receiving.gone = record {
    nexus = q;
    receiver = gone;
    going = stays;
    settled = is_gone;
  }
