-- ===== src/Threads/Fair.antt =====
-- A step of a sender keeps the token fair.
use nexusq.Base.{
  ℕ, ◌+◌, ◌≤◌, ◌≡◌, ◌⊎◌, inr, refl, arith, Bool, some, List, length, update, usize_max,
}
use nexusq.WaitStrategy.{taken, restore}
use nexusq.WaitStrategy.Taking.{took, leaves_taken}
use nexusq.Nexus.{NexusQ}
use nexusq.Threads.Sending
use nexusq.Threads.Sending.{SenderPc, SendMove, holds, outstanding}
use nexusq.Threads.Invariant.{IsFair}

module _ {ℓ} {A : Type ℓ} {tries : Bool} {q : NexusQ A} {pc : ℕ → SenderPc A} {m : ℕ}
    (fair : IsFair m q.write_head pc) (bound : m + 2 ≤ usize_max) (i : ℕ) where
  send-held :
      {p p' : SenderPc A} {q' : NexusQ A} {vs : List A}
      → SendMove tries q p q' vs p'
      → pc i ≡ p
      → (j id : ℕ) → holds (update pc i p' j) ≡ some id
      → (id ≡ m + length vs + 1) × (q'.write_head ≡ taken)
  unfolding Sending.replace_value Sending.store_id
  send-held (SendMove.take {id = id'} g) e j id h =
      ground (
        arith,
        fair.held j id,
        took q.write_head id' g,
        fair.here_or_away,
        leaves_taken q.write_head,
      )
  send-held (SendMove.try_wins {id = id'} g) e j id h =
      ground (
        arith,
        fair.held j id,
        took q.write_head id' g,
        fair.here_or_away,
        leaves_taken q.write_head,
      )
  send-held (SendMove.give_back {id = id'}) e j id h = ground (arith, fair.alone i j id' id)
  send-held (SendMove.pass {id = id'}) e j id h = ground (arith, fair.alone i j id' id)
  send-held (SendMove.miss g) e j id h = ground (arith, fair.held j id, leaves_taken q.write_head)
  send-held (SendMove.try_misses g) e j id h =
      ground (arith, fair.held j id, leaves_taken q.write_head)
  send-held mv e j id h = ground (arith, fair.held j id, fair.held i id)

  send_here :
      {p p' : SenderPc A} {q' : NexusQ A} {vs : List A}
      → SendMove tries q p q' vs p'
      → pc i ≡ p
      → (q'.write_head ≡ m + length vs + 1) ⊎ (q'.write_head ≡ taken)
  unfolding restore Sending.replace_value Sending.store_id
  send_here (SendMove.give_back {id = id'}) e = ground (arith, fair.held i id')
  send_here (SendMove.pass {id = id'}) e = ground (arith, fair.held i id')
  send_here (SendMove.take g) e = inr (leaves_taken q.write_head)
  send_here (SendMove.miss g) e = inr (leaves_taken q.write_head)
  send_here (SendMove.try_wins g) e = inr (leaves_taken q.write_head)
  send_here (SendMove.try_misses g) e = inr (leaves_taken q.write_head)
  send_here mv e = ground (arith, fair.here_or_away)

  send-alone :
      {p p' : SenderPc A} {q' : NexusQ A} {vs : List A}
      → SendMove tries q p q' vs p'
      → pc i ≡ p
      → (j k a b : ℕ) → holds (update pc i p' j) ≡ some a
      → holds (update pc i p' k) ≡ some b
      → j ≡ k
  send-alone (SendMove.take {id = id'} g) e j k a b x y =
      ground (arith, fair.held j a, fair.held k b, took q.write_head id' g)
  send-alone (SendMove.try_wins {id = id'} g) e j k a b x y =
      ground (arith, fair.held j a, fair.held k b, took q.write_head id' g)
  send-alone mv e j k a b x y = ground (
    arith,
    fair.alone j k a b,
    fair.alone i k (m + 1) b,
    fair.alone j i a (m + 1),
    fair.held j a,
    fair.held k b,
    fair.held i (m + 1),
  )

  send-passed :
      {p p' : SenderPc A} {q' : NexusQ A} {vs : List A}
      → SendMove tries q p q' vs p'
      → pc i ≡ p
      → (j id : ℕ) → outstanding (update pc i p' j) ≡ some id
      → (1 ≤ id) × (id ≤ m + length vs)
  send-passed (SendMove.pass {id = id'}) e j id h =
      ground (arith, fair.passed j id, fair.held i id')
  send-passed mv e j id h = ground (arith, fair.passed j id, fair.passed i id)

  send-once :
      {p p' : SenderPc A} {q' : NexusQ A} {vs : List A}
      → SendMove tries q p q' vs p'
      → pc i ≡ p
      → (j k id : ℕ) → outstanding (update pc i p' j) ≡ some id
      → outstanding (update pc i p' k) ≡ some id
      → j ≡ k
  send-once (SendMove.pass {id = id'}) e j k id x y =
      ground (arith, fair.passed j id, fair.passed k id, fair.held i id', fair.once j k id)
  send-once mv e j k id x y = ground (arith, fair.once j k id, fair.once i k id, fair.once j i id)

  pub SendMove-IsFair :
      {p' : SenderPc A} {q' : NexusQ A} {vs : List A}
      → SendMove tries q (pc i) q' vs p'
      → IsFair (m + length vs) q'.write_head (update pc i p')
  SendMove-IsFair mv = record {
    here_or_away = send_here mv refl;
    held = send-held mv refl;
    alone = send-alone mv refl;
    passed = send-passed mv refl;
    once = send-once mv refl;
  }
