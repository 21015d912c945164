-- ===== src/Session/Agrees.antt =====
-- One call on the ring, against the abstract channel.
use mathlib.Core.Path.{ap₂}
use nexusq.Base.{
  ℕ, ◌+◌, ◌-◌, ◌≤◌, ◌<◌, ◌≡◌, ◌∙◌, refl, ap, arith, List, [], ◌∷◌, none, some, length,
  length-append, length-set, length-erase_idx, map, get_elem?, set, map-set, map-erase_idx,
  map-snoc, get_elem?-map-some, get_elem?-map-none, usize_max,
}
use nexusq.Receiver
use nexusq.Receiver.{Receiver}
use nexusq.Receiver.Lifetime.{clone-IsValid, drop-IsValid}
use nexusq.Broadcast
use nexusq.Broadcast.{
  Broadcast, send, recv, poll, recv_batch, polled, batched, clone, drop, Reply, received,
  no_receiver, accept,
}
use nexusq.Broadcast.Laws.{length-accept}
use nexusq.Ring.{IsValid, position}
use nexusq.Session.{Session, step}
use nexusq.Session.View.{
  view, try_send_refines, try_recv_refines, poll_next_refines, len-try_send, len-try_recv,
  len-poll_next, len-try_recv_batch,
}
use nexusq.Batch.Laws.{try_recv_batch_refines}
use nexusq.Nexus.{NexusQ}

module _ {ℓ} {A : Type ℓ} where
  abbrev pub view_of : Session A → List A → Broadcast A
  view_of s log = view s.nexus s.receivers log

  -- The answer to a call, and the state that it leaves.
  pub record Agrees (s : Session A) (log : List A) (answer : Reply A × Session A)
      (expected : Reply A × Broadcast A) : Type ℓ where
    pub log' : List A
    pub reply : answer.0 ≡ expected.0
    pub state : view_of answer.1 log' ≡ expected.1
    pub valid : IsValid answer.1.nexus answer.1.receivers log'
    pub longer : length log' ≤ length log + 1
    pub more_receivers : length answer.1.receivers ≤ length s.receivers + 1

  no_change :
      {s : Session A} {log : List A}
      → IsValid s.nexus s.receivers log
      → Agrees s log (no_receiver, s) (no_receiver, view_of s log)
  no_change {log} v = record {
    log' = log;
    reply = refl;
    state = refl;
    valid = v;
    longer = omega arith;
    more_receivers = omega arith;
  }

  pub send-Agrees :
      {s : Session A} {log : List A} (value : A)
      → IsValid s.nexus s.receivers log
      → length log + 2 ≤ usize_max
      → Agrees s log (step s (send value)) (Broadcast.step (view_of s log) (send value))
  unfolding step Broadcast.step
  send-Agrees {s} {log} value v more =
      let (answer, w) = try_send_refines v more value in
      record {
        log' = (accept (view_of s log) value).1;
        reply = ap Reply.sent answer;
        state = λ i. record {
          room = len-try_send s.nexus value i - 1;
          log = (accept (view_of s log) value).1;
          positions = map position s.receivers;
        };
        valid = w;
        longer = length-accept (view_of s log) value;
        more_receivers = omega arith;
      }

  -- A receiver that moves, and nothing else.
  moved-Agrees :
      {s : Session A} {log : List A} (k : ℕ) (r' : Receiver) (q' : NexusQ A)
      {answer expected : Reply A} {p' : ℕ}
      → answer ≡ expected
      → position r' ≡ p'
      → q'.len ≡ s.nexus.len
      → IsValid q' (set s.receivers k r') log
      → Agrees s log
          (answer, record { nexus = q'; receivers = set s.receivers k r' })
          (expected, record (view_of s log) { positions = set (map position s.receivers) k p' })
  moved-Agrees {s} {log} k r' q' reply moved same v = record {
    log' = log;
    reply = reply;
    state = λ i. record {
      room = same i - 1;
      log = log;
      positions =
          (map-set position s.receivers k r' ∙ ap (set (map position s.receivers) k) moved) i;
    };
    valid = v;
    longer = omega arith;
    more_receivers = omega (arith, length-set s.receivers k r');
  }

  pub recv-Agrees :
      {s : Session A} {log : List A} (k : ℕ) (r : Receiver)
      → IsValid s.nexus s.receivers log
      → get_elem? s.receivers k ≡ some r
      → Agrees s log (step s (recv k)) (Broadcast.step (view_of s log) (recv k))
        × Agrees s log (step s (poll k)) (Broadcast.step (view_of s log) (poll k))
  unfolding step Broadcast.step
  recv-Agrees {s} {log} k r v alive =
      let (reply, moved, w) = try_recv_refines v k r alive in
      let (reply', moved', event, w') = poll_next_refines v k r alive in
      rw (alive, get_elem?-map-some position s.receivers k r alive, step, Broadcast.step)
        (
          moved-Agrees k _ _ (ap received reply) moved (len-try_recv s.nexus r) w,
          moved-Agrees k _ _ (ap polled reply') moved' (len-poll_next s.nexus r) w',
        )

  pub recv_batch-Agrees :
      {s : Session A} {log : List A} (k : ℕ) (r : Receiver) (n : ℕ)
      → IsValid s.nexus s.receivers log
      → get_elem? s.receivers k ≡ some r
      → Agrees s log (step s (recv_batch k n)) (Broadcast.step (view_of s log) (recv_batch k n))
  unfolding step Broadcast.step
  recv_batch-Agrees {s} {log} k r n v alive =
      let (count, buffer, moved, w) = try_recv_batch_refines v k r alive n [] in
      rw (alive, get_elem?-map-some position s.receivers k r alive, step, Broadcast.step)
        (moved-Agrees k _ _ (ap₂ batched count buffer) moved (len-try_recv_batch s.nexus r n []) w)

  pub clone-Agrees :
      {s : Session A} {log : List A} (k : ℕ) (r : Receiver)
      → IsValid s.nexus s.receivers log
      → get_elem? s.receivers k ≡ some r
      → length s.receivers + 1 < usize_max
      → Agrees s log (step s (clone k)) (Broadcast.step (view_of s log) (clone k))
  unfolding step Broadcast.step Receiver.clone
  clone-Agrees {s} {log} k r v alive few =
      rw (alive, get_elem?-map-some position s.receivers k r alive, step, Broadcast.step)
        record {
          log' = log;
          reply = refl;
          state = λ i. record {
            room = s.nexus.len - 1;
            log = log;
            positions = map-snoc position s.receivers (Receiver.clone r s.nexus).0 i;
          };
          valid = (clone-IsValid v k r alive few).1;
          longer = omega arith;
          more_receivers =
              omega (arith, length-append s.receivers ((Receiver.clone r s.nexus).0 ∷ []));
        }

  pub drop-Agrees :
      {s : Session A} {log : List A} (k : ℕ) (r : Receiver)
      → IsValid s.nexus s.receivers log
      → get_elem? s.receivers k ≡ some r
      → Agrees s log (step s (drop k)) (Broadcast.step (view_of s log) (drop k))
  unfolding step Broadcast.step Receiver.drop
  drop-Agrees {s} {log} k r v alive =
      rw (alive, get_elem?-map-some position s.receivers k r alive, step, Broadcast.step)
        record {
          log' = log;
          reply = refl;
          state = λ i. record {
            room = s.nexus.len - 1;
            log = log;
            positions = map-erase_idx position s.receivers k i;
          };
          valid = drop-IsValid v k r alive;
          longer = omega arith;
          more_receivers = omega (arith, length-erase_idx s.receivers k r alive);
        }

  -- An operation on a receiver that is not there.
  pub absent-Agrees :
      {s : Session A} {log : List A} (k : ℕ)
      → IsValid s.nexus s.receivers log
      → get_elem? s.receivers k ≡ none
      → Agrees s log (step s (recv k)) (Broadcast.step (view_of s log) (recv k))
        × Agrees s log (step s (clone k)) (Broadcast.step (view_of s log) (clone k))
        × Agrees s log (step s (drop k)) (Broadcast.step (view_of s log) (drop k))
        × Agrees s log (step s (poll k)) (Broadcast.step (view_of s log) (poll k))
        × ((n : ℕ)
            → Agrees s log
                (step s (recv_batch k n))
                (Broadcast.step (view_of s log) (recv_batch k n)))
  unfolding step Broadcast.step
  absent-Agrees {s} {log} k v absent =
      let absent' = get_elem?-map-none position s.receivers k absent in
      (
        rw (absent, absent', step, Broadcast.step) (no_change v),
        rw (absent, absent', step, Broadcast.step) (no_change v),
        rw (absent, absent', step, Broadcast.step) (no_change v),
        rw (absent, absent', step, Broadcast.step) (no_change v),
        λ n. rw (absent, absent', step, Broadcast.step) (no_change v),
      )
