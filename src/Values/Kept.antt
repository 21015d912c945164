-- ===== src/Values/Kept.antt =====
-- No value is lost, and none is dropped twice.
use mathlib.Core.List.{Perm, perm_append_comm}
use mathlib.Core.List.Perm
use nexusq.Base.{
  ℕ, zero, suc, ◌^◌, ◌≤◌, ◌<◌, ◌≡◌, ◌∙◌, inl, inr, refl, arith, List, [], ◌∷◌, ◌++◌, append_assoc,
  some, Option-cases, Bool-cases, ◌==◌, get_elem?, ok, err,
}
use native.Mathlib.Nat.{mod-lt}
use nexusq.FastMod.Laws.{fast_mod-eq-mod}
use nexusq.Nexus.{NexusQ, index}
use nexusq.WaitStrategy.{taken}
use nexusq.Cell
use nexusq.Sender
use nexusq.Broadcast.{Op, send, recv, poll, recv_batch, clone, drop}
use nexusq.Session.{Session, step}
use nexusq.Session.View.{len-try_send}
use nexusq.Values.{held, given_back, dropped_by, taken_in, let_out, all_in, all_out, after}
use nexusq.Values.Moves.{
  held_by-update, HoldsAs, held-HoldsAs, try_recv-HoldsAs, poll_next-HoldsAs, clone-HoldsAs,
  drop-HoldsAs, try_recv_batch-HoldsAs,
}

one_le_pow : (e : ℕ) → 1 ≤ 2 ^ e
one_le_pow zero = omega arith
one_le_pow (suc e) = omega (arith, one_le_pow e)

module _ {ℓ} {A : Type ℓ} where
  inside : (q : NexusQ A) (e : ℕ) → q.len ≡ 2 ^ e → (id : ℕ) → index q id < q.len
  inside q e power id = rw (power, fast_mod-eq-mod e id) (mod-lt id (one_le_pow e))

  -- A `try_send` publishes its value, or gives it back and changes no cell.
  data Sends (q : NexusQ A) (value : A) : Sender.SendResult A × NexusQ A → Type ℓ where
    publishes : Sends q value (
      ok tt,
      Sender.publish (Sender.pass_token (Sender.try_take_head q).1 q.write_head) q.write_head value,
    )
    refuses :
        (e : Sender.SendError A) (q' : NexusQ A)
        → given_back (err e) ≡ value ∷ []
        → HoldsAs q q'
        → Sends q value (err e, q')

  try_send-Sends : (q : NexusQ A) (value : A) → Sends q value (Sender.try_send q value)
  unfolding Sender.try_send Sender.try_take_head Sender.restore_head
  try_send-Sends q value = elim (Bool-cases (q.num_receivers == 0)) [
    | inl gone ↦ rw gone (refuses (Sender.disconnected (some value)) q refl (refl, λ i. refl))
    | inr there ↦ rw there (elim (Bool-cases (q.write_head == taken)) [
      | inl away ↦
          rw away (refuses (Sender.full value) (Sender.try_take_head q).1 refl (refl, λ i. refl))
      | inr free ↦
          rw free (elim (Bool-cases (Cell.safe_to_write (q.cells (index q q.write_head)))) [
            | inl safe ↦ rw safe publishes
            | inr unsafe ↦ rw unsafe (refuses (Sender.full value) _ refl (refl, λ i. refl))
          ])
    ])
  ]

  Sends-perm :
      (q : NexusQ A) (e : ℕ)
      → q.len ≡ 2 ^ e
      → (value : A) (answer : Sender.SendResult A × NexusQ A) → Sends q value answer
      → Perm
          ((given_back answer.0 ++ dropped_by q value answer.0) ++ held answer.1)
          (value ∷ held q)
  unfolding dropped_by Sender.publish Sender.try_take_head Sender.pass_token Sender.restore_head
  Sends-perm q e power value answer publishes =
      held_by-update q.cells (index q q.write_head) _ q.len (inside q e power q.write_head)
  Sends-perm q e power value answer (refuses e' q' back same) =
      rw (back, held-HoldsAs q q' same) (Perm.refl _)

  -- What the other calls do to the values.
  pub step-HoldsAs :
      (s : Session A) (op : Op A) → taken_in op ≡ [] → HoldsAs s.nexus (step s op).1.nexus
  unfolding step
  step-HoldsAs s (send value) e = absurd (cc)
  step-HoldsAs s (recv k) e = elim (Option-cases (get_elem? s.receivers k)) [
    | inl absent ↦ rw (absent, step) (refl, λ i. refl)
    | inr (r, alive) ↦ rw (alive, step) (try_recv-HoldsAs r s.nexus)
  ]
  step-HoldsAs s (poll k) e = elim (Option-cases (get_elem? s.receivers k)) [
    | inl absent ↦ rw (absent, step) (refl, λ i. refl)
    | inr (r, alive) ↦ rw (alive, step) (poll_next-HoldsAs r s.nexus)
  ]
  step-HoldsAs s (recv_batch k n) e = elim (Option-cases (get_elem? s.receivers k)) [
    | inl absent ↦ rw (absent, step) (refl, λ i. refl)
    | inr (r, alive) ↦ rw (alive, step) (try_recv_batch-HoldsAs r s.nexus n [])
  ]
  step-HoldsAs s (clone k) e = elim (Option-cases (get_elem? s.receivers k)) [
    | inl absent ↦ rw (absent, step) (refl, λ i. refl)
    | inr (r, alive) ↦ rw (alive, step) (clone-HoldsAs r s.nexus)
  ]
  step-HoldsAs s (drop k) e = elim (Option-cases (get_elem? s.receivers k)) [
    | inl absent ↦ rw (absent, step) (refl, λ i. refl)
    | inr (r, alive) ↦ rw (alive, step) (drop-HoldsAs r s.nexus)
  ]

  kept-perm :
      (s : Session A) (op : Op A)
      → taken_in op ≡ []
      → let_out s op ≡ []
      → Perm (let_out s op ++ held (step s op).1.nexus) (taken_in op ++ held s.nexus)
  kept-perm s op in_none out_none =
      rw (in_none, out_none, held-HoldsAs s.nexus (step s op).1.nexus (step-HoldsAs s op in_none))
        (Perm.refl _)

  step-perm :
      (s : Session A) (e : ℕ)
      → s.nexus.len ≡ 2 ^ e
      → (op : Op A) → Perm (let_out s op ++ held (step s op).1.nexus) (taken_in op ++ held s.nexus)
  unfolding let_out step
  step-perm s e power (send value) =
      Sends-perm s.nexus e power value _ (try_send-Sends s.nexus value)
  step-perm s e power (recv k) = kept-perm s (recv k) refl refl
  step-perm s e power (poll k) = kept-perm s (poll k) refl refl
  step-perm s e power (recv_batch k n) = kept-perm s (recv_batch k n) refl refl
  step-perm s e power (clone k) = kept-perm s (clone k) refl refl
  step-perm s e power (drop k) = kept-perm s (drop k) refl refl

  pub step-len : (s : Session A) (op : Op A) → (step s op).1.nexus.len ≡ s.nexus.len
  unfolding step
  step-len s (send value) = len-try_send s.nexus value
  step-len s (recv k) = (step-HoldsAs s (recv k) refl).0
  step-len s (poll k) = (step-HoldsAs s (poll k) refl).0
  step-len s (recv_batch k n) = (step-HoldsAs s (recv_batch k n) refl).0
  step-len s (clone k) = (step-HoldsAs s (clone k) refl).0
  step-len s (drop k) = (step-HoldsAs s (drop k) refl).0

  -- The first two of three parts change places.
  swap_first-perm : (xs ys zs : List A) → Perm (xs ++ (ys ++ zs)) (ys ++ (xs ++ zs))
  swap_first-perm xs ys zs =
      rw (← append_assoc xs ys zs, ← append_assoc ys xs zs)
        (Perm.append_right zs (perm_append_comm xs ys))

  -- The accounts of a call and of the calls behind it, put together.
  accounts-perm :
      (out more_out ins more_in before after end : List A)
      → Perm (out ++ after) (ins ++ before)
      → Perm (more_out ++ end) (more_in ++ after)
      → Perm ((out ++ more_out) ++ end) ((ins ++ more_in) ++ before)
  accounts-perm out more_out ins more_in before after end first rest =
      rw (append_assoc out more_out end, append_assoc ins more_in before)
        (Perm.trans (Perm.append_left out rest) (
          Perm.trans (swap_first-perm out more_in after)
            (Perm.trans (Perm.append_left more_in first) (swap_first-perm more_in ins before))))

  -- Every value that a program's sends bring in is afterwards in exactly one place: in a cell,
  -- dropped by the publication that took its cell, or back with the caller of the send that failed.
  -- So it is for any sequence of `try_send`, `try_recv`, `poll_next`, `try_recv_batch`, clones and
  -- drops of receivers, on any ring whose length is a power of two: as often as a value came in or
  -- was in a cell before, as often it went out or is in a cell at the end.
  pub all_out-perm :
      (ops : List (Op A)) (s : Session A) (e : ℕ)
      → s.nexus.len ≡ 2 ^ e
      → Perm (all_out s ops ++ held (after s ops).nexus) (all_in ops ++ held s.nexus)
  unfolding all_out after
  all_out-perm [] s e power = Perm.refl _
  all_out-perm (op ∷ ops) s e power =
      accounts-perm (let_out s op) (all_out (step s op).1 ops) (taken_in op) (all_in ops)
        (held s.nexus) (held (step s op).1.nexus) (held (after (step s op).1 ops).nexus)
        (step-perm s e power op) (all_out-perm ops (step s op).1 e (step-len s op ∙ power))
