-- ===== src/Session/Refine.antt =====
-- No sequence of calls tells the ring from the abstract channel.
use mathlib.Core.Path.{ap₂}
use nexusq.Base.{
  ◌+◌, ◌≤◌, ◌<◌, ◌≡◌, ◌∙◌, refl, ap, arith, List, [], ◌∷◌, Option-cases, inl, inr, length,
  get_elem?, usize_max,
}
use nexusq.Broadcast
use nexusq.Broadcast.{Broadcast, Op, send, recv, poll, recv_batch, clone, drop}
use nexusq.Ring.{IsValid}
use nexusq.Session.{Session, step, run}
use nexusq.Session.Agrees.{
  Agrees, view_of, send-Agrees, recv-Agrees, recv_batch-Agrees, clone-Agrees, drop-Agrees,
  absent-Agrees,
}

module _ {ℓ} {A : Type ℓ} where
  pub step-Agrees :
      (op : Op A) {s : Session A} {log : List A}
      → IsValid s.nexus s.receivers log
      → length log + 2 ≤ usize_max
      → length s.receivers + 1 < usize_max
      → Agrees s log (step s op) (Broadcast.step (view_of s log) op)
  step-Agrees (send value) v more few = send-Agrees value v more
  step-Agrees (recv k) {s} v more few = elim (Option-cases (get_elem? s.receivers k)) [
    | inl absent ↦ (absent-Agrees k v absent).0
    | inr (r, alive) ↦ (recv-Agrees k r v alive).0
  ]
  step-Agrees (poll k) {s} v more few = elim (Option-cases (get_elem? s.receivers k)) [
    | inl absent ↦ (absent-Agrees k v absent).3
    | inr (r, alive) ↦ (recv-Agrees k r v alive).1
  ]
  step-Agrees (recv_batch k n) {s} v more few = elim (Option-cases (get_elem? s.receivers k)) [
    | inl absent ↦ (absent-Agrees k v absent).4 n
    | inr (r, alive) ↦ recv_batch-Agrees k r n v alive
  ]
  step-Agrees (clone k) {s} v more few = elim (Option-cases (get_elem? s.receivers k)) [
    | inl absent ↦ (absent-Agrees k v absent).1
    | inr (r, alive) ↦ clone-Agrees k r v alive few
  ]
  step-Agrees (drop k) {s} v more few = elim (Option-cases (get_elem? s.receivers k)) [
    | inl absent ↦ (absent-Agrees k v absent).2
    | inr (r, alive) ↦ drop-Agrees k r v alive
  ]

  -- From a valid state, any sequence of calls that do not wait (`try_send`,
  -- `try_recv`, `poll_next`, `try_recv_batch`, clones and drops) gets the
  -- answers of the abstract channel with `len - 1` places, as long as neither the ids nor the
  -- receivers can run out of words.
  pub run_refines :
      (ops : List (Op A)) {s : Session A} {log : List A}
      → IsValid s.nexus s.receivers log
      → length log + length ops + 1 ≤ usize_max
      → length s.receivers + length ops < usize_max
      → run s ops ≡ Broadcast.run (view_of s log) ops
  unfolding run Broadcast.run
  run_refines [] v more few = refl
  run_refines (op ∷ ops) {s} {log} v more few =
      let a = step-Agrees op v (omega arith) (omega arith) in
      let rest =
        run_refines ops a.valid (omega (arith, a.longer)) (omega (arith, a.more_receivers)) in
      ap₂ ◌∷◌ a.reply (rest ∙ ap (λ b. Broadcast.run b ops) a.state)
