-- ===== src/Threads/SendRuns.antt =====
-- src/sender.rs: a call of `try_send` or `send` that no other thread disturbs takes its steps one by
-- one to the state that the whole method makes.
use mathlib.Core.Path.{fun_ext}
use nexusq.Base.{
  ℕ, ◌%◌, ◌^◌, ◌≡◌, ◌∙◌, refl, sym, ap, arith, Bool, false, none, some, Option-cases, inl, inr, ◌⊎◌,
  List, [], ◌∷◌, ◌++◌, ok, err, update_self, ℕ_discrete, ==_ne,
}
use nexusq.WaitStrategy.{try_take}
use nexusq.Cell
use nexusq.Cell.{Cell}
use nexusq.FastMod.Laws.{fast_mod-eq-mod}
use nexusq.Nexus.{NexusQ, index, with_cell}
use nexusq.Sender
use nexusq.Sender.{
  SendResult, try_take_head, restore_head, pass_token, publish, send, send_held, take_head, Others,
}
use nexusq.Threads.Sending
use nexusq.Threads.Sending.{SenderPc, SendMove, cell_of}

-- The steps of one sender, with no steps of others between them.
pub data SendRun {ℓ} {A : Type ℓ} (tries : Bool)
    : NexusQ A → SenderPc A → NexusQ A → List A → SenderPc A → Type ℓ where
  stay : {q : NexusQ A} {p : SenderPc A} → SendRun tries q p q [] p
  go :
      {q q' q'' : NexusQ A} {p p' p'' : SenderPc A} {vs ws : List A}
      → SendMove tries q p q' vs p'
      → SendRun tries q' p' q'' ws p''
      → SendRun tries q p q'' (vs ++ ws) p''

-- What a send puts in line
abbrev pub sent_by {ℓ} : {A : Type ℓ} → SendResult A → A → List A
sent_by (ok _) value = value ∷ []
sent_by (err _) value = []

with_cell-with_cell {ℓ} :
    {A : Type ℓ} (q : NexusQ A) (i : ℕ) (f g : Cell A → Cell A)
    → with_cell (with_cell q i f) i g ≡ with_cell q i (λ c. g (f c))
unfolding with_cell
with_cell-with_cell q i f g =
    ap (λ cells. record q { cells = cells })
      (fun_ext (λ j. rw (update_self q.cells i (f (q.cells i))) (ground arith)))

pub index-mod {ℓ} : {A : Type ℓ} (q : NexusQ A) (k id : ℕ) → q.len ≡ 2 ^ k → index q id ≡ id % q.len
index-mod q k id e = rw (e, fast_mod-eq-mod k id)

-- The two halves of `write_and_publish`
store_id-replace_value {ℓ} :
    {A : Type ℓ} (q : NexusQ A) (k id : ℕ) (value : A)
    → q.len ≡ 2 ^ k
    → Sending.store_id (Sending.replace_value q id value) id ≡ publish q id value
unfolding with_cell Sending.store_id Sending.replace_value publish Cell.write_and_publish
    Cell.notify_all
store_id-replace_value q k id value e =
    with_cell-with_cell q (id % q.len) (λ c. record c { value = some value })
      (λ c. Cell.notify_all (record c { current_id = id }))
    ∙ ap (λ i. with_cell q i (λ c. (Cell.write_and_publish c value id).0))
        (sym (index-mod q k id e))

-- Nobody changes the state while a call waits.
abbrev undisturbed {ℓ} : {A : Type ℓ} → Others A
undisturbed = record { taking = λ q. q; draining = λ q. q }

-- The steps of `send` once it has the token
send_held_runs {ℓ} :
    {A : Type ℓ} (q : NexusQ A) (id : ℕ) (value : A) (k : ℕ)
    → q.len ≡ 2 ^ k
    → (send_held (λ s. s) id q value ≡ none)
      ⊎ ((result : SendResult A) × (q' : NexusQ A) × (send_held (λ s. s) id q value
            ≡ some (result, q'))
          × SendRun false q (Sending.holding id value) q' (sent_by result value) Sending.idle)
unfolding send_held pass_token restore_head Sender.notify_one Cell.wait_for_write_safe
send_held_runs q id value k e = elim (ℕ_discrete (cell_of q id).read_counter 0) [
  | no used ↦ inl (rw (index-mod q k id e, ==_ne _ 0 used, send_held))
  | yes free ↦ elim (ℕ_discrete q.num_receivers 0) [
    | yes none_left ↦ inr (
      err (Sender.disconnected (some value)),
      q,
      rw (index-mod q k id e, free, none_left, send_held),
      go (Sending.look_free free) (go (Sending.disconnected none_left) stay),
    )
    | no some_left ↦ inr (
      ok tt,
      publish (pass_token q id) id value,
      rw (index-mod q k id e, free, ==_ne q.num_receivers 0 some_left, send_held),
      rw (← store_id-replace_value (pass_token q id) k id value e) (
          go (Sending.look_free free) (
            go (Sending.connected some_left)
              (go Sending.pass (go Sending.write (go Sending.publish stay))))),
    )
  ]
]

-- A call of `send` that runs alone, on a ring whose length is a power of two, waits, or returns
-- with the state that its steps lead to, one access at a time, and with the value in line if and
-- only if it reports success.
pub send_runs {ℓ} :
    {A : Type ℓ} (q : NexusQ A) (value : A) (k : ℕ)
    → q.len ≡ 2 ^ k
    → (send undisturbed q value ≡ none)
      ⊎ ((result : SendResult A) × (q' : NexusQ A) × (send undisturbed q value ≡ some (result, q'))
          × SendRun false q Sending.idle q' (sent_by result value) Sending.idle)
unfolding send take_head try_take_head
send_runs q value k e = elim (Option-cases (try_take q.write_head).0) [
  | inl missed ↦ inl (rw (missed, take_head, send) refl)
  | inr (id, won) ↦
      let taken_now : take_head (λ s. s) q ≡ (some id, (try_take_head q).1) =
        rw (won, take_head) refl in
      elim (send_held_runs (try_take_head q).1 id value k e) [
        | inl waits ↦ inl (rw (ap (λ t. t.0) taken_now, ap (λ t. t.1) taken_now, send) waits)
        | inr (result, q', there, run) ↦ inr (
          result,
          q',
          rw (ap (λ t. t.0) taken_now, ap (λ t. t.1) taken_now, send) there,
          go (Sending.take won) run,
        )
      ]
]
