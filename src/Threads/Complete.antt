-- ===== src/Threads/Complete.antt =====
-- Every message of the last round is in its cell, or its sender is still about to put it there.
use nexusq.Base.{
  ℕ, ◌+◌, ◌-◌, ◌%◌, ◌<◌, ◌≤◌, ◌≡◌, ◌≢◌, ◌∙◌, ◌⊎◌, inl, inr, refl, sym, ap, arith, Bool, true, List,
  [], ◌∷◌, ◌++◌, none, some, none-ne-some, some-injective, append-nil, length, length-append,
  get_elem?, set, ℕ_discrete, update, update_self, eq_of_mod-eq,
}
use nexusq.Nexus.{NexusQ}
use nexusq.Threads.Sending
use nexusq.Threads.Sending.{SenderPc, SendMove, holds, outstanding}
use nexusq.Threads.Receiving
use nexusq.Threads.Receiving.{ReceiverPc, present, enter_cell}
use nexusq.Threads.System.{System, Step, sends, receives, clones, begin, Reach, start, later}
use nexusq.Ring.Recount.{entered-SameMessages}
use nexusq.Threads.Invariant.{Inv}
use nexusq.Threads.Sends.{send_keeps}
use nexusq.Threads.Receives.{receive_keeps, mover_present}
use nexusq.Threads.Reachable.{IsRoomy, Step-IsRoomy, Reach-Inv}

module _ {ℓ} {A : Type ℓ} where
  -- What a step of a sender does to the ids in the cells and to those that are outstanding.
  data Doing (q : NexusQ A) (p : SenderPc A) (q' : NexusQ A) (vs : List A) (p' : SenderPc A)
      : Type ℓ where
    nothing :
        vs ≡ []
        → outstanding p' ≡ outstanding p
        → ((i : ℕ) → (q'.cells i).current_id ≡ (q.cells i).current_id)
        → Doing q p q' vs p'
    passes :
        (id : ℕ) (v : A)
        → vs ≡ v ∷ []
        → holds p ≡ some id
        → outstanding p ≡ none
        → outstanding p' ≡ some id
        → ((i : ℕ) → (q'.cells i).current_id ≡ (q.cells i).current_id)
        → Doing q p q' vs p'
    publishes :
        (id : ℕ)
        → vs ≡ []
        → outstanding p ≡ some id
        → (q'.cells (id % q.len)).current_id ≡ id
        → ((i : ℕ) → id % q.len ≢ i → (q'.cells i).current_id ≡ (q.cells i).current_id)
        → Doing q p q' vs p'

  does :
      {tries : Bool} {q q' : NexusQ A} {p p' : SenderPc A} {vs : List A}
      → SendMove tries q p q' vs p'
      → Doing q p q' vs p'
  unfolding Sending.replace_value Sending.store_id
  does (Sending.pass {id = id} {v = v}) = passes id v refl refl refl refl (λ i. refl)
  does {q = q} (Sending.publish {id = id}) =
      publishes id refl refl (ground arith) (λ i apart. ground arith)
  does {q = q} (Sending.write {id = id} {v = v}) = nothing refl refl (λ i. ground arith)
  does mv = nothing refl refl (λ i. refl)

  abbrev pub IsComplete : System A → Type 0
  IsComplete s =
      (id : ℕ)
      → 1 ≤ id
      → id ≤ length s.log
      → length s.log < id + s.nexus.len
      → ((s.nexus.cells (id % s.nexus.len)).current_id ≡ id)
        ⊎ ((i : ℕ) × (outstanding (s.senders i) ≡ some id))

  still_out :
      (pc : ℕ → SenderPc A) (i j id : ℕ) (p' : SenderPc A)
      → outstanding p' ≡ outstanding (pc i)
      → outstanding (pc j) ≡ some id
      → outstanding (update pc i p' j) ≡ some id
  still_out pc i j id p' same out = ground (arith)

  other_out :
      (pc : ℕ → SenderPc A) (i j id : ℕ) (p' : SenderPc A)
      → i ≢ j
      → outstanding (pc j) ≡ some id
      → outstanding (update pc i p' j) ≡ some id
  other_out pc i j id p' apart out = ground arith

  does-IsComplete :
      {s : System A} (inv : Inv s) (k : ℕ) (r : ReceiverPc)
      → get_elem? s.receivers k ≡ some r
      → present r ≡ true
      → (i : ℕ) (q : NexusQ A) (vs : List A) (p : SenderPc A) → q.len ≡ s.nexus.len
      → Doing s.nexus (s.senders i) q vs p
      → IsComplete s
      → IsComplete (record s { nexus = q; senders = update s.senders i p; log = s.log ++ vs })
  does-IsComplete {s} inv k r there here i q vs p len (nothing silent same ids) complete =
      rw (silent, append-nil s.log, len)
        (λ id lo hi near. elim (complete id lo hi near) [
          | inl stored ↦ inl (ids (id % s.nexus.len) ∙ stored)
          | inr (j, out) ↦ inr (j, still_out s.senders i j id p same out)
        ])
  does-IsComplete {s} inv k r there here i q vs p len (passes id' v one has idle out' ids)
        complete =
      let grown : length (s.log ++ vs) ≡ length s.log + 1 = rw one (length-append s.log (v ∷ [])) in
      rw (grown, len)
        (λ id lo hi near. elim (ℕ_discrete id (length s.log + 1)) [
          | yes new ↦
              let taken : id' ≡ id = (inv.fair.held i id' has).0 ∙ sym new in
              inr (i, ap outstanding (update_self s.senders i p) ∙ out' ∙ ap some taken)
          | no old ↦ elim (complete id lo (omega arith) (omega arith)) [
            | inl stored ↦ inl (ids (id % s.nexus.len) ∙ stored)
            | inr (j, out) ↦
                let apart : i ≢ j = λ same.
                  none-ne-some id (sym idle ∙ ap (λ x. outstanding (s.senders x)) same ∙ out) in
                inr (j, other_out s.senders i j id p apart out)
          ]
        ])
  does-IsComplete {s} inv k r there here i q vs p len (publishes id' silent out stored ids)
        complete =
      rw (silent, append-nil s.log, len)
        (λ id lo hi near. elim (ℕ_discrete (id' % s.nexus.len) (id % s.nexus.len)) [
          | yes meet ↦
              let w = inv.watched k r there here in
              let same : id' ≡ id =
                eq_of_mod-eq s.nexus.len (length s.log + 1 - s.nexus.len) id' id
                  (omega (arith, w.near, w.ahead, w.finished i id' out))
                  (omega (arith, inv.fair.passed i id' out)) (omega arith) (omega arith) meet in
              inl (rw same at stored)
          | no apart ↦ elim (complete id lo hi near) [
            | inl old ↦ inl (ids (id % s.nexus.len) apart ∙ old)
            | inr (j, out_j) ↦
                let others : i ≢ j = λ same. apart (
                  ap (λ x. x % s.nexus.len)
                    (some-injective id' id
                      (sym out ∙ ap (λ x. outstanding (s.senders x)) same ∙ out_j))) in
                inr (j, other_out s.senders i j id p others out_j)
          ]
        ])

  receive-IsComplete :
      (s : System A) (q : NexusQ A) (rs : List ReceiverPc)
      → q.len ≡ s.nexus.len
      → ((i : ℕ) → (q.cells i).current_id ≡ (s.nexus.cells i).current_id)
      → IsComplete s
      → IsComplete (record s { nexus = q; receivers = rs })
  receive-IsComplete s q rs len ids complete = rw len (λ id lo hi near.
      elim (complete id lo hi near) [
        | inl stored ↦ inl (ids (id % s.nexus.len) ∙ stored)
        | inr out ↦ inr out
      ])

  -- It holds while some receiver is there.
  abbrev pub IsTended : System A → Type 0
  IsTended s =
      (k : ℕ) (r : ReceiverPc) → get_elem? s.receivers k ≡ some r → present r ≡ true → IsComplete s

  step-IsTended : {tries : Bool} {s t : System A} → Inv s → Step tries s t → IsTended s → IsTended t
  unfolding enter_cell
  step-IsTended {s = s} inv (sends i {q = q} {messages = vs} {p = p} mv) tended k r there here =
      does-IsComplete inv k r there here i q vs p (send_keeps mv).0 (does mv)
        (tended k r there here)
  step-IsTended {s = s} inv (receives k {r = r} {r' = r'} {q = q} e mv) tended j x there here =
      receive-IsComplete s q (set s.receivers k r') (receive_keeps mv).0
        (λ i. ((receive_keeps mv).2 i).0) (tended k r e (mover_present mv))
  step-IsTended {s = s} inv (clones k {last = last} e) tended j x there here =
      receive-IsComplete s (enter_cell s.nexus last) (s.receivers ++ Receiving.born last ∷ []) refl
        (λ i. (entered-SameMessages s.nexus.cells (last % s.nexus.len) i).0)
        (tended k (Receiving.resting last) e refl)

  pub Reach-IsTended :
      {tries : Bool} {size : ℕ} {s : System A} → IsRoomy s → Reach tries size s → IsTended s
  unfolding begin
  Reach-IsTended room (start c made) = λ k r there here id lo hi near. absurd (omega arith)
  Reach-IsTended {tries = tries} room (later r st) =
      let before = Step-IsRoomy {tries = tries} st room in
      step-IsTended (Reach-Inv before r) st (Reach-IsTended before r)
