-- ===== src/Threads/Progress.antt =====
-- What goes on without a new send: an id that is passed on gets into its cell, a receiver reads the
-- next message.
use nexusq.Base.{
  ℕ, ◌+◌, ◌≤◌, ◌<◌, ◌≡◌, ◌∙◌, inl, inr, refl, ap, arith, Bool, some, length, get_elem?, set,
  get_elem?-set_self, update, update_self,
}
use nexusq.Nexus.{NexusQ}
use nexusq.Threads.Sending
use nexusq.Threads.Sending.{SenderPc, outstanding, cell_of, store_id}
use nexusq.Threads.Receiving
use nexusq.Threads.Receiving.{ReceiverPc, resting}
use nexusq.Threads.System.{System, Reach}
use nexusq.Threads.Reachable.{IsRoomy, Reach-Inv}
use nexusq.Threads.Complete.{IsComplete, Reach-IsTended}
use nexusq.Threads.Calm.{Calm, rest, finish, Keeps, Calm-Keeps, stays, goes, Going-Calm}

module _ {ℓ} {A : Type ℓ} where
  stored : (q : NexusQ A) (id : ℕ) → (cell_of (store_id q id) id).current_id ≡ id
  unfolding store_id
  stored q id = ground arith

  -- The same receivers, and the id in its cell
  record InCell (tries : Bool) (s : System A) (id : ℕ) : Type ℓ where
    after : System A
    run : Calm tries s after
    same : after.receivers ≡ s.receivers
    there : (cell_of after.nexus id).current_id ≡ id

  publishes :
      {tries : Bool} {s : System A} (t : System A) (j id : ℕ)
      → Calm tries s t
      → t.receivers ≡ s.receivers
      → t.senders j ≡ Sending.publishing id
      → InCell tries s id
  publishes t j id c same e = record {
    after = record t { nexus = store_id t.nexus id; senders = update t.senders j Sending.idle };
    run = finish c j id (ap outstanding e) (rw e Sending.publish);
    same = same;
    there = stored t.nexus id;
  }

  stores :
      {tries : Bool} (s : System A) (j id : ℕ) (p : SenderPc A)
      → s.senders j ≡ p
      → outstanding p ≡ some id
      → InCell tries s id
  stores s j id (Sending.writing id' v) e out =
      let mine : s.senders j ≡ Sending.writing id v = e ∙ ap (λ x. Sending.writing x v) (cc) in
      publishes
        (record s {
          nexus = Sending.replace_value s.nexus id v;
          senders = update s.senders j (Sending.publishing id);
        })
        j id (finish rest j id (ap outstanding mine) (rw mine Sending.write)) refl
        (update_self s.senders j (Sending.publishing id))
  stores s j id (Sending.publishing id') e out =
      publishes s j id rest refl (e ∙ ap Sending.publishing (cc))
  stores s j id p e out = cc

  stored_soon :
      {tries : Bool} {s : System A} (id : ℕ)
      → IsComplete s
      → 1 ≤ id
      → id ≤ length s.log
      → length s.log < id + s.nexus.len
      → InCell tries s id
  stored_soon {s = s} id complete lo hi near = elim (complete id lo hi near) [
    | inl it ↦ record { after = s; run = rest; same = refl; there = it }
    | inr (j, out) ↦ stores s j id (s.senders j) refl out
  ]

  pub Keeps-IsRoomy :
      {tries : Bool} {size : ℕ} {s t : System A} → Keeps tries size s t → IsRoomy s → IsRoomy t
  Keeps-IsRoomy k room = record { ids = rw k.log room.ids; few = rw k.many room.few }

  -- One receiver that is now elsewhere
  pub record Moved (tries : Bool) (s : System A) (k : ℕ) (r : ReceiverPc) : Type ℓ where
    pub after : System A
    pub run : Calm tries s after
    pub moved : after.receivers ≡ set s.receivers k r

module _ {ℓ} {A : Type ℓ} {tries : Bool} {size : ℕ} where
  pub reads_next :
      {s : System A} (k last : ℕ)
      → IsRoomy s
      → Reach tries size s
      → get_elem? s.receivers k ≡ some (resting last)
      → last < length s.log
      → Moved tries s k (resting (last + 1))
  reads_next {s} k last room run there more =
      let w = (Reach-Inv room run).watched k (resting last) there refl in
      let st : InCell tries s (last + 1) =
        stored_soon (last + 1) (Reach-IsTended room run k (resting last) there refl) (omega arith)
          (omega arith) (omega (arith, w.near)) in
      record {
        after = _;
        run =
            Going-Calm st.after k (resting last) (resting (last + 1)) st.run (rw st.same there) refl
              (goes (Receiving.see st.there) (omega arith) (
                goes Receiving.enter (omega arith)
                  (goes Receiving.leave (omega arith) (goes Receiving.read (omega arith) stays))));
        moved = ap (λ rs. set rs k (resting (last + 1))) st.same;
      }

  -- In every reachable state, with room for ids and receivers: a receiver that rests behind the
  -- last message that is put in line can read the next one, although its sender may not have
  -- published it yet. A run in which no send begins, and no clone or drop, takes it there, and the
  -- line stays as it is.
  pub receive_goes_on :
      (s : System A) (k last : ℕ)
      → IsRoomy s
      → Reach tries size s
      → get_elem? s.receivers k ≡ some (resting last)
      → last < length s.log
      → (t : System A) × Calm tries s t
        × (get_elem? t.receivers k ≡ some (resting (last + 1)))
        × (t.log ≡ s.log)
  receive_goes_on s k last room run there more =
      let it = reads_next k last room run there more in
      (
        it.after,
        it.run,
        rw it.moved (get_elem?-set_self s.receivers k (resting last) (resting (last + 1)) there),
        (Calm-Keeps {size = size} it.run).log,
      )
