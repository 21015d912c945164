-- ===== src/Threads/Composed.antt =====
-- What a thread does alone is part of a run of all threads.
use nexusq.Base.{
  ℕ, ◌≡◌, ◌≢◌, ◌∙◌, refl, Bool, List, ◌++◌, append-nil, append_assoc, update, update_self,
  update_ne,
}
use nexusq.Nexus.{NexusQ}
use nexusq.Threads.Sending.{SenderPc, SendMove}
use nexusq.Threads.SendRuns
use nexusq.Threads.SendRuns.{SendRun}
use nexusq.Threads.System.{System, Reach}
use nexusq.Threads.Race.{sends_next}

-- The run of all threads, with the sender `i` where its own run has led.
pub record IsRunOn {ℓ} {A : Type ℓ} (tries : Bool) (size : ℕ) (s : System A) (i : ℕ) (q : NexusQ A)
    (vs : List A) (p : SenderPc A) : Type ℓ where
  pub senders : ℕ → SenderPc A
  pub reached : Reach tries size (record s { nexus = q; senders = senders; log = s.log ++ vs })
  pub at : senders i ≡ p
  pub others : (j : ℕ) → i ≢ j → senders j ≡ s.senders j

-- The steps of a sender that runs alone, from a reachable state, lead to a reachable state, in which
-- only that sender stands elsewhere.
pub SendRun-Reach {ℓ} :
    {A : Type ℓ} {tries : Bool} {size : ℕ} (s : System A) (i : ℕ) {p p' : SenderPc A}
    {q q' : NexusQ A} {vs : List A}
    → Reach tries size s
    → s.nexus ≡ q
    → s.senders i ≡ p
    → SendRun tries q p q' vs p'
    → IsRunOn tries size s i q' vs p'
SendRun-Reach s i r same e SendRuns.stay = record {
  senders = s.senders;
  reached = rw (append-nil s.log, ← same) r;
  at = e;
  others = λ j apart. refl;
}
SendRun-Reach {tries = tries} s i {p} r same e
      (SendRuns.go {q' = q1} {p' = p1} {vs = vs} {ws = ws} mv run) =
    let here : SendMove tries s.nexus p q1 vs p1 = rw same mv in
    let r1 = sends_next r i e here in
    let rest =
      SendRun-Reach (record s { nexus = q1; senders = update s.senders i p1; log = s.log ++ vs }) i
        r1 refl (update_self s.senders i p1) run in
    record {
      senders = rest.senders;
      reached = rw (← append_assoc s.log vs ws) rest.reached;
      at = rest.at;
      others = λ j apart. rest.others j apart ∙ update_ne s.senders i j p1 apart;
    }
