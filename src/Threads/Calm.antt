-- ===== src/Threads/Calm.antt =====
-- Runs in which no thread begins a send and no receiver is cloned or dropped: the senders that have
-- put a message in line publish it, and the receivers read on.
use nexusq.Base.{
  ℕ, ◌≤◌, ◌≡◌, ◌∙◌, refl, sym, ap, Bool, [], none, some, none-ne-some, append-nil, length,
  length-set, get_elem?, set, set-set, set-get_elem?, get_elem?-set_self, update, update_ne,
}
use nexusq.Nexus.{NexusQ}
use nexusq.Threads.Sending.{SenderPc, SendMove, outstanding}
use nexusq.Threads.Receiving.{ReceiverPc, ReceiveMove, registered}
use nexusq.Threads.System.{System, sends, receives, Reach, later}
use nexusq.Threads.Sends.{send_keeps}
use nexusq.Threads.Receives.{receive_keeps}

module _ {ℓ} {A : Type ℓ} where
  pub data Calm (tries : Bool) (s : System A) : System A → Type ℓ where
    rest : Calm tries s s
    finish :
        {t : System A} {q : NexusQ A} {p : SenderPc A}
        → Calm tries s t
        → (i id : ℕ) → outstanding (t.senders i) ≡ some id
        → SendMove tries t.nexus (t.senders i) q [] p
        → Calm tries s (record t { nexus = q; senders = update t.senders i p })
    read_on :
        {t : System A} {q : NexusQ A} {r r' : ReceiverPc}
        → Calm tries s t
        → (k : ℕ) → get_elem? t.receivers k ≡ some r
        → ReceiveMove t.nexus r q r'
        → registered r ≤ registered r'
        → Calm tries s (record t { nexus = q; receivers = set t.receivers k r' })

  -- What such a run keeps.
  pub record Keeps (tries : Bool) (size : ℕ) (s t : System A) : Type ℓ where
    pub reach : Reach tries size s → Reach tries size t
    pub log : t.log ≡ s.log
    pub len : t.nexus.len ≡ s.nexus.len
    pub many : length t.receivers ≡ length s.receivers
    pub senders : (i : ℕ) → outstanding (s.senders i) ≡ none → t.senders i ≡ s.senders i

  pub Calm-Keeps :
      {tries : Bool} {size : ℕ} {s t : System A} → Calm tries s t → Keeps tries size s t
  Calm-Keeps rest = record {
    reach = λ run. run;
    log = refl;
    len = refl;
    many = refl;
    senders = λ i idle. refl;
  }
  Calm-Keeps {s = s} (finish {t = t} {q = q} {p = p} c i id out mv) =
      let k = Calm-Keeps c in
      record {
        reach = λ run. rw (append-nil t.log) at (later (k.reach run) (sends i mv));
        log = k.log;
        len = (send_keeps mv).0 ∙ k.len;
        many = k.many;
        senders = λ j idle.
            let kept = k.senders j idle in
            update_ne t.senders i j p (λ same. none-ne-some id (
              sym idle
              ∙ ap outstanding (sym kept)
              ∙ ap (λ x. outstanding (t.senders x)) (sym same)
              ∙ out))
            ∙ kept;
      }
  Calm-Keeps (read_on {t = t} {r' = r'} c j there mv up) =
      let k = Calm-Keeps c in
      record {
        reach = λ run. later (k.reach run) (receives j there mv);
        log = k.log;
        len = (receive_keeps mv).0 ∙ k.len;
        many = length-set t.receivers j r' ∙ k.many;
        senders = k.senders;
      }

  pub Calm-trans :
      {tries : Bool} {s t u : System A} → Calm tries s t → Calm tries t u → Calm tries s u
  Calm-trans c rest = c
  Calm-trans c (finish c' i id out mv) = finish (Calm-trans c c') i id out mv
  Calm-trans c (read_on c' k there mv up) = read_on (Calm-trans c c') k there mv up

-- The steps of one receiver that is not dropped
pub data Going {ℓ} {A : Type ℓ} : NexusQ A → ReceiverPc → NexusQ A → ReceiverPc → Type ℓ where
  stays : {q : NexusQ A} {r : ReceiverPc} → Going q r q r
  goes :
      {q q' q'' : NexusQ A} {r r' r'' : ReceiverPc}
      → ReceiveMove q r q' r'
      → registered r ≤ registered r'
      → Going q' r' q'' r''
      → Going q r q'' r''

pub Going-Calm {ℓ} :
    {A : Type ℓ} {tries : Bool} {s : System A} (t : System A) (k : ℕ) (r r' : ReceiverPc)
    {q q' : NexusQ A}
    → Calm tries s t
    → get_elem? t.receivers k ≡ some r
    → t.nexus ≡ q
    → Going q r q' r'
    → Calm tries s (record t { nexus = q'; receivers = set t.receivers k r' })
Going-Calm t k r r' c there same stays = rw (← same, set-get_elem? t.receivers k r there) c
Going-Calm t k r r'' c there same (goes {q' = q'} {r' = r'} mv up more) =
    let t' = record t { nexus = q'; receivers = set t.receivers k r' } in
    let rest_of =
      Going-Calm t' k r' r'' (read_on c k there (rw same mv) up)
        (get_elem?-set_self t.receivers k r r' there) refl more in
    rw (set-set t.receivers k r' r'') at rest_of
