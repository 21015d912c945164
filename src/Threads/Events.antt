-- ===== src/Threads/Events.antt =====
-- What a run of all threads does to the channel as its clients see it, and the line of messages that
-- they should see: one log, and for each receiver how many of its messages it has read.
use nexusq.Base.{
  ℕ, ◌+◌, ◌%◌, ◌<◌, ◌≡◌, Bool, List, [], ◌∷◌, ◌++◌, Option, none, some, map, length, get_elem?, set,
}
use nexusq.Nexus.{NexusQ}
use nexusq.Threads.Receiving
use nexusq.Threads.Receiving.{ReceiverPc}
use nexusq.Threads.System.{System, Step, sends, receives, clones, Reach, start, later}

pub data Event {ℓ} (A : Type ℓ) : Type ℓ where
  put : A → Event A
  got : (k : ℕ) → Option A → Event A
  cloned retired : (k : ℕ) → Event A

module _ {ℓ} {A : Type ℓ} where
  -- A receiver reads its next message, as it finds it in the cell, when it leaves the cell before,
  -- or in a round of a batch.
  abbrev pub observed : NexusQ A → ℕ → ReceiverPc → List (Event A)
  observed q k (Receiving.left last) = got k (q.cells ((last + 1) % q.len)).value ∷ []
  observed q k (Receiving.copying last n) = got k (q.cells ((last + n + 1) % q.len)).value ∷ []
  observed q k (Receiving.dropping last) = retired k ∷ []
  observed q k _ = []

  -- The events of one step, and those of a run
  abbrev pub events : {tries : Bool} {s t : System A} → Step tries s t → List (Event A)
  events (sends i {messages = vs} mv) = map (λ v. put v) vs
  events {s = s} (receives k {r = r} e mv) = observed s.nexus k r
  events (clones k e) = cloned k ∷ []

  unfoldable pub trace :
      {tries : Bool} {size : ℕ} {s : System A} → Reach tries size s → List (Event A)
  trace (start c made) = []
  trace (later r st) = trace r ++ events st

-- `none` is a receiver that is gone.
pub record Line {ℓ} (A : Type ℓ) : Type ℓ where
  pub len : ℕ
  pub log : List A
  pub positions : List (Option ℕ)

module _ {ℓ} {A : Type ℓ} where
  -- No receiver that is there has a whole ring of messages to read.
  abbrev pub HasRoom : Line A → Type 0
  HasRoom l = (k p : ℕ) → get_elem? l.positions k ≡ some (some p) → length l.log < p + l.len

  -- What the line of messages allows.
  pub data Allows (l : Line A) : Event A → Line A → Type ℓ where
    puts : (v : A) → HasRoom l → Allows l (put v) (record l { log = l.log ++ v ∷ [] })
    gets :
        (k p : ℕ) (m : A)
        → get_elem? l.positions k ≡ some (some p)
        → get_elem? l.log p ≡ some m
        → Allows l (got k (some m)) (record l { positions = set l.positions k (some (p + 1)) })
    forks :
        (k p : ℕ)
        → get_elem? l.positions k ≡ some (some p)
        → Allows l (cloned k) (record l { positions = l.positions ++ some p ∷ [] })
    retires :
        (k p : ℕ)
        → get_elem? l.positions k ≡ some (some p)
        → Allows l (retired k) (record l { positions = set l.positions k none })

  pub data Plays (l : Line A) : List (Event A) → Line A → Type ℓ where
    none_yet : Plays l [] l
    then_one :
        {es : List (Event A)} {e : Event A} {l' l'' : Line A}
        → Plays l es l'
        → Allows l' e l''
        → Plays l (es ++ e ∷ []) l''
