-- ===== src/Threads/Refine.antt =====
-- Every run of all threads is one of the line of messages.
use nexusq.Base.{
  ℕ, ◌+◌, ◌-◌, ◌%◌, ◌≤◌, ◌≡◌, ◌∙◌, ◌⊎◌, inl, inr, refl, sym, ap, arith, Bool, true, List, [], ◌∷◌,
  ◌++◌, Option, none, some, none-ne-some, some-injective, Option-cases, map, append-nil, get_elem?,
  set, map-set, map-snoc, set-get_elem?, get_elem?-map-some, get_elem?-map-none,
}
use native.Mathlib.Nat.{add_assoc}
use nexusq.Nexus.{NexusQ}
use nexusq.Threads.Sending
use nexusq.Threads.Sending.{SenderPc, SendMove, may_write}
use nexusq.Threads.Receiving
use nexusq.Threads.Receiving.{ReceiverPc, ReceiveMove, low, present, enter_cell}
use nexusq.Threads.System.{System, Step, sends, receives, clones, begin, Reach, start, later}
use nexusq.Threads.Invariant.{Inv}
use nexusq.Threads.Sends.{send_keeps}
use nexusq.Threads.Receives.{receive_keeps}
use nexusq.Threads.Reachable.{IsRoomy, Step-IsRoomy, Reach-Inv}
use nexusq.Threads.Exclusion.{reads, reads_message}
use nexusq.Threads.Events.{
  Event, put, observed, events, trace, Line, HasRoom, puts, gets, forks, retires, Plays, none_yet,
  then_one,
}

-- How many messages a receiver has read.
abbrev pub position_of : ReceiverPc → Option ℕ
position_of (Receiving.resting last) = some last
position_of (Receiving.seen last) = some last
position_of (Receiving.entered last) = some last
position_of (Receiving.left last) = some last
position_of (Receiving.gathering last n) = some (last + n)
position_of (Receiving.copying last n) = some (last + n)
position_of (Receiving.jumped last n) = some (last + n)
position_of (Receiving.born last) = some last
position_of (Receiving.dropping last) = some last
position_of Receiving.gone = none

-- Who has a position is there, and stands at most on the cell of the next message.
position-low :
    (r : ReceiverPc) (p : ℕ) → position_of r ≡ some p → (present r ≡ true) × (low r ≤ p + 1)
position-low r p e = ground arith

positioned :
    (rs : List ReceiverPc) (k p : ℕ)
    → get_elem? (map position_of rs) k ≡ some (some p)
    → (r : ReceiverPc) × (get_elem? rs k ≡ some r) × (position_of r ≡ some p)
positioned rs k p e = elim (Option-cases (get_elem? rs k)) [
  | inl absent ↦ absurd (none-ne-some _ (sym (get_elem?-map-none position_of rs k absent) ∙ e))
  | inr (r, there) ↦
      (r, there, some-injective _ _ (sym (get_elem?-map-some position_of rs k r there) ∙ e))
]

module _ {ℓ} {A : Type ℓ} where
  abbrev pub line_of : System A → Line A
  line_of s = record { len = s.nexus.len; log = s.log; positions = map position_of s.receivers }

  -- A send puts its message in line when it has found its cell free.
  put_or_silent :
      {tries : Bool} {q q' : NexusQ A} {p p' : SenderPc A} {vs : List A}
      → SendMove tries q p q' vs p'
      → (vs ≡ []) ⊎ ((v : A) × (vs ≡ v ∷ []) × (may_write p ≡ true))
  put_or_silent (Sending.pass {v = v}) = inr (v, refl, refl)
  put_or_silent mv = inl refl

  clear-HasRoom :
      {s : System A} (inv : Inv s) (i : ℕ) → may_write (s.senders i) ≡ true → HasRoom (line_of s)
  clear-HasRoom {s} inv i clear k p e =
      let (r, there, at) = positioned s.receivers k p e in
      let (here, below) = position-low r p at in
      omega (arith, (inv.watched k r there here).clear i clear, below)

  -- What a receiver that stands where it reads will find
  abbrev Finds : System A → ReceiverPc → Type ℓ
  Finds s r =
      (id : ℕ)
      → reads r ≡ some id
      → (message : A) × ((s.nexus.cells (id % s.nexus.len)).value ≡ some message)
        × (get_elem? s.log (id - 1) ≡ some message)

  silent-Plays :
      {l : Line A} {es : List (Event A)} (s : System A) (k : ℕ) (r r' : ReceiverPc)
      → Plays l es (line_of s)
      → get_elem? s.receivers k ≡ some r
      → position_of r' ≡ position_of r
      → Plays l
          (es ++ [])
          (record (line_of s) { positions = set (map position_of s.receivers) k (position_of r') })
  silent-Plays {es = es} s k r r' played there same =
      let at = get_elem?-map-some position_of s.receivers k r there in
      rw (append-nil es, same, set-get_elem? (map position_of s.receivers) k (position_of r) at)
        played

  -- A step that reads moves the receiver's position on, a drop takes it away, and no other step of a
  -- receiver changes it.
  receive-Plays :
      {l : Line A} {es : List (Event A)} (s : System A) (k : ℕ) (r r' : ReceiverPc) {q : NexusQ A}
      → Plays l es (line_of s)
      → get_elem? s.receivers k ≡ some r
      → Finds s r
      → ReceiveMove s.nexus r q r'
      → Plays l
          (es ++ observed s.nexus k r)
          (record (line_of s) { positions = set (map position_of s.receivers) k (position_of r') })
  receive-Plays {l} {es} s k r r' played there finds (Receiving.read {last = last}) =
      let (m, stored, logged) = finds (last + 1) refl in
      rw stored (
        then_one played (
          gets k last m (get_elem?-map-some position_of s.receivers k r there)
            (ap (get_elem? s.log) (omega arith) ∙ logged)))
  receive-Plays {l} {es} s k r r' played there finds (Receiving.copy {last = last} {n = n}) =
      let (m, stored, logged) = finds (last + n + 1) refl in
      rw (stored, ← add_assoc last n 1)
        (then_one played (
          gets k (last + n) m (get_elem?-map-some position_of s.receivers k r there)
            (ap (get_elem? s.log) (omega arith) ∙ logged)))
  receive-Plays {l} {es} s k r r' played there finds (Receiving.depart {last = last}) =
      then_one played (retires k last (get_elem?-map-some position_of s.receivers k r there))
  receive-Plays {l} {es} s k r r' played there finds
        (Receiving.stop {last = last} {n = n} none_read) =
      silent-Plays s k r r' played there (ap some (omega arith))
  receive-Plays {l} {es} s k r r' played there finds Receiving.gather =
      silent-Plays s k r r' played there (ap some (omega arith))
  receive-Plays {l} {es} s k r r' played there finds mv = silent-Plays s k r r' played there refl

  send-Plays :
      {tries : Bool} {l : Line A} {es : List (Event A)} {s : System A} (inv : Inv s) (i : ℕ)
      {q : NexusQ A} {vs : List A} {p : SenderPc A}
      → Plays l es (line_of s)
      → SendMove tries s.nexus (s.senders i) q vs p
      → Plays l (es ++ map (λ v. put v) vs) (record (line_of s) { log = s.log ++ vs })
  send-Plays {es = es} {s = s} inv i {vs = vs} played mv = elim (put_or_silent mv) [
    | inl silent ↦ rw (silent, append-nil es, append-nil s.log) played
    | inr (v, one, clear) ↦ rw one (then_one played (puts v (clear-HasRoom inv i clear)))
  ]

  -- The line of a new channel, with the receiver that comes with it
  abbrev pub first_line : (len : ℕ) → Line A
  first_line len = record { len = len; log = []; positions = some 0 ∷ [] }

  step-len : {tries : Bool} {s t : System A} → Step tries s t → t.nexus.len ≡ s.nexus.len
  unfolding enter_cell
  step-len (sends i mv) = (send_keeps mv).0
  step-len (receives k e mv) = (receive_keeps mv).0
  step-len (clones k e) = refl

  step-Plays :
      {tries : Bool} {size : ℕ} {l : Line A} {es : List (Event A)} {s t : System A}
      → IsRoomy s
      → Reach tries size s
      → (st : Step tries s t) → Plays l es (line_of s)
      → Plays l (es ++ events st) (line_of t)
  unfolding enter_cell
  step-Plays room run (sends i mv) played =
      rw (send_keeps mv).0 (send-Plays (Reach-Inv room run) i played mv)
  step-Plays {s = s} room run (receives k {r = r} {r' = r'} e mv) played =
      rw ((receive_keeps mv).0, map-set position_of s.receivers k r')
        (receive-Plays s k r r' played e (λ id at. reads_message room run k r id e at) mv)
  step-Plays {s = s} room run (clones k {last = last} e) played =
      rw (map-snoc position_of s.receivers (Receiving.born last))
        (then_one played (forks k last (get_elem?-map-some position_of s.receivers k _ e)))

  -- In every run of any number of threads, an access to the shared state at a time, with room for
  -- ids and receivers: what the clients see happen, the messages put in line, each message that a
  -- receiver reads, with what it finds in the cell, and the clones and drops of receivers, is in this
  -- order allowed by the line of messages, one log that every receiver reads in order from where it
  -- began, with at most a ring of messages that some receiver has not read; and what the run leads to
  -- stands for the line's state then.
  pub trace_refines :
      {tries : Bool} {size : ℕ} {s : System A}
      → IsRoomy s
      → (run : Reach tries size s) → Plays (first_line s.nexus.len) (trace run) (line_of s)
  unfolding trace begin
  trace_refines room (start c made) = none_yet
  trace_refines {tries = tries} room (later r st) =
      let before = Step-IsRoomy {tries = tries} st room in
      step-Plays before r st (rw (step-len st) (trace_refines before r))
