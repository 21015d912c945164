-- ===== src/Wakeups/Served.antt =====
-- A program whose calls give no token back unused: whenever the token is there and somebody sleeps,
-- the threads that wait come to it by themselves.
use nexusq.Base.{
  ℕ, ◌≡◌, ◌≢◌, ◌∙◌, refl, ap, arith, Bool, true, false, update, ℕ_discrete, ==_ne, ==_self,
}
use nexusq.WaitStrategy.{taken}
use nexusq.WaitStrategy.Taking.{leaves_taken}
use nexusq.Wakeups
use nexusq.Wakeups.{
  Listener, Listeners, notified, present, Event, IsEvent, TakerPc, TakerMove, Takers, Step, moves,
  polled, Run, stay, later, begin,
}
use nexusq.Wakeups.Invariant.{
  Inv, IsServed, holds, registered, stirs, stirs-notified, move-known, move-Inv, polled-Inv,
  begin-Inv,
}

stirs_keeps :
    (p : TakerPc) (l l' : Listener)
    → (l ≡ notified → l' ≡ notified)
    → stirs p l ≡ true
    → stirs p l' ≡ true
stirs_keeps Wakeups.sleeping notified l' keeps e = rw (keeps refl) refl
stirs_keeps Wakeups.sleeping l l' keeps e = cc
stirs_keeps p l l' keeps e = ground arith

pub woken_listener :
    (p : TakerPc) (l : Listener) → stirs p l ≡ true → p ≡ Wakeups.sleeping → l ≡ notified
woken_listener Wakeups.sleeping notified st e = refl
woken_listener Wakeups.sleeping l st e = cc
woken_listener p l st e = cc

-- Who sleeps is at the event.
pub asleep_present :
    {t : Takers} (inv : Inv t) (k : ℕ) → t.pcs k ≡ Wakeups.sleeping → present (t.listeners k) ≡ true
asleep_present inv k e = inv.known k ∙ ap registered e

other_asleep :
    (pcs : ℕ → TakerPc) (i k : ℕ)
    → update pcs i Wakeups.idle k ≡ Wakeups.sleeping
    → (i ≢ k) × (pcs k ≡ Wakeups.sleeping)
other_asleep pcs i k e = elim (ℕ_discrete i k) [
  | yes same ↦ absurd (cc (rw (same, ==_self k) at e))
  | no apart ↦ (apart, rw (==_ne i k apart) at e)
]

module _ {e : Event} (law : IsEvent e) {t : Takers} (inv : Inv t) (served : IsServed t)
    (i : ℕ) where
  expire-IsServed :
      {l : Listeners}
      → e.discard i t.listeners l
      → t.pcs i ≡ Wakeups.sleeping
      → t.word ≢ taken
      → (k : ℕ) → update t.pcs i Wakeups.idle k ≡ Wakeups.sleeping
      → (j : ℕ) × (stirs (update t.pcs i Wakeups.idle j) (l j) ≡ true)
  expire-IsServed {l} d here free k asleep =
      let (apart, sleeps) = other_asleep t.pcs i k asleep in
      let (j, st) = served free k sleeps in
      elim (ℕ_discrete i j) [
        | yes same ↦
            let told = woken_listener (t.pcs j) (t.listeners j) st (rw (← same) here) in
            let (j', woken) =
              law.discard_passes i t.listeners l k d (rw same told) apart
                (asleep_present inv k sleeps) in
            (
              j',
              stirs-notified _ _ woken
                  (move-known law {gives = false} inv i (Wakeups.expire d) here j'),
            )
        | no other ↦ (
          j,
          rw (==_ne i j other)
              (stirs_keeps (t.pcs j) _ _ (law.discard_keeps i t.listeners l d j other) st),
        )
      ]

  notify-IsServed :
      {l : Listeners}
      → e.notify 1 t.listeners l
      → t.pcs i ≡ Wakeups.passing
      → (k : ℕ) → update t.pcs i Wakeups.idle k ≡ Wakeups.sleeping
      → (j : ℕ) × (stirs (update t.pcs i Wakeups.idle j) (l j) ≡ true)
  notify-IsServed {l} n here k asleep =
      let (apart, sleeps) = other_asleep t.pcs i k asleep in
      let (j, woken) =
        law.notify_reaches 1 t.listeners l k n (omega arith) (asleep_present inv k sleeps) in
      (j, stirs-notified _ _ woken (move-known law {gives = false} inv i (Wakeups.notify n) here j))

  move-IsServed :
      {p p' : TakerPc} {w : ℕ} {l : Listeners}
      → TakerMove e false i t.word t.listeners p w l p'
      → t.pcs i ≡ p
      → w ≢ taken
      → (k : ℕ) → update t.pcs i p' k ≡ Wakeups.sleeping
      → (j : ℕ) × (stirs (update t.pcs i p' j) (l j) ≡ true)
  move-IsServed (Wakeups.grab got) here free k asleep = absurd (free (leaves_taken t.word))
  move-IsServed (Wakeups.miss got) here free k asleep = absurd (free (leaves_taken t.word))
  move-IsServed (Wakeups.first_hit got d) here free k asleep = absurd (free (leaves_taken t.word))
  move-IsServed (Wakeups.first_miss got) here free k asleep = absurd (free (leaves_taken t.word))
  move-IsServed (Wakeups.second_hit got) here free k asleep = absurd (free (leaves_taken t.word))
  move-IsServed (Wakeups.second_miss got) here free k asleep = absurd (free (leaves_taken t.word))
  move-IsServed (Wakeups.lose {id = id}) here free k asleep =
      absurd (free (inv.away i id (ap holds here)))
  move-IsServed (Wakeups.give_back g) here free k asleep = cc
  move-IsServed (Wakeups.expire d) here free k asleep = expire-IsServed d here free k asleep
  move-IsServed (Wakeups.notify n) here free k asleep = notify-IsServed n here k asleep
  move-IsServed mv here free k asleep = (i, ground arith)

Step-Inv : {e : Event} {gives : Bool} {t u : Takers} → IsEvent e → Step e gives t u → Inv t → Inv u
Step-Inv law (moves i mv) inv = move-Inv law inv i mv
Step-Inv law (polled i here) inv = polled-Inv inv i here

pub Run-Inv : {e : Event} {gives : Bool} {t : Takers} → IsEvent e → Run e gives begin t → Inv t
Run-Inv law stay = begin-Inv
Run-Inv law (later r st) = Step-Inv law st (Run-Inv law r)

pub Run-IsServed : {e : Event} {t : Takers} → IsEvent e → Run e false begin t → IsServed t
Run-IsServed law stay = λ free i asleep. cc
Run-IsServed law (later r (moves i mv)) =
    move-IsServed law (Run-Inv law r) (Run-IsServed law r) i mv refl
Run-IsServed law (later r (polled i here)) = λ free k asleep. (i, ground arith)
