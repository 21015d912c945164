-- ===== src/Wakeups/Invariant.antt =====
-- What holds in every run of the takers: one of them at most has the token, and who sleeps while the
-- token is there is not alone.
use nexusq.Base.{
  ℕ, ◌≡◌, ◌≢◌, ◌∙◌, refl, sym, ap, arith, Bool, true, false, Option, none, some, update, ℕ_discrete,
  ==_ne, ==_self,
}
use nexusq.WaitStrategy.{taken, try_take}
use nexusq.WaitStrategy.Taking.{took}
use nexusq.Wakeups
use nexusq.Wakeups.{
  Listener, Listeners, notified, present, Event, IsEvent, TakerPc, TakerMove, Takers, begin,
}

-- The id that a thread holds, and whether it has a listener at the event
abbrev pub holds : TakerPc → Option ℕ
holds (Wakeups.holding id) = some id
holds _ = none

abbrev pub registered : TakerPc → Bool
registered Wakeups.looking = true
registered Wakeups.sleeping = true
registered _ = false

-- A thread that will look for the token, or is about to wake another
abbrev pub stirs : TakerPc → Listener → Bool
stirs Wakeups.arming l = true
stirs Wakeups.looking l = true
stirs Wakeups.sleeping notified = true
stirs Wakeups.woken l = true
stirs Wakeups.passing l = true
stirs _ _ = false

pub record Inv (t : Takers) : Type 0 where
  pub away : (i id : ℕ) → holds (t.pcs i) ≡ some id → t.word ≡ taken
  pub alone : (i j a b : ℕ) → holds (t.pcs i) ≡ some a → holds (t.pcs j) ≡ some b → i ≡ j
  pub known : (i : ℕ) → present (t.listeners i) ≡ registered (t.pcs i)

-- Where the token is there, nobody sleeps unless somebody stirs.
abbrev pub IsServed : Takers → Type 0
IsServed t =
    t.word ≢ taken
    → (i : ℕ) → t.pcs i ≡ Wakeups.sleeping
    → (j : ℕ) × (stirs (t.pcs j) (t.listeners j) ≡ true)

pub stirs-notified :
    (p : TakerPc) (l : Listener) → l ≡ notified → present l ≡ registered p → stirs p l ≡ true
stirs-notified Wakeups.looking l e h = refl
stirs-notified Wakeups.sleeping l e h = rw e refl
stirs-notified Wakeups.arming l e h = refl
stirs-notified p l e h = ground arith

-- A listener that is dropped is gone, and the others stay.
dropped :
    {e : Event} (law : IsEvent e) (i : ℕ) {l l' : Listeners} (p : TakerPc) (pcs : ℕ → TakerPc)
    → e.discard i l l'
    → registered p ≡ false
    → ((j : ℕ) → present (l j) ≡ registered (pcs j))
    → (j : ℕ) → present (l' j) ≡ registered (update pcs i p j)
dropped law i {l} {l'} p pcs d out known j = elim (ℕ_discrete i j) [
  | yes same ↦ rw (← same, ==_self i, law.discard_gone i l l' d) (sym out)
  | no apart ↦ rw (==_ne i j apart) (law.discard_present i l l' d j apart ∙ known j)
]

module _ {e : Event} (law : IsEvent e) {gives : Bool} {t : Takers} (inv : Inv t) (i : ℕ) where
  open inv use {away, alone, known}

  pub move-known :
      {p p' : TakerPc} {w : ℕ} {l : Listeners}
      → TakerMove e gives i t.word t.listeners p w l p'
      → t.pcs i ≡ p
      → (j : ℕ) → present (l j) ≡ registered (update t.pcs i p' j)
  move-known (Wakeups.first_hit got d) here j = dropped law i _ t.pcs d refl known j
  move-known (Wakeups.expire d) here j = dropped law i _ t.pcs d refl known j
  move-known (Wakeups.notify n) here j =
      law.notify_present 1 t.listeners _ n j ∙ ground (arith, known j)
  move-known mv here j = ground (arith, known j)

  move-away :
      {p p' : TakerPc} {w : ℕ} {l : Listeners}
      → TakerMove e gives i t.word t.listeners p w l p'
      → t.pcs i ≡ p
      → (j id : ℕ) → holds (update t.pcs i p' j) ≡ some id
      → w ≡ taken
  unfolding try_take
  move-away (Wakeups.pass {id = held}) here j id h = elim (ℕ_discrete i j) [
    | yes same ↦ ground arith
    | no apart ↦ absurd (apart (alone i j held id (ap holds here) (ground arith)))
  ]
  move-away (Wakeups.give_back {id = held} g) here j id h = elim (ℕ_discrete i j) [
    | yes same ↦ ground arith
    | no apart ↦ absurd (apart (alone i j held id (ap holds here) (ground arith)))
  ]
  move-away mv here j id h = ground (arith, away j id)

  move-alone :
      {p p' : TakerPc} {w : ℕ} {l : Listeners}
      → TakerMove e gives i t.word t.listeners p w l p'
      → t.pcs i ≡ p
      → (j k a b : ℕ) → holds (update t.pcs i p' j) ≡ some a
      → holds (update t.pcs i p' k) ≡ some b
      → j ≡ k
  move-alone (Wakeups.grab got) here j k a b x y =
      ground (arith, alone j k a b, away j a, away k b, took t.word _ got)
  move-alone (Wakeups.first_hit got d) here j k a b x y =
      ground (arith, alone j k a b, away j a, away k b, took t.word _ got)
  move-alone (Wakeups.second_hit got) here j k a b x y =
      ground (arith, alone j k a b, away j a, away k b, took t.word _ got)
  move-alone mv here j k a b x y = ground (arith, alone j k a b)

  pub move-Inv :
      {w : ℕ} {l : Listeners} {p : TakerPc}
      → TakerMove e gives i t.word t.listeners (t.pcs i) w l p
      → Inv (record { word = w; listeners = l; pcs = update t.pcs i p })
  move-Inv mv = record {
    away = move-away mv refl;
    alone = move-alone mv refl;
    known = move-known mv refl;
  }

pub polled-Inv :
    {t : Takers} (inv : Inv t) (i : ℕ)
    → t.pcs i ≡ Wakeups.sleeping
    → Inv (record t { pcs = update t.pcs i Wakeups.looking })
polled-Inv inv i here = record {
  away = λ j id h. ground (arith, inv.away j id);
  alone = λ j k a b x y. ground (arith, inv.alone j k a b);
  known = λ j. ground (arith, inv.known j);
}

pub begin-Inv : Inv begin
begin-Inv = record { away = λ i id h. cc; alone = λ i j a b x y. cc; known = λ i. refl }
