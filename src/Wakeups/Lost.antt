-- ===== src/Wakeups/Lost.antt =====
-- src/sender.rs: `restore(id)` of `try_send` and `try_send_before`, with no `notify_one` behind it.
use nexusq.Base.{
  ℕ, ◌⊎◌, inl, inr, ◌≡◌, ◌≢◌, ◌∙◌, refl, ap, arith, Bool, true, false, none, Option-cases, update,
  ℕ_discrete, ==_ne, ==_self,
}
use nexusq.WaitStrategy.{restore}
use nexusq.Wakeups
use nexusq.Wakeups.{
  Listener, Listeners, notified, Event, TakerPc, TakerMove, Takers, Step, moves, Run, begin, Onward,
  stand, go, IsEvent,
}
use nexusq.Wakeups.Invariant.{Inv, holds, stirs}
use nexusq.Wakeups.Served.{Run-Inv}

-- The state in which nobody is left to do anything about the token.
record IsDeserted (id k : ℕ) (t : Takers) : Type 0 where
  back : t.word ≡ id
  still : (j : ℕ) → stirs (t.pcs j) (t.listeners j) ≡ false
  unheld : (j : ℕ) → holds (t.pcs j) ≡ none
  rests : (t.pcs k ≡ Wakeups.sleeping) ⊎ (t.pcs k ≡ Wakeups.idle)

unnotified : (l : Listener) → stirs Wakeups.sleeping l ≡ false → l ≢ notified
unnotified l still e = cc (rw e at still)

stirs_silent :
    (p : TakerPc) (l l' : Listener)
    → (l' ≡ notified → l ≡ notified)
    → stirs p l ≡ false
    → stirs p l' ≡ false
stirs_silent Wakeups.sleeping l notified silent e = rw (silent refl) at e
stirs_silent Wakeups.sleeping l l' silent e = refl
stirs_silent p l l' silent e = ground arith

-- Who sleeps and does not stir can only come to its deadline.
only_expires :
    {e : Event} {gives : Bool} {i word w : ℕ} {l l' : Listeners} {p p' : TakerPc}
    → TakerMove e gives i word l p w l' p'
    → p ≢ Wakeups.idle
    → stirs p (l i) ≡ false
    → holds p ≡ none
    → (p ≡ Wakeups.sleeping) × (w ≡ word) × (p' ≡ Wakeups.idle) × e.discard i l l'
only_expires (Wakeups.expire d) busy still out = (refl, refl, refl, d)
only_expires (Wakeups.wake told) busy still out = absurd (cc (rw told at still))
only_expires (Wakeups.grab got) busy still out = absurd (busy refl)
only_expires (Wakeups.miss got) busy still out = absurd (busy refl)
only_expires Wakeups.call busy still out = absurd (busy refl)
only_expires mv busy still out = cc

module _ {e : Event} (law : IsEvent e) {id k : ℕ} where
  move-IsDeserted :
      {gives : Bool} {t : Takers} (i : ℕ) {w : ℕ} {l : Listeners} {p : TakerPc}
      → IsDeserted id k t
      → t.pcs i ≢ Wakeups.idle
      → TakerMove e gives i t.word t.listeners (t.pcs i) w l p
      → IsDeserted id k (record { word = w; listeners = l; pcs = update t.pcs i p })
  move-IsDeserted {t = t} i {w} {l} {p} s busy mv =
      let (asleep, same, out, d) = only_expires mv busy (s.still i) (s.unheld i) in
      let silent = law.discard_silent i t.listeners l d (unnotified _ (rw asleep at (s.still i))) in
      rw out (record {
        back = same ∙ s.back;
        still = λ j. elim (ℕ_discrete i j) [
          | yes self ↦ rw (self, ==_self j) refl
          | no other ↦ rw (==_ne i j other) (stirs_silent (t.pcs j) _ (l j) (silent j) (s.still j))
        ];
        unheld = λ j. ground (arith, s.unheld j);
        rests = ground (arith, s.rests);
      })

  Onward-IsDeserted :
      {gives : Bool} {t u : Takers} → IsDeserted id k t → Onward e gives t u → IsDeserted id k u
  Onward-IsDeserted s stand = s
  Onward-IsDeserted s (go r i busy mv) = move-IsDeserted i (Onward-IsDeserted s r) busy mv

-- The state after thread `i` has given back `id`
abbrev pub given_back : Takers → (i id : ℕ) → Takers
given_back t i id = record t { word = restore t.word id; pcs = update t.pcs i Wakeups.idle }

given_back-IsDeserted :
    {t : Takers} (i k id : ℕ)
    → Inv t
    → t.pcs i ≡ Wakeups.holding id
    → t.pcs k ≡ Wakeups.sleeping
    → ((j : ℕ) → stirs (t.pcs j) (t.listeners j) ≡ false)
    → IsDeserted id k (given_back t i id)
unfolding restore
given_back-IsDeserted {t} i k id inv has asleep still = record {
  back = refl;
  still = λ j. ground (arith, still j);
  unheld = λ j. elim (ℕ_discrete i j) [
    | yes self ↦ rw (self, ==_self j) refl
    | no other ↦ rw (==_ne i j other) (elim (Option-cases (holds (t.pcs j))) [
      | inl free ↦ free
      | inr (id', x) ↦ absurd (other (inv.alone i j id id' (ap holds has) x))
    ])
  ];
  rests = inl (ground arith);
}

-- In a program that gives tokens back unused: thread `i` holds the token, thread `k` sleeps, and
-- nobody is awake to look for the token or has a notification. When `i` gives the token back, then
-- for as long as no thread begins a call, and no task is polled that is not woken, the token is there and is not taken, and `k` sleeps, or has
-- come to its deadline.
pub given_back_sleeps :
    (e : Event) {t u : Takers}
    → IsEvent e
    → Run e true begin t
    → (i k id : ℕ) → t.pcs i ≡ Wakeups.holding id
    → t.pcs k ≡ Wakeups.sleeping
    → ((j : ℕ) → stirs (t.pcs j) (t.listeners j) ≡ false)
    → Onward e true (given_back t i id) u
    → Step e true t (given_back t i id)
      × (u.word ≡ id)
      × ((u.pcs k ≡ Wakeups.sleeping) ⊎ (u.pcs k ≡ Wakeups.idle))
given_back_sleeps e {t} law r i k id has asleep still onward =
    let s =
      Onward-IsDeserted law (given_back-IsDeserted i k id (Run-Inv law r) has asleep still)
        onward in
    (moves i (rw has (Wakeups.give_back refl)), s.back, s.rests)
