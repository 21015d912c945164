-- ===== src/Wakeups/Progress.antt =====
-- In a program whose calls give no token back unused: whenever the token is there and somebody
-- sleeps, one of those who wait can have it by steps of their own, without any new call.
use nexusq.Base.{
  ℕ, ◌≡◌, ◌≢◌, ◌∙◌, refl, sym, ap, arith, Bool, true, false, some, update, update_self, ==_ne,
}
use nexusq.WaitStrategy.{taken, try_take}
use nexusq.Wakeups
use nexusq.Wakeups.{
  Listener, Listeners, notified, present, Event, IsEvent, TakerPc, TakerMove, Takers, Run, begin,
  Onward, stand, go,
}
use nexusq.Wakeups.Invariant.{Inv, registered, stirs, move-known}
use nexusq.Wakeups.Served.{asleep_present, woken_listener, Run-Inv, Run-IsServed}

Onward-trans :
    {e : Event} {gives : Bool} {t u v : Takers}
    → Onward e gives t u
    → Onward e gives u v
    → Onward e gives t v
Onward-trans r stand = r
Onward-trans r (go r' i busy mv) = go (Onward-trans r r') i busy mv

-- A thread that is in `take` or `take_before`
abbrev pub waits : TakerPc → Bool
waits Wakeups.arming = true
waits Wakeups.looking = true
waits Wakeups.sleeping = true
waits Wakeups.woken = true
waits _ = false

waits_of_notified :
    (p : TakerPc) (l : Listener) → l ≡ notified → present l ≡ registered p → waits p ≡ true
waits_of_notified Wakeups.looking l told known = refl
waits_of_notified Wakeups.sleeping l told known = refl
waits_of_notified p l told known = ground arith

still_waits :
    (pcs : ℕ → TakerPc) (i k : ℕ)
    → pcs i ≡ Wakeups.passing
    → waits (update pcs i Wakeups.idle k) ≡ true
    → waits (pcs k) ≡ true
still_waits pcs i k here e = ground arith

-- A run with no new call to where thread `j` has the token with the id that is in the word.
abbrev pub IsTakenBy : Event → Bool → Takers → ℕ → Type 0
IsTakenBy e gives t j = (u : Takers) × Onward e gives t u × (u.pcs j ≡ Wakeups.holding t.word)

module _ (e : Event) (law : IsEvent e) (gives : Bool) where
  step_of :
      (t : Takers) (i : ℕ) {p p' : TakerPc} {w : ℕ} {l : Listeners}
      → t.pcs i ≡ p
      → p ≢ Wakeups.idle
      → TakerMove e gives i t.word t.listeners p w l p'
      → Onward e gives t (record { word = w; listeners = l; pcs = update t.pcs i p' })
  step_of t i here busy mv = go stand i (λ resting. busy (sym here ∙ resting)) (rw here mv)

  won : (t : Takers) → t.word ≢ taken → (try_take t.word).0 ≡ some t.word
  unfolding try_take
  won t free = rw (==_ne t.word taken free)

  looks : (t : Takers) (j : ℕ) → t.word ≢ taken → t.pcs j ≡ Wakeups.looking → IsTakenBy e gives t j
  looks t j free here =
      let (l, d) = law.discards j t.listeners in
      (_, step_of t j here (λ x. cc) (Wakeups.first_hit (won t free) d), update_self t.pcs j _)

  looks_again :
      (t : Takers) (j : ℕ) → t.word ≢ taken → t.pcs j ≡ Wakeups.woken → IsTakenBy e gives t j
  looks_again t j free here =
      (_, step_of t j here (λ x. cc) (Wakeups.second_hit (won t free)), update_self t.pcs j _)

  arms : (t : Takers) (j : ℕ) → t.word ≢ taken → t.pcs j ≡ Wakeups.arming → IsTakenBy e gives t j
  arms t j free here =
      let first = step_of t j here (λ x. cc) Wakeups.listen in
      let (u, r, has) = looks _ j free (update_self t.pcs j Wakeups.looking) in
      (u, Onward-trans first r, has)

  wakes :
      (t : Takers) (j : ℕ)
      → t.word ≢ taken
      → t.pcs j ≡ Wakeups.sleeping
      → t.listeners j ≡ notified
      → IsTakenBy e gives t j
  wakes t j free here told =
      let first = step_of t j here (λ x. cc) (Wakeups.wake told) in
      let (u, r, has) = looks_again _ j free (update_self t.pcs j Wakeups.woken) in
      (u, Onward-trans first r, has)

  -- Whoever has been notified
  answers :
      (t : Takers) (j : ℕ) (p : TakerPc)
      → t.word ≢ taken
      → t.pcs j ≡ p
      → t.listeners j ≡ notified
      → present (t.listeners j) ≡ registered p
      → IsTakenBy e gives t j
  answers t j Wakeups.looking free here told known = looks t j free here
  answers t j Wakeups.sleeping free here told known = wakes t j free here told
  answers t j p free here told known = absurd (cc)

  -- A thread that stirs takes the token, or wakes one that does.
  stirring :
      (t : Takers) (inv : Inv t) (i j : ℕ) (p : TakerPc)
      → t.word ≢ taken
      → t.pcs i ≡ Wakeups.sleeping
      → t.pcs j ≡ p
      → stirs p (t.listeners j) ≡ true
      → (k : ℕ) × (waits (t.pcs k) ≡ true) × IsTakenBy e gives t k
  stirring t inv i j Wakeups.arming free asleep here st = (j, ap waits here, arms t j free here)
  stirring t inv i j Wakeups.looking free asleep here st = (j, ap waits here, looks t j free here)
  stirring t inv i j Wakeups.woken free asleep here st =
      (j, ap waits here, looks_again t j free here)
  stirring t inv i j Wakeups.sleeping free asleep here st = (
    j,
    ap waits here,
    wakes t j free here (woken_listener Wakeups.sleeping (t.listeners j) st refl),
  )
  stirring t inv i j Wakeups.passing free asleep here st =
      let (l, n) = law.notifies 1 t.listeners in
      let told = step_of t j here (λ x. cc) (Wakeups.notify n) in
      let (k, woken) =
        law.notify_reaches 1 t.listeners l i n (omega arith) (asleep_present inv i asleep) in
      let known = move-known law {gives = gives} inv j (Wakeups.notify n) here k in
      let (u, r, has) = answers _ k (update t.pcs j Wakeups.idle k) free refl woken known in
      (
        k,
        still_waits t.pcs j k here (waits_of_notified _ _ woken known),
        (u, Onward-trans told r, has),
      )
  stirring t inv i j p free asleep here st = absurd (cc)

-- Threads that call `take`, `take_before` and `try_take`, and tasks that call `poll` at any time,
-- begin with the token free and nobody at the event, and give no token back unused. Whenever the
-- token is there and one of them sleeps, there is one that waits already and steps that lead,
-- without any new call and any `poll` of a task that is not woken, to where it holds the token with
-- the id that is in the word now.
pub sleeper_served :
    (e : Event) {t : Takers}
    → IsEvent e
    → Run e false begin t
    → t.word ≢ taken
    → (i : ℕ) → t.pcs i ≡ Wakeups.sleeping
    → (k : ℕ) × (waits (t.pcs k) ≡ true) × IsTakenBy e false t k
sleeper_served e {t} law r free i asleep =
    let (j, st) = Run-IsServed law r free i asleep in
    stirring e law false t (Run-Inv law r) i j (t.pcs j) free asleep refl st
