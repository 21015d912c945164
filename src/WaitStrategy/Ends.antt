-- ===== src/WaitStrategy/Ends.antt =====
-- src/wait_strategy/: the waits without a deadline end. The order in which `BlockStrategy` arms its
-- listener and looks is what keeps a notification from being missed.
use nexusq.Base.{
  some-injective, ℕ, zero, suc, ◌+◌, Option, none, some, ok, err, ◌≤◌, ◌<◌, ℕ_discrete, ◌≡◌, ◌≢◌,
  refl, arith, Option-cases, le_or_later, ◌∙◌, ◌⊎◌, none-ne-some, sym, inl, inr, ==_self, ==_ne,
}
use nexusq.WaitStrategy.{taken}
use nexusq.WaitStrategy.Moments.{Moments, checked, attempted}
use nexusq.WaitStrategy.Block
use nexusq.WaitStrategy.Hybrid
use nexusq.WaitStrategy.Hybrid.{HybridWait}

-- From moment `s` on the attempt succeeds.
abbrev pub IsFoundFrom {ℓ} : {B : Type ℓ} → (ℕ → Option B) → ℕ → Type ℓ
IsFoundFrom {B = B} attempt s = (t : ℕ) → s ≤ t → (v : B) × (attempt t ≡ some v)

-- A notification at moment `n` reaches every listener that was armed before it: its wait returns.
abbrev pub IsNotified : Moments → ℕ → Type 0
IsNotified m n =
    (armed since : ℕ)
    → armed + 1 ≤ n
    → (woken : ℕ) × (m.wait armed since ≡ some woken) × (since ≤ woken)

-- The wait ended with what the attempt gave at the moment it names.
abbrev pub IsFound {ℓ} : {B : Type ℓ} → (ℕ → Option B) → Option (B × ℕ) → Type ℓ
IsFound {B = B} attempt result = (v : B) × (t : ℕ) × (result ≡ some (v, t)) × (attempt t ≡ some v)

-- A spin loop finds something or ends at a later moment.
pub spin-cases {ℓ} :
    {B : Type ℓ} (m : Moments) (attempt : ℕ → Option B) (turns now : ℕ)
    → ((v : B) × (t : ℕ) × (Hybrid.spin m attempt turns now ≡ ok (v, t)) × (attempt t ≡ some v))
      ⊎ ((t : ℕ) × (Hybrid.spin m attempt turns now ≡ err t))
unfolding Hybrid.spin
spin-cases m attempt zero now = inr (now, refl)
spin-cases m attempt (suc turns) now = elim (Option-cases (attempt now)) [
  | inr (v, e) ↦ inl (v, now, rw (e, Hybrid.spin), e)
  | inl e ↦ elim (spin-cases m attempt turns (now + 1)) [
    | inl (v, t, r, f) ↦ inl (v, t, rw (e, Hybrid.spin) r, f)
    | inr (t, r) ↦ inr (t, rw (e, Hybrid.spin) r)
  ]
]

module _ {ℓ} {B : Type ℓ} (m : Moments) (attempt : ℕ → Option B) {s n : ℕ}
    (found : IsFoundFrom attempt s) (later : s ≤ n) (notified : IsNotified m n) where
  -- A look that finds nothing is before the notification.
  missed : (t : ℕ) → attempt t ≡ none → t < n
  missed t e = elim (le_or_later s t) [
    | inl h ↦ elim (none-ne-some _ (sym e ∙ (found t h).1)) [ ]
    | inr h ↦ omega arith
  ]

  pub block-IsFound :
      (rounds now : ℕ)
      → s ≤ now + rounds + 1
      → IsFound attempt (Block.block m attempt (suc rounds) now)
  unfolding Block.block
  block-IsFound zero now near =
      let (v, e) = found (now + 1) (omega arith) in (v, now + 1, rw (e, Block.block), e)
  block-IsFound (suc rounds) now near = elim (Option-cases (attempt (now + 1))) [
    | inr (v, e) ↦ (v, now + 1, rw (e, Block.block), e)
    | inl e ↦
        let before = missed (now + 1) e in
        let (woken, w, after) = notified now (now + 2) (omega arith) in
        elim (Option-cases (attempt woken)) [
          | inr (v, e') ↦ (v, woken, rw (e, w, e', Block.block), e')
          | inl e' ↦
              let (v, t, r, f) = block-IsFound rounds (woken + 1) (omega arith) in
              (v, t, rw (e, w, e', Block.block) r, f)
        ]
  ]

  pub hybrid-IsFound :
      (h : HybridWait) (now : ℕ) → IsFound attempt (Hybrid.hybrid m attempt h (suc s) now)
  unfolding Hybrid.hybrid
  hybrid-IsFound h now = elim (spin-cases m attempt h.num_spin now) [
    | inl (v, t, e, f) ↦ (v, t, rw (e, Hybrid.hybrid), f)
    | inr (spun, e) ↦ elim (spin-cases m attempt h.num_yield spun) [
      | inl (v, t, e', f) ↦ (v, t, rw (e, e', Hybrid.hybrid), f)
      | inr (yielded, e') ↦ elim (Option-cases (attempt yielded)) [
        | inr (v, f) ↦ (v, yielded, rw (e, e', f, Hybrid.hybrid), f)
        | inl missing ↦
            let (v, t, r, f) = block-IsFound s (yielded + 1) (omega arith) in
            (v, t, rw (e, e', missing, Hybrid.hybrid) r, f)
      ]
    ]
  ]

pub checked_hit :
    (m : Moments) (expected t : ℕ) → m.word t ≡ expected → checked m expected t ≡ some tt
unfolding checked
checked_hit m expected t e = rw (e, ==_self expected)

pub checked_only :
    (m : Moments) (expected t : ℕ) {v : Unit {0}}
    → checked m expected t ≡ some v
    → m.word t ≡ expected
unfolding checked
checked_only m expected t e = elim (ℕ_discrete (m.word t) expected) [
  | yes h ↦ h
  | no h ↦ elim (none-ne-some _ (rw (==_ne (m.word t) expected h) at e)) [ ]
]

pub attempted_hit : (m : Moments) (t : ℕ) → m.word t ≢ taken → attempted m t ≡ some (m.word t)
unfolding attempted
attempted_hit m t h = rw (==_ne (m.word t) taken h)

pub attempted_only :
    (m : Moments) (t : ℕ) {id : ℕ} → attempted m t ≡ some id → (m.word t ≡ id) × (id ≢ taken)
unfolding attempted
attempted_only m t e = elim (ℕ_discrete (m.word t) taken) [
  | yes h ↦ elim (none-ne-some _ (rw h at e)) [ ]
  | no h ↦
      let same = some-injective (m.word t) _ (sym (attempted_hit m t h) ∙ e) in
      (same, λ gone. h (same ∙ gone))
]

-- The word comes to what is awaited at moment `s` and stays so; a notification follows at some
-- moment `n`. However many turns it spins and yields, `wait_for` then returns within `s + 1` rounds
-- of its blocking loop, and returns at a moment at which the word is the awaited one.
pub wait_for_ends :
    (h : HybridWait) (m : Moments) (expected s n now : ℕ)
    → s ≤ n
    → ((t : ℕ) → s ≤ t → m.word t ≡ expected)
    → IsNotified m n
    → (t : ℕ) × (Hybrid.wait_for h m expected (suc s) now ≡ some (tt, t)) × (m.word t ≡ expected)
unfolding Hybrid.wait_for
wait_for_ends h m expected s n now later stays notified =
    let attempt = checked m expected in
    let found : IsFoundFrom attempt s = λ t after. (tt, checked_hit m expected t (stays t after)) in
    let (v, t, r, f) = hybrid-IsFound m attempt found later notified h now in
    (t, r, checked_only m expected t f)

-- A token that is there from moment `s` on, and that no other thread takes, is taken: after a
-- notification at some moment `n ≥ s`, `take` returns within `s + 1` rounds of its blocking loop,
-- with the word that it found, which is not `TAKEN`.
pub take_ends :
    (h : HybridWait) (m : Moments) (s n now : ℕ)
    → s ≤ n
    → ((t : ℕ) → s ≤ t → m.word t ≢ taken)
    → IsNotified m n
    → (id : ℕ) × (t : ℕ) × (Hybrid.take h m (suc s) now ≡ some (id, t))
      × (m.word t ≡ id)
      × (id ≢ taken)
unfolding Hybrid.take
take_ends h m s n now later there notified =
    let attempt = attempted m in
    let found : IsFoundFrom attempt s = λ t after. (m.word t, attempted_hit m t (there t after)) in
    let (id, t, r, f) = hybrid-IsFound m attempt found later notified h now in
    let (e, free) = attempted_only m t f in (id, t, r, e, free)
