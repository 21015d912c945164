-- ===== src/WaitStrategy/Taking.antt =====
-- src/wait_strategy/mod.rs: what an attempt at the token tells of the word, and leaves behind.
use nexusq.Base.{
  ℕ, ◌≡◌, ◌≢◌, refl, sym, some, none, none-ne-some, some-injective, ℕ_discrete, ==_ne,
}
use nexusq.WaitStrategy.{taken, try_take}

pub took : (w id : ℕ) → (try_take w).0 ≡ some id → (w ≢ taken) × (w ≡ id)
unfolding try_take
took w id e = elim (ℕ_discrete w taken) [
  | yes h ↦ elim (none-ne-some _ (rw h at e)) [ ]
  | no h ↦ (h, some-injective w id (rw (==_ne w taken h) at e))
]

pub missed : (w : ℕ) → (try_take w).0 ≡ none → w ≡ taken
unfolding try_take
missed w e = elim (ℕ_discrete w taken) [
  | yes h ↦ h
  | no h ↦ elim (none-ne-some w (sym (rw (==_ne w taken h) at e))) [ ]
]

pub leaves_taken : (w : ℕ) → (try_take w).1 ≡ taken
unfolding try_take
leaves_taken w = refl
