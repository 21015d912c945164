-- ===== src/Threads/Got.antt =====
-- The messages that a run puts in line, and those that one receiver gets in it.
use nexusq.Base.{
  ℕ, zero, suc, ◌+◌, ◌<◌, ◌≤◌, ◌≡◌, ◌≢◌, ◌∙◌, refl, sym, ap, arith, List, [], ◌∷◌, ◌++◌, Option,
  some, none-ne-some, append_assoc, length, get_elem?, get_elem?-append_left, get_elem?-some_of_lt,
  get_elem?-none_of_le, dec_lt, ==_ne, ◌==◌, if◌then◌else◌,
}
use nexusq.Broadcast.{next_messages}
use nexusq.Batch.Reading.{next_messages-some}
use nexusq.Threads.Events.{Event, put, got}

-- What is there is inside, and all before it.
pub in_range {ℓ} :
    {A : Type ℓ} (log : List A) (i j : ℕ) (m : A)
    → get_elem? log i ≡ some m
    → j ≤ i
    → j < length log
in_range log i j m there below = elim (dec_lt i (length log)) [
  | yes inside ↦ omega arith
  | no outside ↦ absurd (none-ne-some m (sym (get_elem?-none_of_le log i (omega arith)) ∙ there))
]

module _ {ℓ} {A : Type ℓ} where
  -- The messages put in line, and those that receiver `k` has got
  abbrev pub messages_put : List (Event A) → List A
  messages_put [] = []
  messages_put (put v ∷ es) = v ∷ messages_put es
  messages_put (_ ∷ es) = messages_put es

  abbrev pub one_got : (k j : ℕ) → Option A → List (Option A)
  one_got k j m = if k == j then m ∷ [] else []

  abbrev pub got_by : ℕ → List (Event A) → List (Option A)
  got_by k [] = []
  got_by k (got j m ∷ es) = one_got k j m ++ got_by k es
  got_by k (_ ∷ es) = got_by k es

  pub messages_put-append :
      (es fs : List (Event A)) → messages_put (es ++ fs) ≡ messages_put es ++ messages_put fs
  messages_put-append [] fs = refl
  messages_put-append (put v ∷ es) fs = ap (λ vs. v ∷ vs) (messages_put-append es fs)
  messages_put-append (e ∷ es) fs = messages_put-append es fs

  pub got_by-append :
      (k : ℕ) (es fs : List (Event A)) → got_by k (es ++ fs) ≡ got_by k es ++ got_by k fs
  got_by-append k [] fs = refl
  got_by-append k (got j m ∷ es) fs =
      ap (λ ms. one_got k j m ++ ms) (got_by-append k es fs)
      ∙ sym (append_assoc (one_got k j m) (got_by k es) (got_by k fs))
  got_by-append k (e ∷ es) fs = got_by-append k es fs

  pub not_mine : (k j : ℕ) (m : Option A) → k ≢ j → got_by k (got j m ∷ []) ≡ []
  not_mine k j m other = rw (==_ne k j other) refl

  -- A log that grows, and one message more
  pub next_messages-longer :
      (log : List A) (v : A) (b n : ℕ)
      → b + n ≤ length log
      → next_messages (log ++ v ∷ []) b n ≡ next_messages log b n
  unfolding next_messages
  next_messages-longer log v b zero fits = refl
  next_messages-longer log v b (suc n) fits =
      let (m, there) = get_elem?-some_of_lt log b (omega arith) in
      rw
        (
          next_messages-some (log ++ v ∷ []) b n m
              (get_elem?-append_left log (v ∷ []) b (omega arith) ∙ there),
          next_messages-some log b n m there,
        )
        (ap (λ ms. some m ∷ ms) (next_messages-longer log v (b + 1) n (omega arith)))

  pub next_messages-snoc :
      (log : List A) (b n : ℕ) (m : A)
      → get_elem? log (b + n) ≡ some m
      → next_messages log b (suc n) ≡ next_messages log b n ++ some m ∷ []
  unfolding next_messages
  next_messages-snoc log b zero m there =
      next_messages-some log b zero m (ap (get_elem? log) (omega arith) ∙ there)
  next_messages-snoc log b (suc n) m there =
      let inside : b < length log = in_range log (b + suc n) b m there (omega arith) in
      let (x, here) = get_elem?-some_of_lt log b inside in
      rw (next_messages-some log b (suc n) x here, next_messages-some log b n x here)
        (ap (λ ms. some x ∷ ms)
          (next_messages-snoc log (b + 1) n m (ap (get_elem? log) (omega arith) ∙ there)))
