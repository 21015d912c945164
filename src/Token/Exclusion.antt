-- ===== src/Token/Exclusion.antt =====
-- src/sender.rs: at most one thread holds the token, and no id is published twice.
use mathlib.Core.Path.{ap₂}
use nexusq.Base.{
  ℕ, zero, suc, ◌+◌, ◌≤◌, ◌≡◌, ◌≢◌, inl, inr, refl, sym, ap, ◌∙◌, arith, Option, none, some,
  none-ne-some, some-injective, List, [], ◌∷◌, ◌++◌, append-nil, length, length-append, get_elem?,
  get_elem?-set, set, usize_max,
}
use nexusq.WaitStrategy.{taken, try_take, restore}
use nexusq.WaitStrategy.Taking.{took, missed}
use nexusq.Token.{Tokens, Step, take, miss, pass, give_back, lose, Run, start, more}

-- A thread that holds an id is thread `k`, with the id `id`.
abbrev IsOnly : List (Option ℕ) → (k id : ℕ) → Type 0
IsOnly held k id = (i x : ℕ) → get_elem? held i ≡ some (some x) → (i ≡ k) × (x ≡ id)

abbrev pub IsUnheld : List (Option ℕ) → Type 0
IsUnheld held = (i x : ℕ) → get_elem? held i ≢ some (some x)

-- After `m` ids: the token is there and nobody holds one, or it is away and one thread at most
-- holds the next id.
pub data IsFair (m : ℕ) (t : Tokens) : Type 0 where
  free : t.word ≡ m + 1 → IsUnheld t.held → IsFair m t
  away : (k : ℕ) → t.word ≡ taken → IsOnly t.held k (m + 1) → IsFair m t

-- A holder that lets go leaves nobody, or those who held before.
let_go :
    (held : List (Option ℕ)) (k k' id : ℕ) → k ≡ k' → IsOnly held k' id → IsUnheld (set held k none)
let_go held k k' id same only i x e = elim (get_elem?-set held k i none (some x) e) [
  | inl (a, b) ↦ none-ne-some x (sym b)
  | inr (a, b) ↦ a ((only i x b).0 ∙ sym same)
]

holds_now : (held : List (Option ℕ)) (k id : ℕ) → IsUnheld held → IsOnly (set held k (some id)) k id
holds_now held k id none_held i x e = elim (get_elem?-set held k i (some id) (some x) e) [
  | inl (a, b) ↦ (a, some-injective x id b)
  | inr (a, b) ↦ elim (none_held i x b) [ ]
]

-- What a step publishes is the next id, or nothing.
data IsNext (m : ℕ) (u : Tokens) : List ℕ → Type 0 where
  nothing : IsFair m u → IsNext m u []
  next : (id : ℕ) → id ≡ m + 1 → IsFair (m + 1) u → IsNext m u (id ∷ [])

Step-IsNext :
    (m : ℕ) {ids : List ℕ} {t u : Tokens}
    → m + 2 ≤ usize_max
    → IsFair m t
    → Step t ids u
    → IsNext m u ids
unfolding try_take restore
Step-IsNext m bound (free e none_held) (take t k id idle got) =
    let same : id ≡ m + 1 = sym (took t.word id got).1 ∙ e in
    nothing (away k refl (rw (← same) (holds_now t.held k id none_held)))
Step-IsNext m bound (free e none_held) (miss t got) = absurd (omega (arith, missed t.word got))
Step-IsNext m bound (free e none_held) (pass t k id holds) = absurd (none_held k id holds)
Step-IsNext m bound (free e none_held) (give_back t k id holds) = absurd (none_held k id holds)
Step-IsNext m bound (free e none_held) (lose t k id holds) = absurd (none_held k id holds)
Step-IsNext m bound (away k' e only) (take t k id idle got) = absurd ((took t.word id got).0 e)
Step-IsNext m bound (away k' e only) (miss t got) = nothing (away k' refl only)
Step-IsNext m bound (away k' e only) (pass t k id holds) =
    let (same, next_id) = only k id holds in
    next id next_id (free (omega arith) (let_go t.held k k' (m + 1) same only))
Step-IsNext m bound (away k' e only) (give_back t k id holds) =
    let (same, next_id) = only k id holds in
    nothing (free next_id (let_go t.held k k' (m + 1) same only))
Step-IsNext m bound (away k' e only) (lose t k id holds) =
    let (same, next_id) = only k id holds in
    nothing (away k' e (λ i x h. elim (let_go t.held k k' (m + 1) same only i x h) [ ]))

-- The ids 1, 2, 3, …, `n` of them
abbrev pub first_ids : ℕ → List ℕ
first_ids zero = []
first_ids (suc n) = first_ids n ++ (n + 1) ∷ []

length-snoc : (ids : List ℕ) (id : ℕ) → length (ids ++ id ∷ []) ≡ suc (length ids)
length-snoc ids id = omega (arith, length-append ids (id ∷ []))

published-IsFair :
    (ids : List ℕ) {ids' : List ℕ} {w : Tokens}
    → ids ≡ first_ids (length ids)
    → IsNext (length ids) w ids'
    → IsFair (length (ids ++ ids')) w × (ids ++ ids' ≡ first_ids (length (ids ++ ids')))
published-IsFair ids order (nothing fair) = rw (append-nil ids) (fair, order)
published-IsFair ids {w = w} order (next id e fair) =
    rw (e, length-snoc ids (length ids + 1))
      (rw (suc_add (length ids)) fair, ap (λ l. l ++ (length ids + 1) ∷ []) order)
  where
    suc_add : (n : ℕ) → suc n ≡ n + 1
    suc_add n = omega arith

Run-IsFair :
    {t : Tokens} {ids : List ℕ} {u : Tokens}
    → length ids + 2 ≤ usize_max
    → IsFair 0 t
    → Run t ids u
    → IsFair (length ids) u × (ids ≡ first_ids (length ids))
Run-IsFair bound fair start = (fair, refl)
Run-IsFair bound fair (more {ids = ids} {ids' = ids'} u w r s) =
    let sum = length-append ids ids' in
    let (fair', order) = Run-IsFair (omega (arith, sum)) fair r in
    published-IsFair ids order (Step-IsNext (length ids) (omega (arith, sum)) fair' s)

only_holder :
    {m : ℕ} {u : Tokens} (i j a b : ℕ)
    → IsFair m u
    → get_elem? u.held i ≡ some (some a)
    → get_elem? u.held j ≡ some (some b)
    → i ≡ j
only_holder i j a b (free e none_held) x y = absurd (none_held i a x)
only_holder i j a b (away k e only) x y = (only i a x).0 ∙ sym (only j b y).0

-- Threads begin with the token free at id 1 and take, miss, pass on, give back or lose it in any
-- order, with fewer ids published than a word counts: two threads that hold an id are the same.
pub token_exclusion :
    {t : Tokens} {ids : List ℕ} {u : Tokens}
    → length ids + 2 ≤ usize_max
    → t.word ≡ 1
    → IsUnheld t.held
    → Run t ids u
    → (i j a b : ℕ) → get_elem? u.held i ≡ some (some a)
    → get_elem? u.held j ≡ some (some b)
    → i ≡ j
token_exclusion bound first idle r i j a b =
    only_holder i j a b (Run-IsFair bound (free first idle) r).0

-- Threads begin with the token free at id 1 and take, miss, pass on, give back or lose it in any
-- order, with fewer ids published than a word counts: the ids that they pass on are 1, 2, 3, …,
-- in this order, each once.
pub token_order :
    {t : Tokens} {ids : List ℕ} {u : Tokens}
    → length ids + 2 ≤ usize_max
    → t.word ≡ 1
    → IsUnheld t.held
    → Run t ids u
    → ids ≡ first_ids (length ids)
token_order bound first idle r = (Run-IsFair bound (free first idle) r).1

lost_after_one :
    {ids : List ℕ} {t u : Tokens}
    → t.word ≡ taken
    → IsUnheld t.held
    → Step t ids u
    → (ids ≡ []) × (u.word ≡ taken) × IsUnheld u.held
unfolding try_take
lost_after_one lost idle (take t k id _ got) = absurd ((took t.word id got).0 lost)
lost_after_one lost idle (miss t got) = (refl, refl, idle)
lost_after_one lost idle (pass t k id holds) = absurd (idle k id holds)
lost_after_one lost idle (give_back t k id holds) = absurd (idle k id holds)
lost_after_one lost idle (lose t k id holds) = absurd (idle k id holds)

lost_for_ever :
    {t : Tokens} {ids : List ℕ} {u : Tokens}
    → t.word ≡ taken
    → IsUnheld t.held
    → Run t ids u
    → (ids ≡ []) × (u.word ≡ taken) × IsUnheld u.held
lost_for_ever lost idle start = (refl, lost, idle)
lost_for_ever lost idle (more u w r s) =
    let (no_ids, lost', idle') = lost_for_ever lost idle r in
    let (no_more, lost'', idle'') = lost_after_one lost' idle' s in
    (ap₂ ◌++◌ no_ids no_more, lost'', idle'')

-- Once the token is away and no thread holds an id, as after a `Disconnected`, no id is ever
-- published again, whatever the threads do.
pub lost_token :
    {t : Tokens} {ids : List ℕ} {u : Tokens}
    → t.word ≡ taken
    → IsUnheld t.held
    → Run t ids u
    → (ids ≡ []) × (u.word ≡ taken)
lost_token lost idle r =
    let (no_ids, away_still, _) = lost_for_ever lost idle r in (no_ids, away_still)
