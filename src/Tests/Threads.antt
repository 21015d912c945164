-- ===== src/Tests/Threads.antt =====
-- Two threads at the token: the first takes it and passes it on, the second takes it and loses it.
use nexusq.Base.{ℕ, ◌≡◌, refl, arith, none, some, List, [], ◌∷◌, suc, zero}
use nexusq.WaitStrategy.{taken, try_take, restore}
use nexusq.Token.{Tokens, take, miss, pass, lose, Run, start, more}
use nexusq.Token.Exclusion.{IsUnheld, first_ids, token_order, lost_token}

abbrev begun : Tokens
begun = record { word = 1; held = none ∷ none ∷ [] }

abbrev first_holds : Tokens
first_holds = record { word = taken; held = some 1 ∷ none ∷ [] }

abbrev passed_on : Tokens
passed_on = record { word = 2; held = none ∷ none ∷ [] }

abbrev second_holds : Tokens
second_holds = record { word = taken; held = none ∷ some 2 ∷ [] }

abbrev lost : Tokens
lost = record { word = taken; held = none ∷ none ∷ [] }

idle : IsUnheld (none ∷ none ∷ [])
idle zero x e = cc
idle (suc zero) x e = cc
idle (suc (suc i)) x e = cc

took_first : Run begun [] first_holds
unfolding try_take
took_first = more begun first_holds start (take begun 0 1 refl refl)

passed_first : Run begun (1 ∷ []) passed_on
unfolding restore
passed_first = more first_holds passed_on took_first (pass first_holds 0 1 refl)

took_second : Run begun (1 ∷ []) second_holds
unfolding try_take
took_second = more passed_on second_holds passed_first (take passed_on 1 2 refl refl)

second_loses : Run second_holds [] lost
second_loses = more second_holds lost start (lose second_holds 1 2 refl)

abbrev second_thread : ℕ
second_thread = 1

token_order_example : 1 ∷ [] ≡ first_ids 1
token_order_example = token_order (omega arith) refl idle took_second

misses : Run lost [] lost
unfolding try_take
misses = more lost lost start (miss lost refl)

abbrev no_ids : List ℕ
no_ids = []

lost_token_example : (no_ids ≡ []) × (lost.word ≡ taken)
lost_token_example = lost_token refl idle misses
