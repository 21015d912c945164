-- ===== src/Broadcast/Laws.antt =====
-- The abstract channel's log grows by one message at most.
use nexusq.Base.{◌+◌, ◌≤◌, arith, [], ◌∷◌, length, length-append}
use nexusq.Broadcast.{Broadcast, accept}

pub length-accept {ℓ} :
    {A : Type ℓ} (b : Broadcast A) (value : A) → length (accept b value).1 ≤ length b.log + 1
unfolding accept
length-accept b value = ground (arith, length-append b.log (value ∷ []))
