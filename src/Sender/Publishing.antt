-- ===== src/Sender/Publishing.antt =====
-- src/sender.rs: the steps that the send methods share, in terms of the ring's invariant.
use nexusq.Base.{
  ℕ, ◌+◌, ◌-◌, ◌%◌, ◌≤◌, ◌≡◌, ◌≢◌, refl, arith, List, [], ◌∷◌, ◌++◌, none, some, All, length,
  length-append, map, usize_max, ◌==◌,
}
use nexusq.WaitStrategy.{taken}
use nexusq.Nexus.{NexusQ}
use nexusq.Receiver.{Receiver}
use nexusq.Broadcast.{has_room}
use nexusq.Sender.{try_take_head, pass_token, publish}
use nexusq.Ring.{IsAnchored, IsRing, IsValid, position}
use nexusq.Ring.Occupancy.{occupancy}
use nexusq.Ring.Cells.{stands-next, index-eq-mod}
use nexusq.Ring.Publish.{publish-IsRing}

-- Nobody stands on the next cell exactly when every receiver is less than `len - 1` behind.
pub has_room-occupancy :
    (len m : ℕ) (rs : List Receiver)
    → All (IsAnchored len m) rs
    → (occupancy ((m + 1) % len) rs == 0) ≡ has_room (len - 1) m (map position rs)
unfolding occupancy has_room
has_room-occupancy len m [] h = refl
has_room-occupancy len m (r ∷ rs) h =
    ground (arith, h.0, stands-next h.0, has_room-occupancy len m rs h.1)

module _ {ℓ} {A : Type ℓ} where
  -- The state while the token is held.
  abbrev pub holding : NexusQ A → NexusQ A
  holding q = record q { write_head = taken }

  pub take_succeeds :
      (q : NexusQ A) → q.write_head ≢ taken → try_take_head q ≡ (some q.write_head, holding q)
  unfolding try_take_head
  take_succeeds q h = ground arith

  pub take_fails : (q : NexusQ A) → q.write_head ≡ taken → try_take_head q ≡ (none, holding q)
  unfolding try_take_head
  take_fails q h = ground arith

  -- With the token of the next id and a free cell, the message goes to the end of the log.
  pub sent-IsValid :
      (q : NexusQ A) (rs : List Receiver) (log : List A) (value : A)
      → IsRing q.len q.cells rs log
      → q.num_receivers ≡ length rs
      → occupancy ((length log + 1) % q.len) rs ≡ 0
      → length log + 2 ≤ usize_max
      → IsValid
          (publish (pass_token q (length log + 1)) (length log + 1) value)
          rs
          (log ++ value ∷ [])
  unfolding publish pass_token
  sent-IsValid q rs log value ring registered free more = record {
    ring = rw (index-eq-mod ring (length log + 1)) (publish-IsRing ring free more value);
    head = omega (arith, length-append log (value ∷ []));
    registered = registered;
  }
