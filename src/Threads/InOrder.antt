-- ===== src/Threads/InOrder.antt =====
-- Every receiver gets the messages in the order they were put in line, none missing and none twice.
use nexusq.Base.{ℕ, ◌-◌, ◌≤◌, ◌≡◌, ◌∙◌, ap, Bool, some, length, get_elem?, get_elem?-map-some}
use nexusq.Broadcast.{next_messages}
use nexusq.Threads.Receiving.{ReceiverPc}
use nexusq.Threads.System.{System, Reach}
use nexusq.Threads.Reachable.{IsRoomy}
use nexusq.Threads.Events.{trace}
use nexusq.Threads.Refine.{position_of, trace_refines}
use nexusq.Threads.Got.{messages_put, got_by}
use nexusq.Threads.Ordering.{Plays-IsOrdered, first-IsOrdered}

module _ {ℓ} {A : Type ℓ} where
  -- In every run of any number of threads, with room for ids and receivers: the messages that a
  -- receiver has read by now are one stretch of the messages that were put in line, in their order,
  -- none missing and none twice, up to where it stands. It begins with the very first message for the
  -- receiver that came with the channel.
  pub receives_in_order :
      {tries : Bool} {size : ℕ} {s : System A}
      → IsRoomy s
      → (run : Reach tries size s) → (k p : ℕ) (r : ReceiverPc) → get_elem? s.receivers k ≡ some r
      → position_of r ≡ some p
      → (from : ℕ) × (k ≡ 0 → from ≡ 0)
        × (from ≤ p)
        × (p ≤ length (messages_put (trace run)))
        × (got_by k (trace run) ≡ next_messages (messages_put (trace run)) from (p - from))
  receives_in_order {s = s} room run k p r there at =
      let o = Plays-IsOrdered (first-IsOrdered s.nexus.len) (trace_refines room run) in
      let i = o.receives k p (get_elem?-map-some position_of s.receivers k r there ∙ ap some at) in
      rw o.logged (i.from, i.first, i.order, i.known, i.messages)
