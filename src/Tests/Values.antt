-- ===== src/Tests/Values.antt =====
-- The values of a channel of four cells, in the program of src/lib.rs `valid_drop_overwrite`, with
-- `try_send` and `try_recv` where its `send` and `recv` have nothing to wait for, and one send more,
-- which is refused.
use nexusq.Base.{ℕ, ◌≡◌, ◌≤◌, ◌++◌, refl, arith, List, [], ◌∷◌, All}
use mathlib.Core.List.{Perm}
use nexusq.FastMod.{fast_mod, maybe_next_power_of_two}
use nexusq.Channel.Made.{new_channel, make_channel-fits}
use nexusq.Cell
use nexusq.Sender
use nexusq.Receiver
use nexusq.Session
use nexusq.Session.{Session}
use nexusq.Broadcast
use nexusq.Broadcast.{Op, send, recv}
use nexusq.Ring.{position}
use nexusq.Values
use nexusq.Values.{held, all_in, all_out, all_dropped, after}
use nexusq.Values.Kept.{all_out-perm}
use nexusq.Values.Oldest.{started, drops_oldest}

abbrev overwriting : List (Op ℕ)
overwriting = send 1 ∷ send 2 ∷ send 3 ∷ recv 0 ∷ recv 0 ∷ recv 0 ∷ send 4 ∷ send 5 ∷ send 6 ∷ []

abbrev program : List (Op ℕ)
program = overwriting ++ send 7 ∷ []

abbrev start : Session ℕ
start = started (new_channel ℕ 4)

two_dropped : all_dropped start overwriting ≡ 1 ∷ 2 ∷ []
unfolding all_dropped Session.step Values.dropped_by Sender.try_send Receiver.try_recv Receiver.new
    Sender.try_take_head Cell.safe_to_write fast_mod maybe_next_power_of_two Cell.new Sender.publish
    Sender.pass_token Receiver.advance
two_dropped = refl

four_left : held (after start overwriting).nexus ≡ 4 ∷ 5 ∷ 6 ∷ 3 ∷ []
unfolding after Session.step Values.held_by Sender.try_send Receiver.try_recv Receiver.new
    Sender.try_take_head Cell.safe_to_write fast_mod maybe_next_power_of_two Cell.new Sender.publish
    Sender.pass_token Receiver.advance
four_left = refl

all_out-perm_example :
    Perm
      (all_out start program ++ held (after start program).nexus)
      (all_in program ++ held start.nexus)
unfolding Receiver.new maybe_next_power_of_two
all_out-perm_example = all_out-perm program start 2 refl

drops_oldest_example :
    (all_dropped start program ≡ 1 ∷ 2 ∷ [])
    × All (λ r. 2 ≤ position r) (after start program).receivers
unfolding Values.log_after Receiver.new maybe_next_power_of_two Broadcast.step all_dropped after
    Broadcast.has_room
drops_oldest_example =
    drops_oldest 4 (make_channel-fits ℕ 4 (omega arith) (omega arith)) program (omega arith)
