-- ===== src/Tests/States.antt =====
-- A channel of numbers with four cells, before and after its first messages.
use nexusq.Base.{ℕ, ◌-◌, ◌≡◌, ◌≢◌, refl, arith, true, false, List, [], ◌∷◌}
use nexusq.FastMod.{maybe_next_power_of_two}
use nexusq.Nexus.{NexusQ}
use nexusq.Broadcast.{has_room}
use nexusq.Sender
use nexusq.Sender.Methods.{sent, try_send_lem}
use nexusq.Receiver
use nexusq.Receiver.{Receiver}
use nexusq.Receiver.Lifetime.{drop-IsValid}
use nexusq.Ring.{IsValid, position}
use nexusq.Channel.Made.{shared, new-IsValid}

abbrev pub reader : Receiver
reader = (Receiver.new (shared ℕ 4)).0

abbrev pub readers : List Receiver
readers = reader ∷ []

pub some_reader : readers ≢ []
some_reader e = cc

abbrev pub opened : NexusQ ℕ
opened = (Receiver.new (shared ℕ 4)).1

pub opened-IsValid : IsValid opened readers []
opened-IsValid = new-IsValid ℕ 4 (omega arith) (omega arith)

pub opened_room : has_room (opened.len - 1) 0 (position reader ∷ []) ≡ true
unfolding has_room Receiver.new maybe_next_power_of_two
opened_room = refl

abbrev pub first : NexusQ ℕ
first = sent opened-IsValid (omega arith) 7

pub first-IsValid : IsValid first readers (7 ∷ [])
first-IsValid = ((try_send_lem opened-IsValid (omega arith) 7).2 some_reader opened_room).1

pub first_room : has_room (first.len - 1) 1 (position reader ∷ []) ≡ true
unfolding has_room Receiver.new maybe_next_power_of_two Sender.publish Sender.pass_token
first_room = refl

abbrev pub second : NexusQ ℕ
second = sent first-IsValid (omega arith) 8

pub second-IsValid : IsValid second readers (7 ∷ 8 ∷ [])
second-IsValid = ((try_send_lem first-IsValid (omega arith) 8).2 some_reader first_room).1

pub second_room : has_room (second.len - 1) 2 (position reader ∷ []) ≡ true
unfolding has_room Receiver.new maybe_next_power_of_two Sender.publish Sender.pass_token
second_room = refl

-- With three messages unread the channel of four cells is full.
abbrev pub packed : NexusQ ℕ
packed = sent second-IsValid (omega arith) 9

pub packed-IsValid : IsValid packed readers (7 ∷ 8 ∷ 9 ∷ [])
packed-IsValid = ((try_send_lem second-IsValid (omega arith) 9).2 some_reader second_room).1

pub packed_no_room : has_room (packed.len - 1) 3 (position reader ∷ []) ≡ false
unfolding has_room Receiver.new maybe_next_power_of_two Sender.publish Sender.pass_token
packed_no_room = refl

-- The channel that its reader has left.
abbrev pub deserted : NexusQ ℕ
deserted = Receiver.drop reader first

pub deserted-IsValid : IsValid deserted [] (7 ∷ [])
deserted-IsValid = drop-IsValid first-IsValid 0 reader refl
