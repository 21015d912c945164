-- ===== src/Tests/Waits.antt =====
-- A wait for a word that comes to 5 at moment 3, with a listener that is woken four moments after
-- it begins to wait, a clock that counts the moments, and a timer that nobody stops.
use nexusq.Base.{
  ℕ, ◌+◌, ◌≤◌, ◌≡◌, ◌≢◌, refl, arith, false, some, none, usize_max, leb, leb_of_le, if◌then◌else◌,
}
use nexusq.WaitStrategy.{taken}
use nexusq.WaitStrategy.Moments.{Moments, checked, attempted}
use nexusq.WaitStrategy.Block
use nexusq.WaitStrategy.Hybrid
use nexusq.WaitStrategy.Hybrid.{HybridWait}
use nexusq.WaitStrategy.Ends.{IsNotified, wait_for_ends, take_ends}
use nexusq.WaitStrategy.Polls.{IsPolled, block_poll-IsPolled}

abbrev moments : Moments
moments = record {
  word = λ t. if leb 3 t then 5 else usize_max;
  clock = λ t. t;
  wait = λ armed since. some (since + 4);
  wait_deadline = λ armed since deadline. (false, if leb deadline since then since else deadline);
  poll_event = λ armed now. false;
}

abbrev spinning : HybridWait
spinning = record { num_spin = 1; num_yield = 1 }

stays : (t : ℕ) → 3 ≤ t → moments.word t ≡ 5
stays t h = rw (leb_of_le 3 t h)

there : (t : ℕ) → 3 ≤ t → moments.word t ≢ taken
there t h = rw (leb_of_le 3 t h) (λ e. omega arith)

notified : IsNotified moments 3
notified armed since before = (since + 4, refl, omega arith)

wait_for_ends_example :
    (t : ℕ) × (Hybrid.wait_for spinning moments 5 4 0 ≡ some (tt, t)) × (moments.word t ≡ 5)
wait_for_ends_example = wait_for_ends spinning moments 5 3 3 0 (omega arith) stays notified

take_ends_example :
    (id : ℕ) × (t : ℕ) × (Hybrid.take spinning moments 4 0 ≡ some (id, t))
    × (moments.word t ≡ id)
    × (id ≢ taken)
take_ends_example = take_ends spinning moments 3 3 0 (omega arith) there notified

block_poll-IsPolled_example :
    IsPolled moments (checked moments 5) (Block.block_poll moments (checked moments 5) 1 0 none)
unfolding Block.get_or_insert
block_poll-IsPolled_example =
    block_poll-IsPolled moments (checked moments 5) (λ armed now h. refl) 0 none (omega arith)

waited : Hybrid.wait_for spinning moments 5 4 0 ≡ some (tt, 4)
unfolding Hybrid.wait_for checked Hybrid.hybrid Hybrid.spin Block.block
waited = refl

taken_word : Block.take moments 4 0 ≡ some (5, 6)
unfolding Block.take attempted Block.block
taken_word = refl
