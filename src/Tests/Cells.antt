-- ===== src/Tests/Cells.antt =====
-- A cell with one reader, who leaves at moment 3.
use nexusq.Base.{ℕ, ◌+◌, ◌≡◌, refl, arith, Bool, false, some, leb, leb_of_le, if◌then◌else◌}
use nexusq.WaitStrategy.Moments.{Moments}
use nexusq.WaitStrategy.Hybrid
use nexusq.WaitStrategy.Ends.{IsNotified}
use nexusq.WaitStrategy.Traits.{Strategy, hybrid_wait, wait_of}
use nexusq.WaitStrategy.Lawful.{strategy-IsLawful}
use nexusq.Cell
use nexusq.Cell.{Cell}
use nexusq.Cell.Waits.{safe_by, safe_by_refines}

abbrev cell : ℕ → Cell ℕ
cell t = record {
  value = some 7;
  read_counter = if leb 3 t then 0 else 1;
  current_id = 5;
  notices = 0;
}

-- A listener is woken four moments after it begins to wait, the clock counts the moments, and
-- nobody stops the timer.
abbrev watching : (ℕ → ℕ) → Moments
watching word = record {
  word = word;
  clock = λ t. t;
  wait = λ armed since. some (since + 4);
  wait_deadline = λ armed since deadline. (false, since + deadline);
  poll_event = λ armed now. false;
}

abbrev readers : Moments
readers = watching (λ t. (cell t).read_counter)

-- The default strategy of a channel
abbrev spinning : Strategy
spinning = hybrid_wait Hybrid.default

notified : (word : ℕ → ℕ) → IsNotified (watching word) 3
notified word armed since before = (since + 4, refl, omega arith)

safe_by_refines_example :
    (free : Bool) × (t : ℕ) × (safe_by (wait_of spinning) readers 4 0 ≡ some (free, t))
    × (Cell.wait_for_write_safe (cell 0) (cell t) ≡ some free)
safe_by_refines_example =
    safe_by_refines (strategy-IsLawful spinning).0 readers cell 3 3 0 (λ t. refl) (omega arith)
      (λ t h. rw (leb_of_le 3 t h)) (notified readers.word)
