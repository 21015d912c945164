-- ===== src/Nexus.antt =====
-- src/lib.rs: the state that all handles share, and its construction.
use nexusq.Base.{
  ℕ, ◌*◌, Option, none, some, Result, ok, err, isize_max, ltb, leb, update, if◌then◌else◌,
}
use nexusq.FastMod.{fast_mod, maybe_next_power_of_two}
use nexusq.Cell
use nexusq.Cell.{Cell}

pub data NexusError : Type 0 where
  buffer_too_small buffer_too_large : NexusError

-- `NexusQ`. The boxed slice `buffer` is its length and its cells; `head_notices` counts the calls
-- of `notify_one` on `write_head_wait_strategy`.
pub record NexusQ {ℓ} (A : Type ℓ) : Type ℓ where
  pub len : ℕ
  pub cells : ℕ → Cell A
  pub write_head : ℕ
  pub num_receivers : ℕ
  pub head_notices : ℕ

module _ {ℓ} {A : Type ℓ} where
  -- `get_unchecked` at the index of a message id
  abbrev pub index : NexusQ A → ℕ → ℕ
  index q id = fast_mod id q.len

  unfoldable pub with_cell : NexusQ A → ℕ → (Cell A → Cell A) → NexusQ A
  with_cell q i f = record q { cells = update q.cells i (f (q.cells i)) }

  -- For sizes whose cells fit in memory; `allocated` has the others.
  unfoldable pub with_strategies : ℕ → Result (NexusQ A) NexusError
  with_strategies size =
      if ltb size 2
      then err buffer_too_small
      else if ltb isize_max size
      then err buffer_too_large
      else ok (record {
        len = maybe_next_power_of_two size;
        cells = λ _. Cell.new;
        write_head = 1;
        num_receivers = 0;
        head_notices = 0;
      })

-- `Vec::with_capacity` of the rounded size, behind the two checks, when a cell takes `cell_size`
-- bytes: it panics, which is `none`, where the cells take more than `isize::MAX` bytes.
unfoldable pub allocated {ℓ} :
    {B : Type ℓ} → (cell_size size : ℕ) → Result B NexusError → Option (Result B NexusError)
allocated cell_size size (err e) = some (err e)
allocated cell_size size (ok made) =
    if leb (maybe_next_power_of_two size * cell_size) isize_max then some (ok made) else none
