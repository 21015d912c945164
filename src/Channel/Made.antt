-- ===== src/Channel/Made.antt =====
-- src/lib.rs: which sizes make a channel, and what state it starts in.
use native.Mathlib.Nat.{zero-mod, pow-le-pow_right}
use nexusq.Base.{
  ℕ, ◌*◌, ◌^◌, ◌≤◌, ◌<◌, ◌≡◌, ◌⊎◌, ◌↔◌, inl, inr, refl, sym, arith, [], ◌∷◌, none, some, ok, err,
  dec_le, isize_max, le_or_later, leb_of_le, leb_of_lt,
}
use nexusq.FastMod.{maybe_next_power_of_two}
use nexusq.FastMod.Laws.{maybe_next_power_of_two-least}
use nexusq.Cell
use nexusq.Nexus.{
  NexusQ, NexusError, buffer_too_small, buffer_too_large, with_strategies, allocated,
}
use nexusq.Sender
use nexusq.Receiver
use nexusq.Receiver.{Receiver}
use nexusq.Ring.{IsAnchored, IsValid}
use nexusq.Ring.Occupancy.{occupancy}
use nexusq.Channel.{Handles, make_channel, make_channel_of}

abbrev pub SizeError : ℕ → NexusError → Type 0
SizeError size buffer_too_small = size < 2
SizeError size buffer_too_large = isize_max < size

power-le : (k : ℕ) → 2 ^ k < 2 ^ 64 → 2 ^ k ≤ 2 ^ 63
power-le k h = elim (dec_le k 63) [
  | yes small ↦ pow-le-pow_right {n = 2} (omega arith) small
  | no large ↦
      let above : 2 ^ 64 ≤ 2 ^ k = pow-le-pow_right {n = 2} (omega arith) {i = 64} (omega arith) in
      absurd (omega arith)
]

module _ {ℓ} (A : Type ℓ) (size : ℕ) where
  abbrev pub shared : NexusQ A
  shared = record {
    len = maybe_next_power_of_two size;
    cells = λ _. Cell.new;
    write_head = 1;
    num_receivers = 0;
    head_notices = 0;
  }

  -- The channel that is made of a size that fits.
  abbrev pub new_channel : Handles A
  new_channel = record {
    sender = Sender.new;
    receiver = (Receiver.new shared).0;
    nexus = (Receiver.new shared).1;
  }

  pub make_channel-fits : 2 ≤ size → size ≤ isize_max → make_channel {A = A} size ≡ ok new_channel
  unfolding make_channel with_strategies
  make_channel-fits lo hi = ground arith

  -- Only such a size makes one.
  pub make_channel_only :
      {c : Handles A}
      → make_channel {A = A} size ≡ ok c
      → (2 ≤ size) × (size ≤ isize_max) × (new_channel ≡ c)
  unfolding make_channel with_strategies
  make_channel_only made = ground arith

  pub new-IsValid :
      2 ≤ size
      → size ≤ isize_max
      → IsValid (Receiver.new shared).1 ((Receiver.new shared).0 ∷ []) []
  unfolding Receiver.new Cell.move_to Cell.new occupancy
  new-IsValid lo hi = record {
    ring = record {
      exponent = least.0;
      is_power = least.1;
      at_least_two = omega (arith, least.2, least.1);
      fits = rw least.1 (power-le least.0 (omega (arith, least.3, lo, hi)));
      few = omega arith;
      log_fits = omega arith;
      anchored = (first-IsAnchored, tt);
      counted = λ i. ground arith;
      ids = λ id lo' hi' near. absurd (omega arith);
      values = λ id lo' hi' near. absurd (omega arith);
      unwritten = λ id lo' hi'. ground arith;
    };
    head = omega arith;
    registered = omega arith;
  }
    where
      least :
          (k : ℕ) × (maybe_next_power_of_two size ≡ 2 ^ k)
          × (size ≤ 2 ^ k)
          × ((2 ^ k ≡ 1) ⊎ (2 ^ k < 2 * size))
      least = maybe_next_power_of_two-least size (omega arith)

      first-IsAnchored : IsAnchored (maybe_next_power_of_two size) 0 (Receiver.new shared).0
      first-IsAnchored = record {
        started = omega arith;
        behind = omega arith;
        near = omega (arith, least.2, least.1);
        on_cell = sym (zero-mod _);
      }

  len-bounds :
      2 ≤ size
      → size ≤ isize_max
      → (size ≤ (Receiver.new shared).1.len) × ((Receiver.new shared).1.len < 2 * size)
  unfolding Receiver.new
  len-bounds lo hi =
      let least = maybe_next_power_of_two-least size (omega arith) in omega (arith, least)

  -- A size from 2 to `isize::MAX`, with cells of `cell_size` bytes: where the cells, as many as the
  -- next power of two, take more than `isize::MAX` bytes, the call panics; otherwise it makes a
  -- channel, of at least `size` cells and less than twice as many, whose state is valid with one
  -- receiver and an empty log.
  pub make_channel-IsValid :
      (cell_size : ℕ)
      → 2 ≤ size
      → size ≤ isize_max
      → ((isize_max < maybe_next_power_of_two size * cell_size)
          × (make_channel_of {A = A} cell_size size ≡ none))
        ⊎ ((maybe_next_power_of_two size * cell_size ≤ isize_max)
            × (c : Handles A) × (make_channel_of cell_size size ≡ some (ok c))
            × (size ≤ c.nexus.len)
            × (c.nexus.len < 2 * size)
            × IsValid c.nexus (c.receiver ∷ []) [])
  unfolding make_channel_of
  make_channel-IsValid cell_size lo hi =
      elim (le_or_later (maybe_next_power_of_two size * cell_size) isize_max) [
        | inr over ↦
            inl (over, rw (make_channel-fits lo hi, leb_of_lt _ isize_max over, allocated) refl)
        | inl fits ↦ inr (
          fits,
          new_channel,
          rw (make_channel-fits lo hi, leb_of_le _ isize_max fits, allocated) refl,
          (len-bounds lo hi).0,
          (len-bounds lo hi).1,
          new-IsValid lo hi,
        )
      ]

  -- `make_channel` fails exactly for the sizes below 2, with `BufferTooSmall`, and above
  -- `isize::MAX`, with `BufferTooLarge`.
  pub make_channel_error : (e : NexusError) → (make_channel {A = A} size ≡ err e) ↔ SizeError size e
  unfolding make_channel with_strategies
  make_channel_error buffer_too_small = ground arith
  make_channel_error buffer_too_large = ground arith
