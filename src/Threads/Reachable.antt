-- ===== src/Threads/Reachable.antt =====
-- The invariant holds in every reachable state.
use native.Mathlib.Nat.{zero-mod}
use nexusq.Base.{
  none-ne-some, ℕ, ◌+◌, ◌^◌, ◌%◌, ◌≤◌, ◌<◌, ◌≡◌, refl, arith, inl, inr, Bool, some, List, [], ◌∷◌,
  ◌++◌, length, length-append, length-set, update, usize_max, isize_max, get_elem?, get_elem?-set,
  get_elem?-snoc, set, total,
}
use nexusq.Cell
use nexusq.FastMod.{maybe_next_power_of_two}
use nexusq.Nexus.{NexusQ}
use nexusq.Receiver
use nexusq.Channel.Made.{new_channel, new-IsValid, make_channel_only}
use nexusq.Ring.Recount.{entered-SameMessages}
use nexusq.Threads.Sending.{SenderPc, SendMove}
use nexusq.Threads.Receiving.{ReceiverPc, ReceiveMove, resting, born, enter_cell}
use nexusq.Threads.System.{System, Step, sends, receives, clones, begin, Reach, start, later}
use nexusq.Threads.Invariant.{Inv}
use nexusq.Threads.Fair.{SendMove-IsFair}
use nexusq.Threads.Sends.{
  send_keeps, SendMove-IsCounted, send-IsPublished, send-carried, SendMove-IsWatched,
}
use nexusq.Threads.Recounts.{ReceiveMove-IsCounted, clone-IsCounted}
use nexusq.Threads.Receives.{
  stood, receive_keeps, same-IsWatched, same-IsPublished, ReceiveMove-IsWatched, mover_present,
}

-- As many ids and receivers as the words have room for.
pub record IsRoomy {ℓ} {A : Type ℓ} (s : System A) : Type 0 where
  pub ids : length s.log + 2 ≤ usize_max
  pub few : length s.receivers < 2 ^ 62

module _ {ℓ} {A : Type ℓ} {s : System A} (inv : Inv s) where
  sends-Inv :
      {tries : Bool} (i : ℕ) {q : NexusQ A} {vs : List A} {p : SenderPc A}
      → SendMove tries s.nexus (s.senders i) q vs p
      → length (s.log ++ vs) + 2 ≤ usize_max
      → Inv (record s { nexus = q; senders = update s.senders i p; log = s.log ++ vs })
  sends-Inv i {q} {vs} {p} mv bound =
      let grown = length-append s.log vs in
      record {
        size = rw (send_keeps mv).0 inv.size;
        fair = rw grown (SendMove-IsFair inv.fair (omega arith) i mv);
        counted = SendMove-IsCounted s.receivers mv inv.counted;
        published = rw grown (send-IsPublished inv.fair i mv refl inv.published);
        carried = send-carried inv.fair i s.log refl mv refl inv.carried;
        watched = λ k r e here.
            SendMove-IsWatched inv.fair i refl (inv.watched k r e here) mv inv.carried
              (stood k r inv.counted e here);
      }

  receives-Inv :
      (k : ℕ) {r r' : ReceiverPc} {q : NexusQ A}
      → IsRoomy s
      → get_elem? s.receivers k ≡ some r
      → ReceiveMove s.nexus r q r'
      → Inv (record s { nexus = q; receivers = set s.receivers k r' })
  receives-Inv k {r} {r'} {q} room e mv =
      let (len, head, same) = receive_keeps mv in
      record {
        size = rw len inv.size;
        fair = rw head inv.fair;
        counted = ReceiveMove-IsCounted room.few inv.counted k e mv;
        published = same-IsPublished s.nexus q s.senders _ len (λ i. (same i).0) inv.published;
        carried = inv.carried;
        watched = λ j x found here. elim (get_elem?-set s.receivers k j r' x found) [
          | inl (place, it) ↦ rw it (
              ReceiveMove-IsWatched room.ids inv.published mv (rw it at here)
                (inv.watched k r e (mover_present mv)))
          | inr (other, old) ↦ same-IsWatched len (λ i. (same i).1) (inv.watched j x old here)
        ];
      }

  clones-Inv :
      (k last : ℕ)
      → IsRoomy s
      → get_elem? s.receivers k ≡ some (resting last)
      → Inv
          (record s { nexus = enter_cell s.nexus last; receivers = s.receivers ++ born last ∷ [] })
  unfolding enter_cell
  clones-Inv k last room e =
      let same = entered-SameMessages s.nexus.cells (last % s.nexus.len) in
      record {
        size = inv.size;
        fair = inv.fair;
        counted = clone-IsCounted room.few inv.counted k last;
        published =
            same-IsPublished s.nexus (enter_cell s.nexus last) s.senders _ refl (λ i. (same i).0)
              inv.published;
        carried = inv.carried;
        watched = λ j x found here. elim (get_elem?-snoc s.receivers (born last) j x found) [
          | inl old ↦ same-IsWatched refl (λ i. (same i).1) (inv.watched j x old here)
          | inr it ↦
              rw it (same-IsWatched refl (λ i. (same i).1) (inv.watched k (resting last) e refl))
        ];
      }

-- Where ids and receivers have room, they had it one step earlier.
pub Step-IsRoomy {ℓ} :
    {A : Type ℓ} {tries : Bool} {s t : System A} → Step tries s t → IsRoomy t → IsRoomy s
Step-IsRoomy {s = s} (sends i {messages = vs} mv) room = record {
  ids = omega (arith, room.ids, length-append s.log vs);
  few = room.few;
}
Step-IsRoomy {s = s} (receives k {r' = r'} e mv) room = record {
  ids = room.ids;
  few = omega (arith, room.few, length-set s.receivers k r');
}
Step-IsRoomy {s = s} (clones k {last = last} e) room = record {
  ids = room.ids;
  few = omega (arith, room.few, length-append s.receivers (born last ∷ []));
}

pub Step-Inv {ℓ} :
    {A : Type ℓ} {tries : Bool} {s t : System A} → Step tries s t → IsRoomy t → Inv s → Inv t
Step-Inv (sends i mv) room inv = sends-Inv inv i mv room.ids
Step-Inv {tries = tries} (receives k e mv) room inv =
    receives-Inv inv k (Step-IsRoomy {tries = tries} (receives k e mv) room) e mv
Step-Inv {tries = tries} (clones k {last = last} e) room inv =
    clones-Inv inv k last (Step-IsRoomy {tries = tries} (clones k e) room) e

-- A new channel.
new-Inv {ℓ} :
    (A : Type ℓ) (size : ℕ) → 2 ≤ size → size ≤ isize_max → Inv (begin (new_channel A size))
unfolding begin Receiver.new Cell.move_to Cell.new total
new-Inv A size lo hi =
    let v = new-IsValid A size lo hi in
    let wide : 2 ≤ maybe_next_power_of_two size = v.ring.at_least_two in
    record {
      size = wide;
      fair = record {
        here_or_away = inl refl;
        held = λ i id e. cc;
        alone = λ i j a b e f. cc;
        passed = λ i id e. cc;
        once = λ i j id e f. cc;
      };
      counted = record {
        readers = λ i. ground (arith, zero-mod (maybe_next_power_of_two size));
        alive = refl;
      };
      published = λ id small there. absurd (ground arith);
      carried = λ i id v e. cc;
      watched = λ k r e here. elim (get_elem?-snoc [] (resting 0) k r e) [
        | inl none_there ↦ absurd (none-ne-some r none_there)
        | inr it ↦ rw it (record {
          near = omega arith;
          ahead = omega arith;
          known = omega arith;
          finished = λ i id x. cc;
          clear = λ i x. cc;
          content = λ id one after top done. absurd (omega arith);
        })
      ];
    }

-- The invariant, as long as the ids and the receivers fit the words.
pub Reach-Inv {ℓ} :
    {A : Type ℓ} {tries : Bool} {size : ℕ} {s : System A} → IsRoomy s → Reach tries size s → Inv s
Reach-Inv {A = A} {size = size} room (start c made) =
    let (lo, hi, it) = make_channel_only A size made in rw (← it) (new-Inv A size lo hi)
Reach-Inv {tries = tries} room (later r st) =
    Step-Inv st room (Reach-Inv (Step-IsRoomy {tries = tries} st room) r)
