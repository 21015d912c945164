-- ===== src/Session/RoundTrip.antt =====
-- What is sent comes out again: `try_send` for each of a list of values, and then `try_recv_batch`.
use nexusq.Base.{
  ℕ, zero, suc, ◌+◌, ◌-◌, ◌≤◌, ◌≡◌, ◌≢◌, ◌∙◌, refl, sym, ap, arith, true, List, [], ◌∷◌, ◌++◌,
  append-nil, append_assoc, some, none-ne-some, ok, map, length, length-append, get_elem?,
  get_elem?-append_of_some, get_elem?-append_last, All, usize_max, set,
}
use nexusq.Nexus.{NexusQ}
use nexusq.Sender.{SendResult, try_send}
use nexusq.Sender.Methods.{try_send_lem}
use nexusq.Receiver.{Receiver}
use nexusq.Batch.{try_recv_batch}
use nexusq.Batch.Reading.{next_messages-none, next_messages-some}
use nexusq.Batch.Laws.{try_recv_batch_refines}
use nexusq.Broadcast.{has_room, next_messages}
use nexusq.Session.View.{len-try_send}
use nexusq.Ring.{IsValid, position}

-- The messages from the end of the first part of a log on
next_messages_behind {ℓ} :
    {A : Type ℓ} (log vs : List A) (n : ℕ)
    → length vs ≤ n
    → next_messages (log ++ vs) (length log) n ≡ map (λ v. some v) vs
next_messages_behind log [] n few =
    rw (append-nil log, next_messages-none log (length log) n (omega arith)) refl
next_messages_behind log (v ∷ vs) zero few = absurd (omega arith)
next_messages_behind log (v ∷ vs) (suc n) few =
    let one_more = append_assoc log (v ∷ []) vs in
    let there : get_elem? (log ++ v ∷ vs) (length log) ≡ some v =
      rw (← one_more) (
        get_elem?-append_of_some (log ++ v ∷ []) vs (length log) v (get_elem?-append_last log v)) in
    let longer : length log + 1 ≡ length (log ++ v ∷ []) =
      omega (arith, length-append log (v ∷ [])) in
    rw (next_messages-some (log ++ v ∷ vs) (length log) n v there, longer, ← one_more)
      (ap (λ ms. some v ∷ ms) (next_messages_behind (log ++ v ∷ []) vs n (omega arith)))

length-map-some {ℓ} : {A : Type ℓ} (vs : List A) → length (map (λ v. some v) vs) ≡ length vs
length-map-some [] = refl
length-map-some (v ∷ vs) = ap suc (length-map-some vs)

-- There is room for one more.
room_for_one :
    (len sent n : ℕ) (rs : List Receiver)
    → All (λ r. sent + suc n ≤ position r + (len - 1)) rs
    → has_room (len - 1) sent (map position rs) ≡ true
unfolding has_room
room_for_one len sent n [] h = refl
room_for_one len sent n (r ∷ rs) h = ground (arith, h.0, room_for_one len sent n rs h.1)

-- After one more there is room for the rest.
room_for_rest :
    (len len' sent sent' n : ℕ) (rs : List Receiver)
    → len' ≡ len
    → sent' ≡ sent + 1
    → All (λ r. sent + suc n ≤ position r + (len - 1)) rs
    → All (λ r. sent' + n ≤ position r + (len' - 1)) rs
room_for_rest len len' sent sent' n [] e e' h = tt
room_for_rest len len' sent sent' n (r ∷ rs) e e' h =
    (omega (arith, h.0), room_for_rest len len' sent sent' n rs e e' h.1)

module _ {ℓ} {A : Type ℓ} where
  -- `try_send` for each value
  unfoldable pub send_all : NexusQ A → List A → List (SendResult A) × NexusQ A
  send_all q [] = ([], q)
  send_all q (v ∷ vs) =
      let (result, q') = try_send q v in
      let (results, q'') = send_all q' vs in (result ∷ results, q'')

  -- No receiver is so far behind that `n` more messages would not fit.
  abbrev pub HasRoomFor : NexusQ A → List Receiver → (sent n : ℕ) → Type 0
  HasRoomFor q rs sent n = All (λ r. sent + n ≤ position r + (q.len - 1)) rs

  -- One value is sent, and the state is valid with it at the log's end.
  send_one :
      (q : NexusQ A) (rs : List Receiver) (log : List A) (x : A) (n : ℕ)
      → IsValid q rs log
      → rs ≢ []
      → HasRoomFor q rs (length log) (suc n)
      → length log + suc n + 1 ≤ usize_max
      → ((try_send q x).0 ≡ ok tt) × IsValid (try_send q x).1 rs (log ++ x ∷ [])
  send_one q rs log x n v some_left room few =
      let (sends, valid) =
        (try_send_lem v (omega arith) x).2 some_left (room_for_one q.len (length log) n rs room) in
      rw sends (refl, valid)

  send_all-IsValid :
      (q : NexusQ A) (rs : List Receiver) (log vs : List A)
      → IsValid q rs log
      → rs ≢ []
      → HasRoomFor q rs (length log) (length vs)
      → length log + length vs + 1 ≤ usize_max
      → ((send_all q vs).0 ≡ map (λ _. ok tt) vs) × IsValid (send_all q vs).1 rs (log ++ vs)
  unfolding send_all
  send_all-IsValid q rs log [] v some_left room few = (refl, rw (append-nil log) v)
  send_all-IsValid q rs log (x ∷ xs) v some_left room few =
      let (sent, valid) = send_one q rs log x (length xs) v some_left room few in
      let longer : length (log ++ x ∷ []) ≡ length log + 1 =
        omega (arith, length-append log (x ∷ [])) in
      let (rest, end) =
        send_all-IsValid (try_send q x).1 rs (log ++ x ∷ []) xs valid some_left
          (room_for_rest q.len (try_send q x).1.len (length log) (length (log ++ x ∷ []))
            (length xs) rs (len-try_send q x) longer room)
          (omega arith) in
      (rw (sent, rest) refl, rw (← append_assoc log (x ∷ []) xs) end)

  -- Values that there is room for are sent one after the other by `try_send`, each with success, and
  -- a receiver that had read all before then reads them by one `try_recv_batch`, in the order they
  -- were sent in: as many as they are, none missing and none twice, if it asks for at least as many.
  pub send_all-try_recv_batch :
      {q : NexusQ A} {rs : List Receiver} {log : List A}
      → IsValid q rs log
      → (k : ℕ) (r : Receiver) → get_elem? rs k ≡ some r
      → position r ≡ length log
      → (vs : List A) → HasRoomFor q rs (length log) (length vs)
      → length log + length vs + 1 ≤ usize_max
      → (max_results : ℕ) → length vs ≤ max_results
      → let (results, q1) = send_all q vs in
        let (count, messages, r', q2) = try_recv_batch r q1 max_results [] in
        (results ≡ map (λ _. ok tt) vs)
        × (count ≡ length vs)
        × (messages ≡ map (λ v. some v) vs)
        × (position r' ≡ position r + length vs)
        × IsValid q2 (set rs k r') (log ++ vs)
  send_all-try_recv_batch {q} {rs} {log} v k r alive read vs room few max_results enough =
      let some_left : rs ≢ [] =
        λ none_left. none-ne-some r (ap (λ rs. get_elem? rs k) (sym none_left) ∙ alive) in
      let (sent, valid) = send_all-IsValid q rs log vs v some_left room few in
      let there : next_messages (log ++ vs) (position r) max_results ≡ map (λ v. some v) vs =
        rw read (next_messages_behind log vs max_results enough) in
      let many : length (next_messages (log ++ vs) (position r) max_results) ≡ length vs =
        rw there (length-map-some vs) in
      let (count, messages, moved, end) = try_recv_batch_refines valid k r alive max_results [] in
      (sent, count ∙ many, messages ∙ there, omega (arith, moved, many), end)
