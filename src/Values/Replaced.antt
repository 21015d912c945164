-- ===== src/Values/Replaced.antt =====
-- In what order publications drop the values that they replace: one `try_send`.
use nexusq.Base.{
  ℕ, suc, ◌+◌, ◌-◌, ◌%◌, ◌≤◌, ◌<◌, ◌≡◌, ◌≢◌, ◌∙◌, inl, inr, refl, sym, ap, arith, List, [], ◌∷◌,
  ◌++◌, append-nil, none, some, ok, err, length, length-append, get_elem?, get_elem?-some_of_lt,
  take-append_left, take-snoc, mod-ne, update, update_ne, dec_le, Bool-cases, usize_max, map,
}
use native.Mathlib.Nat.{add-mod_right}
use nexusq.Cell
use nexusq.Nexus.{NexusQ, index}
use nexusq.Sender
use nexusq.Sender.Methods.{sent, try_send_lem}
use nexusq.Receiver.{Receiver}
use nexusq.Broadcast.{accept, has_room}
use nexusq.Ring.{IsValid, position}
use nexusq.Ring.Cells.{index-eq-mod}
use nexusq.Session.View.{view}
use nexusq.Values.{list_of, dropped, dropped_by, expired, IsFresh}

module _ {ℓ} {A : Type ℓ} where
  module _ {q : NexusQ A} {rs : List Receiver} {log : List A} (v : IsValid q rs log)
      (fresh : IsFresh q log) (value : A) where
    -- The cell of the next id
    next_cell : index q q.write_head ≡ (length log + 1) % q.len
    next_cell = rw v.head (index-eq-mod v.ring (length log + 1))

    -- What it holds is the message a whole ring behind the end, if there is one.
    replaces :
        expired q.len log ++ list_of (q.cells ((length log + 1) % q.len)).value
        ≡ expired q.len (log ++ value ∷ [])
    replaces = elim (dec_le q.len (length log)) [
      | yes full ↦
          let n = length log - q.len in
          let (x, there) = get_elem?-some_of_lt log n (omega (arith, v.ring.at_least_two)) in
          let round : (length log + 1) % q.len ≡ (n + 1) % q.len =
            ap (λ id. id % q.len) (omega arith) ∙ add-mod_right (n + 1) q.len in
          let old : (q.cells ((length log + 1) % q.len)).value ≡ some x =
            ap (λ i. (q.cells i).value) round
            ∙ v.ring.values (n + 1) (omega arith) (omega (arith, v.ring.at_least_two)) (omega arith)
            ∙ ap (get_elem? log) (omega arith)
            ∙ there in
          let one_more : length (log ++ value ∷ []) - q.len ≡ suc n =
            omega (arith, length-append log (value ∷ [])) in
          rw (old, one_more)
            (take-snoc n log x there
              ∙ sym
                  (take-append_left (suc n) log (value ∷ []) (omega (arith, v.ring.at_least_two))))
      | no room ↦
          let none_left : length (log ++ value ∷ []) - q.len ≡ 0 =
            omega (arith, length-append log (value ∷ [])) in
          let none_yet : length log - q.len ≡ 0 = omega arith in
          rw (fresh (length log + 1) (omega arith) (omega arith), none_left, none_yet) refl
    ]

    -- The cells that are still free after one more message
    abbrev more_cells : ℕ → Cell.Cell A
    more_cells =
        update q.cells (index q (length log + 1))
          (Cell.write_and_publish (q.cells (index q (length log + 1))) value (length log + 1)).0

    still_fresh :
        (id : ℕ)
        → length (log ++ value ∷ []) < id
        → id ≤ q.len
        → (more_cells (id % q.len)).value ≡ none
    still_fresh id lo hi =
        let lo' : length log + 1 < id = omega (arith, length-append log (value ∷ [])) in
        let apart : index q (length log + 1) ≢ id % q.len =
          rw (index-eq-mod v.ring (length log + 1))
            (mod-ne q.len (length log + 1) id lo' (omega arith)) in
        rw (update_ne q.cells (index q (length log + 1)) (id % q.len) _ apart)
          (fresh id (omega arith) hi)

    -- A send, against the log that the abstract channel has then
    pub record Replaces (log' : List A) : Type ℓ where
      pub order : expired q.len log ++ dropped q value ≡ expired q.len log'
      pub fresh' : IsFresh (Sender.try_send q value).1 log'

    refused-Replaces :
        {e : Sender.SendError A} → Sender.try_send q value ≡ (err e, q) → Replaces log
    unfolding dropped_by
    refused-Replaces sends = record {
      order = rw sends (append-nil (expired q.len log));
      fresh' = rw sends fresh;
    }

    accepted-Replaces :
        (more : length log + 2 ≤ usize_max)
        → Sender.try_send q value ≡ (ok tt, sent v more value)
        → Replaces (log ++ value ∷ [])
    unfolding dropped_by Sender.publish Sender.pass_token
    accepted-Replaces more sends = record {
      order = rw (sends, next_cell) replaces;
      fresh' = rw sends still_fresh;
    }

  pub send-Replaces :
      {q : NexusQ A} {rs : List Receiver} {log : List A} (v : IsValid q rs log)
      (fresh : IsFresh q log) (value : A)
      → length log + 2 ≤ usize_max
      → Replaces v fresh value (accept (view q rs log) value).1
  unfolding accept
  send-Replaces {rs = []} v fresh value more =
      refused-Replaces v fresh value ((try_send_lem v more value).0 refl)
  send-Replaces {q = q} {rs = r ∷ rs} {log = log} v fresh value more =
      elim (Bool-cases (has_room (q.len - 1) (length log) (map position (r ∷ rs)))) [
        | inl has ↦
            rw has
              (accepted-Replaces v fresh value more ((try_send_lem v more value).2 (λ e. cc) has).0)
        | inr full ↦
            rw full (refused-Replaces v fresh value ((try_send_lem v more value).1 (λ e. cc) full))
      ]
