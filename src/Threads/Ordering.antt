-- ===== src/Threads/Ordering.antt =====
-- What the line of messages gives each receiver.
use nexusq.Base.{
  ℕ, suc, ◌+◌, ◌-◌, ◌<◌, ◌≤◌, ◌≡◌, ◌≢◌, ◌∙◌, inl, inr, refl, sym, ap, arith, List, [], ◌∷◌, ◌++◌,
  none, some, none-ne-some, some-injective, append-nil, length, length-append, length-set,
  get_elem?, set, get_elem?-set, get_elem?-snoc, get_elem?-append_left, dec_lt, ==_self,
}
use nexusq.Broadcast.{next_messages}
use nexusq.Batch.Reading.{next_messages-zero}
use nexusq.Threads.Events.{
  Event, put, got, cloned, retired, Line, Allows, puts, gets, forks, retires, Plays, none_yet,
  then_one,
}
use nexusq.Threads.Refine.{first_line}
use nexusq.Threads.Got.{
  messages_put, got_by, one_got, in_range, messages_put-append, got_by-append, next_messages-longer,
  next_messages-snoc, not_mine,
}

module _ {ℓ} {A : Type ℓ} where
  pub record Receives (l : Line A) (es : List (Event A)) (k p : ℕ) : Type ℓ where
    pub from : ℕ
    pub first : k ≡ 0 → from ≡ 0
    pub order : from ≤ p
    pub known : p ≤ length l.log
    pub messages : got_by k es ≡ next_messages l.log from (p - from)

  pub record IsOrdered (l : Line A) (es : List (Event A)) : Type ℓ where
    pub logged : messages_put es ≡ l.log
    pub receives : (k p : ℕ) → get_elem? l.positions k ≡ some (some p) → Receives l es k p
    pub unborn : (k : ℕ) → length l.positions ≤ k → got_by k es ≡ []
    pub some_there : 1 ≤ length l.positions

  carried :
      {l l' : Line A} {es es' : List (Event A)} {k p : ℕ}
      → Receives l es k p
      → got_by k es' ≡ got_by k es
      → length l.log ≤ length l'.log
      → ((b n : ℕ) → b + n ≤ length l.log → next_messages l'.log b n ≡ next_messages l.log b n)
      → Receives l' es' k p
  carried {p = p} r same longer kept = record {
    from = r.from;
    first = r.first;
    order = r.order;
    known = omega (arith, r.known);
    messages = same ∙ r.messages ∙ sym (kept r.from (p - r.from) (omega (arith, r.known, r.order)));
  }

  quiet_got :
      (k : ℕ) (es : List (Event A)) (e : Event A)
      → got_by k (e ∷ []) ≡ []
      → got_by k (es ++ e ∷ []) ≡ got_by k es
  quiet_got k es e quiet =
      got_by-append k es (e ∷ []) ∙ ap (λ ms. got_by k es ++ ms) quiet ∙ append-nil (got_by k es)

  quiet_put :
      (es : List (Event A)) (e : Event A)
      → messages_put (e ∷ []) ≡ []
      → messages_put (es ++ e ∷ []) ≡ messages_put es
  quiet_put es e quiet =
      messages_put-append es (e ∷ [])
      ∙ ap (λ vs. messages_put es ++ vs) quiet
      ∙ append-nil (messages_put es)

  puts-IsOrdered :
      {l : Line A} {es : List (Event A)} (v : A)
      → IsOrdered l es
      → IsOrdered (record l { log = l.log ++ v ∷ [] }) (es ++ put v ∷ [])
  puts-IsOrdered {l} {es} v o = record {
    logged = messages_put-append es (put v ∷ []) ∙ ap (λ vs. vs ++ v ∷ []) o.logged;
    receives = λ k p at.
        carried (o.receives k p at) (quiet_got k es (put v) refl)
          (omega (arith, length-append l.log (v ∷ []))) (next_messages-longer l.log v);
    unborn = λ k beyond. quiet_got k es (put v) refl ∙ o.unborn k beyond;
    some_there = o.some_there;
  }

  -- One message more for the receiver that reads it
  got_one :
      {l l' : Line A} {es : List (Event A)} {k p : ℕ} {m : A}
      → l'.log ≡ l.log
      → get_elem? l.log p ≡ some m
      → Receives l es k p
      → Receives l' (es ++ got k (some m) ∷ []) k (p + 1)
  got_one {l} {l'} {es} {k} {p} {m} same there r =
      let n = p - r.from in
      let more : p + 1 - r.from ≡ suc n = omega (arith, r.order) in
      let mine : one_got k k (some m) ≡ some m ∷ [] = rw (==_self k) refl in
      record {
        from = r.from;
        first = r.first;
        order = omega (arith, r.order);
        known = rw same (omega (arith, in_range l.log p p m there (omega arith)));
        messages =
            rw (same, more)
              (got_by-append k es (got k (some m) ∷ [])
                ∙ rw (mine, r.messages)
                    (sym (
                      next_messages-snoc l.log r.from n m
                        (ap (get_elem? l.log) (omega (arith, r.order)) ∙ there))));
      }

  gets-IsOrdered :
      {l : Line A} {es : List (Event A)} (k p : ℕ) (m : A)
      → IsOrdered l es
      → get_elem? l.positions k ≡ some (some p)
      → get_elem? l.log p ≡ some m
      → IsOrdered
          (record l { positions = set l.positions k (some (p + 1)) })
          (es ++ got k (some m) ∷ [])
  gets-IsOrdered {l} {es} k p m o at there = record {
    logged = quiet_put es (got k (some m)) refl ∙ o.logged;
    receives = λ j p' at'. elim (get_elem?-set l.positions k j (some (p + 1)) (some p') at') [
      | inl (self, moved) ↦
          rw (self, some-injective _ _ moved) (got_one refl there (o.receives k p at))
      | inr (other, old) ↦
          carried (o.receives j p' old) (quiet_got j es _ (not_mine j k (some m) other))
            (omega arith) (λ b n fits. refl)
    ];
    unborn = λ j beyond.
        let outside : length l.positions ≤ j =
          rw (← length-set l.positions k (some (p + 1))) beyond in
        let here : k < length l.positions = in_range l.positions k k (some p) at (omega arith) in
        quiet_got j es (got k (some m)) (not_mine j k (some m) (λ same. omega arith))
        ∙ o.unborn j outside;
    some_there = rw (length-set l.positions k (some (p + 1))) o.some_there;
  }

  -- A receiver that has read nothing yet
  newborn :
      {l : Line A} {es : List (Event A)} {j p : ℕ}
      → got_by j es ≡ []
      → j ≢ 0
      → p ≤ length l.log
      → Receives l es j p
  newborn {l} {p = p} nothing later known =
      let none_left : p - p ≡ 0 = omega arith in
      record {
        from = p;
        first = λ e. absurd (later e);
        order = omega arith;
        known = known;
        messages = nothing ∙ sym (rw none_left (next_messages-zero l.log p));
      }

  forks-IsOrdered :
      {l : Line A} {es : List (Event A)} (k p : ℕ)
      → IsOrdered l es
      → get_elem? l.positions k ≡ some (some p)
      → IsOrdered (record l { positions = l.positions ++ some p ∷ [] }) (es ++ cloned k ∷ [])
  forks-IsOrdered {l} {es} k p o at =
      let grown = length-append l.positions (some p ∷ []) in
      record {
        logged = quiet_put es (cloned k) refl ∙ o.logged;
        receives = λ j p' at'. elim (get_elem?-snoc l.positions (some p) j (some p') at') [
          | inl old ↦
              carried (o.receives j p' old) (quiet_got j es (cloned k) refl) (omega arith)
                (λ b n fits. refl)
          | inr new ↦ elim (dec_lt j (length l.positions)) [
            | yes inside ↦
                carried
                  (o.receives j p'
                    (sym (get_elem?-append_left l.positions (some p ∷ []) j inside) ∙ at'))
                  (quiet_got j es (cloned k) refl) (omega arith) (λ b n fits. refl)
            | no outside ↦ rw (some-injective _ _ new) (
                newborn (quiet_got j es (cloned k) refl ∙ o.unborn j (omega arith))
                  (λ e. omega (arith, o.some_there)) (o.receives k p at).known)
          ]
        ];
        unborn = λ j beyond. quiet_got j es (cloned k) refl ∙ o.unborn j (omega (arith, grown));
        some_there = omega (arith, grown);
      }

  retires-IsOrdered :
      {l : Line A} {es : List (Event A)} (k : ℕ)
      → IsOrdered l es
      → IsOrdered (record l { positions = set l.positions k none }) (es ++ retired k ∷ [])
  retires-IsOrdered {l} {es} k o = record {
    logged = quiet_put es (retired k) refl ∙ o.logged;
    receives = λ j p' at'. elim (get_elem?-set l.positions k j none (some p') at') [
      | inl (self, moved) ↦ absurd (none-ne-some p' (sym moved))
      | inr (other, old) ↦
          carried (o.receives j p' old) (quiet_got j es (retired k) refl) (omega arith)
            (λ b n fits. refl)
    ];
    unborn = λ j beyond.
        quiet_got j es (retired k) refl ∙ o.unborn j (rw (← length-set l.positions k none) beyond);
    some_there = rw (length-set l.positions k none) o.some_there;
  }

  Allows-IsOrdered :
      {l l' : Line A} {es : List (Event A)} {e : Event A}
      → IsOrdered l es
      → Allows l e l'
      → IsOrdered l' (es ++ e ∷ [])
  Allows-IsOrdered {l} {es = es} o (puts v room) = puts-IsOrdered v o
  Allows-IsOrdered {l} {es = es} o (gets k p m at there) = gets-IsOrdered k p m o at there
  Allows-IsOrdered {l} {es = es} o (forks k p at) = forks-IsOrdered k p o at
  Allows-IsOrdered {l} {es = es} o (retires k p at) = retires-IsOrdered k o

  pub Plays-IsOrdered :
      {l l' : Line A} {es : List (Event A)} → IsOrdered l [] → Plays l es l' → IsOrdered l' es
  Plays-IsOrdered o none_yet = o
  Plays-IsOrdered o (then_one played allowed) = Allows-IsOrdered (Plays-IsOrdered o played) allowed

  pub first-IsOrdered : (len : ℕ) → IsOrdered (first_line len) []
  first-IsOrdered len = record {
    logged = refl;
    receives = λ k p at. elim (get_elem?-snoc [] (some 0) k (some p) at) [
      | inl absent ↦ absurd (none-ne-some (some p) absent)
      | inr start ↦ rw (some-injective p 0 start) (record {
        from = 0;
        first = λ e. refl;
        order = omega arith;
        known = omega arith;
        messages = sym (next_messages-zero [] 0);
      })
    ];
    unborn = λ k beyond. refl;
    some_there = omega arith;
  }
