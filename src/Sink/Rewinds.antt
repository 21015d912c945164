-- ===== src/Sink/Rewinds.antt =====
-- src/sender.rs: a second `poll_ready` of a sender that was ready already.
use nexusq.Base.{
  ℕ, ◌+◌, ◌<◌, ◌≡◌, ◌∙◌, refl, ap, arith, false, some, none, ready, ok, usize_max, ◌==◌, ==_ne,
}
use nexusq.Cell
use nexusq.Nexus.{NexusQ, index}
use nexusq.Sender.{Sender, try_take_head, pass_token, publish, try_send}
use nexusq.Sender.Publishing.{holding, take_succeeds}
use nexusq.Sink.{poll_ready}
use nexusq.Sink.Laws.{poll_cell-free}

module _ {ℓ} {A : Type ℓ} where
  -- The next id is there, and nobody reads its cell.
  record IsOpen (q : NexusQ A) (id : ℕ) : Type 0 where
    head : q.write_head ≡ id
    fits : id < usize_max
    some_left : 0 < q.num_receivers
    free : (q.cells (index q id)).read_counter ≡ 0

  -- The state after the send of the next id
  abbrev sent : NexusQ A → ℕ → A → NexusQ A
  sent q id value = publish (pass_token (holding q) id) id value

  takes : (q : NexusQ A) (id : ℕ) → IsOpen q id → try_take_head q ≡ (some id, holding q)
  takes q id o =
      take_succeeds q (omega (arith, o.head, o.fits)) ∙ ap (λ h. (some h, holding q)) o.head

  somebody : (q : NexusQ A) → 0 < q.num_receivers → (q.num_receivers == 0) ≡ false
  somebody q some_left = ==_ne q.num_receivers 0 (omega arith)

  try_send-open :
      (q : NexusQ A) (id : ℕ) (value : A)
      → IsOpen q id
      → try_send q value ≡ (ok tt, sent q id value)
  unfolding try_send Cell.safe_to_write
  try_send-open q id value o =
      rw
        (
          ap (λ p. p.0) (takes q id o),
          ap (λ p. p.1) (takes q id o),
          somebody q o.some_left,
          try_send,
          o.free,
        )
        refl

  poll_ready-open :
      (s : Sender) (q : NexusQ A) (id : ℕ)
      → s.id ≡ none
      → IsOpen q id
      → poll_ready s q
        ≡ (ready (ok tt), record { id = some id; event_guard = false }, pass_token (holding q) id)
  unfolding poll_ready
  poll_ready-open s q id idle o =
      rw
        (
          idle,
          ap (λ p. p.0) (takes q id o),
          ap (λ p. p.1) (takes q id o),
          poll_ready,
          somebody q o.some_left,
        )
        (poll_cell-free _ id (holding q) (ap (λ c. c == 0) o.free))

  poll_ready-again :
      (q : NexusQ A) (id : ℕ)
      → 0 < q.num_receivers
      → (q.cells (index q id)).read_counter ≡ 0
      → poll_ready (record { id = some id; event_guard = false }) q
        ≡ (ready (ok tt), record { id = some id; event_guard = false }, pass_token q id)
  unfolding poll_ready
  poll_ready-again q id some_left free =
      rw (poll_ready, somebody q some_left) (poll_cell-free _ id q (ap (λ c. c == 0) free))

  pass_token-IsOpen :
      (q : NexusQ A) (id : ℕ)
      → id + 1 < usize_max
      → 0 < q.num_receivers
      → (q.cells (index q (id + 1))).read_counter ≡ 0
      → IsOpen (pass_token q id) (id + 1)
  unfolding pass_token
  pass_token-IsOpen q id fits some_left free = record {
    head = omega arith;
    fits = fits;
    some_left = some_left;
    free = free;
  }

  -- A publication changes no counter of readers, and puts the message with its id into its cell.
  counter-publish :
      (q : NexusQ A) (id j : ℕ) (value : A)
      → ((publish q id value).cells j).read_counter ≡ (q.cells j).read_counter
  unfolding publish
  counter-publish q id j value = ground arith

  holds_published :
      (q : NexusQ A) (id : ℕ) (value : A)
      → (((publish q id value).cells (index q id)).current_id ≡ id)
        × (((publish q id value).cells (index q id)).value ≡ some value)
  unfolding publish
  holds_published q id value = (ground arith, ground arith)

  -- A sender without an id takes the next one, `id`, and is ready; another sender sends `other` with
  -- the id after it; the first sender is polled once more, which the contract of `Sink` allows, and
  -- is ready again. That poll sets the write head back from `id + 2` to `id + 1`, so that the next
  -- `try_send` succeeds with the id of `other` and writes over it, whether or not it has been read.
  -- The cells of both ids are without readers, and some receiver is there.
  pub poll_ready_rewinds :
      (s : Sender) (q : NexusQ A) (id : ℕ) (other third : A)
      → s.id ≡ none
      → q.write_head ≡ id
      → id + 2 < usize_max
      → 0 < q.num_receivers
      → (q.cells (index q id)).read_counter ≡ 0
      → (q.cells (index q (id + 1))).read_counter ≡ 0
      → let first = poll_ready s q in
        let between = try_send first.2 other in
        let again = poll_ready first.1 between.1 in
        let last = try_send again.2 third in
        (first.0 ≡ ready (ok tt))
        × (between.0 ≡ ok tt)
        × (between.1.write_head ≡ id + 2)
        × ((between.1.cells (index q (id + 1))).current_id ≡ id + 1)
        × ((between.1.cells (index q (id + 1))).value ≡ some other)
        × (again.0 ≡ ready (ok tt))
        × (again.2.write_head ≡ id + 1)
        × (last.0 ≡ ok tt)
        × ((last.1.cells (index q (id + 1))).current_id ≡ id + 1)
        × ((last.1.cells (index q (id + 1))).value ≡ some third)
  unfolding pass_token publish
  poll_ready_rewinds s q id other third idle head fits some_left free next_free =
      let q1 = pass_token (holding q) id in
      let open1 = pass_token-IsOpen (holding q) id (omega arith) some_left next_free in
      let q2 = sent q1 (id + 1) other in
      let e1 =
        poll_ready-open s q id idle
          (record { head = head; fits = omega arith; some_left = some_left; free = free }) in
      let e2 = try_send-open q1 (id + 1) other open1 in
      let kept = counter-publish (pass_token (holding q1) (id + 1)) (id + 1) (index q id) other in
      let e3 = poll_ready-again q2 id some_left (kept ∙ free) in
      let kept' =
        counter-publish (pass_token (holding q1) (id + 1)) (id + 1) (index q (id + 1)) other in
      let open3 = pass_token-IsOpen q2 id (omega arith) some_left (kept' ∙ next_free) in
      let e4 = try_send-open (pass_token q2 id) (id + 1) third open3 in
      let put = holds_published (pass_token (holding q1) (id + 1)) (id + 1) other in
      let put' =
        holds_published (pass_token (holding (pass_token q2 id)) (id + 1)) (id + 1) third in
      rw (e1, e2, e3, e4)
        (refl, refl, omega arith, put.0, put.1, refl, omega arith, refl, put'.0, put'.1)
