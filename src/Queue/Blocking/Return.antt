-- ===== src/Queue/Blocking/Return.antt =====
-- queue/blocking_queue.go: when a waiting call returns, and what wakes a waiter.
use fyer_kit.Prelude.{
  ◌<◌, ◌≡◌, refl, sym, subst, ◌⊎◌, inl, inr, Bool, true, false, not, ◌&&◌, List, [], ◌∷◌, arith,
  ltb, Bool-cases, if-intro, if◌then◌else◌, lt→ltb, ◌↔◌,
}
use fyer_kit.Queue.Blocking.{
  BlockingQueue, is_full, is_empty, pop_head, finish_dequeue, try_dequeue, signal_not_full,
}
use fyer_kit.Queue.Blocking.Invariant.{IsValid, is_full-eq-leb}
use fyer_kit.Queue.Blocking.Wait.{
  nil, live, Cause, timer_fired, context_done, ticked, Wake, Outcome, returned, waiting, panicked,
  Waited, woken, gave_up, asleep, no_context, closed_twice, watch, verdict, resolve, start_round,
  others, wait_loop, enqueue, enqueue_locked, enqueue_woken, dequeue, dequeue_locked, dequeue_woken,
  take_item, was_full_before, add_enqueue_block, add_enqueue_timeout, add_dequeue_block,
  add_dequeue_timeout,
}

module _ {ℓ} {A : Type ℓ} (z : A) (blocked : BlockingQueue A → Bool) where
  -- A wait under a timer and a live context ends: the queue stops blocking or is closed, at some
  -- wake-up or before, or the timer or the context says so.
  abbrev pub Ends : BlockingQueue A → List (Wake A) → Type 0
  Ends q [] = (blocked q && not q.closed) ≡ false
  Ends q (w ∷ ws) =
      ((blocked q && not q.closed) ≡ false)
      ⊎ (w.cause ≡ timer_fired)
      ⊎ (w.cause ≡ context_done)
      ⊎ Ends (others z q w.calls) ws

  -- The same for a wait whose watcher may close its channel again: no second close comes before the end.
  abbrev pub EndsUnbroken : BlockingQueue A → List (Wake A) → Type 0
  EndsUnbroken q [] = (blocked q && not q.closed) ≡ false
  EndsUnbroken q (w ∷ ws) =
      ((blocked q && not q.closed) ≡ false)
      ⊎ ((w.closed_again ≡ false)
          × ((w.cause ≡ timer_fired)
              ⊎ (w.cause ≡ context_done)
              ⊎ EndsUnbroken (others z q w.calls) ws))

  abbrev pub IsOver : Waited A → Type 0
  IsOver (woken q) = Unit
  IsOver (gave_up e q) = Unit
  IsOver (asleep q) = ⊥
  IsOver (no_context q) = ⊥
  IsOver (closed_twice q) = ⊥

  round-IsOver :
      (b : Bool) (c : Cause) (count : BlockingQueue A → BlockingQueue A) (q q' : BlockingQueue A)
      (next : Waited A) {E : Type 0}
      → IsOver next ↔ E
      → IsOver (
          if b
          then start_round true live q (resolve (verdict true live c) count q' next)
          else woken q)
        ↔ ((b ≡ false) ⊎ (c ≡ timer_fired) ⊎ (c ≡ context_done) ⊎ E)
  unfolding start_round resolve verdict
  round-IsOver false c count q q' next h = (λ _. inl refl, λ _. tt)
  round-IsOver true timer_fired count q q' next h = (λ _. inr (inl refl), λ _. tt)
  round-IsOver true context_done count q q' next h = (λ _. inr (inr (inl refl)), λ _. tt)
  round-IsOver true ticked count q q' next h = (
    (λ o. inr (inr (inr (h.0 o)))),
    λ e. elim e [
      | inl e ↦ cc
      | inr (inl e) ↦ cc
      | inr (inr (inl e)) ↦ cc
      | inr (inr (inr e)) ↦ h.1 e
    ],
  )

  wait_loop-IsOver :
      (count : BlockingQueue A → BlockingQueue A) (q : BlockingQueue A) (ws : List (Wake A))
      → IsOver (wait_loop z false true live blocked count q ws) ↔ Ends q ws
  unfolding wait_loop start_round watch
  wait_loop-IsOver count q [] = elim (Bool-cases (blocked q && not q.closed)) [
    | inl e ↦ rw e ((λ o. absurd o), λ h. cc)
    | inr e ↦ rw e ((λ _. refl), λ _. tt)
  ]
  wait_loop-IsOver count q (w ∷ ws) =
      round-IsOver (blocked q && not q.closed) w.cause count q (others z q w.calls) _
        (wait_loop-IsOver count (others z q w.calls) ws)

  watched_round-IsOver :
      (b again : Bool) (c : Cause) (count : BlockingQueue A → BlockingQueue A)
      (q q' : BlockingQueue A) (next : Waited A) {E : Type 0}
      → IsOver next ↔ E
      → IsOver (
          if b
          then start_round true live q
              (watch again q' (resolve (verdict true live c) count q' next))
          else woken q)
        ↔ ((b ≡ false) ⊎ ((again ≡ false) × ((c ≡ timer_fired) ⊎ (c ≡ context_done) ⊎ E)))
  unfolding start_round watch
  watched_round-IsOver false again c count q q' next h = (λ _. inl refl, λ _. tt)
  watched_round-IsOver true true c count q q' next h =
      ((λ o. absurd o), λ e. absurd (elim e [ inl e ↦ cc | inr (e, _) ↦ cc ]))
  watched_round-IsOver true false c count q q' next h =
      let (there, back) = round-IsOver true c count q q' next h in
      (
        (λ o. elim (there o) [ inl e ↦ inl e | inr r ↦ inr (refl, r) ]),
        λ e. back (elim e [ inl e ↦ inl e | inr (_, r) ↦ inr r ]),
      )

  watched_loop-IsOver :
      (count : BlockingQueue A → BlockingQueue A) (q : BlockingQueue A) (ws : List (Wake A))
      → IsOver (wait_loop z true true live blocked count q ws) ↔ EndsUnbroken q ws
  unfolding wait_loop start_round
  watched_loop-IsOver count q [] = elim (Bool-cases (blocked q && not q.closed)) [
    | inl e ↦ rw e ((λ o. absurd o), λ h. cc)
    | inr e ↦ rw e ((λ _. refl), λ _. tt)
  ]
  watched_loop-IsOver count q (w ∷ ws) =
      watched_round-IsOver (blocked q && not q.closed) w.closed_again w.cause count q
        (others z q w.calls) _ (watched_loop-IsOver count (others z q w.calls) ws)

  EndsUnbroken-now :
      (q : BlockingQueue A) (ws : List (Wake A))
      → (blocked q && not q.closed) ≡ false
      → EndsUnbroken q ws
  EndsUnbroken-now q [] h = h
  EndsUnbroken-now q (w ∷ ws) h = inl h

  Ends-now :
      (q : BlockingQueue A) (ws : List (Wake A)) → (blocked q && not q.closed) ≡ false → Ends q ws
  Ends-now q [] h = h
  Ends-now q (w ∷ ws) h = inl h

module _ {ℓ} {A : Type ℓ} (z : A) where
  abbrev pub HasReturned {κ} : {R : Type κ} → Outcome A R → Type 0
  HasReturned (returned r q) = Unit
  HasReturned (waiting q) = ⊥
  HasReturned (panicked q) = ⊥

  enqueue_woken-HasReturned :
      (x : A) (r : Waited A) → HasReturned (enqueue_woken z x r) ↔ IsOver z is_full r
  unfolding enqueue_woken
  enqueue_woken-HasReturned x (woken q) =
      ((λ _. tt), λ _. if-intro HasReturned q.closed (λ _. tt) (λ _. tt))
  enqueue_woken-HasReturned x (gave_up e q) = ((λ _. tt), λ _. tt)
  enqueue_woken-HasReturned x (asleep q) = ((λ h. h), λ h. h)
  enqueue_woken-HasReturned x (no_context q) = ((λ h. h), λ h. h)
  enqueue_woken-HasReturned x (closed_twice q) = ((λ h. h), λ h. h)

  -- On a bounded queue with an enqueue timeout, under a context that is live when the call
  -- begins, Enqueue has returned after a list of wake-ups exactly when the queue has room or is
  -- closed at the start or after the calls of some wake-up, or the timer or the context ended a
  -- wait, and in no wait up to then the goroutine that watches the context closed waitCh after the
  -- waiter, which panics.
  pub enqueue-returns :
      (x : A) (q : BlockingQueue A) (ws : List (Wake A))
      → 0 < q.opts.capacity
      → 0 < q.opts.enqueue_timeout
      → HasReturned (enqueue z live x q ws) ↔ EndsUnbroken z is_full (add_enqueue_block q) ws
  unfolding enqueue enqueue_locked
  enqueue-returns x q ws limited timed =
      if-intro (λ (o : Outcome A (Unit {0})). HasReturned o ↔ EndsUnbroken z is_full q' ws) q.closed
        (λ c. ((λ _. EndsUnbroken-now z is_full q' ws (ground (arith, c))), λ _. tt))
        λ c.
          if-intro (λ (o : Outcome A (Unit {0})). HasReturned o ↔ EndsUnbroken z is_full q' ws)
            (is_full q && ltb 0 q.opts.capacity)
            (λ f.
              let w = enqueue_woken-HasReturned x _ in
              let e = watched_loop-IsOver z is_full add_enqueue_timeout q' ws in
              subst
                (λ b.
                  HasReturned
                    (enqueue_woken z x (wait_loop z true b live is_full add_enqueue_timeout q' ws))
                  ↔ EndsUnbroken z is_full q' ws)
                (sym (lt→ltb 0 q.opts.enqueue_timeout timed))
                ((λ h. e.0 (w.0 h)), λ h. w.1 (e.1 h)))
            λ f. (
              (λ _.
                  EndsUnbroken-now z is_full q' ws (unfold is_full in ground (arith, f, limited))),
              λ _. tt,
            )
    where
      q' : BlockingQueue A
      q' = add_enqueue_block q

  dequeue_woken-HasReturned : (r : Waited A) → HasReturned (dequeue_woken z r) ↔ IsOver z is_empty r
  unfolding dequeue_woken take_item
  dequeue_woken-HasReturned (woken q) =
      ((λ _. tt), λ _. if-intro HasReturned (is_empty q) (λ _. tt) (λ _. tt))
  dequeue_woken-HasReturned (gave_up e q) = ((λ _. tt), λ _. tt)
  dequeue_woken-HasReturned (asleep q) = ((λ h. h), λ h. h)
  dequeue_woken-HasReturned (no_context q) = ((λ h. h), λ h. h)
  dequeue_woken-HasReturned (closed_twice q) = ((λ h. h), λ h. h)

  -- On a queue with a dequeue timeout, under a context that is live when the call begins, Dequeue
  -- has returned after a list of wake-ups exactly when the queue has an element or is closed at
  -- the start or after the calls of some wake-up, or the timer or the context ended a wait.
  pub dequeue-returns :
      (q : BlockingQueue A) (ws : List (Wake A))
      → 0 < q.opts.dequeue_timeout
      → HasReturned (dequeue z live q ws) ↔ Ends z is_empty (add_dequeue_block q) ws
  unfolding dequeue dequeue_locked take_item
  dequeue-returns q ws timed =
      if-intro (λ (o : Outcome A A). HasReturned o ↔ Ends z is_empty q' ws) (is_empty q && q.closed)
        (λ c. ((λ _. Ends-now z is_empty q' ws (unfold is_empty in ground (arith, c))), λ _. tt))
        λ c.
          if-intro (λ (o : Outcome A A). HasReturned o ↔ Ends z is_empty q' ws) (is_empty q)
            (λ f.
              let w = dequeue_woken-HasReturned _ in
              let e = wait_loop-IsOver z is_empty add_dequeue_timeout q' ws in
              subst
                (λ b.
                  HasReturned
                    (dequeue_woken z (wait_loop z false b live is_empty add_dequeue_timeout q' ws))
                  ↔ Ends z is_empty q' ws)
                (sym (lt→ltb 0 q.opts.dequeue_timeout timed))
                ((λ h. e.0 (w.0 h)), λ h. w.1 (e.1 h)))
            λ f. ((λ _. Ends-now z is_empty q' ws (unfold is_empty in ground (arith, f))), λ _. tt)
    where
      q' : BlockingQueue A
      q' = add_dequeue_block q

  -- On an open, full, bounded queue with an enqueue timeout, Enqueue with a nil context panics.
  pub enqueue_nil_panics :
      (x : A) (q : BlockingQueue A) (ws : List (Wake A))
      → q.closed ≡ false
      → (is_full q && ltb 0 q.opts.capacity) ≡ true
      → 0 < q.opts.enqueue_timeout
      → enqueue z nil x q ws ≡ panicked (add_enqueue_block q)
  unfolding enqueue enqueue_locked enqueue_woken wait_loop start_round is_full
  enqueue_nil_panics x q [] shut full timed = ground (arith, shut, full)
  enqueue_nil_panics x q (w ∷ ws) shut full timed = ground (arith, shut, full)

  -- On a full, bounded, valid queue TryDequeue sends no signal to notFull, while the same removal
  -- with the test of Dequeue sends one.
  pub try_dequeue_no_signal :
      (q : BlockingQueue A)
      → IsValid q
      → 0 < q.opts.capacity
      → q.size ≡ q.opts.capacity
      → ((try_dequeue z q).1.notices ≡ q.notices)
        × ((finish_dequeue was_full_before (pop_head z q)).1.notices ≡ signal_not_full ∷ q.notices)
  unfolding try_dequeue finish_dequeue pop_head is_full was_full_before
  try_dequeue_no_signal q v limited full = ground (arith, is_full-eq-leb (pop_head z q).1)
