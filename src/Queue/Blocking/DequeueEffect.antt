-- ===== src/Queue/Blocking/DequeueEffect.antt =====
-- queue/blocking_queue.go: Dequeue takes effect at one point between the calls of the other
-- goroutines, or has no effect.
use fyer_kit.Prelude.{
  ℕ, ◌<◌, ◌≡◌, refl, sym, ap, ap₂, ◌∙◌, false, ◌&&◌, List, ◌∷◌, arith, ltb, if-intro,
}
use fyer_kit.Queue.Types.{ok, err}
use fyer_kit.Queue.Fifo.{Fifo, after}
use fyer_kit.Queue.Blocking.{BlockingQueue, is_empty, pop_head, finish_dequeue}
use fyer_kit.Queue.Blocking.Invariant.{IsValid, take-IsValid}
use fyer_kit.Queue.Blocking.Contents.{
  contents, contents-pop_head, finish_dequeue-SameRing, contents-SameRing,
}
use fyer_kit.Queue.Blocking.Refine.{view}
use fyer_kit.Queue.Blocking.Wait.{
  Context, nil, live, cancelled, Wake, Outcome, returned, waiting, panicked, Waited, woken, gave_up,
  asleep, no_context, closed_twice, dequeue, dequeue_locked, dequeue_woken, take_item,
  was_full_before, add_dequeue_block, add_dequeue_timeout,
}
use fyer_kit.Queue.Blocking.Linear.{took, Follows, Settles, wait_loop-Settles}

module _ {ℓ} {A : Type ℓ} (z : A) where
  -- A returned element is the first of the list that some calls of the others left, and goes from
  -- it; any other outcome leaves the list to the others.
  abbrev pub Dequeued : BlockingQueue A → List (Wake A) → Outcome A A → Type ℓ
  Dequeued q ws (returned (ok x) q') =
      (k : ℕ) × ((after (view z q) (took k ws)).items ≡ x ∷ contents z q')
      × (view z q' ≡ record (after (view z q) (took k ws)) { items = contents z q' })
      × IsValid q'
  Dequeued q ws (returned (err e) q') = Follows z q ws q'
  Dequeued q ws (waiting q') = Follows z q ws q'
  Dequeued q ws (panicked q') = Follows z q ws q'

  take_item-Dequeued :
      (q₀ : BlockingQueue A) (ws : List (Wake A)) (q : BlockingQueue A)
      → Follows z q₀ ws q
      → 0 < q.size
      → Dequeued q₀ ws (take_item z q)
  unfolding take_item
  take_item-Dequeued q₀ ws q (k, e, v) pos =
      let (s, i) = finish_dequeue-SameRing was_full_before (pop_head z q).0 (pop_head z q).1 in
      (
        k,
        ap (λ f. f.items) (sym e)
            ∙ contents-pop_head z q v pos
            ∙ ap₂ ◌∷◌ (sym i) (sym (contents-SameRing z s)),
        simp (s.opts_eq, s.closed_eq) (unfold pop_head in refl)
            ∙ ap {A = Fifo A}
                (λ f. record f {
                  items = contents z (finish_dequeue was_full_before (pop_head z q)).1;
                })
                e,
        take-IsValid z q was_full_before v pos,
      )

  dequeue_woken-Dequeued :
      (q : BlockingQueue A) (ws : List (Wake A)) (r : Waited A)
      → Settles z is_empty q ws r
      → Dequeued q ws (dequeue_woken z r)
  unfolding dequeue_woken
  dequeue_woken-Dequeued q ws (woken q') (f, e) =
      if-intro (Dequeued q ws) (is_empty q') (λ c. f)
        λ c. take_item-Dequeued q ws q' f (unfold is_empty in ground (arith, c))
  dequeue_woken-Dequeued q ws (gave_up e q') s = s
  dequeue_woken-Dequeued q ws (asleep q') s = s
  dequeue_woken-Dequeued q ws (no_context q') s = s
  dequeue_woken-Dequeued q ws (closed_twice q') s = s

  dequeue_locked-Dequeued :
      (ctx : Context) (q : BlockingQueue A) (ws : List (Wake A))
      → IsValid q
      → Dequeued q ws (dequeue_locked z ctx q ws)
  unfolding dequeue_locked
  dequeue_locked-Dequeued ctx q ws v =
      let here : Follows z q ws q = (0, unfold after in refl, v) in
      if-intro (Dequeued q ws) (is_empty q && q.closed) (λ c. here)
        λ c.
          if-intro (Dequeued q ws) (is_empty q)
            (λ e. dequeue_woken-Dequeued (add_dequeue_block q) ws _ (
              wait_loop-Settles z false (ltb 0 q.opts.dequeue_timeout) ctx is_empty
                add_dequeue_timeout (λ q v. (refl, ground (arith, v))) (add_dequeue_block q) ws
                (ground (arith, v))))
            λ e. take_item-Dequeued q ws q here (unfold is_empty in ground (arith, e))

  -- From a valid queue, whatever the others do while it waits: Dequeue succeeds with the first
  -- element of the list that some first part of their calls leaves, and takes just that element
  -- off; if it fails or still waits, the list is what their calls leave. The queue stays valid.
  pub dequeue-Dequeued :
      (ctx : Context) (q : BlockingQueue A) (ws : List (Wake A))
      → IsValid q
      → Dequeued q ws (dequeue z ctx q ws)
  unfolding dequeue
  dequeue-Dequeued cancelled q ws v = (0, unfold after in refl, ground (arith, v))
  dequeue-Dequeued nil q ws v = dequeue_locked-Dequeued nil q ws v
  dequeue-Dequeued live q ws v = dequeue_locked-Dequeued live q ws v
