-- ===== src/Queue/Blocking/EnqueueEffect.antt =====
-- queue/blocking_queue.go: Enqueue takes effect at one point between the calls of the other
-- goroutines, or has no effect.
use fyer_kit.Prelude.{ℕ, ◌≡◌, refl, sym, ap, ◌∙◌, false, ◌&&◌, List, arith, ltb, if-intro}
use fyer_kit.Queue.Types.{ok, err}
use fyer_kit.Queue.Fifo.{after, put}
use fyer_kit.Queue.Blocking.{BlockingQueue, is_full, put_item}
use fyer_kit.Queue.Blocking.Invariant.{IsValid, has_room, put_item-IsValid}
use fyer_kit.Queue.Blocking.Contents.{contents-put_item, put_item-opts}
use fyer_kit.Queue.Blocking.Refine.{view, full-eq-at_limit}
use fyer_kit.Queue.Blocking.Wait.{
  Context, nil, live, cancelled, Wake, Outcome, returned, waiting, panicked, Waited, woken, gave_up,
  asleep, no_context, closed_twice, is_live, enqueue, enqueue_locked, enqueue_woken,
  add_enqueue_block, add_enqueue_timeout,
}
use fyer_kit.Queue.Blocking.Linear.{took, Follows, Settles, wait_loop-Settles}

module _ {ℓ} {A : Type ℓ} (z : A) where
  -- An accepted element is one put at the end of the list that some calls of the others left; any
  -- other outcome leaves the list to the others.
  abbrev pub Enqueued : A → BlockingQueue A → List (Wake A) → Outcome A (Unit {0}) → Type ℓ
  Enqueued x q ws (returned (ok _) q') =
      (k : ℕ) × (put x (after (view z q) (took k ws)) ≡ (ok tt, view z q')) × IsValid q'
  Enqueued x q ws (returned (err e) q') = Follows z q ws q'
  Enqueued x q ws (waiting q') = Follows z q ws q'
  Enqueued x q ws (panicked q') = Follows z q ws q'

  put_item_refines :
      (q : BlockingQueue A) (x : A)
      → IsValid q
      → q.closed ≡ false
      → (is_full q && ltb 0 q.opts.capacity) ≡ false
      → put x (view z q) ≡ (ok tt, view z (put_item z x q))
  unfolding put
  put_item_refines q x v c f =
      let o = put_item-opts z q x v (has_room z q f) in
      simp
        (c, sym (full-eq-at_limit z q v) ∙ f, contents-put_item z q x v (has_room z q f), o.0, o.1)

  enqueue_woken-Enqueued :
      (x : A) (q : BlockingQueue A) (ws : List (Wake A)) (r : Waited A)
      → Settles z is_full q ws r
      → Enqueued x q ws (enqueue_woken z x r)
  unfolding enqueue_woken
  enqueue_woken-Enqueued x q ws (woken q') ((k, e, v), f) =
      if-intro (Enqueued x q ws) q'.closed (λ c. (k, e, ground (arith, v)))
        λ c.
          let room : (is_full q' && ltb 0 q'.opts.capacity) ≡ false = ground (arith, f, c) in
          (
            k,
            ap (put x) (sym e) ∙ put_item_refines q' x v c room,
            put_item-IsValid z q' x v (has_room z q' room),
          )
  enqueue_woken-Enqueued x q ws (gave_up e q') s = s
  enqueue_woken-Enqueued x q ws (asleep q') s = s
  enqueue_woken-Enqueued x q ws (no_context q') s = s
  enqueue_woken-Enqueued x q ws (closed_twice q') s = s

  enqueue_locked-Enqueued :
      (ctx : Context) (x : A) (q : BlockingQueue A) (ws : List (Wake A))
      → IsValid q
      → Enqueued x q ws (enqueue_locked z ctx x q ws)
  unfolding enqueue_locked
  enqueue_locked-Enqueued ctx x q ws v =
      if-intro (Enqueued x q ws) q.closed (λ c. (0, unfold after in refl, ground (arith, v)))
        λ c.
          if-intro (Enqueued x q ws) (is_full q && ltb 0 q.opts.capacity)
            (λ f. enqueue_woken-Enqueued x (add_enqueue_block q) ws _ (
              wait_loop-Settles z (is_live ctx) (ltb 0 q.opts.enqueue_timeout) ctx is_full
                add_enqueue_timeout (λ q v. (refl, ground (arith, v))) (add_enqueue_block q) ws
                (ground (arith, v))))
            λ f. (
              0,
              unfold after in put_item_refines q x v c f,
              put_item-IsValid z q x v (has_room z q f),
            )

  -- From a valid queue, whatever the others do while it waits: Enqueue succeeds by putting its
  -- element at the end of the list that some first part of their calls leaves, where the contract
  -- accepts it; if it fails, panics or still waits, the list is what their calls leave. The queue stays valid.
  pub enqueue-Enqueued :
      (ctx : Context) (x : A) (q : BlockingQueue A) (ws : List (Wake A))
      → IsValid q
      → Enqueued x q ws (enqueue z ctx x q ws)
  unfolding enqueue
  enqueue-Enqueued cancelled x q ws v = (0, unfold after in refl, ground (arith, v))
  enqueue-Enqueued nil x q ws v = enqueue_locked-Enqueued nil x q ws v
  enqueue-Enqueued live x q ws v = enqueue_locked-Enqueued live x q ws v
