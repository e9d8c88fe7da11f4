-- ===== src/Service/Refine.antt =====
-- internal/queueservice/inmemory.go against its contract, over both kinds of queue.
use fyer_kit.Prelude.{
  ℕ, suc, ◌^◌, ◌<◌, ◌≡◌, refl, ap, ap₂, ◌∙◌, inr, false, List, [], ◌∷◌, ◌++◌, Option, none, some,
  arith, ltb, length, if-intro,
}
use fyer_kit.Prelude.Word.{ℤ, pos, negsuc}
use fyer_kit.Queue.Types.{
  Options, default_options, apply_options, clamp, with_capacity, with_enqueue_timeout,
  with_dequeue_timeout,
}
use fyer_kit.Queue.Fifo
use fyer_kit.Queue.Fifo.{Fifo, Call, try_enqueues, try_dequeues, Reply}
use fyer_kit.Queue.Blocking.{new_blocking_queue}
use fyer_kit.Queue.Blocking.Invariant as BlockingValid
use fyer_kit.Queue.Blocking.Refine as BlockingRing
use fyer_kit.Queue.NonBlocking.{new_non_blocking_queue}
use fyer_kit.Queue.NonBlocking.Contents.{new_non_blocking_queue-Holds}
use fyer_kit.Queue.NonBlocking.Refine as NonBlockingRing
use fyer_kit.Service.InMemory.{
  QueueType, blocking_type, non_blocking_type, other_type, QueueOptions, AnyQueue, blocking,
  non_blocking, QueueEntry, InMemoryService, Answer, done_ok, replied, find, put_at, if_positive,
  queue_options, new_queue, call_queue, create_in, create_queue, call_in, call_named, enqueue_item,
  dequeue_item, delete_in, delete_queue, new_in_memory_service,
}
use fyer_kit.Service.Contract.{
  ServiceCall, creates, enqueues, dequeues, calls, deletes, promised_create, promised_call,
  promised_delete, promise, promise_all, serve, serve_all, view_queue, view_all, view_option,
  QueueValid, AllValid,
}
use fyer_kit.Service.Registry.{
  find-view_all, put_at-view_all, erase-view_all, AllValid-less, AllValid-put_at, AllValid-erase,
  FoundValid, find-Valid,
}

positive_keeps :
    (f : ℤ → Options → Options) (t : ℤ) (p : Options)
    → ((u : ℤ) (r : Options) → (f u r).capacity ≡ r.capacity)
    → (apply_options (if_positive t f) p).capacity ≡ p.capacity
unfolding apply_options
positive_keeps f (negsuc t) p h = refl
positive_keeps f (pos t) p h =
    if-intro (λ (l : List (Options → Options)). (apply_options l p).capacity ≡ p.capacity) (ltb 0 t)
      (λ _. h _ p) λ _. refl

apply_options-append :
    (l k : List (Options → Options)) (p : Options)
    → apply_options (l ++ k) p ≡ apply_options k (apply_options l p)
unfolding apply_options
apply_options-append [] k p = refl
apply_options-append (f ∷ l) k p = apply_options-append l k (f p)

-- The timeouts of a new queue leave its capacity.
new_options :
    (o : QueueOptions)
    → (apply_options (queue_options o) default_options).capacity ≡ clamp o.capacity
unfolding queue_options apply_options
new_options o =
    let p = with_capacity o.capacity default_options in
    ap (λ r. r.capacity)
      (apply_options-append (if_positive o.enqueue_timeout with_enqueue_timeout)
        (if_positive o.dequeue_timeout with_dequeue_timeout) p)
    ∙ positive_keeps with_dequeue_timeout o.dequeue_timeout _
        (λ u r. unfold with_dequeue_timeout in refl)
    ∙ positive_keeps with_enqueue_timeout o.enqueue_timeout p
        (λ u r. unfold with_enqueue_timeout in refl)
    ∙ (unfold with_capacity in refl)

module _ {A : Type 0} (z : A) where
  -- What a queue's call does is what the contract of queue.go says.
  call_queue_refines :
      (n : ℕ) (q : AnyQueue A) (c : Call A)
      → QueueValid z (suc n) q
      → let (r, q') = call_queue z q c in
        (◌≡◌ {A = Reply A × Fifo A} (r, view_queue z q') (Fifo.step (view_queue z q) c))
        × QueueValid z n q'
  call_queue_refines n (blocking q) c v = BlockingRing.call_refines z q c v
  call_queue_refines n (non_blocking q) c (v, s) =
      let (e, w, k) = NonBlockingRing.call_refines z n q c v s in (e, (w, k))

  new_blocking_refines :
      (n : ℕ) (o : QueueOptions)
      → (view_queue z (new_queue z blocking_type (queue_options o))
          ≡ record { items = []; capacity = clamp o.capacity; closed = false })
        × QueueValid z n (new_queue z blocking_type (queue_options o))
  unfolding new_blocking_queue
  new_blocking_refines n o = (
    ap (λ k. record { items = []; capacity = k; closed = false }) (new_options o),
    BlockingValid.new_blocking_queue-IsValid z (queue_options o),
  )

  new_non_blocking_refines :
      (n : ℕ) (o : QueueOptions)
      → clamp o.capacity < 2 ^ 31
      → n < 2 ^ 30
      → let q : AnyQueue A = non_blocking (new_non_blocking_queue z (queue_options o)) in
        (view_queue z q ≡ record { items = []; capacity = clamp o.capacity; closed = false })
        × QueueValid z n q
  new_non_blocking_refines n o small short =
      let h = new_non_blocking_queue-Holds z (queue_options o) (omega (arith, new_options o)) in
      (
        rw (h.holds, h.opts_eq, h.closed_eq, new_options o) refl,
        (h.valid, inr (unfold new_non_blocking_queue in omega arith)),
      )

  new_queue_refines :
      (n : ℕ) (k : QueueType) (o : QueueOptions)
      → clamp o.capacity < 2 ^ 31
      → n < 2 ^ 30
      → let q = new_queue z k (queue_options o) in
        (view_queue z q ≡ record { items = []; capacity = clamp o.capacity; closed = false })
        × QueueValid z n q
  new_queue_refines n blocking_type o small short = new_blocking_refines n o
  new_queue_refines n non_blocking_type o small short = new_non_blocking_refines n o small short
  new_queue_refines n other_type o small short = new_non_blocking_refines n o small short

  -- A service agrees with its contract after a call.
  abbrev Serves : ℕ → Answer A × InMemoryService A → Answer A × List (ℕ × Fifo A) → Type 0
  Serves n (a, s) p = ((a, view_all z s.queues) ≡ p) × AllValid z n s.queues

  call_in-Serves :
      (n m : ℕ) (o : Option (QueueEntry A)) (c : Call A) (s : InMemoryService A)
      → FoundValid z (suc n) o
      → AllValid z (suc n) s.queues
      → Serves n (call_in z o m c s) (promised_call (view_option z o) m c (view_all z s.queues))
  call_in-Serves n m none c s f w = (refl, AllValid-less z n s.queues w)
  call_in-Serves n m (some e) c s f w =
      let (r, v) = call_queue_refines n e.queue c f in
      (
        ap (λ l. (replied (call_queue z e.queue c).0, l)) (put_at-view_all z m _ s.queues)
            ∙ ap (λ (x : Reply A × Fifo A). (replied x.0, put_at m x.1 (view_all z s.queues))) r,
        AllValid-put_at z n m _ s.queues v (AllValid-less z n s.queues w),
      )

  -- A call that a service can take: a new queue's capacity fits into 32 bits.
  abbrev pub Small : ServiceCall A → Type 0
  Small (creates n o) = clamp o.capacity < 2 ^ 31
  Small (enqueues n x) = Unit
  Small (dequeues n) = Unit
  Small (calls n c) = Unit
  Small (deletes n) = Unit

  create_in-Serves :
      (n m : ℕ) (f : Option (QueueEntry A)) (o : QueueOptions) (s : InMemoryService A)
      → clamp o.capacity < 2 ^ 31
      → n < 2 ^ 30
      → AllValid z (suc n) s.queues
      → Serves n (create_in z f m o s) (promised_create (view_option z f) m o (view_all z s.queues))
  create_in-Serves n m (some e) o s small short w = (refl, AllValid-less z n s.queues w)
  create_in-Serves n m none o s small short w =
      let (e, v) = new_queue_refines n o.kind o small short in
      (ap (λ q. (done_ok, (m, q) ∷ view_all z s.queues)) e, (v, AllValid-less z n s.queues w))

  delete_in-Serves :
      (n m : ℕ) (f : Option (QueueEntry A)) (s : InMemoryService A)
      → AllValid z (suc n) s.queues
      → Serves n (delete_in z f m s) (promised_delete (view_option z f) m (view_all z s.queues))
  delete_in-Serves n m none s w = (refl, AllValid-less z n s.queues w)
  delete_in-Serves n m (some e) s w = (
    ap (λ l. (done_ok, l)) (erase-view_all z m s.queues),
    AllValid-erase z n m s.queues (AllValid-less z n s.queues w),
  )

  call_named-Serves :
      (n m : ℕ) (c : Call A) (s : InMemoryService A)
      → AllValid z (suc n) s.queues
      → Serves n
          (call_named z m c s)
          (promised_call (find m (view_all z s.queues)) m c (view_all z s.queues))
  unfolding call_named
  call_named-Serves n m c s w =
      rw (find-view_all z m s.queues)
        (call_in-Serves n m (find m s.queues) c s (find-Valid z (suc n) m s.queues w) w)

  serve-Serves :
      (n : ℕ) (c : ServiceCall A) (s : InMemoryService A)
      → Small c
      → n < 2 ^ 30
      → AllValid z (suc n) s.queues
      → Serves n (serve z s c) (promise (view_all z s.queues) c)
  unfolding serve promise
  serve-Serves n (creates m o) s small short w =
      unfold create_queue in
      rw (find-view_all z m s.queues) (create_in-Serves n m (find m s.queues) o s small short w)
  serve-Serves n (enqueues m x) s small short w =
      unfold enqueue_item in call_named-Serves n m (try_enqueues x) s w
  serve-Serves n (dequeues m) s small short w =
      unfold dequeue_item in call_named-Serves n m try_dequeues s w
  serve-Serves n (calls m c) s small short w = call_named-Serves n m c s w
  serve-Serves n (deletes m) s small short w =
      unfold delete_queue in
      rw (find-view_all z m s.queues) (delete_in-Serves n m (find m s.queues) s w)

  abbrev pub AllSmall : List (ServiceCall A) → Type 0
  AllSmall [] = Unit
  AllSmall (c ∷ cs) = Small c × AllSmall cs

  serve_all_refines :
      (cs : List (ServiceCall A)) (s : InMemoryService A)
      → AllSmall cs
      → length cs < 2 ^ 30
      → AllValid z (length cs) s.queues
      → serve_all z s cs ≡ promise_all (view_all z s.queues) cs
  unfolding serve_all promise_all
  serve_all_refines [] s small short w = refl
  serve_all_refines (c ∷ cs) s (small, smalls) short w =
      let (e, v) = serve-Serves (length cs) c s small (omega arith) w in
      ap₂ ◌∷◌ (ap (λ p. p.0) e) (
        serve_all_refines cs (serve z s c).1 smalls (omega arith) v
        ∙ ap (λ p. promise_all p.1 cs) e)

  -- Every sequence of fewer than 2 ^ 30 calls on a new service (CreateQueue of either kind with a capacity below 2 ^ 31,
  -- EnqueueItem, DequeueItem, other calls of a queue by its name, DeleteQueue) gets the answers that a map from
  -- names to the lists of queue.go gives.
  pub service_refines :
      (cs : List (ServiceCall A))
      → AllSmall cs
      → length cs < 2 ^ 30
      → serve_all z new_in_memory_service cs ≡ promise_all [] cs
  unfolding new_in_memory_service
  service_refines cs small short = serve_all_refines cs new_in_memory_service small short tt
