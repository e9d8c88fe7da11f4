-- ===== src/Queue/Blocking/Wait.antt =====
-- queue/blocking_queue.go: Enqueue and Dequeue, which wait under a timer and a context. While a
-- call waits it gives the mutex up; the environment is a list of wake-ups, each with its cause and
-- the calls that other goroutines made meanwhile. A list that runs out leaves the call waiting.
-- In a wait of Enqueue a goroutine watches the context: when that ends, it closes the channel waitCh, which the waiter
-- closes too. Whether both do, which panics, is an answer of the environment, as their order is.
use fyer_kit.Prelude.{Bool, true, false, not, ◌&&◌, List, [], ◌∷◌, ltb, ◌==◌, ◌-◌, if◌then◌else◌}
use fyer_kit.Prelude.Word.{add_one_u64}
use fyer_kit.Queue.Types.{
  Result, ok, err, QueueError, queue_closed, queue_empty, operation_timeout, operation_cancelled,
  error_event,
}
use fyer_kit.Queue.Fifo.{Call}
use fyer_kit.Queue.Blocking.{
  BlockingQueue, emit, reject, is_full, is_empty, put_item, pop_head, finish_dequeue,
}
use fyer_kit.Queue.Blocking.Refine.{call}

-- `ctx`: nil, or a context with its state when the call begins.
pub data Context : Type 0 where
  nil live cancelled : Context

pub data Cause : Type 0 where
  timer_fired context_done ticked : Cause

pub record Wake {ℓ} (A : Type ℓ) : Type ℓ where
  pub cause : Cause
  pub calls : List (Call A)
  -- The context ended in this wait, and its watcher closes waitCh behind the waiter.
  pub closed_again : Bool

-- `panicked`: by ctx.Done() on a nil context, or by a second close of a channel.
pub data Outcome {ℓ κ} (A : Type ℓ) (R : Type κ) : Type (ℓ ⊔ κ) where
  returned : Result R → BlockingQueue A → Outcome A R
  waiting panicked : BlockingQueue A → Outcome A R

-- How the loop around a wait ends.
pub data Waited {ℓ} (A : Type ℓ) : Type ℓ where
  woken : BlockingQueue A → Waited A
  gave_up : QueueError → BlockingQueue A → Waited A
  asleep no_context closed_twice : BlockingQueue A → Waited A

module _ {ℓ} {A : Type ℓ} where
  abbrev pub add_enqueue_block : BlockingQueue A → BlockingQueue A
  add_enqueue_block q = record q {
    stats = record (q.stats) { enqueue_blocks = add_one_u64 (q.stats.enqueue_blocks) };
  }

  abbrev pub add_dequeue_block : BlockingQueue A → BlockingQueue A
  add_dequeue_block q = record q {
    stats = record (q.stats) { dequeue_blocks = add_one_u64 (q.stats.dequeue_blocks) };
  }

  abbrev pub add_enqueue_timeout : BlockingQueue A → BlockingQueue A
  add_enqueue_timeout q = record q {
    stats = record (q.stats) { enqueue_timeouts = add_one_u64 (q.stats.enqueue_timeouts) };
  }

  abbrev pub add_dequeue_timeout : BlockingQueue A → BlockingQueue A
  add_dequeue_timeout q = record q {
    stats = record (q.stats) { dequeue_timeouts = add_one_u64 (q.stats.dequeue_timeouts) };
  }

-- `ctx != nil`, for the context of a wait.
abbrev pub is_live : Context → Bool
is_live nil = false
is_live cancelled = true
is_live live = true

-- What a waiter does with its wake-up when the mutex is its own again. Without a timeout nobody
-- fires a timer, and only a context that is not nil is asked for its state.
pub data Verdict : Type 0 where
  go_round time_out cancel : Verdict

unfoldable pub verdict : Bool → Context → Cause → Verdict
verdict true ctx timer_fired = time_out
verdict true ctx context_done = cancel
verdict true ctx ticked = go_round
verdict false nil c = go_round
verdict false ctx context_done = cancel
verdict false ctx c = go_round

module _ {ℓ} {A : Type ℓ} where
  -- `q.opts.Capacity > 0 && q.size == q.opts.Capacity-1`
  unfoldable pub was_full_before : BlockingQueue A → Bool
  was_full_before q = ltb 0 q.opts.capacity && q.size == q.opts.capacity - 1

  -- With a timeout the select asks the context for its channel, which panics on a nil context.
  unfoldable pub start_round : Bool → Context → BlockingQueue A → Waited A → Waited A
  start_round true nil q r = no_context q
  start_round true ctx q r = r
  start_round false ctx q r = r

  -- The second close of waitCh, in the watcher, ends the program.
  unfoldable pub watch : Bool → BlockingQueue A → Waited A → Waited A
  watch true q' r = closed_twice q'
  watch false q' r = r

  -- The end of a round, with the queue behind the wait and the rounds to come.
  unfoldable pub resolve :
      Verdict → (BlockingQueue A → BlockingQueue A) → BlockingQueue A → Waited A → Waited A
  resolve go_round count q' next = next
  resolve time_out count q' next =
      gave_up operation_timeout (emit (error_event operation_timeout) (count q'))
  resolve cancel count q' next =
      gave_up operation_cancelled (emit (error_event operation_cancelled) q')

module _ {ℓ} {A : Type ℓ} (zero_value : A) where
  -- Other goroutines' calls, in order.
  unfoldable pub others : BlockingQueue A → List (Call A) → BlockingQueue A
  others q [] = q
  others q (c ∷ cs) = others (call zero_value q c).1 cs

  -- `for blocked && !closed { ... }`. The two calls differ in the test and in the counter, and only the waits of Enqueue are
  -- `watched`.
  unfoldable pub wait_loop :
      Bool
      → Bool
      → Context
      → (BlockingQueue A → Bool)
      → (BlockingQueue A → BlockingQueue A)
      → BlockingQueue A
      → List (Wake A)
      → Waited A
  wait_loop watched timed ctx blocked count q [] =
      if blocked q && not q.closed then start_round timed ctx q (asleep q) else woken q
  wait_loop watched timed ctx blocked count q (w ∷ ws) =
      let q' = others q w.calls in
      let next = wait_loop watched timed ctx blocked count q' ws in
      if blocked q && not q.closed
      then start_round timed ctx q
          (watch (watched && w.closed_again) q' (resolve (verdict timed ctx w.cause) count q' next))
      else woken q

  -- Enqueue behind its wait.
  unfoldable pub enqueue_woken : A → Waited A → Outcome A (Unit {0})
  enqueue_woken x (woken q) =
      if q.closed
      then returned (err queue_closed) (emit (error_event queue_closed) (reject q))
      else returned (ok tt) (put_item zero_value x q)
  enqueue_woken x (gave_up e q) = returned (err e) q
  enqueue_woken x (asleep q) = waiting q
  enqueue_woken x (no_context q) = panicked q
  enqueue_woken x (closed_twice q) = panicked q

  unfoldable pub enqueue_locked :
      Context → A → BlockingQueue A → List (Wake A) → Outcome A (Unit {0})
  enqueue_locked ctx x q ws =
      if q.closed
      then returned (err queue_closed) (emit (error_event queue_closed) (reject q))
      else if is_full q && ltb 0 q.opts.capacity
      then enqueue_woken x (
          wait_loop (is_live ctx) (ltb 0 q.opts.enqueue_timeout) ctx is_full add_enqueue_timeout
            (add_enqueue_block q) ws)
      else returned (ok tt) (put_item zero_value x q)

  unfoldable pub enqueue : Context → A → BlockingQueue A → List (Wake A) → Outcome A (Unit {0})
  enqueue cancelled x q ws =
      returned (err operation_cancelled) (emit (error_event operation_cancelled) q)
  enqueue nil x q ws = enqueue_locked nil x q ws
  enqueue live x q ws = enqueue_locked live x q ws

  unfoldable pub take_item : BlockingQueue A → Outcome A A
  take_item q =
      let r = finish_dequeue was_full_before (pop_head zero_value q) in returned (ok r.0) r.1

  -- Dequeue behind its wait.
  unfoldable pub dequeue_woken : Waited A → Outcome A A
  dequeue_woken (woken q) =
      if is_empty q
      then returned (err (if q.closed then queue_closed else queue_empty)) q
      else take_item q
  dequeue_woken (gave_up e q) = returned (err e) q
  dequeue_woken (asleep q) = waiting q
  dequeue_woken (no_context q) = panicked q
  dequeue_woken (closed_twice q) = panicked q

  unfoldable pub dequeue_locked : Context → BlockingQueue A → List (Wake A) → Outcome A A
  dequeue_locked ctx q ws =
      if is_empty q && q.closed
      then returned (err queue_closed) q
      else if is_empty q
      then dequeue_woken (
          wait_loop false (ltb 0 q.opts.dequeue_timeout) ctx is_empty add_dequeue_timeout
            (add_dequeue_block q) ws)
      else take_item q

  unfoldable pub dequeue : Context → BlockingQueue A → List (Wake A) → Outcome A A
  dequeue cancelled q ws =
      returned (err operation_cancelled) (emit (error_event operation_cancelled) q)
  dequeue nil q ws = dequeue_locked nil q ws
  dequeue live q ws = dequeue_locked live q ws
