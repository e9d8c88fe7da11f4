-- ===== src/Queue/NonBlocking.antt =====
-- queue/nonblocking_queue.go: NonBlockingQueue. Each method is written as it runs when no other call comes
-- between its steps, so that its compare-and-swap succeeds at the first try; the steps themselves are
-- functions of their own, which Race puts in other orders. The sizes and indices of type int32 are
-- numbers: they would wrap at 2 ^ 31. Waiting for the mutex is not modelled.
pub mod Invariant
pub mod Contents
pub mod Put
pub mod Refine
pub mod Race
mod Tests
use fyer_kit.Prelude.{
  ℕ, zero, suc, ◌+◌, ◌-◌, ◌*◌, ◌%◌, Bool, true, false, not, ◌&&◌, List, [], ◌∷◌, ltb, leb, ◌==◌,
  if◌then◌else◌, length, get_or, set, replicate,
}
use fyer_kit.Prelude.Word.{add_one_u64, pos, geb, to_i32, rem}
use fyer_kit.Queue.Types.{
  Event, event_enqueue, event_dequeue, event_full, event_empty, event_close, Stats, Options,
  default_options, apply_options, new_stats, error_event, item_event, plain_event, Result, ok, err,
  QueueError, queue_closed, queue_full, queue_empty, operation_cancelled,
}
use fyer_kit.Queue.Blocking.{copy_elements, clear_slots}

-- `buf` is the field data; `events` is a log, newest first.
pub record NonBlockingQueue {ℓ} (A : Type ℓ) : Type ℓ where
  pub opts : Options
  pub buf : List A
  pub head : ℕ
  pub tail : ℕ
  pub size : ℕ
  pub closed : Bool
  pub events : List (Event A)
  pub stats : Stats

module _ {ℓ} {A : Type ℓ} where
  abbrev pub emit : Event A → NonBlockingQueue A → NonBlockingQueue A
  emit e q = record q { events = e ∷ q.events }

  abbrev pub when :
      Bool → (NonBlockingQueue A → NonBlockingQueue A) → NonBlockingQueue A → NonBlockingQueue A
  when true f q = f q
  when false f q = q

  abbrev pub increment_rejected : NonBlockingQueue A → NonBlockingQueue A
  increment_rejected q = record q {
    stats = record (q.stats) { rejected = add_one_u64 (q.stats.rejected) };
  }

  abbrev pub increment_enqueued : NonBlockingQueue A → NonBlockingQueue A
  increment_enqueued q = record q {
    stats = record (q.stats) { enqueued = add_one_u64 (q.stats.enqueued); size = q.size };
  }

  abbrev pub increment_dequeued : NonBlockingQueue A → NonBlockingQueue A
  increment_dequeued q = record q {
    stats = record (q.stats) { dequeued = add_one_u64 (q.stats.dequeued); size = q.size };
  }

  -- `q.opts.Capacity > 0 && size >= int32(q.opts.Capacity)`
  unfoldable pub at_capacity : ℕ → NonBlockingQueue A → Bool
  at_capacity size q = ltb 0 q.opts.capacity && geb (pos size) (to_i32 q.opts.capacity)

  unfoldable pub is_full : NonBlockingQueue A → Bool
  is_full q = if leb q.opts.capacity 0 then false else geb (pos q.size) (to_i32 q.opts.capacity)

  unfoldable pub is_empty : NonBlockingQueue A → Bool
  is_empty q = q.size == 0

  -- The swap of the tail that was read for the next one.
  unfoldable pub claim_tail : NonBlockingQueue A → NonBlockingQueue A
  claim_tail q = record q { tail = rem (q.tail + 1) (to_i32 (length q.buf)) }

  -- `q.data[tail] = item`
  unfoldable pub write_slot : ℕ → A → NonBlockingQueue A → NonBlockingQueue A
  write_slot tail x q = record q { buf = set q.buf tail x }

  -- `atomic.AddInt32(&q.size, 1)`
  unfoldable pub publish : NonBlockingQueue A → NonBlockingQueue A
  publish q = record q { size = q.size + 1 }

  -- The statistics and events of an Enqueue that read this size.
  unfoldable pub report_enqueue : A → ℕ → NonBlockingQueue A → NonBlockingQueue A
  report_enqueue x size q₀ =
      let q₁ =
        when (size == 0) (emit (item_event event_enqueue x (size + 1))) (increment_enqueued q₀) in
      let q₂ = when (at_capacity (size + 1) q₁) (emit (plain_event event_full (size + 1))) q₁ in
      emit (item_event event_enqueue x (size + 1)) q₂

  -- A round of the loop of Enqueue whose swap succeeds.
  unfoldable pub enqueue_round : A → NonBlockingQueue A → Result (Unit {0}) × NonBlockingQueue A
  enqueue_round x q =
      if at_capacity q.size q
      then (err queue_full, emit (error_event queue_full) (increment_rejected q))
      else (ok tt, report_enqueue x q.size (publish (write_slot q.tail x (claim_tail q))))

-- `zero_value` is the zero value of the element type.
module _ {ℓ} {A : Type ℓ} (zero_value : A) where
  unfoldable pub new_non_blocking_queue : List (Options → Options) → NonBlockingQueue A
  unfolding default_options apply_options new_stats
  new_non_blocking_queue options =
      let opts = apply_options options default_options in
      let capacity = if leb opts.capacity 0 then 16 else opts.capacity in
      record {
        opts = opts;
        buf = replicate capacity zero_value;
        head = 0;
        tail = 0;
        size = 0;
        closed = false;
        events = [];
        stats = new_stats opts.capacity;
      }

  -- The copy loop is the one of the blocking queue's `expand`.
  unfoldable pub expand : NonBlockingQueue A → NonBlockingQueue A
  expand q = record q {
    buf = copy_elements zero_value q.buf q.head q.size 0 (replicate (length q.buf * 2) zero_value);
    head = 0;
    tail = q.size;
  }

  unfoldable pub grow : NonBlockingQueue A → NonBlockingQueue A
  grow q = if q.opts.capacity == 0 && geb (pos q.size) (to_i32 (length q.buf)) then expand q else q

  -- `cancelled` says that the context is not nil and is done.
  unfoldable pub enqueue : Bool → A → NonBlockingQueue A → Result (Unit {0}) × NonBlockingQueue A
  enqueue cancelled x q =
      if cancelled
      then (err operation_cancelled, emit (error_event operation_cancelled) q)
      else if q.closed
      then (err queue_closed, emit (error_event queue_closed) (increment_rejected q))
      else if at_capacity q.size q
      then (err queue_full, emit (error_event queue_full) (increment_rejected q))
      else enqueue_round x (grow q)

  -- The swap of the head that was read for the next one.
  unfoldable pub claim_head : NonBlockingQueue A → NonBlockingQueue A
  claim_head q = record q { head = rem (q.head + 1) (to_i32 (length q.buf)) }

  -- The statistics and events of a Dequeue that read this size.
  unfoldable pub report_dequeue : A → ℕ → NonBlockingQueue A → NonBlockingQueue A
  report_dequeue x size q₀ =
      let q₁ =
        when (at_capacity size q₀) (emit (item_event event_dequeue x (size - 1)))
          (increment_dequeued q₀) in
      let q₂ = when (size == 1) (emit (plain_event event_empty 0)) q₁ in
      emit (item_event event_dequeue x (size - 1)) q₂

  -- `atomic.AddInt32(&q.size, -1)`
  unfoldable pub retire : NonBlockingQueue A → NonBlockingQueue A
  retire q = record q { size = q.size - 1 }

  unfoldable pub empty_error : NonBlockingQueue A → QueueError
  empty_error q = if q.closed then queue_closed else queue_empty

  -- A round of the loop of Dequeue whose swap succeeds.
  unfoldable pub dequeue_round : NonBlockingQueue A → Result A × NonBlockingQueue A
  dequeue_round q =
      let item = get_or q.buf q.head zero_value in
      if q.size == 0 then (err (empty_error q), q) else (
        ok item,
        report_dequeue item q.size (retire (write_slot q.head zero_value (claim_head q))),
      )

  unfoldable pub dequeue : Bool → NonBlockingQueue A → Result A × NonBlockingQueue A
  dequeue cancelled q =
      if cancelled
      then (err operation_cancelled, emit (error_event operation_cancelled) q)
      else if q.size == 0
      then (err (empty_error q), q)
      else dequeue_round q

  unfoldable pub try_enqueue : A → NonBlockingQueue A → Result (Unit {0}) × NonBlockingQueue A
  try_enqueue x q = enqueue false x q

  unfoldable pub try_dequeue : NonBlockingQueue A → Result A × NonBlockingQueue A
  try_dequeue q = dequeue false q

  unfoldable pub peek : NonBlockingQueue A → Result A
  peek q = if q.size == 0 then err (empty_error q) else ok (get_or q.buf q.head zero_value)

  -- The loop is the one of the blocking queue's `clear`.
  unfoldable pub clear : NonBlockingQueue A → NonBlockingQueue A
  clear q =
      let q₁ : NonBlockingQueue A = record q {
        buf = clear_slots zero_value q.head q.size 0 q.buf;
        head = 0;
        tail = 0;
        size = 0;
        stats = record (q.stats) { size = 0 };
      } in
      let q₂ = when (at_capacity q.size q) (emit (plain_event event_dequeue 0)) q₁ in
      when (not (q.size == 0)) (emit (plain_event event_empty 0)) q₂

module _ {ℓ} {A : Type ℓ} where
  unfoldable pub close : NonBlockingQueue A → NonBlockingQueue A
  close q =
      if q.closed then q else emit (plain_event event_close q.size) (record q { closed = true })

  unfoldable pub is_closed : NonBlockingQueue A → Bool
  is_closed q = q.closed

  unfoldable pub size_of : NonBlockingQueue A → ℕ
  size_of q = q.size

  unfoldable pub capacity_of : NonBlockingQueue A → ℕ
  capacity_of q = q.opts.capacity

  unfoldable pub stats_of : NonBlockingQueue A → Stats
  stats_of q = record (q.stats) { size = q.size }
