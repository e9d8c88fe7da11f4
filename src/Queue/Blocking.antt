-- ===== src/Queue/Blocking.antt =====
-- queue/blocking_queue.go: the state of a BlockingQueue and every operation that runs under one
-- hold of the mutex. The waiting calls Enqueue and Dequeue are in the child Wait.
pub mod Slots
pub mod Invariant
pub mod Contents
pub mod Refine
pub mod Wait
pub mod Linear
pub mod EnqueueEffect
pub mod DequeueEffect
pub mod Return
mod Tests
use fyer_kit.Prelude.{
  ℕ, zero, suc, ◌+◌, ◌-◌, ◌*◌, ◌%◌, Bool, true, false, not, ◌&&◌, List, [], ◌∷◌, ltb, leb, ◌==◌,
  if◌then◌else◌, length, get_or, set, replicate,
}
use fyer_kit.Prelude.Word.{add_one_u64}
use fyer_kit.Queue.Types.{
  Event, event_enqueue, event_dequeue, event_full, event_empty, event_close, Stats, Options,
  default_options, apply_options, new_stats, error_event, item_event, plain_event, Result, ok, err,
  QueueError, queue_closed, queue_full, queue_empty,
}

-- What the code does to its two condition variables.
pub data Notice : Type 0 where
  signal_not_empty signal_not_full broadcast_not_empty broadcast_not_full : Notice

-- `buf` is the field data. `events` and `notices` are logs, newest first.
pub record BlockingQueue {ℓ} (A : Type ℓ) : Type ℓ where
  pub opts : Options
  pub buf : List A
  pub head : ℕ
  pub tail : ℕ
  pub size : ℕ
  pub closed : Bool
  pub events : List (Event A)
  pub notices : List Notice
  pub stats : Stats

module _ {ℓ} {A : Type ℓ} where
  abbrev pub emit : Event A → BlockingQueue A → BlockingQueue A
  emit e q = record q { events = e ∷ q.events }

  abbrev pub notify : Notice → BlockingQueue A → BlockingQueue A
  notify n q = record q { notices = n ∷ q.notices }

  -- `if b { ... }` on the queue.
  abbrev pub when : Bool → (BlockingQueue A → BlockingQueue A) → BlockingQueue A → BlockingQueue A
  when true f q = f q
  when false f q = q

  abbrev pub reject : BlockingQueue A → BlockingQueue A
  reject q = record q { stats = record (q.stats) { rejected = add_one_u64 (q.stats.rejected) } }

  unfoldable pub is_empty : BlockingQueue A → Bool
  is_empty q = q.size == 0

  unfoldable pub is_full : BlockingQueue A → Bool
  is_full q =
      if leb q.opts.capacity 0 then leb (length q.buf) q.size else leb q.opts.capacity q.size

  unfoldable pub is_closed : BlockingQueue A → Bool
  is_closed q = q.closed

  -- `q.data[q.tail] = item; q.tail = ...; q.size++`
  unfoldable pub store_item : A → BlockingQueue A → BlockingQueue A
  store_item x q = record q {
    buf = set q.buf q.tail x;
    tail = (q.tail + 1) % length q.buf;
    size = q.size + 1;
  }

  -- The notices, events and statistics after an element is stored.
  unfoldable pub finish_enqueue : A → BlockingQueue A → BlockingQueue A
  finish_enqueue x q₀ =
      let q₁ = when (q₀.size == 1) (notify signal_not_empty) q₀ in
      let q₂ = when (is_full q₁) (emit (plain_event event_full q₁.size)) q₁ in
      let q₃ = emit (item_event event_enqueue x q₂.size) q₂ in
      record q₃ {
        stats = record (q₃.stats) { enqueued = add_one_u64 (q₃.stats.enqueued); size = q₃.size };
      }

  -- The notices, events and statistics after a removal; the test for a full queue is its argument.
  unfoldable pub finish_dequeue :
      (BlockingQueue A → Bool) → A × BlockingQueue A → A × BlockingQueue A
  unfolding is_empty
  finish_dequeue was_full_before (item, q₀) =
      let q₁ = when (was_full_before q₀) (notify signal_not_full) q₀ in
      let q₂ = when (is_empty q₁) (emit (plain_event event_empty 0)) q₁ in
      let q₃ = emit (item_event event_dequeue item q₂.size) q₂ in
      (
        item,
        record q₃ {
          stats = record (q₃.stats) { dequeued = add_one_u64 (q₃.stats.dequeued); size = q₃.size };
        },
      )

-- `zero_value` is the zero value of the element type.
module _ {ℓ} {A : Type ℓ} (zero_value : A) where
  unfoldable pub new_blocking_queue : List (Options → Options) → BlockingQueue A
  unfolding default_options apply_options new_stats
  new_blocking_queue options =
      let opts = apply_options options default_options in
      let capacity = if leb opts.capacity 0 then 16 else opts.capacity in
      record {
        opts = opts;
        buf = replicate capacity zero_value;
        head = 0;
        tail = 0;
        size = 0;
        closed = false;
        events = [];
        notices = [];
        stats = new_stats opts.capacity;
      }

  -- The copy loop of `expand`: `rounds` iterations from index `i` on.
  unfoldable pub copy_elements : List A → ℕ → ℕ → ℕ → List A → List A
  copy_elements old head zero i new = new
  copy_elements old head (suc rounds) i new =
      copy_elements old head rounds (i + 1)
        (set new i (get_or old ((head + i) % length old) zero_value))

  unfoldable pub expand : BlockingQueue A → BlockingQueue A
  unfolding copy_elements
  expand q = record q {
    buf = copy_elements q.buf q.head q.size 0 (replicate (length q.buf * 2) zero_value);
    head = 0;
    tail = q.size;
  }

  -- `if q.isFull() && q.opts.Capacity == 0 { q.expand() }`
  unfoldable pub grow : BlockingQueue A → BlockingQueue A
  grow q = if is_full q && q.opts.capacity == 0 then expand q else q

  -- The part of TryEnqueue behind its guards; Enqueue ends with the same updates.
  unfoldable pub put_item : A → BlockingQueue A → BlockingQueue A
  unfolding grow
  put_item x q = finish_enqueue x (store_item x (grow q))

  unfoldable pub try_enqueue : A → BlockingQueue A → Result (Unit {0}) × BlockingQueue A
  unfolding put_item
  try_enqueue x q =
      if q.closed
      then (err queue_closed, emit (error_event queue_closed) (reject q))
      else if is_full q && ltb 0 q.opts.capacity
      then (err queue_full, emit (error_event queue_full) (reject q))
      else (ok tt, put_item x q)

  -- `item := q.data[q.head]; q.data[q.head] = zero; q.head = ...; q.size--`
  unfoldable pub pop_head : BlockingQueue A → A × BlockingQueue A
  pop_head q = (
    get_or q.buf q.head zero_value,
    record q {
      buf = set q.buf q.head zero_value;
      head = (q.head + 1) % length q.buf;
      size = q.size - 1;
    },
  )

  unfoldable pub try_dequeue : BlockingQueue A → Result A × BlockingQueue A
  unfolding pop_head finish_dequeue
  try_dequeue q =
      let (item, q') = finish_dequeue is_full (pop_head q) in
      if is_empty q
      then (err (if q.closed then queue_closed else queue_empty), q)
      else (ok item, q')

  unfoldable pub peek : BlockingQueue A → Result A
  unfolding is_empty
  peek q =
      if is_empty q
      then err (if q.closed then queue_closed else queue_empty)
      else ok (get_or q.buf q.head zero_value)

  -- The loop of Clear: `rounds` iterations from index `i` on.
  unfoldable pub clear_slots : ℕ → ℕ → ℕ → List A → List A
  clear_slots head zero i buf = buf
  clear_slots head (suc rounds) i buf =
      clear_slots head rounds (i + 1) (set buf ((head + i) % length buf) zero_value)

  unfoldable pub clear : BlockingQueue A → BlockingQueue A
  unfolding is_empty is_full clear_slots
  clear q₀ =
      let q₁ : BlockingQueue A = record q₀ { buf = clear_slots q₀.head q₀.size 0 q₀.buf } in
      let was_empty = is_empty q₁ in
      let was_full = is_full q₁ in
      let q₂ : BlockingQueue A = record q₁ { head = 0; tail = 0; size = 0 } in
      let q₃ = when was_full (notify broadcast_not_full) q₂ in
      let q₄ = when (not was_empty) (emit (plain_event event_empty 0)) q₃ in
      record q₄ { stats = record (q₄.stats) { size = 0 } }

module _ {ℓ} {A : Type ℓ} where
  unfoldable pub close : BlockingQueue A → BlockingQueue A
  close q =
      if q.closed
      then q
      else notify broadcast_not_full (
          notify broadcast_not_empty
            (emit (plain_event event_close q.size) (record q { closed = true })))

  -- The getters. Size and Stats read under the mutex.
  unfoldable pub size_of : BlockingQueue A → ℕ
  size_of q = q.size

  unfoldable pub capacity_of : BlockingQueue A → ℕ
  capacity_of q = q.opts.capacity

  unfoldable pub stats_of : BlockingQueue A → Stats
  stats_of q = q.stats
