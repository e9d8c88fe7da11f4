-- ===== src/Queue/Types.antt =====
-- queue/errors.go, queue/event.go, queue/stats.go, queue/options.go: what both queues share.
-- Listeners are code of the client: emitting an event appends it to the queue's event log, which
-- is the sequence that each listener is called with. Durations are numbers of nanoseconds.
use fyer_kit.Prelude.{ℕ, Bool, ◌&&◌, List, [], ◌∷◌, Option, none, some, ltb, leb, ◌==◌}
use fyer_kit.Prelude.Word.{ℤ, pos, negsuc}

pub data QueueError : Type 0 where
  queue_closed queue_full queue_empty operation_timeout operation_cancelled : QueueError

pub data EventType : Type 0 where
  event_enqueue event_dequeue event_full event_empty event_close event_error : EventType

-- Fields that the source leaves out of a literal have their zero values.
pub record Event {ℓ} (A : Type ℓ) : Type ℓ where
  pub kind : EventType
  pub size : ℕ
  pub item : Option A
  pub error : Option QueueError

-- CreatedAt is left out: nothing in the package reads it.
pub record Stats : Type 0 where
  pub capacity : ℕ
  pub size : ℕ
  pub enqueued : ℕ
  pub dequeued : ℕ
  pub enqueue_blocks : ℕ
  pub dequeue_blocks : ℕ
  pub enqueue_timeouts : ℕ
  pub dequeue_timeouts : ℕ
  pub rejected : ℕ

pub record Options : Type 0 where
  pub capacity : ℕ
  pub enqueue_timeout : ℕ
  pub dequeue_timeout : ℕ

unfoldable pub default_options : Options
default_options = record { capacity = 0; enqueue_timeout = 0; dequeue_timeout = 0 }

-- `if n < 0 { n = 0 }`
abbrev pub clamp : ℤ → ℕ
clamp (pos n) = n
clamp (negsuc n) = 0

unfoldable pub with_capacity : ℤ → Options → Options
with_capacity c o = record o { capacity = clamp c }

unfoldable pub with_enqueue_timeout : ℤ → Options → Options
with_enqueue_timeout t o = record o { enqueue_timeout = clamp t }

unfoldable pub with_dequeue_timeout : ℤ → Options → Options
with_dequeue_timeout t o = record o { dequeue_timeout = clamp t }

-- `opts := DefaultOptions(); for _, opt := range options { opt(opts) }`
unfoldable pub apply_options : List (Options → Options) → Options → Options
apply_options [] o = o
apply_options (opt ∷ opts) o = apply_options opts (opt o)

unfoldable pub new_stats : ℕ → Stats
new_stats c = record {
  capacity = c;
  size = 0;
  enqueued = 0;
  dequeued = 0;
  enqueue_blocks = 0;
  dequeue_blocks = 0;
  enqueue_timeouts = 0;
  dequeue_timeouts = 0;
  rejected = 0;
}

unfoldable pub stats_is_empty : Stats → Bool
stats_is_empty s = s.size == 0

unfoldable pub stats_is_full : Stats → Bool
stats_is_full s = ltb 0 s.capacity && leb s.capacity s.size

module _ {ℓ} {A : Type ℓ} where
  abbrev pub error_event : QueueError → Event A
  error_event e = record { kind = event_error; size = 0; item = none; error = some e }

  abbrev pub item_event : EventType → A → ℕ → Event A
  item_event k x n = record { kind = k; size = n; item = some x; error = none }

  abbrev pub plain_event : EventType → ℕ → Event A
  plain_event k n = record { kind = k; size = n; item = none; error = none }

-- A pair (T, error) of the source: `err` carries the zero value that the source returns with it.
pub data Result {ℓ} (A : Type ℓ) : Type ℓ where
  ok : A → Result A
  err : QueueError → Result A
