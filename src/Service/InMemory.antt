-- ===== src/Service/InMemory.antt =====
-- internal/queueservice/inmemory.go and service.go: InMemoryService. The map is an association list; names and items are
-- only compared or stored. A method holds the service's lock throughout, or takes the queue out of the
-- map and calls it; a queue is changed where it stands.
use fyer_kit.Prelude.{
  ℕ, ◌*◌, List, [], ◌∷◌, ◌++◌, Option, none, some, map, ltb, ◌==◌, if◌then◌else◌,
}
use fyer_kit.Prelude.Word.{ℤ, pos, negsuc}
use fyer_kit.Queue.Types.{Options, Stats, with_capacity, with_enqueue_timeout, with_dequeue_timeout}
use fyer_kit.Queue.Fifo.{Call, try_enqueues, try_dequeues, closes, Reply}
use fyer_kit.Queue.Blocking
use fyer_kit.Queue.Blocking.{BlockingQueue}
use fyer_kit.Queue.Blocking.Refine as BlockingRing
use fyer_kit.Queue.NonBlocking
use fyer_kit.Queue.NonBlocking.{NonBlockingQueue}
use fyer_kit.Queue.NonBlocking.Refine as NonBlockingRing

-- A QueueType is a string, of which one value is asked for.
pub data QueueType : Type 0 where
  blocking_type non_blocking_type other_type : QueueType

-- The timeouts are in milliseconds.
pub record QueueOptions : Type 0 where
  pub kind : QueueType
  pub capacity : ℤ
  pub enqueue_timeout : ℤ
  pub dequeue_timeout : ℤ

pub data ServiceError : Type 0 where
  queue_not_found queue_exists : ServiceError

pub data AnyQueue (A : Type 0) : Type 0 where
  blocking : BlockingQueue A → AnyQueue A
  non_blocking : NonBlockingQueue A → AnyQueue A

pub record QueueEntry (A : Type 0) : Type 0 where
  pub queue : AnyQueue A
  pub kind : QueueType

-- `released` are the queues that are out of the map and may still be held by someone, newest first.
pub record InMemoryService (A : Type 0) : Type 0 where
  pub queues : List (ℕ × QueueEntry A)
  pub released : List (ℕ × QueueEntry A)

-- A method's error, or what the queue returned.
pub data Answer (A : Type 0) : Type 0 where
  done_ok : Answer A
  refused : ServiceError → Answer A
  replied : Reply A → Answer A

-- The map.
module _ {X : Type 0} where
  abbrev pub find : ℕ → List (ℕ × X) → Option X
  find n [] = none
  find n ((k, x) ∷ l) = let rest = find n l in if k == n then some x else rest

  -- A change of the value under a name.
  abbrev pub put_at : ℕ → X → List (ℕ × X) → List (ℕ × X)
  put_at n y [] = []
  put_at n y ((k, x) ∷ l) =
      let rest = put_at n y l in if k == n then (k, y) ∷ rest else (k, x) ∷ rest

  abbrev pub erase : ℕ → List (ℕ × X) → List (ℕ × X)
  erase n [] = []
  erase n ((k, x) ∷ l) = let rest = erase n l in if k == n then rest else (k, x) ∷ rest

abbrev pub with_second : {X Y Z : Type 0} → (Y → Z) → X × Y → X × Z
with_second f (x, y) = (x, f y)

-- `if opts.EnqueueTimeout > 0 { queueOpts = append(queueOpts, ...) }`
abbrev pub if_positive : ℤ → (ℤ → Options → Options) → List (Options → Options)
if_positive (pos t) f = if ltb 0 t then f (pos (t * 1_000_000)) ∷ [] else []
if_positive (negsuc t) f = []

unfoldable pub queue_options : QueueOptions → List (Options → Options)
queue_options o =
    with_capacity o.capacity
    ∷ (if_positive o.enqueue_timeout with_enqueue_timeout
        ++ if_positive o.dequeue_timeout with_dequeue_timeout)

module _ {A : Type 0} (z : A) where
  abbrev pub new_queue : QueueType → List (Options → Options) → AnyQueue A
  new_queue blocking_type options = blocking (Blocking.new_blocking_queue z options)
  new_queue non_blocking_type options = non_blocking (NonBlocking.new_non_blocking_queue z options)
  new_queue other_type options = non_blocking (NonBlocking.new_non_blocking_queue z options)

  -- A call of the interface Queue.
  abbrev pub call_queue : AnyQueue A → Call A → Reply A × AnyQueue A
  call_queue (blocking q) c = with_second blocking (BlockingRing.call z q c)
  call_queue (non_blocking q) c = with_second non_blocking (NonBlockingRing.call z q c)

  abbrev pub create_in :
      Option (QueueEntry A) → ℕ → QueueOptions → InMemoryService A → Answer A × InMemoryService A
  create_in (some e) n o s = (refused queue_exists, s)
  create_in none n o s =
      let e : QueueEntry A = record { queue = new_queue o.kind (queue_options o); kind = o.kind } in
      (done_ok, record s { queues = (n, e) ∷ s.queues })

  unfoldable pub create_queue : ℕ → QueueOptions → InMemoryService A → Answer A × InMemoryService A
  create_queue n o s = create_in (find n s.queues) n o s

  abbrev pub call_in :
      Option (QueueEntry A) → ℕ → Call A → InMemoryService A → Answer A × InMemoryService A
  call_in none n c s = (refused queue_not_found, s)
  call_in (some e) n c s =
      let (r, q) = call_queue e.queue c in
      (replied r, record s { queues = put_at n (record e { queue = q }) s.queues })

  -- GetQueue, and a call of the queue that it returns.
  unfoldable pub call_named : ℕ → Call A → InMemoryService A → Answer A × InMemoryService A
  call_named n c s = call_in (find n s.queues) n c s

  unfoldable pub enqueue_item : ℕ → A → InMemoryService A → Answer A × InMemoryService A
  enqueue_item n x s = call_named n (try_enqueues x) s

  unfoldable pub dequeue_item : ℕ → InMemoryService A → Answer A × InMemoryService A
  dequeue_item n s = call_named n try_dequeues s

  abbrev pub close_entry : QueueEntry A → QueueEntry A
  close_entry e = record e { queue = (call_queue e.queue closes).1 }

  abbrev pub delete_in :
      Option (QueueEntry A) → ℕ → InMemoryService A → Answer A × InMemoryService A
  delete_in none n s = (refused queue_not_found, s)
  delete_in (some e) n s =
      (done_ok, record s { queues = erase n s.queues; released = (n, close_entry e) ∷ s.released })

  unfoldable pub delete_queue : ℕ → InMemoryService A → Answer A × InMemoryService A
  delete_queue n s = delete_in (find n s.queues) n s

  -- In the order of the list, where a range over the map has any.
  unfoldable pub close_service : InMemoryService A → InMemoryService A
  close_service s = record s {
    queues = [];
    released = map (with_second close_entry) s.queues ++ s.released;
  }

module _ {A : Type 0} where
  unfoldable pub new_in_memory_service : InMemoryService A
  new_in_memory_service = record { queues = []; released = [] }

  abbrev pub stats_of : AnyQueue A → Stats
  stats_of (blocking q) = Blocking.stats_of q
  stats_of (non_blocking q) = NonBlocking.stats_of q

  unfoldable pub queue_stats : ℕ → InMemoryService A → Option Stats
  queue_stats n s = elim (find n s.queues) [ none ↦ none | some e ↦ some (stats_of e.queue) ]

  abbrev pub queue_info : ℕ × QueueEntry A → ℕ × QueueType × Stats
  queue_info (n, e) = (n, e.kind, stats_of e.queue)

  unfoldable pub list_queues : InMemoryService A → List (ℕ × QueueType × Stats)
  list_queues s = map queue_info s.queues
