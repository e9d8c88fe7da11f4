-- ===== src/Queue/NonBlocking/Tests.antt =====
-- queue/nonblocking_queue.go: the theorems at concrete queues.
use fyer_kit.Prelude.{ℕ, ◌^◌, ◌≡◌, refl, inr, false, List, [], ◌∷◌, arith, length}
use fyer_kit.Prelude.Word.{pos}
use fyer_kit.Queue.Types.{event_enqueue, item_event, with_capacity, default_options, new_stats, ok}
use fyer_kit.Queue.Fifo
use fyer_kit.Queue.Fifo.{Call, try_enqueues, try_dequeues, peeks, closes, clears, sizes}
use fyer_kit.Queue.NonBlocking.{
  NonBlockingQueue, new_non_blocking_queue, try_enqueue, try_dequeue, claim_tail, publish,
  write_slot, enqueue, enqueue_round, at_capacity, grow, report_enqueue,
}
use fyer_kit.Queue.NonBlocking.Invariant.{IsValid}
use fyer_kit.Queue.NonBlocking.Race.{dequeue_unfilled}

abbrev fresh_queue : NonBlockingQueue ℕ
fresh_queue = new_non_blocking_queue 0 (with_capacity (pos 2) ∷ [])

abbrev calls : List (Call ℕ)
calls =
    try_enqueues 3
    ∷ try_enqueues 5
    ∷ try_enqueues 7
    ∷ sizes
    ∷ try_dequeues
    ∷ try_enqueues 9
    ∷ peeks
    ∷ closes
    ∷ try_dequeues
    ∷ try_dequeues
    ∷ try_dequeues
    ∷ []

abbrev ring : List ℕ → ℕ → ℕ → ℕ → NonBlockingQueue ℕ
ring buf head tail size = record {
  opts = record default_options { capacity = length buf };
  buf = buf;
  head = head;
  tail = tail;
  size = size;
  closed = false;
  events = [];
  stats = new_stats (length buf);
}

-- An element put into an empty queue is reported twice.
enqueue_twice :
    (try_enqueue 0 5 (ring (0 ∷ 0 ∷ 0 ∷ []) 1 1 0)).1.events
    ≡ item_event event_enqueue 5 1 ∷ item_event event_enqueue 5 1 ∷ []
unfolding try_enqueue enqueue enqueue_round at_capacity grow report_enqueue publish write_slot
    claim_tail default_options new_stats
enqueue_twice = refl

empty-IsValid : IsValid (ring (0 ∷ 0 ∷ 0 ∷ []) 1 1 0)
unfolding default_options
empty-IsValid = record {
  head_in = omega arith;
  short = omega arith;
  fits = omega arith;
  tail_at = refl;
  bounded = inr refl;
}

-- The consumer gets the zero value, which nobody put.
dequeue_unfilled_example :
    (try_dequeue 0 (try_enqueue 0 7 (claim_tail (ring (0 ∷ 0 ∷ 0 ∷ []) 1 1 0))).1).0 ≡ ok 0
dequeue_unfilled_example =
    dequeue_unfilled 0 (ring (0 ∷ 0 ∷ 0 ∷ []) 1 1 0) 7 empty-IsValid refl refl (omega arith)

-- Only the capacity is read.
abbrev wide : NonBlockingQueue ℕ
wide = record (ring (0 ∷ []) 0 0 0) { opts = record default_options { capacity = 2 ^ 32 } }
