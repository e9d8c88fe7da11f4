-- ===== src/Queue/Blocking/Tests.antt =====
-- queue/blocking_queue.go: the theorems at a queue of two places, and runs of the code.
use fyer_kit.Prelude.{ℕ, ◌≡◌, refl, ◌↔◌, ◌&&◌, true, false, List, [], ◌∷◌, arith, ltb, ◌<◌}
use fyer_kit.Prelude.Word.{pos}
use fyer_kit.Queue.Types.{
  Options, with_capacity, with_enqueue_timeout, with_dequeue_timeout, apply_options,
  default_options, new_stats, ok, err, queue_full,
}
use fyer_kit.Queue.Fifo
use fyer_kit.Queue.Fifo.{
  Fifo, Call, try_enqueues, try_dequeues, peeks, closes, clears, sizes, Reply, put_reply,
  take_reply, size_reply, done, after,
}
use fyer_kit.Queue.Blocking.{
  BlockingQueue, new_blocking_queue, is_full, is_empty, expand, put_item, finish_enqueue,
  store_item, grow, try_enqueue, try_dequeue, pop_head, finish_dequeue, close, size_of,
}
use fyer_kit.Queue.Blocking.Invariant.{IsValid, new_blocking_queue-IsValid, try_enqueue-IsValid}
use fyer_kit.Queue.Blocking.Refine.{view, call, run, run_refines}
use fyer_kit.Queue.Blocking.Wait.{
  live, Wake, timer_fired, ticked, enqueue, dequeue, add_enqueue_block, add_dequeue_block,
}
use fyer_kit.Queue.Blocking.EnqueueEffect.{Enqueued, enqueue-Enqueued}
use fyer_kit.Queue.Blocking.DequeueEffect.{Dequeued, dequeue-Dequeued}
use fyer_kit.Queue.Blocking.Return.{
  HasReturned, Ends, EndsUnbroken, enqueue-returns, dequeue-returns,
}

abbrev options : List (Options → Options)
options = with_capacity (pos 2) ∷ with_enqueue_timeout (pos 5) ∷ with_dequeue_timeout (pos 5) ∷ []

abbrev empty_queue : BlockingQueue ℕ
empty_queue = new_blocking_queue 0 options

abbrev full_queue : BlockingQueue ℕ
full_queue = (try_enqueue 0 8 (try_enqueue 0 7 empty_queue).1).1

empty_queue-IsValid : IsValid empty_queue
empty_queue-IsValid = new_blocking_queue-IsValid 0 options

full_queue-IsValid : IsValid full_queue
full_queue-IsValid =
    try_enqueue-IsValid 0 (try_enqueue 0 7 empty_queue).1 8
      (try_enqueue-IsValid 0 empty_queue 7 empty_queue-IsValid)

abbrev calls : List (Call ℕ)
calls =
    try_enqueues 3
    ∷ try_dequeues
    ∷ try_enqueues 4
    ∷ try_enqueues 5
    ∷ try_enqueues 6
    ∷ closes
    ∷ try_dequeues
    ∷ sizes
    ∷ []

-- A wake-up after another goroutine's TryDequeue.
abbrev room_made : List (Wake ℕ)
room_made = record { cause = ticked; calls = try_dequeues ∷ []; closed_again = false } ∷ []

abbrev item_put : List (Wake ℕ)
item_put = record { cause = ticked; calls = try_enqueues 3 ∷ []; closed_again = false } ∷ []

abbrev late : List (Wake ℕ)
late = record { cause = timer_fired; calls = []; closed_again = false } ∷ []

run_calls :
    run 0 empty_queue calls
    ≡ put_reply (ok tt)
      ∷ take_reply (ok 3)
      ∷ put_reply (ok tt)
      ∷ put_reply (ok tt)
      ∷ put_reply (err queue_full)
      ∷ done
      ∷ take_reply (ok 4)
      ∷ size_reply 1
      ∷ []
unfolding new_blocking_queue apply_options default_options with_capacity with_enqueue_timeout
    with_dequeue_timeout new_stats run call try_enqueue put_item finish_enqueue store_item grow
    is_full is_empty try_dequeue pop_head finish_dequeue size_of close expand
run_calls = refl

run_refines_example : run 0 empty_queue calls ≡ Fifo.run (view 0 empty_queue) calls
run_refines_example = run_refines 0 calls empty_queue empty_queue-IsValid

enqueue-Enqueued_example : Enqueued 0 9 full_queue room_made (enqueue 0 live 9 full_queue room_made)
enqueue-Enqueued_example = enqueue-Enqueued 0 live 9 full_queue room_made full_queue-IsValid

dequeue-Dequeued_example : Dequeued 0 empty_queue item_put (dequeue 0 live empty_queue item_put)
dequeue-Dequeued_example = dequeue-Dequeued 0 live empty_queue item_put empty_queue-IsValid

full_queue-capacity : 0 < full_queue.opts.capacity
unfolding new_blocking_queue apply_options default_options with_capacity with_enqueue_timeout
    with_dequeue_timeout new_stats try_enqueue put_item finish_enqueue store_item grow is_full
    is_empty
full_queue-capacity = omega arith

full_queue-timeout : 0 < full_queue.opts.enqueue_timeout
unfolding new_blocking_queue apply_options default_options with_capacity with_enqueue_timeout
    with_dequeue_timeout new_stats try_enqueue put_item finish_enqueue store_item grow is_full
    is_empty
full_queue-timeout = omega arith

full_queue-facts :
    (full_queue.closed ≡ false)
    × ((is_full full_queue && ltb 0 full_queue.opts.capacity) ≡ true)
    × (full_queue.size ≡ full_queue.opts.capacity)
unfolding new_blocking_queue apply_options default_options with_capacity with_enqueue_timeout
    with_dequeue_timeout new_stats try_enqueue put_item finish_enqueue store_item grow is_full
    is_empty
full_queue-facts = (refl, refl, refl)

empty_queue-timeout : 0 < empty_queue.opts.dequeue_timeout
unfolding new_blocking_queue apply_options default_options with_capacity with_enqueue_timeout
    with_dequeue_timeout
empty_queue-timeout = omega arith

enqueue-returns_example :
    HasReturned 0 (enqueue 0 live 9 full_queue late)
    ↔ EndsUnbroken 0 is_full (add_enqueue_block full_queue) late
enqueue-returns_example = enqueue-returns 0 9 full_queue late full_queue-capacity full_queue-timeout

dequeue-returns_example :
    HasReturned 0 (dequeue 0 live empty_queue item_put)
    ↔ Ends 0 is_empty (add_dequeue_block empty_queue) item_put
dequeue-returns_example = dequeue-returns 0 empty_queue item_put empty_queue-timeout
