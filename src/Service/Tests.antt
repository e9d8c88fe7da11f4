-- ===== src/Service/Tests.antt =====
-- internal/queueservice/: the theorems at concrete items and services.
use fyer_kit.Prelude.{ℕ, ◌≡◌, refl, List, [], ◌∷◌, arith}
use fyer_kit.Prelude.Word.{pos, negsuc}
use fyer_kit.Queue.Fifo.{sizes, closes}
use fyer_kit.Service.Items.{parse_items, format_items, parse_items-format_items, join}
use fyer_kit.Service.InMemory.{QueueOptions, blocking_type, other_type, new_in_memory_service}
use fyer_kit.Service.Contract.{
  ServiceCall, creates, enqueues, dequeues, calls, deletes, serve_all, promise_all,
}
use fyer_kit.Service.Refine.{service_refines}

-- "ab", "" and "c"
abbrev items : List (List ℕ)
items = (97 ∷ 98 ∷ []) ∷ [] ∷ (99 ∷ []) ∷ []

parse_items-format_items_example : parse_items (format_items items) ≡ items
parse_items-format_items_example =
    parse_items-format_items items refl (unfold format_items join in ground arith)

abbrev bounded : QueueOptions
bounded = record {
  kind = blocking_type;
  capacity = pos 1;
  enqueue_timeout = pos 20;
  dequeue_timeout = pos 0;
}

abbrev unbounded : QueueOptions
unbounded = record {
  kind = other_type;
  capacity = negsuc 4;
  enqueue_timeout = negsuc 0;
  dequeue_timeout = pos 0;
}

-- Two queues; one is full, one is made twice, one is deleted while it holds an item.
abbrev session : List (ServiceCall ℕ)
session =
    creates 1 bounded
    ∷ creates 2 unbounded
    ∷ creates 1 unbounded
    ∷ enqueues 1 7
    ∷ enqueues 1 8
    ∷ enqueues 2 9
    ∷ dequeues 3
    ∷ dequeues 1
    ∷ dequeues 1
    ∷ calls 2 sizes
    ∷ deletes 2
    ∷ dequeues 2
    ∷ calls 1 closes
    ∷ enqueues 1 7
    ∷ []

service_refines_example : serve_all 0 new_in_memory_service session ≡ promise_all [] session
service_refines_example =
    service_refines 0 session
      (
        omega arith,
        (
          omega arith,
          (omega arith, (tt, (tt, (tt, (tt, (tt, (tt, (tt, (tt, (tt, (tt, (tt, tt)))))))))))),
        ),
      )
      (omega arith)
