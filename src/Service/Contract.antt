-- ===== src/Service/Contract.antt =====
-- internal/queueservice/inmemory.go over both kinds of queue: a service is a map from names to the lists of queue/queue.go.
use fyer_kit.Prelude.{ℕ, false, List, [], ◌∷◌, Option, none, some}
use fyer_kit.Queue.Types.{clamp}
use fyer_kit.Queue.Fifo
use fyer_kit.Queue.Fifo.{Fifo, Call, try_enqueues, try_dequeues, Reply}
use fyer_kit.Queue.Blocking.Invariant as BlockingValid
use fyer_kit.Queue.Blocking.Refine as BlockingRing
use fyer_kit.Queue.NonBlocking.Invariant as NonBlockingValid
use fyer_kit.Queue.NonBlocking.Contents.{Short}
use fyer_kit.Queue.NonBlocking.Refine as NonBlockingRing
use fyer_kit.Service.InMemory.{
  QueueOptions, queue_not_found, queue_exists, AnyQueue, blocking, non_blocking, QueueEntry,
  InMemoryService, Answer, done_ok, refused, replied, find, put_at, erase, create_queue, call_named,
  enqueue_item, dequeue_item, delete_queue,
}

pub data ServiceCall (A : Type 0) : Type 0 where
  creates : ℕ → QueueOptions → ServiceCall A
  enqueues : ℕ → A → ServiceCall A
  dequeues : ℕ → ServiceCall A
  calls : ℕ → Call A → ServiceCall A
  deletes : ℕ → ServiceCall A

module _ {A : Type 0} where
  abbrev pub promised_create :
      Option (Fifo A) → ℕ → QueueOptions → List (ℕ × Fifo A) → Answer A × List (ℕ × Fifo A)
  promised_create (some f) n o l = (refused queue_exists, l)
  promised_create none n o l =
      (done_ok, (n, record { items = []; capacity = clamp o.capacity; closed = false }) ∷ l)

  abbrev pub promised_call :
      Option (Fifo A) → ℕ → Call A → List (ℕ × Fifo A) → Answer A × List (ℕ × Fifo A)
  promised_call none n c l = (refused queue_not_found, l)
  promised_call (some f) n c l = let (r, f') = Fifo.step f c in (replied r, put_at n f' l)

  abbrev pub promised_delete :
      Option (Fifo A) → ℕ → List (ℕ × Fifo A) → Answer A × List (ℕ × Fifo A)
  promised_delete none n l = (refused queue_not_found, l)
  promised_delete (some f) n l = (done_ok, erase n l)

  -- What a service promises: a name has a list, from its creation to its deletion.
  unfoldable pub promise : List (ℕ × Fifo A) → ServiceCall A → Answer A × List (ℕ × Fifo A)
  promise l (creates n o) = promised_create (find n l) n o l
  promise l (enqueues n x) = promised_call (find n l) n (try_enqueues x) l
  promise l (dequeues n) = promised_call (find n l) n try_dequeues l
  promise l (calls n c) = promised_call (find n l) n c l
  promise l (deletes n) = promised_delete (find n l) n l

  unfoldable pub promise_all : List (ℕ × Fifo A) → List (ServiceCall A) → List (Answer A)
  promise_all l [] = []
  promise_all l (c ∷ cs) = let (a, l') = promise l c in a ∷ promise_all l' cs

module _ {A : Type 0} (z : A) where
  unfoldable pub serve : InMemoryService A → ServiceCall A → Answer A × InMemoryService A
  serve s (creates n o) = create_queue z n o s
  serve s (enqueues n x) = enqueue_item z n x s
  serve s (dequeues n) = dequeue_item z n s
  serve s (calls n c) = call_named z n c s
  serve s (deletes n) = delete_queue z n s

  unfoldable pub serve_all : InMemoryService A → List (ServiceCall A) → List (Answer A)
  serve_all s [] = []
  serve_all s (c ∷ cs) = let (a, s') = serve s c in a ∷ serve_all s' cs

  abbrev pub view_queue : AnyQueue A → Fifo A
  view_queue (blocking q) = BlockingRing.view z q
  view_queue (non_blocking q) = NonBlockingRing.view z q

  abbrev pub view_all : List (ℕ × QueueEntry A) → List (ℕ × Fifo A)
  view_all [] = []
  view_all ((n, e) ∷ l) = (n, view_queue e.queue) ∷ view_all l

  abbrev pub view_option : Option (QueueEntry A) → Option (Fifo A)
  view_option none = none
  view_option (some e) = some (view_queue e.queue)

  -- A valid queue, with room for `n` more calls before it is too long for its 32 bits.
  abbrev pub QueueValid : ℕ → AnyQueue A → Type 0
  QueueValid n (blocking q) = BlockingValid.IsValid q
  QueueValid n (non_blocking q) = NonBlockingValid.IsValid q × Short z n q

  abbrev pub AllValid : ℕ → List (ℕ × QueueEntry A) → Type 0
  AllValid n [] = Unit
  AllValid n ((k, e) ∷ l) = QueueValid n e.queue × AllValid n l
