-- ===== src/Queue/Fifo.antt =====
-- queue/queue.go: what the interface Queue promises, as a list with a capacity and a flag. A call
-- that the interface documents as an error leaves the list alone. Capacity 0 is no limit.
use fyer_kit.Prelude.{ℕ, Bool, true, ◌&&◌, List, [], ◌∷◌, ◌++◌, ltb, leb, if◌then◌else◌, length}
use fyer_kit.Queue.Types.{Result, ok, err, queue_closed, queue_full, queue_empty}

pub record Fifo {ℓ} (A : Type ℓ) : Type ℓ where
  pub items : List A
  pub capacity : ℕ
  pub closed : Bool

-- The calls that do not wait, and what a client sees of each.
pub data Call {ℓ} (A : Type ℓ) : Type ℓ where
  try_enqueues : A → Call A
  try_dequeues peeks closes clears sizes : Call A

pub data Reply {ℓ} (A : Type ℓ) : Type ℓ where
  put_reply : Result (Unit {0}) → Reply A
  take_reply : Result A → Reply A
  size_reply : ℕ → Reply A
  done : Reply A

module _ {ℓ} {A : Type ℓ} where
  abbrev pub at_limit : Fifo A → Bool
  at_limit f = ltb 0 f.capacity && leb f.capacity (length f.items)

  unfoldable pub put : A → Fifo A → Result (Unit {0}) × Fifo A
  put x f =
      if f.closed
      then (err queue_closed, f)
      else if at_limit f
      then (err queue_full, f)
      else (ok tt, record f { items = f.items ++ x ∷ [] })

  -- The head of a list and its rest, or the error of an empty queue.
  abbrev pub front : Bool → List A → Result A
  front shut [] = err (if shut then queue_closed else queue_empty)
  front shut (x ∷ xs) = ok x

  abbrev pub rest : List A → List A
  rest [] = []
  rest (x ∷ xs) = xs

  unfoldable pub step : Fifo A → Call A → Reply A × Fifo A
  unfolding put
  step f (try_enqueues x) = let (r, f') = put x f in (put_reply r, f')
  step f try_dequeues = (take_reply (front f.closed f.items), record f { items = rest f.items })
  step f peeks = (take_reply (front f.closed f.items), f)
  step f closes = (done, record f { closed = true })
  step f clears = (done, record f { items = [] })
  step f sizes = (size_reply (length f.items), f)

  unfoldable pub run : Fifo A → List (Call A) → List (Reply A)
  run f [] = []
  run f (c ∷ cs) = let (r, f') = step f c in r ∷ run f' cs

  -- The list after a sequence of calls.
  unfoldable pub after : Fifo A → List (Call A) → Fifo A
  after f [] = f
  after f (c ∷ cs) = after (step f c).1 cs
