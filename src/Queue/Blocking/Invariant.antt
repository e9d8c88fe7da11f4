-- ===== src/Queue/Blocking/Invariant.antt =====
-- queue/blocking_queue.go: the representation invariant of the ring, kept by every operation that
-- runs under one hold of the mutex.
use native.Mathlib.Nat.{mod-add-mod, mod-eq_of_lt, mod-lt}
use fyer_kit.Prelude.{
  ℕ, zero, suc, ◌+◌, ◌-◌, ◌*◌, ◌%◌, ◌≤◌, ◌<◌, ◌≡◌, refl, ◌∙◌, ◌⊎◌, inl, inr, Bool, true, false,
  List, arith, Bool-cases, ltb, leb, ◌==◌, ◌&&◌, if◌then◌else◌, length, replicate, length-set,
  length-replicate,
}
use fyer_kit.Queue.Types.{
  Options, default_options, apply_options, ok, err, queue_closed, queue_full, queue_empty,
  error_event,
}
use fyer_kit.Queue.Blocking.{
  BlockingQueue, new_blocking_queue, copy_elements, expand, grow, store_item, finish_enqueue,
  put_item, try_enqueue, pop_head, finish_dequeue, try_dequeue, clear_slots, clear, close, is_full,
  is_empty, emit, reject,
}

module _ {ℓ} {A : Type ℓ} where
  -- Head and size lie inside the slice, the tail is where the window ends, a bounded queue's slice
  -- is as long as its capacity, and the recorded size is the size.
  pub record IsValid (q : BlockingQueue A) : Type 0 where
    pub head_in : q.head < length q.buf
    pub fits : q.size ≤ length q.buf
    pub tail_at : q.tail ≡ (q.head + q.size) % length q.buf
    pub bounded : (q.opts.capacity ≡ 0) ⊎ (length q.buf ≡ q.opts.capacity)
    pub counted : q.stats.size ≡ q.size

  -- On a valid queue the test for fullness compares with the slice, bounded or not.
  pub is_full-eq-leb : (q : BlockingQueue A) → IsValid q → is_full q ≡ leb (length q.buf) q.size
  unfolding is_full
  is_full-eq-leb q v = ground arith

module _ {ℓ} {A : Type ℓ} (z : A) where
  pub length-copy_elements :
      (old : List A) (head rounds i : ℕ) (new : List A)
      → length (copy_elements z old head rounds i new) ≡ length new
  unfolding copy_elements
  length-copy_elements old head zero i new = refl
  length-copy_elements old head (suc rounds) i new =
      length-copy_elements old head rounds (i + 1) _ ∙ length-set new i _

  pub length-clear_slots :
      (head rounds i : ℕ) (buf : List A) → length (clear_slots z head rounds i buf) ≡ length buf
  unfolding clear_slots
  length-clear_slots head zero i buf = refl
  length-clear_slots head (suc rounds) i buf =
      length-clear_slots head rounds (i + 1) _ ∙ length-set buf _ z

  -- A new queue is valid, whatever its options.
  pub new_blocking_queue-IsValid :
      (options : List (Options → Options)) → IsValid (new_blocking_queue z options)
  unfolding new_blocking_queue default_options
  new_blocking_queue-IsValid options = ground (
    arith,
    length-replicate 16 z,
    length-replicate (apply_options options default_options).capacity z,
  )

  -- Growing makes room where a bounded queue has some, and keeps the rest.
  pub record Grown (q q' : BlockingQueue A) : Type ℓ where
    pub valid : IsValid q'
    pub room : q'.size < length q'.buf
    pub same_size : q'.size ≡ q.size
    pub same_opts : q'.opts ≡ q.opts
    pub same_closed : q'.closed ≡ q.closed

  expand-Grown : (q : BlockingQueue A) → IsValid q → q.opts.capacity ≡ 0 → Grown q (expand z q)
  unfolding expand
  expand-Grown q v h = ground (
    arith,
    length-copy_elements q.buf q.head q.size 0 (replicate (length q.buf * 2) z),
    length-replicate (length q.buf * 2) z,
    mod-eq_of_lt {n = q.size} {m = length q.buf * 2},
  )

  pub grow-Grown :
      (q : BlockingQueue A)
      → IsValid q
      → (q.opts.capacity ≡ 0) ⊎ (q.size < q.opts.capacity)
      → Grown q (grow z q)
  unfolding grow
  grow-Grown q v h = elim (Bool-cases (is_full q && q.opts.capacity == 0)) [
    | inl e ↦ rw e (expand-Grown q v (ground (arith, e)))
    | inr e ↦ rw e (ground (arith, is_full-eq-leb q v, e))
  ]

  store_item-IsValid :
      (q : BlockingQueue A) (x : A)
      → IsValid q
      → q.size < length q.buf
      → IsValid (finish_enqueue x (store_item x q))
  unfolding store_item finish_enqueue
  store_item-IsValid q x v room =
      ground (arith, length-set q.buf q.tail x, mod-add-mod (q.head + q.size) (length q.buf) 1)

  pub put_item-IsValid :
      (q : BlockingQueue A) (x : A)
      → IsValid q
      → (q.opts.capacity ≡ 0) ⊎ (q.size < q.opts.capacity)
      → IsValid (put_item z x q)
  unfolding put_item
  put_item-IsValid q x v h =
      let g = grow-Grown q v h in store_item-IsValid (grow z q) x g.valid g.room

  -- What the failed guard of a put says.
  pub has_room :
      (q : BlockingQueue A)
      → (is_full q && ltb 0 q.opts.capacity) ≡ false
      → (q.opts.capacity ≡ 0) ⊎ (q.size < q.opts.capacity)
  unfolding is_full
  has_room q e = ground (arith, e)

  -- The three ways through TryEnqueue.
  pub try_enqueue-cases :
      (q : BlockingQueue A) (x : A)
      → ((q.closed ≡ true)
          × (try_enqueue z x q ≡ (err queue_closed, emit (error_event queue_closed) (reject q))))
        ⊎ ((q.closed ≡ false)
            × ((is_full q && ltb 0 q.opts.capacity) ≡ true)
            × (try_enqueue z x q ≡ (err queue_full, emit (error_event queue_full) (reject q))))
        ⊎ ((q.closed ≡ false)
            × ((is_full q && ltb 0 q.opts.capacity) ≡ false)
            × (try_enqueue z x q ≡ (ok tt, put_item z x q)))
  unfolding try_enqueue
  try_enqueue-cases q x = elim (Bool-cases q.closed) [
    | inl e ↦ inl (e, simp e)
    | inr e ↦ inr (elim (Bool-cases (is_full q && ltb 0 q.opts.capacity)) [
      | inl f ↦ inl (e, f, simp (e, f))
      | inr f ↦ inr (e, f, simp (e, f))
    ])
  ]

  pub try_enqueue-IsValid :
      (q : BlockingQueue A) (x : A) → IsValid q → IsValid (try_enqueue z x q).1
  try_enqueue-IsValid q x v = elim (try_enqueue-cases q x) [
    | inl (_, e) ↦ rw e (ground arith)
    | inr (inl (_, _, e)) ↦ rw e (ground arith)
    | inr (inr (_, f, e)) ↦ rw e (put_item-IsValid q x v (has_room q f))
  ]

  pub take-IsValid :
      (q : BlockingQueue A) (full : BlockingQueue A → Bool)
      → IsValid q
      → 0 < q.size
      → IsValid (finish_dequeue full (pop_head z q)).1
  unfolding finish_dequeue pop_head
  take-IsValid q full v pos = ground (
    arith,
    length-set q.buf q.head z,
    mod-lt (q.head + 1) {m = length q.buf},
    mod-add-mod (q.head + 1) (length q.buf) (q.size - 1),
  )

  -- The two ways through TryDequeue.
  pub try_dequeue-cases :
      (q : BlockingQueue A)
      → ((q.size ≡ 0)
          × (try_dequeue z q ≡ (err (if q.closed then queue_closed else queue_empty), q)))
        ⊎ ((0 < q.size)
            × (try_dequeue z q ≡ (
              ok (finish_dequeue is_full (pop_head z q)).0,
              (finish_dequeue is_full (pop_head z q)).1,
            )))
  unfolding try_dequeue is_empty
  try_dequeue-cases q = elim (Bool-cases (q.size == 0)) [
    | inl e ↦ inl (ground (arith, e), simp e)
    | inr e ↦ inr (ground (arith, e), simp e)
  ]

  pub try_dequeue-IsValid : (q : BlockingQueue A) → IsValid q → IsValid (try_dequeue z q).1
  try_dequeue-IsValid q v = elim (try_dequeue-cases q) [
    | inl (_, e) ↦ rw e v
    | inr (pos, e) ↦ rw e (take-IsValid q is_full v pos)
  ]

  pub clear-IsValid : (q : BlockingQueue A) → IsValid q → IsValid (clear z q)
  unfolding clear
  clear-IsValid q v = ground (arith, length-clear_slots q.head q.size 0 q.buf)

  pub close-IsValid : (q : BlockingQueue A) → IsValid q → IsValid (close q)
  unfolding close
  close-IsValid q v = ground arith
