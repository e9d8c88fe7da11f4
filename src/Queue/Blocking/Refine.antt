-- ===== src/Queue/Blocking/Refine.antt =====
-- queue/blocking_queue.go against the contract in Queue/Fifo: a valid ring is the list of its
-- contents, and no sequence of calls tells the two apart.
use fyer_kit.Prelude.{
  ◌≡◌, refl, sym, ap, ap₂, ◌∙◌, List, [], ◌∷◌, arith, Bool-cases, inl, inr, ◌==◌, ◌&&◌, ltb,
}
use fyer_kit.Queue.Types.{Result}
use fyer_kit.Queue.Fifo
use fyer_kit.Queue.Fifo.{
  Fifo, Call, try_enqueues, try_dequeues, peeks, closes, clears, sizes, Reply, put_reply,
  take_reply, size_reply, done, at_limit, front, rest,
}
use fyer_kit.Queue.Blocking.{
  BlockingQueue, try_enqueue, pop_head, try_dequeue, peek, clear, close, size_of, is_full, is_empty,
}
use fyer_kit.Queue.Blocking.Slots.{slots, length-slots}
use fyer_kit.Queue.Blocking.Invariant.{
  IsValid, has_room, is_full-eq-leb, try_enqueue-cases, try_dequeue-cases, try_enqueue-IsValid,
  try_dequeue-IsValid, clear-IsValid, close-IsValid,
}
use fyer_kit.Queue.Blocking.Contents.{
  contents, contents-put_item, put_item-opts, contents-pop_head, contents-SameRing,
  finish_dequeue-SameRing,
}

module _ {ℓ} {A : Type ℓ} (z : A) where
  -- The list that a queue stands for.
  abbrev pub view : BlockingQueue A → Fifo A
  view q = record { items = contents z q; capacity = q.opts.capacity; closed = q.closed }

  -- A client's calls in order, with what each returns.
  unfoldable pub call : BlockingQueue A → Call A → Reply A × BlockingQueue A
  call q (try_enqueues x) = let (r, q') = try_enqueue z x q in (put_reply r, q')
  call q try_dequeues = let (r, q') = try_dequeue z q in (take_reply r, q')
  call q peeks = (take_reply (peek z q), q)
  call q closes = (done, close q)
  call q clears = (done, clear z q)
  call q sizes = (size_reply (size_of q), q)

  unfoldable pub run : BlockingQueue A → List (Call A) → List (Reply A)
  run q [] = []
  run q (c ∷ cs) = let (r, q') = call q c in r ∷ run q' cs

  pub full-eq-at_limit :
      (q : BlockingQueue A) → IsValid q → (is_full q && ltb 0 q.opts.capacity) ≡ at_limit (view q)
  full-eq-at_limit q v = ground (arith, is_full-eq-leb q v, length-slots z q.buf q.head q.size)

  -- TryEnqueue returns what the contract returns, and leaves the ring holding the contract's list.
  pub try_enqueue_refines :
      (q : BlockingQueue A) (x : A)
      → IsValid q
      → let (r, q') = try_enqueue z x q in
        ◌≡◌ {A = Result (Unit {0}) × Fifo A} (r, view q') (Fifo.put x (view q))
  unfolding Fifo.put
  try_enqueue_refines q x v = elim (try_enqueue-cases z q x) [
    | inl (c, e) ↦ simp (e, c)
    | inr (inl (c, f, e)) ↦ simp (e, c, sym (full-eq-at_limit q v) ∙ f)
    | inr (inr (c, f, e)) ↦
        let o = put_item-opts z q x v (has_room z q f) in
        simp (
          e,
          c,
          sym (full-eq-at_limit q v) ∙ f,
          contents-put_item z q x v (has_room z q f),
          o.0,
          o.1,
        )
  ]

  pub contents-empty : (q : BlockingQueue A) → q.size ≡ 0 → contents z q ≡ []
  contents-empty q e = ap (slots z q.buf q.head) e

  -- TryDequeue returns the oldest element or the error of an empty queue, and leaves the rest.
  pub try_dequeue_refines :
      (q : BlockingQueue A)
      → IsValid q
      → let (r, q') = try_dequeue z q in
        ◌≡◌ {A = Result A × Fifo A}
          (r, view q')
          (front q.closed (contents z q), record (view q) { items = rest (contents z q) })
  try_dequeue_refines q v = elim (try_dequeue-cases z q) [
    | inl (e, eq) ↦ simp (eq, contents-empty q e)
    | inr (pos, eq) ↦
        let (s, i) = finish_dequeue-SameRing is_full (pop_head z q).0 (pop_head z q).1 in
        simp (eq, i, contents-SameRing z s, s.opts_eq, s.closed_eq, contents-pop_head z q v pos)
          (unfold pop_head in refl)
  ]

  -- Peek returns the oldest element or the error of an empty queue.
  pub peek_refines : (q : BlockingQueue A) → IsValid q → peek z q ≡ front q.closed (contents z q)
  unfolding peek is_empty
  peek_refines q v = elim (Bool-cases (q.size == 0)) [
    | inl e ↦ simp (e, contents-empty q (ground (arith, e)))
    | inr e ↦ simp (e, contents-pop_head z q v (ground (arith, e))) (unfold pop_head in refl)
  ]

  -- From a valid ring, each of the calls that do not wait returns what the contract returns at
  -- the list which the ring holds, leaves a ring for the list that the contract leaves, and
  -- leaves it valid.
  pub call_refines :
      (q : BlockingQueue A) (c : Call A)
      → IsValid q
      → let (r, q') = call q c in
        (◌≡◌ {A = Reply A × Fifo A} (r, view q') (Fifo.step (view q) c)) × IsValid q'
  unfolding call Fifo.step
  call_refines q (try_enqueues x) v =
      (ap (λ t. (put_reply t.0, t.1)) (try_enqueue_refines q x v), try_enqueue-IsValid z q x v)
  call_refines q try_dequeues v =
      (ap (λ t. (take_reply t.0, t.1)) (try_dequeue_refines q v), try_dequeue-IsValid z q v)
  call_refines q peeks v = (rw (peek_refines q v), v)
  call_refines q closes v = (unfold close in ground arith, close-IsValid z q v)
  call_refines q clears v = (unfold clear in ground arith, clear-IsValid z q v)
  call_refines q sizes v = (
    unfold size_of in ap (λ n. (size_reply n, view q)) (sym (length-slots z q.buf q.head q.size)),
    v,
  )

  -- From a valid ring, every sequence of the calls that do not wait (TryEnqueue, TryDequeue,
  -- Peek, Close, Clear, Size) gets the replies that the same sequence gets from the contract at
  -- the list which the ring holds.
  pub run_refines :
      (cs : List (Call A)) (q : BlockingQueue A) → IsValid q → run q cs ≡ Fifo.run (view q) cs
  unfolding run Fifo.run
  run_refines [] q v = refl
  run_refines (c ∷ cs) q v =
      let (e, v') = call_refines q c v in
      ap₂ ◌∷◌ (ap (λ t. t.0) e) (run_refines cs (call q c).1 v' ∙ ap (λ t. Fifo.run t.1 cs) e)
