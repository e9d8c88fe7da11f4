-- ===== src/Queue/NonBlocking/Refine.antt =====
-- queue/nonblocking_queue.go against the contract in Queue/Fifo, for calls that run one after the other.
use fyer_kit.Prelude.{
  ℕ, suc, ◌+◌, ◌-◌, ◌<◌, ◌≤◌, ◌≡◌, refl, sym, ap, ◌∙◌, Bool, true, false, List, [], ◌∷◌, arith,
  Bool-cases, inl, inr, ◌==◌, ◌&&◌, ltb, leb, get_or,
}
use fyer_kit.Queue.Types.{ok, err, queue_closed, queue_full}
use fyer_kit.Queue.Fifo
use fyer_kit.Queue.Fifo.{
  Fifo, Call, try_enqueues, try_dequeues, peeks, closes, clears, sizes, Reply, put_reply,
  take_reply, size_reply, done, at_limit, front, rest,
}
use fyer_kit.Queue.NonBlocking.{
  NonBlockingQueue, try_enqueue, at_capacity, write_slot, try_dequeue, dequeue, dequeue_round,
  report_dequeue, retire, claim_head, empty_error, peek, clear, close, size_of,
}
use fyer_kit.Queue.Blocking.Slots.{slots, length-slots}
use fyer_kit.Queue.NonBlocking.Invariant.{IsValid, at_capacity-eq}
use fyer_kit.Queue.NonBlocking.Contents.{
  contents, Holds, Short, dequeue_tail-Holds, clear-Holds, close-Holds,
}
use fyer_kit.Queue.NonBlocking.Put.{
  enqueue-stored, refused-Holds, try_enqueue-closed, try_enqueue-full,
}

module _ {ℓ} {A : Type ℓ} (z : A) where
  -- The list that a queue stands for.
  abbrev pub view : NonBlockingQueue A → Fifo A
  view q = record { items = contents z q; capacity = q.opts.capacity; closed = q.closed }

  -- A client's calls in order, with what each returns.
  unfoldable pub call : NonBlockingQueue A → Call A → Reply A × NonBlockingQueue A
  call q (try_enqueues x) = let (r, q') = try_enqueue z x q in (put_reply r, q')
  call q try_dequeues = let (r, q') = try_dequeue z q in (take_reply r, q')
  call q peeks = (take_reply (peek z q), q)
  call q closes = (done, close q)
  call q clears = (done, clear z q)
  call q sizes = (size_reply (size_of q), q)

  unfoldable pub run : NonBlockingQueue A → List (Call A) → List (Reply A)
  run q [] = []
  run q (c ∷ cs) = let (r, q') = call q c in r ∷ run q' cs

  full-eq-at_limit : (q : NonBlockingQueue A) → IsValid q → at_capacity q.size q ≡ at_limit (view q)
  full-eq-at_limit q v =
      at_capacity-eq q v
      ∙ ap (λ n. ltb 0 q.opts.capacity && leb q.opts.capacity n)
          (sym (length-slots z q.buf q.head q.size))

  -- A reply and a queue are what the contract says of a call, and the queue is valid and short for `n` more.
  abbrev Follows : ℕ → NonBlockingQueue A → Call A → Reply A × NonBlockingQueue A → Type ℓ
  Follows n q c (r, q') =
      (◌≡◌ {A = Reply A × Fifo A} (r, view q') (Fifo.step (view q) c)) × IsValid q' × Short z n q'

  from_Holds :
      (n : ℕ) (q q' : NonBlockingQueue A) (c : Call A) (r : Reply A) (l : List A) (shut : Bool)
      → Holds z l q.opts shut q'
      → Short z (suc n) q
      → q'.size ≤ q.size + 1
      → Fifo.step (view q) c ≡ (r, record { items = l; capacity = q.opts.capacity; closed = shut })
      → Follows n q c (r, q')
  from_Holds n q q' c r l shut h s grows e =
      (rw (h.holds, h.opts_eq, h.closed_eq) (sym e), h.valid, rw h.opts_eq (ground (arith, s)))

  -- The queue that a call leaves as it is.
  same_Holds : (q : NonBlockingQueue A) → IsValid q → Holds z (contents z q) q.opts q.closed q
  same_Holds q v = record { valid = v; holds = refl; opts_eq = refl; closed_eq = refl }

  try_enqueue_refines :
      (n : ℕ) (q : NonBlockingQueue A) (x : A)
      → IsValid q
      → Short z (suc n) q
      → Follows n q (try_enqueues x) (call q (try_enqueues x))
  unfolding call Fifo.step Fifo.put
  try_enqueue_refines n q x v s = elim (Bool-cases q.closed) [
    | inl c ↦ rw (try_enqueue-closed z q x c) (
        from_Holds n q _ (try_enqueues x) _ _ q.closed (refused-Holds z q queue_closed v) s
          (omega arith) (simp c))
    | inr c ↦ elim (Bool-cases (at_capacity q.size q)) [
      | inl f ↦ rw (try_enqueue-full z q x c f) (
          from_Holds n q _ (try_enqueues x) _ _ q.closed (refused-Holds z q queue_full v) s
            (omega arith) (simp (c, sym (full-eq-at_limit q v) ∙ f)))
      | inr f ↦
          let (e, h, k) = enqueue-stored z q x v (ground (arith, s)) c f in
          rw e (
            from_Holds n q _ (try_enqueues x) _ _ q.closed h s (omega (arith, k))
              (simp (c, sym (full-eq-at_limit q v) ∙ f)))
    ]
  ]

  abbrev taken : NonBlockingQueue A → NonBlockingQueue A
  taken q =
      report_dequeue z (get_or q.buf q.head z) q.size
        (retire z (write_slot q.head z (claim_head z q)))

  try_dequeue-empty :
      (q : NonBlockingQueue A) → q.size ≡ 0 → try_dequeue z q ≡ (err (empty_error z q), q)
  unfolding try_dequeue dequeue
  try_dequeue-empty q e = simp e

  try_dequeue-taken :
      (q : NonBlockingQueue A)
      → 0 < q.size
      → try_dequeue z q ≡ (ok (get_or q.buf q.head z), taken q)
  unfolding try_dequeue dequeue dequeue_round
  try_dequeue-taken q h = let e : (q.size == 0) ≡ false = ground arith in simp e

  taken-size : (q : NonBlockingQueue A) → (taken q).size ≡ q.size - 1
  unfolding report_dequeue retire write_slot claim_head
  taken-size q = ground arith

  empty_contents : (q : NonBlockingQueue A) → q.size ≡ 0 → contents z q ≡ []
  empty_contents q e = ap (slots z q.buf q.head) e

  front-empty :
      (q : NonBlockingQueue A) → q.size ≡ 0 → front q.closed (contents z q) ≡ err (empty_error z q)
  unfolding empty_error
  front-empty q e = ap (front q.closed) (empty_contents q e)

  try_dequeue_refines :
      (n : ℕ) (q : NonBlockingQueue A)
      → IsValid q
      → Short z (suc n) q
      → Follows n q try_dequeues (call q try_dequeues)
  unfolding call Fifo.step
  try_dequeue_refines n q v s = elim (Bool-cases (q.size == 0)) [
    | inl b ↦
        let e : q.size ≡ 0 = ground (arith, b) in
        rw (try_dequeue-empty q e) (
          from_Holds n q q try_dequeues _ _ q.closed (same_Holds q v) s (omega arith) (
            rw (front-empty q e) (
              ap (λ l. (take_reply (err (empty_error z q)), record (view q) { items = l }))
                (ap rest (empty_contents q e) ∙ sym (empty_contents q e)))))
    | inr b ↦
        let pos_size : 0 < q.size = ground (arith, b) in
        let (c, h) = dequeue_tail-Holds z q (get_or q.buf q.head z) q.size v pos_size in
        rw (try_dequeue-taken q pos_size) (
          from_Holds n q (taken q) try_dequeues _ _ q.closed h s (omega (arith, taken-size q))
            (ap (λ l. (take_reply (front q.closed l), record (view q) { items = rest l })) c))
  ]

  peek_refines : (q : NonBlockingQueue A) → IsValid q → peek z q ≡ front q.closed (contents z q)
  unfolding peek
  peek_refines q v = elim (Bool-cases (q.size == 0)) [
    | inl b ↦ let e : q.size ≡ 0 = ground (arith, b) in rw b (sym (front-empty q e))
    | inr b ↦
        let (c, h) = dequeue_tail-Holds z q (get_or q.buf q.head z) q.size v (ground (arith, b)) in
        rw b (sym (ap (front q.closed) c))
  ]

  -- From a valid ring, each call returns what the contract returns at the list which the ring holds, leaves a ring
  -- for the list that the contract leaves, and leaves it valid.
  pub call_refines :
      (n : ℕ) (q : NonBlockingQueue A) (c : Call A)
      → IsValid q
      → Short z (suc n) q
      → Follows n q c (call q c)
  call_refines n q (try_enqueues x) v s = try_enqueue_refines n q x v s
  call_refines n q try_dequeues v s = try_dequeue_refines n q v s
  call_refines n q peeks v s =
      unfold call in
      from_Holds n q q peeks _ _ q.closed (same_Holds q v) s (omega arith)
        (unfold Fifo.step in ap (λ r. (take_reply r, view q)) (sym (peek_refines q v)))
  call_refines n q closes v s =
      unfold call in
      from_Holds n q (close q) closes _ _ true (close-Holds z q v) s (unfold close in ground arith)
        (unfold Fifo.step in refl)
  call_refines n q clears v s =
      unfold call in
      from_Holds n q (clear z q) clears _ _ q.closed (clear-Holds z q v) s
        (unfold clear in ground arith) (unfold Fifo.step in refl)
  call_refines n q sizes v s =
      unfold call in
      from_Holds n q q sizes _ _ q.closed (same_Holds q v) s (omega arith) (
        unfold Fifo.step size_of in
        ap (λ k. (size_reply k, view q)) (length-slots z q.buf q.head q.size))
