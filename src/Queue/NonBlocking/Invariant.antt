-- ===== src/Queue/NonBlocking/Invariant.antt =====
-- queue/nonblocking_queue.go: the representation invariant of the ring.
use fyer_kit.Prelude.{
  ℕ, ◌+◌, ◌%◌, ◌^◌, ◌≤◌, ◌<◌, ◌≡◌, refl, ◌⊎◌, inl, inr, arith, ltb, leb, ◌&&◌, length,
}
use fyer_kit.Prelude.Word.{to_i32_small}
use fyer_kit.Queue.NonBlocking.{NonBlockingQueue, at_capacity, report_enqueue}

module _ {ℓ} {A : Type ℓ} where
  -- Head and size lie inside the slice, which is shorter than 2 ^ 31, the tail is where the window ends, and a
  -- bounded queue's slice is as long as its capacity.
  pub record IsValid (q : NonBlockingQueue A) : Type 0 where
    pub head_in : q.head < length q.buf
    pub short : length q.buf < 2 ^ 31
    pub fits : q.size ≤ length q.buf
    pub tail_at : q.tail ≡ (q.head + q.size) % length q.buf
    pub bounded : (q.opts.capacity ≡ 0) ⊎ (length q.buf ≡ q.opts.capacity)

  -- Two queues hold the same ring, under the same options and flag.
  pub record SameRing (q q' : NonBlockingQueue A) : Type ℓ where
    pub buf_eq : q'.buf ≡ q.buf
    pub head_eq : q'.head ≡ q.head
    pub tail_eq : q'.tail ≡ q.tail
    pub size_eq : q'.size ≡ q.size
    pub opts_eq : q'.opts ≡ q.opts
    pub closed_eq : q'.closed ≡ q.closed

  pub SameRing-IsValid : {q q' : NonBlockingQueue A} → SameRing q q' → IsValid q → IsValid q'
  SameRing-IsValid s v = ground (arith, s.buf_eq, s.head_eq, s.tail_eq, s.size_eq, s.opts_eq)

  pub report_enqueue-SameRing :
      (x : A) (n : ℕ) (q : NonBlockingQueue A) → SameRing q (report_enqueue x n q)
  unfolding report_enqueue
  report_enqueue-SameRing x n q = ground arith

  -- While the slice is short, the tests on 32 bits are those on numbers.
  pub at_capacity-eq :
      (q : NonBlockingQueue A)
      → IsValid q
      → at_capacity q.size q ≡ (ltb 0 q.opts.capacity && leb q.opts.capacity q.size)
  unfolding at_capacity
  at_capacity-eq q v = elim v.bounded [
    | inl e ↦ rw e refl
    | inr e ↦ rw⁻¹ e (rw (to_i32_small (length q.buf) v.short) refl)
  ]
