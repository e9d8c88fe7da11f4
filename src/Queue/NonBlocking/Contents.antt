-- ===== src/Queue/NonBlocking/Contents.antt =====
-- queue/nonblocking_queue.go: what the ring holds, oldest first, and what each step of a call that runs alone does
-- to it.
use native.Mathlib.Nat.{mod-add-mod, mod-eq_of_lt, mod-lt}
use fyer_kit.Prelude.{
  ℕ, suc, ◌+◌, ◌-◌, ◌*◌, ◌%◌, ◌^◌, ◌<◌, ◌≡◌, refl, ap, ◌∙◌, ◌⊎◌, inl, inr, Bool, true, false, List,
  [], ◌∷◌, ◌++◌, arith, Bool-cases, leb, ◌==◌, ◌&&◌, if◌then◌else◌, length, get_or, set, replicate,
  length-set, length-replicate,
}
use fyer_kit.Prelude.Word.{to_i32_small}
use fyer_kit.Queue.Types.{Options, default_options, apply_options}
use fyer_kit.Queue.Blocking.Slots.{slots, slots-push, slots-pop}
use fyer_kit.Queue.Blocking.Invariant.{length-copy_elements, length-clear_slots}
use fyer_kit.Queue.Blocking.Contents.{slots-copy_elements}
use fyer_kit.Queue.NonBlocking.{
  NonBlockingQueue, new_non_blocking_queue, expand, grow, claim_tail, write_slot, publish,
  report_enqueue, claim_head, retire, report_dequeue, clear, close,
}
use fyer_kit.Queue.NonBlocking.Invariant.{
  IsValid, SameRing, SameRing-IsValid, report_enqueue-SameRing,
}

module _ {ℓ} {A : Type ℓ} (z : A) where
  abbrev pub contents : NonBlockingQueue A → List A
  contents q = slots z q.buf q.head q.size

  -- A queue that holds `l`, under these options and this flag.
  pub record Holds (l : List A) (opts : Options) (closed : Bool) (q : NonBlockingQueue A)
      : Type ℓ where
    pub valid : IsValid q
    pub holds : contents q ≡ l
    pub opts_eq : q.opts ≡ opts
    pub closed_eq : q.closed ≡ closed

  SameRing-Holds :
      {q q' : NonBlockingQueue A} {l : List A} {o : Options} {c : Bool}
      → SameRing q q'
      → Holds l o c q
      → Holds l o c q'
  SameRing-Holds s h = record {
    valid = SameRing-IsValid s h.valid;
    holds = rw (s.buf_eq, s.head_eq, s.size_eq) h.holds;
    opts_eq = s.opts_eq ∙ h.opts_eq;
    closed_eq = s.closed_eq ∙ h.closed_eq;
  }

  -- The state between the swap of an Enqueue and its statistics.
  stored-Holds :
      (q : NonBlockingQueue A) (x : A)
      → IsValid q
      → q.size < length q.buf
      → Holds (contents q ++ x ∷ []) q.opts q.closed (publish (write_slot q.tail x (claim_tail q)))
  unfolding publish write_slot claim_tail
  stored-Holds q x v room = record {
    valid =
        rw (to_i32_small (length q.buf) v.short) (
          ground
            (arith, length-set q.buf q.tail x, mod-add-mod (q.head + q.size) (length q.buf) 1));
    holds = rw v.tail_at (
        ap (slots z (set q.buf ((q.head + q.size) % length q.buf) x) q.head) {y = suc q.size}
          (omega arith)
        ∙ slots-push z q.buf q.head q.size x room);
    opts_eq = refl;
    closed_eq = refl;
  }

  -- A round of Enqueue where there is room appends its element.
  pub enqueue_tail-Holds :
      (q : NonBlockingQueue A) (x : A) (n : ℕ)
      → IsValid q
      → q.size < length q.buf
      → Holds
          (contents q ++ x ∷ [])
          q.opts
          q.closed
          (report_enqueue x n (publish (write_slot q.tail x (claim_tail q))))
  enqueue_tail-Holds q x n v room =
      SameRing-Holds (report_enqueue-SameRing x n _) (stored-Holds q x v room)

  report_dequeue-SameRing :
      (x : A) (n : ℕ) (q : NonBlockingQueue A) → SameRing q (report_dequeue z x n q)
  unfolding report_dequeue
  report_dequeue-SameRing x n q = ground arith

  popped-Holds :
      (q : NonBlockingQueue A)
      → IsValid q
      → 0 < q.size
      → (contents q ≡ get_or q.buf q.head z ∷ slots z q.buf (q.head + 1) (q.size - 1))
        × Holds
            (slots z q.buf (q.head + 1) (q.size - 1))
            q.opts
            q.closed
            (retire z (write_slot q.head z (claim_head z q)))
  unfolding retire write_slot claim_head
  popped-Holds q v some_in = (
    ap (slots z q.buf q.head) one_more
        ∙ ap (λ t. get_or q.buf t z ∷ slots z q.buf (q.head + 1) (q.size - 1))
            (mod-eq_of_lt v.head_in),
    record {
      valid = rw (to_i32_small (length q.buf) v.short) (
          ground (
            arith,
            length-set q.buf q.head z,
            mod-lt (q.head + 1) {m = length q.buf},
            mod-add-mod (q.head + 1) (length q.buf) (q.size - 1),
          ));
      holds =
          rw (to_i32_small (length q.buf) v.short)
            (slots-pop z q.buf q.head (q.size - 1) z v.head_in (omega arith));
      opts_eq = refl;
      closed_eq = refl;
    },
  )
    where
      one_more : q.size ≡ suc (q.size - 1)
      one_more = omega arith

  -- A round of Dequeue on a queue that is not empty takes the oldest element.
  pub dequeue_tail-Holds :
      (q : NonBlockingQueue A) (x : A) (n : ℕ)
      → IsValid q
      → 0 < q.size
      → (contents q ≡ get_or q.buf q.head z ∷ slots z q.buf (q.head + 1) (q.size - 1))
        × Holds
            (slots z q.buf (q.head + 1) (q.size - 1))
            q.opts
            q.closed
            (report_dequeue z x n (retire z (write_slot q.head z (claim_head z q))))
  dequeue_tail-Holds q x n v some_in =
      let (e, h) = popped-Holds q v some_in in (e, SameRing-Holds (report_dequeue-SameRing x n _) h)

  -- What an Enqueue needs of the sizes: where a queue is not bounded, it doubles no slice beyond 2 ^ 31.
  abbrev pub Short : ℕ → NonBlockingQueue A → Type 0
  Short n q = (0 < q.opts.capacity) ⊎ (q.size + n < 2 ^ 30)

  expand-Holds :
      (q : NonBlockingQueue A)
      → IsValid q
      → q.size < 2 ^ 30
      → q.opts.capacity ≡ 0
      → q.size ≡ length q.buf
      → Holds (contents q) q.opts q.closed (expand z q)
  unfolding expand
  expand-Holds q v s u full = record {
    valid = ground (
      arith,
      length-copy_elements z q.buf q.head q.size 0 (replicate (length q.buf * 2) z),
      length-replicate (length q.buf * 2) z,
      mod-eq_of_lt {n = q.size} {m = length q.buf * 2},
    );
    holds = slots-copy_elements z q.buf q.head q.size (length q.buf * 2) (omega (arith, v.head_in));
    opts_eq = refl;
    closed_eq = refl;
  }

  grow-eq :
      (q : NonBlockingQueue A)
      → IsValid q
      → grow z q ≡ (if q.opts.capacity == 0 && leb (length q.buf) q.size then expand z q else q)
  unfolding grow
  grow-eq q v = rw (to_i32_small (length q.buf) v.short) refl

  -- Growing makes room.
  pub grow-Holds :
      (q : NonBlockingQueue A)
      → IsValid q
      → Short 1 q
      → (q.opts.capacity ≡ 0) ⊎ (q.size < q.opts.capacity)
      → Holds (contents q) q.opts q.closed (grow z q)
        × ((grow z q).size ≡ q.size)
        × (q.size < length (grow z q).buf)
  grow-Holds q v s r = elim (Bool-cases (q.opts.capacity == 0 && leb (length q.buf) q.size)) [
    | inl e ↦
        let u : q.opts.capacity ≡ 0 = ground (arith, e) in
        let full : q.size ≡ length q.buf = ground (arith, e) in
        rw (grow-eq q v, e)
          (
            expand-Holds q v (omega (arith, u)) u full,
            unfold expand in refl,
            unfold expand in
                omega (
                  arith,
                  v.head_in,
                  full,
                  length-copy_elements z q.buf q.head q.size 0 (replicate (length q.buf * 2) z),
                  length-replicate (length q.buf * 2) z,
                ),
          )
    | inr e ↦
        rw (grow-eq q v, e)
          (
            record { valid = v; holds = refl; opts_eq = refl; closed_eq = refl },
            refl,
            ground (arith, e),
          )
  ]

  pub clear-Holds : (q : NonBlockingQueue A) → IsValid q → Holds [] q.opts q.closed (clear z q)
  unfolding clear
  clear-Holds q v = ground (arith, length-clear_slots z q.head q.size 0 q.buf)

  pub close-Holds : (q : NonBlockingQueue A) → IsValid q → Holds (contents q) q.opts true (close q)
  unfolding close
  close-Holds q v = ground arith

  -- A new queue is empty and open, whatever its options, if its slice is short.
  pub new_non_blocking_queue-Holds :
      (options : List (Options → Options))
      → (apply_options options default_options).capacity < 2 ^ 31
      → Holds [] (apply_options options default_options) false (new_non_blocking_queue z options)
  unfolding new_non_blocking_queue default_options
  new_non_blocking_queue-Holds options h = ground (
    arith,
    length-replicate 16 z,
    length-replicate (apply_options options default_options).capacity z,
  )
