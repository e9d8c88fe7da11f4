-- ===== src/Queue/NonBlocking/Race.antt =====
-- queue/nonblocking_queue.go: two producers at once. Enqueue claims a slot, fills it, and counts it, in three steps
-- that others may come between.
use native.Mathlib.Nat.{mod-add-mod}
use fyer_kit.Prelude.{
  ℕ, ◌+◌, ◌%◌, ◌^◌, ◌<◌, ◌≤◌, ◌≡◌, ◌≢◌, refl, ap, ap₂, ◌∙◌, ◌⊎◌, true, false, arith, inl, inr, ◌==◌,
  ◌&&◌, ltb, length, get_or, set, get_or-set_ne,
}
use fyer_kit.Prelude.Word.{pos, geb, to_i32, rem, to_i32_small}
use fyer_kit.Queue.Types.{ok, err, queue_full}
use fyer_kit.Queue.NonBlocking.{
  NonBlockingQueue, try_enqueue, enqueue, at_capacity, grow, publish, write_slot, claim_tail,
  try_dequeue, dequeue, dequeue_round,
}
use fyer_kit.Queue.NonBlocking.Invariant.{IsValid, at_capacity-eq, report_enqueue-SameRing}
use fyer_kit.Queue.Blocking.Slots.{mod_step-ne}
use fyer_kit.Queue.NonBlocking.Put.{enqueue_round-stored, stored}

module _ {ℓ} {A : Type ℓ} (z : A) where
  no_growth :
      (q : NonBlockingQueue A)
      → length q.buf < 2 ^ 31
      → (q.size < length q.buf) ⊎ (0 < q.opts.capacity)
      → grow z q ≡ q
  unfolding grow
  no_growth q short r = rw (to_i32_small (length q.buf) short) (ground (arith, r))

  open_put :
      (q : NonBlockingQueue A) (y : A)
      → q.closed ≡ false
      → at_capacity q.size q ≡ false
      → grow z q ≡ q
      → try_enqueue z y q ≡ (ok tt, stored z y q)
  unfolding try_enqueue enqueue
  open_put q y c f g = simp (c, f, g, enqueue_round-stored z q y f)

  -- An Enqueue that comes between the first two steps of another.
  between-stored :
      (q : NonBlockingQueue A) (y : A)
      → IsValid q
      → q.closed ≡ false
      → at_capacity q.size q ≡ false
      → (q.size < length q.buf) ⊎ (0 < q.opts.capacity)
      → try_enqueue z y (claim_tail q) ≡ (ok tt, stored z y (claim_tail q))
  between-stored q y v c f r =
      open_put (claim_tail q) y (unfold claim_tail in c) (unfold claim_tail at_capacity in f)
        (no_growth (claim_tail q) (unfold claim_tail in v.short) (unfold claim_tail in r))

  -- The slot of the second Enqueue.
  abbrev next_slot : NonBlockingQueue A → ℕ
  next_slot q = (q.head + q.size + 1) % length q.buf

  put-fields :
      (q : NonBlockingQueue A) (y : A)
      → ((stored z y q).buf ≡ set q.buf q.tail y)
        × ((stored z y q).head ≡ q.head)
        × ((stored z y q).size ≡ q.size + 1)
  unfolding publish write_slot claim_tail
  put-fields q y =
      let s = report_enqueue-SameRing y q.size (record q {
        tail = rem (q.tail + 1) (to_i32 (length q.buf));
        buf = set q.buf q.tail y;
        size = q.size + 1;
      }) in
      (s.buf_eq, s.head_eq, s.size_eq)

  claimed-tail : (q : NonBlockingQueue A) → IsValid q → (claim_tail q).tail ≡ next_slot q
  unfolding claim_tail
  claimed-tail q v =
      rw (to_i32_small (length q.buf) v.short, v.tail_at)
        (mod-add-mod (q.head + q.size) (length q.buf) 1)

  stored-fields :
      (q : NonBlockingQueue A) (y : A)
      → IsValid q
      → ((stored z y (claim_tail q)).buf ≡ set q.buf (next_slot q) y)
        × ((stored z y (claim_tail q)).head ≡ q.head)
        × ((stored z y (claim_tail q)).size ≡ q.size + 1)
  stored-fields q y v =
      let (b, h, n) = put-fields (claim_tail q) y in
      (
        b ∙ ap₂ (λ l k. set l k y) (unfold claim_tail in refl) (claimed-tail q v),
        h ∙ (unfold claim_tail in refl),
        n ∙ (unfold claim_tail in refl),
      )

  dequeue-first :
      (q : NonBlockingQueue A) → 0 < q.size → (try_dequeue z q).0 ≡ ok (get_or q.buf q.head z)
  unfolding try_dequeue dequeue dequeue_round
  dequeue-first q h = let e : (q.size == 0) ≡ false = ground arith in simp e

  slot-ne :
      (q : NonBlockingQueue A) → IsValid q → q.size ≡ 0 → 1 < length q.buf → next_slot q ≢ q.head
  slot-ne q v e two c =
      mod_step-ne (length q.buf) q.head 1 v.head_in (omega arith) two
        (ap (λ k. k % length q.buf) (omega (arith, e)) ∙ c)

  -- Where a valid queue is empty and open, and has two slots, a Dequeue that comes while one Enqueue has claimed
  -- its slot but not filled it, and another has returned, takes the slot of the first: it succeeds with what lies
  -- there.
  pub dequeue_unfilled :
      (q : NonBlockingQueue A) (y : A)
      → IsValid q
      → q.closed ≡ false
      → q.size ≡ 0
      → 1 < length q.buf
      → (try_dequeue z (try_enqueue z y (claim_tail q)).1).0 ≡ ok (get_or q.buf q.head z)
  dequeue_unfilled q y v c e two =
      let f : at_capacity q.size q ≡ false = at_capacity-eq q v ∙ ground arith in
      let (b, h, n) = stored-fields q y v in
      rw (between-stored q y v c f (inl (omega arith))) (
        dequeue-first (stored z y (claim_tail q)) (omega (arith, n))
        ∙ rw (b, h) (ap ok (get_or-set_ne q.buf (next_slot q) q.head y z (slot-ne q v e two))))

  full_at :
      (q : NonBlockingQueue A) (x : A)
      → q.closed ≡ false
      → at_capacity q.size q ≡ true
      → (try_enqueue z x q).0 ≡ err queue_full
  unfolding try_enqueue enqueue
  full_at q x c f = simp (c, f)

  wide_test :
      (n c : ℕ)
      → n ≡ 0
      → 0 < c
      → (c % 2 ^ 32 ≡ 0) ⊎ (2 ^ 31 ≤ c % 2 ^ 32)
      → (ltb 0 c && geb (pos n) (to_i32 c)) ≡ true
  wide_test n c e some_cap wide = elim wide [
    | inl w ↦ rw (w, e) (ground arith)
    | inr w ↦ let f : ltb (c % 2 ^ 32) (2 ^ 31) ≡ false = ground (arith, w) in rw f (ground arith)
  ]

  -- A capacity that is not 0 and whose low 32 bits are 0, or 2 ^ 31 and more, makes an open and empty queue refuse
  -- an Enqueue as full.
  pub wide_capacity_full :
      (q : NonBlockingQueue A) (x : A)
      → q.closed ≡ false
      → q.size ≡ 0
      → 0 < q.opts.capacity
      → (q.opts.capacity % 2 ^ 32 ≡ 0) ⊎ (2 ^ 31 ≤ q.opts.capacity % 2 ^ 32)
      → (try_enqueue z x q).0 ≡ err queue_full
  wide_capacity_full q x c e some_cap wide =
      let f : at_capacity q.size q ≡ true =
        unfold at_capacity in wide_test q.size q.opts.capacity e some_cap wide in
      full_at q x c f
