-- ===== src/Queue/NonBlocking/Put.antt =====
-- queue/nonblocking_queue.go: the ways through TryEnqueue.
use fyer_kit.Prelude.{◌+◌, ◌<◌, ◌≡◌, refl, sym, ap, ◌∙◌, ◌⊎◌, true, false, [], ◌∷◌, ◌++◌, arith}
use fyer_kit.Queue.Types.{QueueError, ok, err, queue_closed, queue_full, error_event}
use fyer_kit.Queue.NonBlocking.{
  NonBlockingQueue, try_enqueue, enqueue, enqueue_round, at_capacity, grow, report_enqueue, publish,
  write_slot, claim_tail, emit, increment_rejected,
}
use fyer_kit.Queue.NonBlocking.Invariant.{IsValid, at_capacity-eq}
use fyer_kit.Queue.NonBlocking.Contents.{contents, Holds, Short, enqueue_tail-Holds, grow-Holds}

module _ {ℓ} {A : Type ℓ} (z : A) where
  -- The queue after a round of Enqueue that succeeds.
  abbrev pub stored : A → NonBlockingQueue A → NonBlockingQueue A
  stored x q = report_enqueue x q.size (publish (write_slot q.tail x (claim_tail q)))

  pub enqueue_round-stored :
      (q : NonBlockingQueue A) (x : A)
      → at_capacity q.size q ≡ false
      → enqueue_round x q ≡ (ok tt, stored x q)
  unfolding enqueue_round
  enqueue_round-stored q x e = rw e refl

  pub has_room :
      (q : NonBlockingQueue A)
      → IsValid q
      → at_capacity q.size q ≡ false
      → (q.opts.capacity ≡ 0) ⊎ (q.size < q.opts.capacity)
  has_room q v e = let f = sym (at_capacity-eq q v) ∙ e in ground (arith, f)

  stored-size : (x : A) (q : NonBlockingQueue A) → (stored x q).size ≡ q.size + 1
  unfolding report_enqueue publish write_slot claim_tail
  stored-size x q = ground arith

  -- An open queue with room takes the element.
  pub enqueue-stored :
      (q : NonBlockingQueue A) (x : A)
      → IsValid q
      → Short z 1 q
      → q.closed ≡ false
      → at_capacity q.size q ≡ false
      → (try_enqueue z x q ≡ (ok tt, stored x (grow z q)))
        × Holds z (contents z q ++ x ∷ []) q.opts q.closed (stored x (grow z q))
        × ((stored x (grow z q)).size ≡ q.size + 1)
  unfolding try_enqueue enqueue
  enqueue-stored q x v s c e =
      let (g, n, room) = grow-Holds z q v s (has_room q v e) in
      let t = enqueue_tail-Holds z (grow z q) x (grow z q).size g.valid (rw n room) in
      let f : at_capacity (grow z q).size (grow z q) ≡ false =
        rw n (unfold at_capacity in rw g.opts_eq e) in
      (
        simp (c, e, enqueue_round-stored (grow z q) x f),
        record {
          valid = t.valid;
          holds = t.holds ∙ ap (◌++ x ∷ []) g.holds;
          opts_eq = t.opts_eq ∙ g.opts_eq;
          closed_eq = t.closed_eq ∙ g.closed_eq;
        },
        stored-size x (grow z q) ∙ ap (λ k. k + 1) n,
      )

  -- What a refused Enqueue leaves.
  pub refused-Holds :
      (q : NonBlockingQueue A) (e : QueueError)
      → IsValid q
      → Holds z (contents z q) q.opts q.closed (emit (error_event e) (increment_rejected q))
  refused-Holds q e v = record {
    valid = ground arith;
    holds = refl;
    opts_eq = refl;
    closed_eq = refl;
  }

  pub try_enqueue-closed :
      (q : NonBlockingQueue A) (x : A)
      → q.closed ≡ true
      → try_enqueue z x q
        ≡ (err queue_closed, emit (error_event queue_closed) (increment_rejected q))
  unfolding try_enqueue enqueue
  try_enqueue-closed q x c = simp c

  pub try_enqueue-full :
      (q : NonBlockingQueue A) (x : A)
      → q.closed ≡ false
      → at_capacity q.size q ≡ true
      → try_enqueue z x q ≡ (err queue_full, emit (error_event queue_full) (increment_rejected q))
  unfolding try_enqueue enqueue
  try_enqueue-full q x c f = simp (c, f)
