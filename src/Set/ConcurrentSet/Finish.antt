-- ===== src/Set/ConcurrentSet/Finish.antt =====
-- set/concurrentset.go: calls of one ConcurrentSet, none with a second ConcurrentSet as its argument, never block each other for ever.
use mathlib.Core.Option.{some-injective, none-ne-some}
use native.Mathlib.Decide.{dec_lt}
use fyer_kit.Prelude.{
  ℕ, zero, suc, ◌+◌, ◌≤◌, ◌<◌, ◌≡◌, refl, sym, ap, subst, Bool, true, false, List, [], ◌∷◌, Option,
  some, get_elem?, length, arith,
}
use fyer_kit.Set.HashSet.{HashSet}
use fyer_kit.Set.ConcurrentSet.{
  Reply, Call, writes, reads, Phase, ready, locking, inside, finished, ConcurrentSet, run_write,
  run_read, leave, step_of, step, run, new_concurrent,
}
use fyer_kit.Set.ConcurrentSet.Counts.{
  reading, writing_now, waiting, steps_left, total, total-set, total-found,
}
use fyer_kit.Set.ConcurrentSet.Linear.{Guarded, one_if, run-from, run-Guarded}

module _ {A : Type 0} (equal : A → A → Bool) (visit : List A → List A) where
  abbrev pub left_of : ConcurrentSet A → ℕ
  left_of m = total steps_left m.phases

  leave-Goes :
      (c : Call A) (seen : HashSet A) (i : ℕ) (m : ConcurrentSet A)
      → get_elem? m.phases i ≡ some (inside c seen)
      → total steps_left (leave equal visit c seen i m).phases < total steps_left m.phases
  leave-Goes (writes c) seen i m e =
      let (r, s) = run_write equal visit c seen in
      omega (arith, total-set steps_left m.phases i (inside (writes c) seen) (finished r) e)
  leave-Goes (reads c) seen i m e =
      let r = run_read equal visit c seen in
      omega (arith, total-set steps_left m.phases i (inside (reads c) seen) (finished r) e)

  -- The call at `i` takes its step.
  abbrev Goes : ℕ → ConcurrentSet A → Type 0
  Goes i m = total steps_left (step equal visit i false m).phases < total steps_left m.phases

  Goes-by :
      (i : ℕ) (m : ConcurrentSet A) (o : Option (Phase A))
      → get_elem? m.phases i ≡ o
      → total steps_left (step_of equal visit o i false m).phases < total steps_left m.phases
      → Goes i m
  unfolding step
  Goes-by i m o e h =
      subst
        (λ o. total steps_left (step_of equal visit o i false m).phases < total steps_left m.phases)
        (sym e) h

  -- Someone inside leaves.
  inside-Goes :
      (i : ℕ) (m : ConcurrentSet A) (x : Phase A)
      → get_elem? m.phases i ≡ some x
      → 0 < reading x + writing_now x
      → Goes i m
  inside-Goes i m (ready c) e h = absurd (omega arith)
  inside-Goes i m (locking c) e h = absurd (omega arith)
  inside-Goes i m (finished r) e h = absurd (omega arith)
  inside-Goes i m (inside c seen) e h = Goes-by i m _ e (leave-Goes c seen i m e)

  -- With nobody inside, one that waits in Lock gets it.
  waiting-Goes :
      (i : ℕ) (m : ConcurrentSet A) (x : Phase A)
      → get_elem? m.phases i ≡ some x
      → m.lock.readers ≡ 0
      → m.lock.writing ≡ false
      → 0 < waiting x
      → Goes i m
  waiting-Goes i m (ready c) e r w h = absurd (omega arith)
  waiting-Goes i m (inside c seen) e r w h = absurd (omega arith)
  waiting-Goes i m (finished s) e r w h = absurd (omega arith)
  waiting-Goes i m (locking c) e r w h =
      let after = total-set steps_left m.phases i (locking c) (inside (writes c) m.items) e in
      Goes-by i m _ e (rw (r, w) (omega (arith, after)))

  -- With nobody inside or waiting, a call begins.
  ready-Goes :
      (i : ℕ) (m : ConcurrentSet A) (x : Phase A)
      → get_elem? m.phases i ≡ some x
      → m.lock.writing ≡ false
      → m.lock.pending ≡ 0
      → reading x + writing_now x + waiting x ≡ 0
      → 0 < steps_left x
      → Goes i m
  ready-Goes i m (finished s) e w p o h = absurd (omega arith)
  ready-Goes i m (locking c) e w p o h = absurd (omega arith)
  ready-Goes i m (inside (reads c) seen) e w p o h = absurd (omega arith)
  ready-Goes i m (inside (writes c) seen) e w p o h = absurd (omega arith)
  ready-Goes i m (ready (writes c)) e w p o h =
      let after = total-set steps_left m.phases i (ready (writes c)) (locking c) e in
      Goes-by i m _ e (omega (arith, after))
  ready-Goes i m (ready (reads c)) e w p o h =
      let after = total-set steps_left m.phases i (ready (reads c)) (inside (reads c) m.items) e in
      Goes-by i m _ e (rw (w, p) (omega (arith, after)))

  total-at :
      (f : Phase A → ℕ) (l : List (Phase A)) (i : ℕ) (x : Phase A)
      → get_elem? l i ≡ some x
      → f x ≤ total f l
  unfolding total
  total-at f [] i x e = absurd (none-ne-some x e)
  total-at f (z ∷ l) zero x e = let same : f z ≡ f x = ap f (some-injective z x e) in omega arith
  total-at f (z ∷ l) (suc i) x e = omega (arith, total-at f l i x e)

  -- Where a call has steps before it, some call can take one.
  some-Goes :
      (first : HashSet A) (m : ConcurrentSet A)
      → Guarded equal visit first m
      → 0 < left_of m
      → (i : ℕ) × Goes i m
  some-Goes first m v h = elim (dec_lt 0 (total reading m.phases)) [
    | yes p ↦
        let (i, x, e, q) = total-found reading m.phases p in (i, inside-Goes i m x e (omega arith))
    | no nr ↦ elim (dec_lt 0 (total writing_now m.phases)) [
      | yes p ↦
          let (i, x, e, q) = total-found writing_now m.phases p in
          (i, inside-Goes i m x e (omega arith))
      | no nw ↦
          let free : m.lock.writing ≡ false = unlocked m.lock.writing (omega (arith, v.writer)) in
          elim (dec_lt 0 (total waiting m.phases)) [
            | yes p ↦
                let (i, x, e, q) = total-found waiting m.phases p in
                (i, waiting-Goes i m x e (omega (arith, v.readers)) free q)
            | no np ↦
                let (i, x, e, q) = total-found steps_left m.phases h in
                let at = λ (f : Phase A → ℕ). total-at f m.phases i x e in
                (
                  i,
                  ready-Goes i m x e free (omega (arith, v.pending))
                      (omega (arith, at reading, at writing_now, at waiting)) q,
                )
          ]
    ]
  ]
    where
      unlocked : (b : Bool) → one_if b ≡ 0 → b ≡ false
      unlocked true e = absurd (omega arith)
      unlocked false e = refl

  go_on :
      (n : ℕ) (first : HashSet A) (m : ConcurrentSet A)
      → left_of m ≤ n
      → Guarded equal visit first m
      → (more : List (ℕ × Bool)) × (length more ≤ n) × (left_of (run equal visit more m) ≡ 0)
  unfolding run
  go_on zero first m h v = ([], omega arith, omega arith)
  go_on (suc n) first m h v = elim (dec_lt 0 (left_of m)) [
    | no none_left ↦ ([], omega arith, omega arith)
    | yes p ↦
        let (i, goes) = some-Goes first m v p in
        let (more, short, done) =
          go_on n first (step equal visit i false m) (omega (arith, goes))
            (run-from equal visit first ((i, false) ∷ []) m v) in
        ((i, false) ∷ more, omega arith, done)
  ]

  done_at : (x : Phase A) → steps_left x ≡ 0 → (r : Reply A) × (x ≡ finished r)
  done_at (finished r) h = (r, refl)
  done_at (ready (writes c)) h = absurd (omega arith)
  done_at (ready (reads c)) h = absurd (omega arith)
  done_at (locking c) h = absurd (omega arith)
  done_at (inside c seen) h = absurd (omega arith)

  -- The call at every place has returned.
  abbrev pub AllReturned : ConcurrentSet A → Type 0
  AllReturned m =
      (i : ℕ) (x : Phase A) → get_elem? m.phases i ≡ some x → (r : Reply A) × (x ≡ finished r)

  -- Whatever calls of a ConcurrentSet there are, none with a second ConcurrentSet as its argument, and however they have
  -- interleaved so far, they can all return: they never block each other for ever, and no more steps are needed than the
  -- calls have left.
  pub calls_return :
      (first : HashSet A) (calls : List (Call A)) (schedule : List (ℕ × Bool))
      → let m = run equal visit schedule (new_concurrent first calls) in
        (more : List (ℕ × Bool)) × (length more ≤ total steps_left m.phases)
        × AllReturned (run equal visit more m)
  calls_return first calls schedule =
      let m = run equal visit schedule (new_concurrent first calls) in
      let (more, short, done) =
        go_on (left_of m) first m (omega arith) (run-Guarded equal visit first calls schedule) in
      (
        more,
        short,
        λ i x e.
            done_at x
              (omega (arith, done, total-at steps_left (run equal visit more m).phases i x e)),
      )
