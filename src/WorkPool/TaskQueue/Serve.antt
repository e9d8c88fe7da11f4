-- ===== src/WorkPool/TaskQueue/Serve.antt =====
-- workpool/queue.go: Enqueue and Dequeue on a queue in heap order.
use mathlib.Core.Bool.{Bool-set}
use mathlib.Core.Option.{some-injective}
use mathlib.Core.List.Perm
use mathlib.Core.List.{Perm, Mem, perm_middle, not-mem-nil, forall_mem-cons}
use fyer_kit.Prelude.{
  ℕ, zero, suc, ◌+◌, ◌-◌, ◌≤◌, ◌<◌, ◌≡◌, refl, ◌∙◌, true, false, List, [], ◌∷◌, ◌++◌, some, length,
  get_elem?, take, arith, append-nil, length-append, length-take,
}
use fyer_kit.Prelude.Word.{geb}
use fyer_kit.WorkPool.Task.{TaskHandle}
use fyer_kit.WorkPool.TaskQueue.{
  less, swap, sift_down, enqueue, dequeue, pop_last, length-swap, length-sift_up, length-sift_down,
}
use fyer_kit.WorkPool.TaskQueue.Order.{
  parent, over, under, over_of, under_of, geb-eq, up_at, dn_at, Below, Ordered, Sifted, less-eq,
  get_elem?-swap, swap-perm,
}
use fyer_kit.WorkPool.TaskQueue.Up.{UpInv, sift_up-Sifted}
use fyer_kit.WorkPool.TaskQueue.Down.{DownInv, sift_down-Sifted}

module _ {A : Type 0} where
  -- No item is above its parent, by the code's own comparison.
  abbrev pub IsHeap : List (TaskHandle A) → Type 0
  IsHeap l = (c : ℕ) → 0 < c → c < length l → less l c (parent c) ≡ false

  pub IsHeap→Ordered : (l : List (TaskHandle A)) → IsHeap l → Ordered (length l) l
  IsHeap→Ordered l h c p q = ground (arith, h c p q, less-eq l c (parent c) q (omega arith))

  pub Ordered→IsHeap : (l : List (TaskHandle A)) → Ordered (length l) l → IsHeap l
  Ordered→IsHeap l h c p q = ground (arith, h c p q, less-eq l c (parent c) q (omega arith))

  get_elem?-append :
      (l k : List (TaskHandle A)) (i : ℕ) → i < length l → get_elem? (l ++ k) i ≡ get_elem? l i
  get_elem?-append [] k i h = absurd (omega arith)
  get_elem?-append (x ∷ l) k zero h = refl
  get_elem?-append (x ∷ l) k (suc i) h = get_elem?-append l k i (omega arith)

  get_elem?-take :
      (n : ℕ) (l : List (TaskHandle A)) (i : ℕ) → i < n → get_elem? (take n l) i ≡ get_elem? l i
  get_elem?-take zero l i h = absurd (omega arith)
  get_elem?-take (suc n) [] i h = refl
  get_elem?-take (suc n) (x ∷ l) zero h = refl
  get_elem?-take (suc n) (x ∷ l) (suc i) h = get_elem?-take n l i (omega arith)

  Below-cong :
      (l k : List (TaskHandle A)) (i j : ℕ)
      → get_elem? k i ≡ get_elem? l i
      → get_elem? k j ≡ get_elem? l j
      → Below l i j
      → Below k i j
  unfolding up_at dn_at
  Below-cong l k i j e e' b = rw (e, e') b

  append-UpInv :
      (t : TaskHandle A) (l : List (TaskHandle A))
      → IsHeap l
      → UpInv (length l + 1) (l ++ t ∷ []) (length l)
  append-UpInv t l h =
      let same = get_elem?-append l (t ∷ []) in
      record {
        inside = omega arith;
        edges = λ c p q ne.
            let r : c < length l = omega arith in
            Below-cong l (l ++ t ∷ []) c (parent c) (same c r) (same (parent c) (omega arith))
              (IsHeap→Ordered l h c p r);
        bridged = λ c p q e r. absurd (omega arith);
      }

  -- Enqueue keeps the heap order, and the queue holds the tasks it held and the new one.
  pub enqueue-IsHeap :
      (t : TaskHandle A) (l : List (TaskHandle A))
      → IsHeap l
      → IsHeap (enqueue t l) × Perm (enqueue t l) (t ∷ l)
  unfolding enqueue
  enqueue-IsHeap t l h =
      let size : length (l ++ t ∷ []) ≡ length l + 1 = omega (arith, length-append l (t ∷ [])) in
      let (ordered, same, kept) =
        sift_up-Sifted (length l + 1) (length l + 1) (l ++ t ∷ []) (length l) (omega arith)
          (omega arith) (append-UpInv t l h) in
      (
        Ordered→IsHeap _
            (rw (length-sift_up (length l + 1) (l ++ t ∷ []) (length l) ∙ size) ordered),
        Perm.trans same (rw (append-nil l) at (perm_middle {a = t} l [])),
      )

  pub take-perm :
      (n : ℕ) (l : List (TaskHandle A)) (x : TaskHandle A)
      → length l ≡ suc n
      → get_elem? l n ≡ some x
      → Perm (x ∷ take n l) l
  take-perm n [] x e g = absurd (omega arith)
  take-perm zero (y ∷ []) x e g = rw (some-injective y x g) Perm.rfl
  take-perm zero (y ∷ z ∷ l) x e g = absurd (omega arith)
  take-perm (suc n) (y ∷ l) x e g =
      Perm.trans (Perm.swap y x (take n l)) (Perm.cons y (take-perm n l x (omega arith) g))

  -- The last item leaves a list that is in order before it.
  pub cut-IsHeap :
      (n : ℕ) (l : List (TaskHandle A)) → length l ≡ suc n → Ordered n l → IsHeap (take n l)
  cut-IsHeap n l e o =
      let size : length (take n l) ≡ n = omega (arith, length-take n l) in
      Ordered→IsHeap (take n l) λ c p q.
        let r : c < n = omega arith in
        Below-cong l (take n l) c (parent c) (get_elem?-take n l c r)
          (get_elem?-take n l (parent c) (omega arith)) (o c p r)

  first-Below :
      (r : ℕ) (l : List (TaskHandle A)) (i : ℕ)
      → Ordered (length l) l
      → i < r
      → i < length l
      → Below l i 0
  first-Below zero l i o h k = absurd (omega arith)
  first-Below (suc r) l i o h k = ground (arith, o i, first-Below r l (parent i) o)

  -- No task of a heap has a higher priority than the first.
  best_of_mem :
      (x : TaskHandle A) (l : List (TaskHandle A))
      → ((i : ℕ)
          → i < length l
          → over_of (get_elem? l i) + under x.config.priority
            ≤ over x.config.priority + under_of (get_elem? l i))
      → (u : TaskHandle A) → Mem u l
      → geb x.config.priority u.config.priority ≡ true
  best_of_mem x [] h = λ u m. absurd (not-mem-nil m)
  best_of_mem x (y ∷ l) h = (forall_mem-cons λ u. Bool-set _ _).1 (
    rw (geb-eq x.config.priority y.config.priority) (ground (arith, h 0 (omega arith))),
    best_of_mem x l λ i k. h (suc i) (omega arith),
  )

  pop_last-some :
      (n : ℕ) (k : List (TaskHandle A)) (x : TaskHandle A)
      → length k ≡ suc n
      → get_elem? k n ≡ some x
      → pop_last k ≡ some (x, take n k)
  unfolding pop_last
  pop_last-some n k x e g = let last : length k - 1 ≡ n = omega arith in rw (last, g) refl

  dequeue_cons :
      (x : TaskHandle A) (l : List (TaskHandle A))
      → dequeue (x ∷ l)
        ≡ pop_last (sift_down (suc (length l)) (swap (x ∷ l) 0 (length l)) (length l) 0).0
  unfolding dequeue
  dequeue_cons x l =
      let last : suc (length l) - 1 ≡ length l = omega arith in rw last (ground arith)

  first_best :
      (x : TaskHandle A) (l : List (TaskHandle A))
      → IsHeap (x ∷ l)
      → (u : TaskHandle A) → Mem u (x ∷ l)
      → geb x.config.priority u.config.priority ≡ true
  unfolding up_at dn_at
  first_best x l h =
      best_of_mem x (x ∷ l)
        λ i q. first-Below (suc i) (x ∷ l) i (IsHeap→Ordered (x ∷ l) h) (omega arith) q

  -- What Dequeue gives up: a task, and the others in heap order.
  pub record Served (l : List (TaskHandle A)) (t : TaskHandle A) (k : List (TaskHandle A))
      : Type 0 where
    pub heap : IsHeap k
    pub same : Perm (t ∷ k) l
    pub best : (u : TaskHandle A) → Mem u l → geb t.config.priority u.config.priority ≡ true

  swap-DownInv :
      (n : ℕ) (l : List (TaskHandle A)) → length l ≡ suc n → IsHeap l → DownInv n (swap l 0 n) 0
  swap-DownInv n l e h =
      let at = get_elem?-swap l 0 n (omega arith) (omega arith) in
      record {
        edges = λ c p q ne.
            Below-cong l (swap l 0 n) c (parent c) (at c ∙ ground arith)
              (at (parent c) ∙ ground arith) (IsHeap→Ordered l h c p (omega arith));
        bridged = λ c p q t r. absurd (omega arith);
      }

  -- Dequeue on a queue that is not empty gives up a task of the highest priority, and keeps the others in heap order.
  pub dequeue-Served :
      (l : List (TaskHandle A))
      → IsHeap l
      → 0 < length l
      → (t : TaskHandle A) × (k : List (TaskHandle A)) × (dequeue l ≡ some (t, k)) × Served l t k
  dequeue-Served [] h p = absurd (omega arith)
  dequeue-Served (x ∷ l) h p = (
    x,
    take n k,
    served,
    record {
      heap = cut-IsHeap n k size sifted.0;
      same = Perm.trans (take-perm n k x size last) whole;
      best = first_best x l h;
    },
  )
    where
      n : ℕ
      n = length l

      m : List (TaskHandle A)
      m = swap (x ∷ l) 0 n

      k : List (TaskHandle A)
      k = (sift_down (suc n) m n 0).0

      room : length m ≡ suc n
      room = length-swap (x ∷ l) 0 n

      size : length k ≡ suc n
      size = length-sift_down (suc n) m n 0 ∙ room

      sifted : Sifted n m k
      sifted =
          sift_down-Sifted (suc n) n m 0 (omega arith) (omega (arith, room)) (omega (arith, room))
            (swap-DownInv n (x ∷ l) refl h)

      whole : Perm k (x ∷ l)
      whole = Perm.trans sifted.1 (swap-perm (x ∷ l) 0 n (omega arith) (omega arith))

      last : get_elem? k n ≡ some x
      last =
          sifted.2 n (omega arith)
          ∙ get_elem?-swap (x ∷ l) 0 n (omega arith) (omega arith) n
          ∙ ground arith

      served : dequeue (x ∷ l) ≡ some (x, take n k)
      served = dequeue_cons x l ∙ pop_last-some n k x size last
