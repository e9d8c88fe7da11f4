-- ===== src/Queue/Blocking/Contents.antt =====
-- queue/blocking_queue.go: what a ring holds, oldest first, and what each operation does to it.
use native.Mathlib.Nat.{mod-eq_of_lt}
use fyer_kit.Prelude.{
  ℕ, zero, suc, ◌+◌, ◌-◌, ◌*◌, ◌%◌, ◌≤◌, ◌<◌, ◌≡◌, refl, sym, ap, ap₂, Bool, ◌∙◌, List, [], ◌∷◌,
  ◌++◌, arith, length, get_or, set, replicate, length-set, length-replicate, get_or-set_self,
  get_or-set_ne, Bool-cases, inl, inr, ◌⊎◌, ◌==◌, ◌&&◌,
}
use fyer_kit.Queue.Blocking.{
  BlockingQueue, copy_elements, expand, grow, store_item, finish_enqueue, put_item, finish_dequeue,
  pop_head, is_full,
}
use fyer_kit.Queue.Blocking.Slots.{slots, slots_ext, slots-push, slots-pop}
use fyer_kit.Queue.Blocking.Invariant.{IsValid, grow-Grown, length-copy_elements}

-- Two queues hold the same ring, under the same options and flag.
pub record SameRing {ℓ} {A : Type ℓ} (q q' : BlockingQueue A) : Type ℓ where
  pub buf_eq : q'.buf ≡ q.buf
  pub head_eq : q'.head ≡ q.head
  pub size_eq : q'.size ≡ q.size
  pub opts_eq : q'.opts ≡ q.opts
  pub closed_eq : q'.closed ≡ q.closed

module _ {ℓ} {A : Type ℓ} where
  -- Notices, events and statistics do not touch the ring.
  pub finish_enqueue-SameRing : (x : A) (q : BlockingQueue A) → SameRing q (finish_enqueue x q)
  unfolding finish_enqueue
  finish_enqueue-SameRing x q = ground arith

  pub finish_dequeue-SameRing :
      (full : BlockingQueue A → Bool) (x : A) (q : BlockingQueue A)
      → SameRing q (finish_dequeue full (x, q)).1 × ((finish_dequeue full (x, q)).0 ≡ x)
  unfolding finish_dequeue
  finish_dequeue-SameRing full x q = ground arith

module _ {ℓ} {A : Type ℓ} (z : A) where
  abbrev pub contents : BlockingQueue A → List A
  contents q = slots z q.buf q.head q.size

  pub contents-SameRing : {q q' : BlockingQueue A} → SameRing q q' → contents q' ≡ contents q
  contents-SameRing s = rw (s.buf_eq, s.head_eq, s.size_eq)

  -- The copy loop leaves the places below its index alone.
  copy_elements_below :
      (old : List A) (head rounds i j : ℕ) (new : List A)
      → j < i
      → get_or (copy_elements z old head rounds i new) j z ≡ get_or new j z
  unfolding copy_elements
  copy_elements_below old head zero i j new h = refl
  copy_elements_below old head (suc rounds) i j new h =
      copy_elements_below old head rounds (i + 1) j _ (omega arith)
      ∙ get_or-set_ne new i j _ z (omega arith)

  -- Each round copies one element of the old ring, in order.
  copy_elements_at :
      (old : List A) (head rounds i j : ℕ) (new : List A)
      → i ≤ j
      → j < i + rounds
      → i + rounds ≤ length new
      → get_or (copy_elements z old head rounds i new) j z ≡ get_or old ((head + j) % length old) z
  unfolding copy_elements
  copy_elements_at old head zero i j new h lt fit = absurd (omega arith)
  copy_elements_at old head (suc rounds) i j new h lt fit = elim (Bool-cases (i == j)) [
    | inl e ↦
        let same : i ≡ j = ground (arith, e) in
        copy_elements_below old head rounds (i + 1) j _ (omega arith)
        ∙ ap (λ t. get_or (set new i (get_or old ((head + i) % length old) z)) t z) (sym same)
        ∙ get_or-set_self new i _ z (omega arith)
        ∙ ap (λ t. get_or old ((head + t) % length old) z) same
    | inr e ↦
        copy_elements_at old head rounds (i + 1) j _ (ground (arith, e)) (omega arith)
          (omega (arith, length-set new i (get_or old ((head + i) % length old) z)))
  ]

  -- A window copied to the start of a longer slice is the same window.
  pub slots-copy_elements :
      (old : List A) (h n m : ℕ)
      → n < m
      → slots z (copy_elements z old h n 0 (replicate m z)) 0 n ≡ slots z old h n
  slots-copy_elements old h n m lt = slots_ext z new old 0 h n λ j hj.
      ap (λ t. get_or new t z) (mod-eq_of_lt (size_fits j hj) ∙ omega arith)
      ∙ copy_elements_at old h n 0 j _ (omega arith) (omega arith)
          (omega (arith, length-replicate m z))
    where
      new : List A
      new = copy_elements z old h n 0 (replicate m z)

      size_fits : (j : ℕ) → j < n → 0 + j < length new
      size_fits j hj =
          omega (arith, length-copy_elements z old h n 0 (replicate m z), length-replicate m z)

  -- Doubling the buffer of a valid ring keeps its elements and their order, wherever the head is.
  pub contents-expand : (q : BlockingQueue A) → IsValid q → contents (expand z q) ≡ contents q
  unfolding expand
  contents-expand q v =
      slots-copy_elements q.buf q.head q.size (length q.buf * 2) (omega (arith, v.head_in, v.fits))

  contents-grow : (q : BlockingQueue A) → IsValid q → contents (grow z q) ≡ contents q
  unfolding grow
  contents-grow q v = elim (Bool-cases (is_full q && q.opts.capacity == 0)) [
    | inl e ↦ rw e (contents-expand q v)
    | inr e ↦ rw e
  ]

  contents-store_item :
      (q : BlockingQueue A) (x : A)
      → IsValid q
      → q.size < length q.buf
      → contents (finish_enqueue x (store_item x q)) ≡ contents q ++ x ∷ []
  unfolding store_item
  contents-store_item q x v room =
      contents-SameRing (finish_enqueue-SameRing x (store_item x q))
      ∙ rw v.tail_at (
          ap (slots z (set q.buf ((q.head + q.size) % length q.buf) x) q.head) {y = suc q.size}
            (omega arith)
          ∙ slots-push z q.buf q.head q.size x room)

  -- A put appends its element.
  pub contents-put_item :
      (q : BlockingQueue A) (x : A)
      → IsValid q
      → (q.opts.capacity ≡ 0) ⊎ (q.size < q.opts.capacity)
      → contents (put_item z x q) ≡ contents q ++ x ∷ []
  unfolding put_item
  contents-put_item q x v h =
      let g = grow-Grown z q v h in
      contents-store_item (grow z q) x g.valid g.room ∙ ap (◌++ x ∷ []) (contents-grow q v)

  -- A put leaves the options and the flag.
  pub put_item-opts :
      (q : BlockingQueue A) (x : A)
      → IsValid q
      → (q.opts.capacity ≡ 0) ⊎ (q.size < q.opts.capacity)
      → ((put_item z x q).opts ≡ q.opts) × ((put_item z x q).closed ≡ q.closed)
  unfolding put_item store_item
  put_item-opts q x v h =
      let g = grow-Grown z q v h in
      let s = finish_enqueue-SameRing x (store_item x (grow z q)) in
      (s.opts_eq ∙ g.same_opts, s.closed_eq ∙ g.same_closed)

  -- Taking the head leaves the rest.
  pub contents-pop_head :
      (q : BlockingQueue A)
      → IsValid q
      → 0 < q.size
      → contents q ≡ (pop_head z q).0 ∷ contents (pop_head z q).1
  unfolding pop_head
  contents-pop_head q v pos =
      ap (slots z q.buf q.head) one_more
      ∙ ap₂ ◌∷◌ (ap (λ t. get_or q.buf t z) (mod-eq_of_lt v.head_in))
          (sym (slots-pop z q.buf q.head (q.size - 1) z v.head_in (omega arith)))
    where
      one_more : q.size ≡ suc (q.size - 1)
      one_more = omega arith
