-- ===== src/WorkPool/TaskQueue/Removal.antt =====
-- workpool/queue.go: Remove on a queue in heap order. heap.Remove puts the last item in the place of the removed one, and
-- moves it down or up.
use mathlib.Core.Option.{some-injective, none-ne-some}
use mathlib.Core.List.Perm
use mathlib.Core.List.{Perm, Mem, not-mem-nil, forall_mem-cons}
use native.Mathlib.Decide.{ℕ_discrete, dec_lt}
use fyer_kit.Prelude.{
  ℕ, zero, suc, ◌+◌, ◌-◌, ◌<◌, ◌≡◌, ◌≢◌, ◌⊎◌, inl, inr, refl, sym, ap, subst, ◌∙◌, Bool, true,
  false, List, [], ◌∷◌, none, some, ltb, ◌==◌, if◌then◌else◌, length, get_elem?, get_or, take,
  arith, if-intro, get_elem?-eq-get_or,
}
use fyer_kit.WorkPool.Task.{TaskHandle}
use fyer_kit.WorkPool.TaskQueue.{
  swap, sift_up, sift_down, remove_at, remove_id, find_id, length-swap, length-sift_up,
  length-sift_down,
}
use fyer_kit.WorkPool.TaskQueue.Order.{
  parent, up_at, dn_at, Below, Ordered, Bridged, Sifted, up_at-swap, dn_at-swap, get_elem?-swap,
  swap-perm,
}
use fyer_kit.WorkPool.TaskQueue.Up.{UpInv, sift_up-Sifted}
use fyer_kit.WorkPool.TaskQueue.Down.{sift_down-Sifted, sift_down_stays}
use fyer_kit.WorkPool.TaskQueue.Serve.{IsHeap, IsHeap→Ordered, cut-IsHeap, take-perm}

module _ {A : Type 0} where
  -- `k` is `l` without its item at `i`, in heap order.
  pub record Removed (i : ℕ) (l k : List (TaskHandle A)) : Type 0 where
    pub item : TaskHandle A
    pub found : get_elem? l i ≡ some item
    pub heap : IsHeap k
    pub same : Perm (item ∷ k) l

  Sifted-trans : {n : ℕ} {l k j : List (TaskHandle A)} → Sifted n l k → Sifted n k j → Sifted n l j
  Sifted-trans (o, p, e) (o', p', e') = (o', Perm.trans p' p, λ c h. e' c h ∙ e c h)

  Ordered-UpInv : (n : ℕ) (l : List (TaskHandle A)) (i : ℕ) → i < n → Ordered n l → UpInv n l i
  Ordered-UpInv n l i h o = record {
    inside = h;
    edges = λ c p q ne. o c p q;
    bridged = λ c p q e r. ground (arith, o c, o i);
  }

  -- What heap.Remove leaves before it cuts the last item off.
  abbrev moved : ℕ → List (TaskHandle A) → ℕ → ℕ → List (TaskHandle A)
  moved r m n i = let (down, k) = sift_down r m n i in if ltb i k then down else sift_up r down i

  module _ (n : ℕ) (l : List (TaskHandle A)) (i : ℕ) (size : length l ≡ suc n) (h : IsHeap l)
      (p : i < n) where
    abbrev swapped : List (TaskHandle A)
    swapped = swap l i n

    swapped-edges : (c : ℕ) → 0 < c → c < n → parent c ≢ i → c ≢ i → Below swapped c (parent c)
    swapped-edges c q r ne ne' =
        let u = up_at-swap l i n (omega arith) (omega arith) in
        let w = dn_at-swap l i n (omega arith) (omega arith) in
        ground (arith, u c, u (parent c), w c, w (parent c), IsHeap→Ordered l h c)

    swapped-Bridged : Bridged n swapped i
    swapped-Bridged c q r e s =
        let u = up_at-swap l i n (omega arith) (omega arith) in
        let w = dn_at-swap l i n (omega arith) (omega arith) in
        ground
          (arith, u c, u (parent i), w c, w (parent i), IsHeap→Ordered l h c, IsHeap→Ordered l h i)

    room : length swapped ≡ suc n
    room = length-swap l i n ∙ size

    -- The item is not above its parent: it goes down, if anywhere.
    sinks : (0 < i → Below swapped i (parent i)) → Sifted n swapped (moved (length l) swapped n i)
    sinks below =
        if-intro (Sifted n swapped) (ltb i (sift_down (length l) swapped n i).1) (λ e. down)
          λ e. Sifted-trans down (
            sift_up-Sifted (length l) n (sift_down (length l) swapped n i).0 i (omega arith)
              (omega (arith, length-sift_down (length l) swapped n i, room))
              (Ordered-UpInv n _ i p down.0))
      where
        down : Sifted n swapped (sift_down (length l) swapped n i).0
        down =
            sift_down-Sifted (length l) n swapped i (omega arith) (omega (arith, room))
              (omega (arith, room))
              (record {
                edges = λ c q r ne. elim (ℕ_discrete c i) [
                  | yes e ↦ subst (λ j. Below swapped j (parent j)) (sym e) (below (omega arith))
                  | no ne' ↦ swapped-edges c q r ne ne'
                ];
                bridged = swapped-Bridged;
              })

    -- The item is above its parent: it stays on the way down, and rises.
    rises :
        0 < i
        → up_at swapped (parent i) + dn_at swapped i < up_at swapped i + dn_at swapped (parent i)
        → Sifted n swapped (moved (length l) swapped n i)
    rises q above = rw stays (
        if-intro (Sifted n swapped) (ltb i i) (λ e. absurd (ground arith))
          λ e. sift_up-Sifted (length l) n swapped i (omega arith) (omega (arith, room)) inv)
      where
        stays : sift_down (length l) swapped n i ≡ (swapped, i)
        stays =
            sift_down_stays (length l) n swapped i (omega (arith, room)) (omega (arith, room))
              λ c q r e. ground (arith, swapped-Bridged c)

        inv : UpInv n swapped i
        inv = record {
          inside = p;
          edges = λ c q r ne. elim (ℕ_discrete (parent c) i) [
            | yes e ↦ rw e (ground (arith, swapped-Bridged c))
            | no ne' ↦ swapped-edges c q r ne' ne
          ];
          bridged = swapped-Bridged;
        }

    moved-Sifted : Sifted n swapped (moved (length l) swapped n i)
    moved-Sifted = elim (ℕ_discrete i 0) [
      | yes e ↦ sinks λ q. absurd (omega arith)
      | no ne ↦
          elim (dec_lt (up_at swapped (parent i) + dn_at swapped i)
            (up_at swapped i + dn_at swapped (parent i))) [
              | yes above ↦ rises (omega arith) above
              | no not_above ↦ sinks λ q. omega arith
            ]
    ]

  -- What is left of a list in order before its last item, once that is cut off.
  cut-Removed :
      (i n : ℕ) (l k : List (TaskHandle A)) (t : TaskHandle A)
      → length k ≡ suc n
      → get_elem? l i ≡ some t
      → get_elem? k n ≡ some t
      → Ordered n k
      → Perm k l
      → Removed i l (take n k)
  cut-Removed i n l k t size here last o s = record {
    item = t;
    found = here;
    heap = cut-IsHeap n k size o;
    same = Perm.trans (take-perm n k t size last) s;
  }

  length-moved : (r n i : ℕ) (m : List (TaskHandle A)) → length (moved r m n i) ≡ length m
  length-moved r n i m =
      if-intro (λ (k : List (TaskHandle A)). length k ≡ length m) (ltb i (sift_down r m n i).1)
        (λ e. length-sift_down r m n i)
        λ e. length-sift_up r (sift_down r m n i).0 i ∙ length-sift_down r m n i

  remove_at-eq :
      (i n : ℕ) (l : List (TaskHandle A))
      → length l ≡ suc n
      → remove_at i l ≡ (if n == i then take n l else take n (moved (length l) (swap l i n) n i))
  unfolding remove_at
  remove_at-eq i n l e = let last : length l - 1 ≡ n = omega arith in rw last (ground arith)

  -- heap.Remove takes out the item at the index, and leaves the others in heap order.
  pub remove_at-Removed :
      (i : ℕ) (l : List (TaskHandle A)) → IsHeap l → i < length l → Removed i l (remove_at i l)
  remove_at-Removed i [] h p = absurd (omega arith)
  remove_at-Removed i (x ∷ l) h p =
      let n = length l in
      let whole = x ∷ l in
      let t = get_or whole i x in
      let here = get_elem?-eq-get_or whole i x p in
      rw (remove_at-eq i n whole refl) (
        if-intro (Removed i whole) (n == i)
          (λ e.
            let at_end : i ≡ n = ground arith in
            let last = subst (λ j. get_elem? whole j ≡ some t) at_end here in
            cut-Removed i n whole whole t refl here last
              (λ c q r. IsHeap→Ordered whole h c q (omega arith)) Perm.rfl)
          λ e.
            let inside : i < n = ground arith in
            let (o, s, kept) = moved-Sifted n whole i refl h inside in
            let there = get_elem?-swap whole i n p (omega arith) in
            cut-Removed i n whole (moved (length whole) (swap whole i n) n i) t
              (length-moved (length whole) n i (swap whole i n) ∙ length-swap whole i n) here
              (kept n (omega arith) ∙ there n ∙ ground (arith, here)) o
              (Perm.trans s (swap-perm whole i n p (omega arith))))

  find_id-cases :
      (id i : ℕ) (l : List (TaskHandle A))
      → ((find_id id i l ≡ none) × ((u : TaskHandle A) → Mem u l → u.id ≢ id))
        ⊎ ((j : ℕ) × (t : TaskHandle A) × (find_id id i l ≡ some (i + j))
            × (get_elem? l j ≡ some t)
            × (t.id ≡ id))
  find_id-cases id i [] = inl (refl, λ u m. absurd (not-mem-nil m))
  find_id-cases id i (t ∷ ts) = elim (ℕ_discrete t.id id) [
    | yes e ↦ inr (0, t, ground arith, refl, e)
    | no ne ↦ elim (find_id-cases id (i + 1) ts) [
      | inl (e, f) ↦ inl (ground (arith, e), forall_others ne f)
      | inr (j, u, e, g, s) ↦ inr (suc j, u, ground (arith, e), g, s)
    ]
  ]
    where
      forall_others :
          t.id ≢ id
          → ((u : TaskHandle A) → Mem u ts → u.id ≢ id)
          → (u : TaskHandle A) → Mem u (t ∷ ts)
          → u.id ≢ id
      forall_others ne f = (forall_mem-cons λ u. hlevel).1 (ne, f)

  abbrev pub RemovesId : ℕ → List (TaskHandle A) → Bool × List (TaskHandle A) → Type 0
  RemovesId id l r =
      ((r ≡ (false, l)) × ((u : TaskHandle A) → Mem u l → u.id ≢ id))
      ⊎ ((i : ℕ) × (k : List (TaskHandle A)) × (w : Removed i l k) × (r ≡ (true, k))
          × (w.item.id ≡ id))

  in_range :
      (l : List (TaskHandle A)) (i : ℕ) {t : TaskHandle A} → get_elem? l i ≡ some t → i < length l
  in_range [] i e = absurd (none-ne-some _ e)
  in_range (x ∷ l) zero e = omega arith
  in_range (x ∷ l) (suc i) e = omega (arith, in_range l i e)

  -- Remove on a queue in heap order: no task has the identity, and the answer is false and the queue unchanged; or a task
  -- that has it is taken out, the others are left in heap order, and the answer is true.
  pub remove_id-RemovesId :
      (id : ℕ) (l : List (TaskHandle A)) → IsHeap l → RemovesId id l (remove_id id l)
  unfolding remove_id
  remove_id-RemovesId id l h = elim (find_id-cases id 0 l) [
    | inl (e, f) ↦ inl (rw (e, remove_id) refl, f)
    | inr (j, t, e, g, s) ↦
        let w = remove_at-Removed j l h (in_range l j g) in
        let first : 0 + j ≡ j = omega arith in
        inr (
          j,
          remove_at j l,
          w,
          rw (e, first, remove_id) refl,
          ap (λ u. u.id) (some-injective w.item t (sym w.found ∙ g)) ∙ s,
        )
  ]
