-- ===== src/WorkPool/TaskQueue/Down.antt =====
-- workpool/queue.go: the loop of heap.down, which Dequeue and Remove run.
use mathlib.Core.List.Perm
use fyer_kit.Prelude.{
  ℕ, zero, suc, ◌+◌, ◌*◌, ◌≤◌, ◌<◌, ◌≡◌, ◌≢◌, ◌⊎◌, inl, inr, refl, ◌&&◌, List, ltb, leb, length,
  arith, if-intro,
}
use fyer_kit.WorkPool.Task.{TaskHandle}
use fyer_kit.WorkPool.TaskQueue.{less, swap, first_child, sift_down, length-swap}
use fyer_kit.WorkPool.TaskQueue.Order.{
  parent, up_at, dn_at, Below, Bridged, Sifted, Sifted-swap, less-eq, up_at-swap, dn_at-swap,
}

module _ {A : Type 0} where
  -- Only the edges below `i` may be out of order.
  pub record DownInv (n : ℕ) (l : List (TaskHandle A)) (i : ℕ) : Type 0 where
    pub edges : (c : ℕ) → 0 < c → c < n → parent c ≢ i → Below l c (parent c)
    pub bridged : Bridged n l i

  -- `m` is the child of `i` with the higher priority.
  pub record IsFirstChild (n : ℕ) (l : List (TaskHandle A)) (i m : ℕ) : Type 0 where
    pub inside : m < n
    pub child : (m ≡ 2 * i + 1) ⊎ (m ≡ 2 * i + 2)
    pub best : (c : ℕ) → 0 < c → c < n → parent c ≡ i → Below l c m

  pub first_child-IsFirstChild :
      (n : ℕ) (l : List (TaskHandle A)) (i : ℕ)
      → n ≤ length l
      → 2 * i + 1 < n
      → IsFirstChild n l i (first_child l n i)
  unfolding first_child
  first_child-IsFirstChild n l i m h =
      if-intro (IsFirstChild n l i) (ltb (2 * i + 1 + 1) n && less l (2 * i + 1 + 1) (2 * i + 1))
        (λ e.
          let second : 2 * i + 1 + 1 < n = ground arith in
          let test = less-eq l (2 * i + 1 + 1) (2 * i + 1) (omega arith) (omega arith) in
          record {
            inside = second;
            child = inr (omega arith);
            best = λ c p q t. ground (arith, test, sides c i p t);
          })
        λ e. record {
          inside = h;
          child = inl refl;
          best = λ c p q t. elim (sides c i p t) [
            | inl x ↦ rw x (omega arith)
            | inr x ↦
                let test = less-eq l (2 * i + 1 + 1) (2 * i + 1) (omega arith) (omega arith) in
                rw x (ground (arith, test))
          ];
        }
    where
      sides : (c i : ℕ) → 0 < c → parent c ≡ i → (c ≡ 2 * i + 1) ⊎ (c ≡ 2 * i + 1 + 1)
      sides c i p t = omega arith

  swap-DownInv :
      (n : ℕ) (l : List (TaskHandle A)) (i m : ℕ)
      → n ≤ length l
      → DownInv n l i
      → IsFirstChild n l i m
      → up_at l i + dn_at l m < up_at l m + dn_at l i
      → DownInv n (swap l i m) m
  swap-DownInv n l i m b v s above =
      let hm : m < length l = omega (arith, s.inside) in
      let hi : i < length l = omega (arith, s.child) in
      let u = up_at-swap l i m hi hm in
      let w = dn_at-swap l i m hi hm in
      record {
        edges = λ c p q t. ground (
          arith,
          u c,
          u (parent c),
          w c,
          w (parent c),
          v.edges c,
          v.bridged m,
          s.best c,
          s.child,
        );
        bridged =
            λ c p q t r. ground (arith, u c, u (parent m), w c, w (parent m), v.edges c, s.child);
      }

  pub sift_down-Sifted :
      (r n : ℕ) (l : List (TaskHandle A)) (i : ℕ)
      → n < r + i
      → i < length l
      → n ≤ length l
      → DownInv n l i
      → Sifted n l (sift_down r l n i).0
  unfolding sift_down
  sift_down-Sifted zero n l i h k b v =
      (λ c p q. v.edges c p q (omega arith), Perm.rfl, λ c p. refl)
  sift_down-Sifted (suc r) n l i h k b v =
      if-intro (λ (p : List (TaskHandle A) × ℕ). Sifted n l p.0) (leb n (2 * i + 1))
        (λ e. (λ c p q. v.edges c p q (ground arith), Perm.rfl, λ c p. refl))
        λ e.
          let s = first_child-IsFirstChild n l i b (ground arith) in
          let m = first_child l n i in
          let test = less-eq l m i (omega (arith, s.inside)) k in
          if-intro (λ (p : List (TaskHandle A) × ℕ). Sifted n l p.0) (less l m i)
            (λ t. Sifted-swap n l i m (omega (arith, s.inside, s.child)) s.inside b (
              sift_down-Sifted r n (swap l i m) m (omega (arith, s.child))
                (omega (arith, length-swap l i m, s.inside)) (omega (arith, length-swap l i m))
                (swap-DownInv n l i m b v s (ground (arith, test)))))
            λ t. (λ c p q. ground (arith, test, v.edges c, s.best c), Perm.rfl, λ c p. refl)

  -- An item that is above both its children stays.
  pub sift_down_stays :
      (r n : ℕ) (l : List (TaskHandle A)) (i : ℕ)
      → i < length l
      → n ≤ length l
      → ((c : ℕ) → 0 < c → c < n → parent c ≡ i → Below l c i)
      → sift_down r l n i ≡ (l, i)
  unfolding sift_down
  sift_down_stays zero n l i k b v = refl
  sift_down_stays (suc r) n l i k b v =
      if-intro (λ (p : List (TaskHandle A) × ℕ). p ≡ (l, i)) (leb n (2 * i + 1)) (λ e. refl)
        λ e.
          let s = first_child-IsFirstChild n l i b (ground arith) in
          let m = first_child l n i in
          let test = less-eq l m i (omega (arith, s.inside)) k in
          if-intro (λ (p : List (TaskHandle A) × ℕ). p ≡ (l, i)) (less l m i)
            (λ t. absurd (ground (arith, test, v m, s.child, s.inside))) λ t. refl
