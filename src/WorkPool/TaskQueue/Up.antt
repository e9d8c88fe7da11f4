-- ===== src/WorkPool/TaskQueue/Up.antt =====
-- workpool/queue.go: the loop of heap.up, which Enqueue and Remove run.
use mathlib.Core.List.Perm
use fyer_kit.Prelude.{
  ℕ, zero, suc, ◌+◌, ◌≤◌, ◌<◌, ◌≢◌, refl, not, ◌||◌, List, ◌==◌, length, arith, if-intro,
}
use fyer_kit.WorkPool.Task.{TaskHandle}
use fyer_kit.WorkPool.TaskQueue.{less, swap, sift_up, length-swap}
use fyer_kit.WorkPool.TaskQueue.Order.{
  parent, up_at, dn_at, Below, Bridged, Sifted, Sifted-swap, less-eq, up_at-swap, dn_at-swap,
}

module _ {A : Type 0} where
  -- Only the edge above `i` may be out of order.
  pub record UpInv (n : ℕ) (l : List (TaskHandle A)) (i : ℕ) : Type 0 where
    pub inside : i < n
    pub edges : (c : ℕ) → 0 < c → c < n → c ≢ i → Below l c (parent c)
    pub bridged : Bridged n l i

  swap-UpInv :
      (n : ℕ) (l : List (TaskHandle A)) (i : ℕ)
      → n ≤ length l
      → UpInv n l i
      → 0 < i
      → up_at l (parent i) + dn_at l i < up_at l i + dn_at l (parent i)
      → UpInv n (swap l (parent i) i) (parent i)
  swap-UpInv n l i m v p above =
      let hi : i < length l = omega (arith, v.inside) in
      let hp : parent i < length l = omega arith in
      let u = up_at-swap l (parent i) i hp hi in
      let w = dn_at-swap l (parent i) i hp hi in
      record {
        inside = omega (arith, v.inside);
        edges = λ c a b ne.
            ground (arith, u c, u (parent c), w c, w (parent c), v.edges c, v.bridged c);
        bridged = λ c a b e q. ground (
          arith,
          u c,
          u (parent (parent i)),
          w c,
          w (parent (parent i)),
          v.edges c,
          v.edges (parent i),
        );
      }

  pub sift_up-Sifted :
      (r n : ℕ) (l : List (TaskHandle A)) (i : ℕ)
      → i < r
      → n ≤ length l
      → UpInv n l i
      → Sifted n l (sift_up r l i)
  unfolding sift_up
  sift_up-Sifted zero n l i h m v = absurd (omega arith)
  sift_up-Sifted (suc r) n l i h m v =
      let hi : i < length l = omega (arith, v.inside) in
      let hp : parent i < length l = omega arith in
      let test = less-eq l i (parent i) hi hp in
      if-intro (Sifted n l) (parent i == i || not (less l i (parent i)))
        (λ e. (λ c p q. ground (arith, test, v.edges c), Perm.rfl, λ c p. refl))
        λ e.
          let above : (0 < i) × (up_at l (parent i) + dn_at l i < up_at l i + dn_at l (parent i)) =
            ground (arith, test) in
          Sifted-swap n l (parent i) i (omega arith) v.inside m (
            sift_up-Sifted r n (swap l (parent i) i) (parent i) (omega (arith, above.0))
              (omega (arith, length-swap l (parent i) i)) (swap-UpInv n l i m v above.0 above.1))
