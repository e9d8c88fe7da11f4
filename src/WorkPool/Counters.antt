-- ===== src/WorkPool/Counters.antt =====
-- workpool/workpool.go: the counters of the pool against its goroutines and tasks.
use fyer_kit.Prelude.{
  ℕ, zero, suc, ◌+◌, ◌-◌, ◌%◌, ◌^◌, ◌≤◌, ◌<◌, ◌≡◌, ap, ◌∙◌, ◌⊎◌, List, [], ◌∷◌, ◌++◌, some, arith,
  length, get_elem?, set, take, drop, length-append,
}
use fyer_kit.WorkPool.Workers.{
  Worker, looking, executing, WorkPool, add_worker, add_workers, adjust_workers,
}

module _ {A : Type 0} where
  abbrev pub bit : Worker A → ℕ
  bit looking = 0
  bit (executing t) = 1

  -- How many workers have a task.
  abbrev pub busy : List (Worker A) → ℕ
  busy [] = 0
  busy (w ∷ ws) = bit w + busy ws

  busy-append : (l k : List (Worker A)) → busy (l ++ k) ≡ busy l + busy k
  busy-append [] k = omega arith
  busy-append (w ∷ l) k = omega (arith, busy-append l k)

  pub busy-set :
      (l : List (Worker A)) (i : ℕ) (w u : Worker A)
      → get_elem? l i ≡ some w
      → busy (set l i u) + bit w ≡ busy l + bit u
  busy-set [] i w u e = ground (arith, e)
  busy-set (x ∷ l) zero w u e = ground (arith, e)
  busy-set (x ∷ l) (suc i) w u e = omega (arith, busy-set l i w u e)

  -- Without the worker at an index.
  pub removed :
      (l : List (Worker A)) (i : ℕ) (w : Worker A)
      → get_elem? l i ≡ some w
      → (length (take i l ++ drop (suc i) l) + 1 ≡ length l)
        × (busy (take i l ++ drop (suc i) l) + bit w ≡ busy l)
  removed [] i w e = ground (arith, e)
  removed (x ∷ l) zero w e = ground (arith, e)
  removed (x ∷ l) (suc i) w e = let (n, b) = removed l i w e in (omega (arith, n), omega (arith, b))

  -- The worker count is the number of goroutines, and no more than maxWorkers; the active and idle counts add up to
  -- it; and TotalTasks is the number of tasks that wait, are run, or were finished, modulo 2 ^ 64.
  pub record Sound (p : WorkPool A) : Type 0 where
    pub live : p.worker_count.ups ≡ p.worker_count.downs + length p.workers
    pub sum :
        p.active.ups + p.idle.ups + p.worker_count.downs
        ≡ p.worker_count.ups + p.active.downs + p.idle.downs
    pub limit : p.worker_count.ups ≤ p.worker_count.downs + p.config.max_workers
    pub first : p.config.initial_workers ≤ p.config.max_workers
    pub least : p.config.min_workers ≤ p.config.max_workers
    pub kept : p.total_tasks ≡ (length p.queue + busy p.workers + length p.finished) % 2 ^ 64

  pub add_worker-Sound :
      (p : WorkPool A)
      → Sound p
      → p.worker_count.ups < p.worker_count.downs + p.config.max_workers
      → Sound (add_worker p)
  unfolding add_worker
  add_worker-Sound p s h = record {
    live = omega (arith, s.live, length-append p.workers (looking ∷ []));
    sum = omega (arith, s.sum);
    limit = omega (arith, h);
    first = s.first;
    least = s.least;
    kept =
        s.kept
        ∙ ap (λ n. (length p.queue + n + length p.finished) % 2 ^ 64)
            (omega (arith, busy-append p.workers (looking ∷ [])));
  }

  add_workers-Sound :
      (n : ℕ) (p : WorkPool A)
      → Sound p
      → (n ≡ 0) ⊎ (p.worker_count.ups + n ≤ p.worker_count.downs + p.config.max_workers)
      → Sound (add_workers n p)
  unfolding add_workers
  add_workers-Sound zero p s h = s
  add_workers-Sound (suc n) p s h =
      add_workers-Sound n (add_worker p) (add_worker-Sound p s (ground (arith, h)))
        (unfold add_worker in ground (arith, h))

  pub adjust_workers-Sound :
      (target : ℕ) (p : WorkPool A)
      → Sound p
      → target ≤ p.config.max_workers
      → Sound (adjust_workers target p)
  unfolding adjust_workers
  adjust_workers-Sound target p s h =
      add_workers-Sound (target + p.worker_count.downs - p.worker_count.ups) p s (ground (arith, h))
