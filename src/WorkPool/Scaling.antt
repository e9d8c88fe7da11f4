-- ===== src/WorkPool/Scaling.antt =====
-- workpool/workpool.go: what scaling does not do, and what the end of a worker does to the counts.
use fyer_kit.Prelude.{
  ℕ, suc, ◌+◌, ◌-◌, ◌/◌, ◌≤◌, ◌<◌, ◌≡◌, refl, ap, ◌∙◌, Bool, true, false, ◌&&◌, ◌++◌, ◌^◌, some,
  arith, if-intro, ltb, ◌==◌, if◌then◌else◌, length, get_elem?, take, drop,
}
use fyer_kit.Prelude.Word.{to_i32_small}
use fyer_kit.Pool.Types.{down}
use fyer_kit.WorkPool.Workers.{
  looking, WorkPool, above_min, count_above, add_workers, adjust_workers, at_least_one,
  adjust_workers_based_on_load, leave, exit_by, exit_worker,
}
use fyer_kit.WorkPool.Counters.{busy, removed}

module _ {A : Type 0} where
  adjust_down :
      (target : ℕ) (p : WorkPool A)
      → target + p.worker_count.downs ≤ p.worker_count.ups
      → adjust_workers target p ≡ p
  unfolding adjust_workers
  adjust_down target p h =
      ap (λ n. add_workers n p) {y = 0} (omega arith) ∙ unfold add_workers in refl

  above_small :
      (p : WorkPool A)
      → p.config.min_workers < 2 ^ 31
      → above_min p ≡ ltb (p.config.min_workers + p.worker_count.downs) p.worker_count.ups
  unfolding above_min
  above_small p h = ap (count_above p.worker_count) (to_i32_small p.config.min_workers h)

  -- Where the queue is not loaded and minWorkers is an int32, scaling leaves the pool as it is, whatever share of its
  -- workers is idle.
  pub scale_down_nothing :
      (slack : Bool) (p : WorkPool A)
      → p.config.min_workers < 2 ^ 31
      → adjust_workers_based_on_load false slack p ≡ p
  unfolding adjust_workers_based_on_load
  scale_down_nothing slack p small =
      let current = p.worker_count.ups - p.worker_count.downs in
      let lower = current - at_least_one (current / 4) in
      if-intro (λ q. q ≡ p) (slack && (above_min p && length p.queue == 0))
        (λ h.
          adjust_down (if ltb lower p.config.min_workers then p.config.min_workers else lower) p
            (ground (arith, h, above_small p small)))
        λ _. refl

  exit_at :
      (i : ℕ) (p : WorkPool A)
      → get_elem? p.workers i ≡ some looking
      → p.stop_closed ≡ true
      → p.active.downs < p.active.ups
      → exit_worker i p ≡ record p {
        worker_count = down p.worker_count;
        active = down p.active;
        workers = take i p.workers ++ drop (suc i) p.workers;
      }
  unfolding exit_worker leave
  exit_at i p e stop some_active =
      ap (λ o. exit_by o i p) e
      ∙ (let f : ltb p.active.downs p.active.ups ≡ true = ground arith in simp (stop, f))

  -- Where the active count is the number of workers with a task, there is one, and stopCh is closed, a worker
  -- without a task that leaves takes one off the active count: it is then one too low, and the idle count is as
  -- before.
  pub exit_miscounts :
      (i : ℕ) (p : WorkPool A)
      → get_elem? p.workers i ≡ some looking
      → p.stop_closed ≡ true
      → p.active.ups ≡ p.active.downs + busy p.workers
      → 0 < busy p.workers
      → let q = exit_worker i p in
        (q.active.ups + 1 ≡ q.active.downs + busy q.workers) × (q.idle ≡ p.idle)
  exit_miscounts i p e stop exact some_busy =
      let (n, b) = removed p.workers i looking e in
      rw (exit_at i p e stop (omega arith)) (omega (arith, b), refl)
