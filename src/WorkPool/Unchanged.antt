-- ===== src/WorkPool/Unchanged.antt =====
-- workpool/workpool.go: the actions that leave the tasks where they are.
use fyer_kit.Prelude.{
  ℕ, zero, suc, ◌+◌, ◌-◌, ◌≡◌, refl, Bool, ◌&&◌, ◌||◌, Option, none, some, if-intro, ltb, ◌==◌,
  length,
}
use fyer_kit.WorkPool.Workers.{
  WorkPoolStatus, idle_pool, running_pool, shutting_down, stopped, Worker, looking, executing,
  WorkPool, below_max, above_min, try_add_worker, start_from, grow_for,
  adjust_workers_based_on_load, leave, exit_by, add_worker, add_workers, adjust_workers,
}
use fyer_kit.WorkPool.Run.{begin_from}

module _ {A : Type 0} where
  -- Another pool with the same tasks.
  abbrev pub Same : WorkPool A → WorkPool A → Type 0
  Same p q =
      (length q.queue ≡ length p.queue)
      × (length q.finished ≡ length p.finished)
      × (q.total_tasks ≡ p.total_tasks)

  pub add_workers-Same : (n : ℕ) (p : WorkPool A) → Same p (add_workers n p)
  unfolding add_workers add_worker
  add_workers-Same zero p = (refl, refl, refl)
  add_workers-Same (suc n) p = add_workers-Same n (add_worker p)

  pub adjust-Same : (n : ℕ) (p : WorkPool A) → Same p (adjust_workers n p)
  unfolding adjust_workers
  adjust-Same n p = add_workers-Same (n + p.worker_count.downs - p.worker_count.ups) p

  pub start-Same : (p : WorkPool A) (s : WorkPoolStatus) → Same p (start_from s p).1
  start-Same p running_pool = (refl, refl, refl)
  start-Same p shutting_down = (refl, refl, refl)
  start-Same p idle_pool = adjust-Same p.config.initial_workers _
  start-Same p stopped = adjust-Same p.config.initial_workers _

  pub begin-Same : (p : WorkPool A) (s : WorkPoolStatus) → Same p (begin_from s p)
  begin-Same p stopped = (refl, refl, refl)
  begin-Same p shutting_down = (refl, refl, refl)
  begin-Same p idle_pool = (refl, refl, refl)
  begin-Same p running_pool = (refl, refl, refl)

  pub grow_for-Same : (p : WorkPool A) → Same p (grow_for p)
  unfolding grow_for try_add_worker add_worker
  grow_for-Same p =
      if-intro (Same p) (below_max p && ltb p.idle.ups (length p.queue + p.idle.downs))
        (λ _. if-intro (Same p) (below_max p) (λ _. (refl, refl, refl)) λ _. (refl, refl, refl))
        λ _. (refl, refl, refl)

  pub scale-Same : (p : WorkPool A) (b s : Bool) → Same p (adjust_workers_based_on_load b s p)
  unfolding adjust_workers_based_on_load
  scale-Same p b s =
      if-intro (Same p) (b && below_max p) (λ _. adjust-Same _ p)
        λ _.
          if-intro (Same p) (s && (above_min p && length p.queue == 0)) (λ _. adjust-Same _ p)
            λ _. (refl, refl, refl)

  pub exit-Same : (p : WorkPool A) (i : ℕ) (o : Option (Worker A)) → Same p (exit_by o i p)
  unfolding leave
  exit-Same p i none = (refl, refl, refl)
  exit-Same p i (some (executing t)) = (refl, refl, refl)
  exit-Same p i (some looking) =
      if-intro (Same p) (p.stop_closed || p.cancelled)
        (λ _.
          if-intro (Same p) (ltb p.active.downs p.active.ups) (λ _. (refl, refl, refl))
            λ _.
              if-intro (Same p) (ltb p.idle.downs p.idle.ups) (λ _. (refl, refl, refl))
                λ _. (refl, refl, refl))
        λ _. (refl, refl, refl)
