-- ===== src/WorkPool/Actions.antt =====
-- workpool/workpool.go: every sequence of actions keeps the counters right.
use native.Mathlib.Nat.{mod-add-mod, mod-le}
use fyer_kit.Prelude.{
  ℕ, ◌+◌, ◌-◌, ◌/◌, ◌%◌, ◌^◌, ◌≤◌, ◌<◌, ◌≡◌, refl, sym, ap, ◌∙◌, inl, inr, Bool, true, false, ◌&&◌,
  ◌||◌, List, [], ◌∷◌, Option, none, some, arith, if-intro, ltb, ltb→lt, ◌==◌, if◌then◌else◌,
  length, get_elem?, min, length-set,
}
use fyer_kit.Prelude.Word.{add_one_u64, to_i32}
use fyer_kit.Pool.Types.{Count, down}
use fyer_kit.WorkPool.Config.{
  WorkPoolConfig, raise_initial, raise_max, corrected, apply_options, default_config,
}
use fyer_kit.WorkPool.Task.{TaskError, TaskConfig}
use fyer_kit.WorkPool.TaskQueue.{length-enqueue, dequeue-GivesUp}
use fyer_kit.WorkPool.Workers.{
  WorkPoolStatus, idle_pool, running_pool, shutting_down, stopped, Worker, looking, executing,
  WorkPool, count_below, new_work_pool, below_max, above_min, try_add_worker, start_from, start,
  is_running, accept, grow_for, submit, at_least_one, adjust_workers_based_on_load, begin_task,
  take_from, take_by, take_task, end_task, finish_by, finish_task, leave, exit_by, exit_worker,
}
use fyer_kit.WorkPool.Run.{
  begin_from, begin_shutdown, close_stop, end_shutdown, expire_shutdown, Action, starts, submits,
  scales, takes, finishes, exits, begins_shutdown, closes_stop, ends_shutdown, expires, act,
  act_all,
}
use fyer_kit.WorkPool.Counters.{
  busy, busy-set, removed, Sound, add_worker-Sound, adjust_workers-Sound,
}

corrected_order :
    (c : WorkPoolConfig)
    → ((corrected c).initial_workers ≤ (corrected c).max_workers)
      × ((corrected c).min_workers ≤ (corrected c).max_workers)
unfolding corrected raise_max raise_initial
corrected_order c = ground arith

-- The conversion to int32 never makes maxWorkers more.
below_converted : (c : Count) (n : ℕ) → count_below c (to_i32 n) ≡ true → c.ups < c.downs + n
below_converted c n =
    if-intro (λ z. count_below c z ≡ true → c.ups < c.downs + n) (ltb (n % 2 ^ 32) (2 ^ 31))
      (λ _ h. omega (arith, mod-le n (2 ^ 32), ltb→lt _ _ h)) λ _ h. omega (arith, ltb→lt _ _ h)

module _ {A : Type 0} where
  -- Another status, flag or mark leaves the counts.
  marked-Sound :
      (p : WorkPool A) (s : WorkPoolStatus) (stop done : Bool)
      → Sound p
      → Sound (record p { status = s; stop_closed = stop; cancelled = done })
  marked-Sound p s stop done v = record {
    live = v.live;
    sum = v.sum;
    limit = v.limit;
    first = v.first;
    least = v.least;
    kept = v.kept;
  }

  start-Sound : (p : WorkPool A) (s : WorkPoolStatus) → Sound p → Sound (start_from s p).1
  start-Sound p running_pool v = v
  start-Sound p shutting_down v = v
  start-Sound p idle_pool v =
      adjust_workers-Sound p.config.initial_workers _
        (marked-Sound p running_pool false p.cancelled v) v.first
  start-Sound p stopped v =
      adjust_workers-Sound p.config.initial_workers _
        (marked-Sound p running_pool false p.cancelled v) v.first

  begin-Sound : (p : WorkPool A) (s : WorkPoolStatus) → Sound p → Sound (begin_from s p)
  begin-Sound p stopped v = v
  begin-Sound p shutting_down v = v
  begin-Sound p idle_pool v = marked-Sound p shutting_down p.stop_closed p.cancelled v
  begin-Sound p running_pool v = marked-Sound p shutting_down p.stop_closed p.cancelled v

  accept-Sound :
      (p : WorkPool A) (id : ℕ) (options : List (TaskConfig → TaskConfig))
      → Sound p
      → Sound (accept id options p)
  unfolding accept
  accept-Sound p id options v = record {
    live = v.live;
    sum = v.sum;
    limit = v.limit;
    first = v.first;
    least = v.least;
    kept =
        ap add_one_u64 v.kept
        ∙ mod-add-mod (length p.queue + busy p.workers + length p.finished) (2 ^ 64) 1
        ∙ ap (λ n. n % 2 ^ 64) (omega (arith, length-enqueue _ p.queue));
  }

  grow_for-Sound : (p : WorkPool A) → Sound p → Sound (grow_for p)
  unfolding grow_for try_add_worker below_max
  grow_for-Sound p v =
      if-intro Sound (below_max p && ltb p.idle.ups (length p.queue + p.idle.downs))
        (λ _.
          if-intro Sound (below_max p)
            (λ h. add_worker-Sound p v (below_converted p.worker_count p.config.max_workers h))
            λ _. v)
        λ _. v

  scale-Sound : (p : WorkPool A) (b s : Bool) → Sound p → Sound (adjust_workers_based_on_load b s p)
  unfolding adjust_workers_based_on_load
  scale-Sound p b s v =
      let current = p.worker_count.ups - p.worker_count.downs in
      let lower = current - at_least_one (current / 4) in
      if-intro Sound (b && below_max p)
        (λ _.
          adjust_workers-Sound (min (current + at_least_one (current / 4)) p.config.max_workers) p v
            (omega arith))
        λ _.
          if-intro Sound (s && (above_min p && length p.queue == 0))
            (λ h.
              adjust_workers-Sound
                (if ltb lower p.config.min_workers then p.config.min_workers else lower) p v
                (ground (arith, v.least, v.limit)))
            λ _. v

  take-Sound :
      (p : WorkPool A) (i : ℕ) (o : Option (Worker A))
      → get_elem? p.workers i ≡ o
      → Sound p
      → Sound (take_by o i p)
  take-Sound p i none e v = v
  take-Sound p i (some (executing t)) e v = v
  take-Sound p i (some looking) e v =
      if-intro Sound (p.stop_closed || p.cancelled) (λ _. v)
        λ _. elim (dequeue-GivesUp p.queue) [
          | inl d ↦ rw d (unfold take_from in v)
          | inr (t, rest, d, n) ↦ rw d (
              unfold take_from begin_task in
              record {
                live = v.live ∙ ap (λ n. p.worker_count.downs + n) (sym (length-set p.workers i _));
                sum = omega (arith, v.sum);
                limit = v.limit;
                first = v.first;
                least = v.least;
                kept =
                    v.kept
                    ∙ ap (λ n. n % 2 ^ 64) (omega (arith, n, busy-set p.workers i looking _ e));
              })
        ]

  finish-Sound :
      (p : WorkPool A) (i : ℕ) (x : Option A) (r : Option TaskError) (o : Option (Worker A))
      → get_elem? p.workers i ≡ o
      → Sound p
      → Sound (finish_by o i x r p)
  finish-Sound p i x r none e v = v
  finish-Sound p i x r (some looking) e v = v
  finish-Sound p i x r (some (executing t)) e v =
      unfold end_task in
      record {
        live = v.live ∙ ap (λ n. p.worker_count.downs + n) (sym (length-set p.workers i looking));
        sum = omega (arith, v.sum);
        limit = v.limit;
        first = v.first;
        least = v.least;
        kept =
            v.kept
            ∙ ap (λ n. n % 2 ^ 64) (omega (arith, busy-set p.workers i (executing t) looking e));
      }

  -- The pool with these counts and workers.
  counted-Sound :
      (p : WorkPool A) (a i : Count) (ws : List (Worker A))
      → Sound p
      → length ws + 1 ≡ length p.workers
      → busy ws ≡ busy p.workers
      → a.ups + i.ups + 1 + p.active.downs + p.idle.downs
        ≡ p.active.ups + p.idle.ups + a.downs + i.downs
      → Sound (record p { worker_count = down p.worker_count; active = a; idle = i; workers = ws })
  counted-Sound p a i ws v n b h = record {
    live = omega (arith, v.live, n);
    sum = omega (arith, v.sum, h);
    limit = omega (arith, v.limit);
    first = v.first;
    least = v.least;
    kept = v.kept ∙ ap (λ k. (length p.queue + k + length p.finished) % 2 ^ 64) (sym b);
  }

  leave-Sound :
      (p : WorkPool A) (ws : List (Worker A))
      → Sound p
      → length ws + 1 ≡ length p.workers
      → busy ws ≡ busy p.workers
      → Sound (leave (record p { workers = ws }))
  unfolding leave
  leave-Sound p ws v n b =
      if-intro Sound (ltb p.active.downs p.active.ups)
        (λ _. counted-Sound p (down p.active) p.idle ws v n b (omega arith))
        λ no_active.
          if-intro Sound (ltb p.idle.downs p.idle.ups)
            (λ _. counted-Sound p p.active (down p.idle) ws v n b (omega arith))
            λ no_idle. absurd (ground (arith, no_active, no_idle, v.sum, v.live, n))

  exit-Sound :
      (p : WorkPool A) (i : ℕ) (o : Option (Worker A))
      → get_elem? p.workers i ≡ o
      → Sound p
      → Sound (exit_by o i p)
  exit-Sound p i none e v = v
  exit-Sound p i (some (executing t)) e v = v
  exit-Sound p i (some looking) e v =
      let (n, b) = removed p.workers i looking e in
      if-intro Sound (p.stop_closed || p.cancelled) (λ _. leave-Sound p _ v n (omega (arith, b)))
        λ _. v

  act-Sound : (p : WorkPool A) (a : Action A) → Sound p → Sound (act p a)
  unfolding act
  act-Sound p starts v = unfold start in start-Sound p p.status v
  act-Sound p (submits id options) v =
      unfold submit in
      if-intro (λ (r : Bool × WorkPool A). Sound r.1) (is_running p.status)
        (λ _. grow_for-Sound (accept id options p) (accept-Sound p id options v)) λ _. v
  act-Sound p (scales b s) v = scale-Sound p b s v
  act-Sound p (takes i) v = unfold take_task in take-Sound p i (get_elem? p.workers i) refl v
  act-Sound p (finishes i x r) v =
      unfold finish_task in finish-Sound p i x r (get_elem? p.workers i) refl v
  act-Sound p (exits i) v = unfold exit_worker in exit-Sound p i (get_elem? p.workers i) refl v
  act-Sound p begins_shutdown v = unfold begin_shutdown in begin-Sound p p.status v
  act-Sound p closes_stop v =
      unfold close_stop in
      if-intro Sound (length p.queue == 0) (λ _. marked-Sound p p.status true p.cancelled v) λ _. v
  act-Sound p ends_shutdown v =
      unfold end_shutdown in
      if-intro Sound (length p.workers == 0)
        (λ _. marked-Sound p stopped p.stop_closed p.cancelled v) λ _. v
  act-Sound p expires v = unfold expire_shutdown in marked-Sound p p.status p.stop_closed true v

  acts-Sound : (actions : List (Action A)) (p : WorkPool A) → Sound p → Sound (act_all p actions)
  unfolding act_all
  acts-Sound [] p v = v
  acts-Sound (a ∷ actions) p v = acts-Sound actions (act p a) (act-Sound p a v)

  -- Whatever options a pool is made with, and whatever is then done, in whatever order (Start, Submit, scaling, workers that
  -- take, finish or leave, the parts of Shutdown): WorkerCount is the number of goroutines and no more than
  -- maxWorkers, the active and idle counts add up to it, and TotalTasks is the number of tasks that are queued, with a
  -- worker or finished, modulo 2 ^ 64.
  pub actions-Sound :
      (options : List (WorkPoolConfig → WorkPoolConfig)) (actions : List (Action A))
      → Sound (act_all (new_work_pool {A = A} options) actions)
  unfolding new_work_pool
  actions-Sound options actions = acts-Sound actions (new_work_pool options) (record {
    live = refl;
    sum = refl;
    limit = omega arith;
    first = (corrected_order (apply_options options default_config)).0;
    least = (corrected_order (apply_options options default_config)).1;
    kept = refl;
  })
