-- ===== src/WorkPool/Workers.antt =====
-- workpool/workpool.go: WorkPool. Its goroutines are a list, each at the top of its loop or with a task. Left out are the log, the
-- metrics but for TotalTasks, and the ticks of the clock.
use fyer_kit.Prelude.{
  ℕ, zero, suc, ◌+◌, ◌-◌, ◌/◌, Bool, true, false, not, ◌&&◌, ◌||◌, List, [], ◌∷◌, ◌++◌, Option,
  none, some, ltb, ◌==◌, if◌then◌else◌, length, get_elem?, set, take, drop, min,
}
use fyer_kit.Prelude.Word.{add_one_u64, ℤ, pos, negsuc, to_i32}
use fyer_kit.Pool.Types.{Count, zero_count, up, down}
use fyer_kit.WorkPool.Config.{WorkPoolConfig, default_config, apply_options, corrected}
use fyer_kit.WorkPool.Task.{
  TaskError, TaskConfig, TaskHandle, new_task_handle, with_timeout, timeout_of, set_running,
  set_completed,
}
use fyer_kit.WorkPool.TaskQueue

pub data WorkPoolStatus : Type 0 where
  idle_pool running_pool shutting_down stopped : WorkPoolStatus

abbrev pub is_running : WorkPoolStatus → Bool
is_running running_pool = true
is_running idle_pool = false
is_running shutting_down = false
is_running stopped = false

abbrev pub is_some : Option ℕ → Bool
is_some none = false
is_some (some n) = true

-- Whether an option, on an empty configuration, sets a timeout.
abbrev pub any_timeout : List (TaskConfig → TaskConfig) → Bool
any_timeout [] = false
any_timeout (option ∷ options) =
    is_some (timeout_of (option (record { priority = pos 0; timeout = pos 0 })).timeout)
    || any_timeout options

unfoldable pub with_default_timeout :
    ℕ → List (TaskConfig → TaskConfig) → List (TaskConfig → TaskConfig)
with_default_timeout t options =
    if ltb 0 t && not (any_timeout options) then options ++ with_timeout (pos t) ∷ [] else options

abbrev pub at_least_one : ℕ → ℕ
at_least_one zero = 1
at_least_one (suc n) = suc n

-- The tests `count < n` and `count > n`.
abbrev pub count_below : Count → ℤ → Bool
count_below c (pos n) = ltb c.ups (n + c.downs)
count_below c (negsuc n) = ltb (c.ups + n + 1) c.downs

abbrev pub count_above : Count → ℤ → Bool
count_above c (pos n) = ltb (n + c.downs) c.ups
count_above c (negsuc n) = ltb c.downs (c.ups + n + 1)

pub data Worker (A : Type 0) : Type 0 where
  looking : Worker A
  executing : TaskHandle A → Worker A

-- `finished` are the tasks that workers have ended, newest first. `cancelled` says that the pool's context is done.
pub record WorkPool (A : Type 0) : Type 0 where
  pub config : WorkPoolConfig
  pub queue : List (TaskHandle A)
  pub status : WorkPoolStatus
  pub stop_closed : Bool
  pub cancelled : Bool
  pub active : Count
  pub idle : Count
  pub worker_count : Count
  pub workers : List (Worker A)
  pub total_tasks : ℕ
  pub finished : List (TaskHandle A)

module _ {A : Type 0} where
  unfoldable pub new_work_pool : List (WorkPoolConfig → WorkPoolConfig) → WorkPool A
  new_work_pool options = record {
    config = corrected (apply_options options default_config);
    queue = [];
    status = idle_pool;
    stop_closed = false;
    cancelled = false;
    active = zero_count;
    idle = zero_count;
    worker_count = zero_count;
    workers = [];
    total_tasks = 0;
    finished = [];
  }

  unfoldable pub add_worker : WorkPool A → WorkPool A
  add_worker p = record p {
    worker_count = up p.worker_count;
    idle = up p.idle;
    workers = p.workers ++ looking ∷ [];
  }

  -- The loop of adjustWorkers, with the rounds left.
  unfoldable pub add_workers : ℕ → WorkPool A → WorkPool A
  add_workers zero p = p
  add_workers (suc n) p = add_workers n (add_worker p)

  unfoldable pub adjust_workers : ℕ → WorkPool A → WorkPool A
  adjust_workers target p = add_workers (target + p.worker_count.downs - p.worker_count.ups) p

  -- `wp.workerCount < int32(wp.config.maxWorkers)`
  unfoldable pub below_max : WorkPool A → Bool
  below_max p = count_below p.worker_count (to_i32 p.config.max_workers)

  -- `currentWorkers > int32(wp.config.minWorkers)`
  unfoldable pub above_min : WorkPool A → Bool
  above_min p = count_above p.worker_count (to_i32 p.config.min_workers)

  unfoldable pub try_add_worker : WorkPool A → WorkPool A
  try_add_worker p = if below_max p then add_worker p else p

  abbrev pub start_idle : WorkPool A → WorkPool A
  start_idle p =
      adjust_workers p.config.initial_workers
        (record p { status = running_pool; stop_closed = false })

  abbrev pub start_from : WorkPoolStatus → WorkPool A → Bool × WorkPool A
  start_from running_pool p = (false, p)
  start_from shutting_down p = (false, p)
  start_from idle_pool p = (true, start_idle p)
  start_from stopped p = (true, start_idle p)

  -- Whether it starts.
  unfoldable pub start : WorkPool A → Bool × WorkPool A
  start p = start_from p.status p

  -- Submit makes the handle with an identity from package uuid, and adds a worker if more tasks wait than workers idle.
  unfoldable pub accept : ℕ → List (TaskConfig → TaskConfig) → WorkPool A → WorkPool A
  accept id options p =
      let h = new_task_handle id (with_default_timeout p.config.default_task_timeout options) in
      record p { queue = TaskQueue.enqueue h p.queue; total_tasks = add_one_u64 p.total_tasks }

  unfoldable pub grow_for : WorkPool A → WorkPool A
  grow_for p =
      let q = try_add_worker p in
      if below_max p && ltb p.idle.ups (length p.queue + p.idle.downs) then q else p

  unfoldable pub submit : ℕ → List (TaskConfig → TaskConfig) → WorkPool A → Bool × WorkPool A
  submit id options p =
      let q = grow_for (accept id options p) in
      if is_running p.status then (true, q) else (false, p)

  -- `busy` and `slack` are the two comparisons of floating-point numbers: the load of the queue, and the share of
  -- idle workers.
  unfoldable pub adjust_workers_based_on_load : Bool → Bool → WorkPool A → WorkPool A
  adjust_workers_based_on_load busy slack p =
      let current = p.worker_count.ups - p.worker_count.downs in
      let more =
        adjust_workers (min (current + at_least_one (current / 4)) p.config.max_workers) p in
      let lower = current - at_least_one (current / 4) in
      let fewer =
        adjust_workers (if ltb lower p.config.min_workers then p.config.min_workers else lower) p in
      if busy && below_max p
      then more
      else if slack && (above_min p && length p.queue == 0)
      then fewer
      else p

  -- The counts of a worker whose turn begins, and of one whose turn ends.
  unfoldable pub begin_task : ℕ → TaskHandle A → List (TaskHandle A) → WorkPool A → WorkPool A
  begin_task i t rest p = record p {
    queue = rest;
    idle = down p.idle;
    active = up p.active;
    workers = set p.workers i (executing (set_running t));
  }

  unfoldable pub take_from :
      Option (TaskHandle A × List (TaskHandle A)) → ℕ → WorkPool A → WorkPool A
  take_from none i p = p
  take_from (some (t, rest)) i p = begin_task i t rest p

  abbrev pub take_by : Option (Worker A) → ℕ → WorkPool A → WorkPool A
  take_by none i p = p
  take_by (some looking) i p =
      let taken = take_from (TaskQueue.dequeue p.queue) i p in
      if p.stop_closed || p.cancelled then p else taken
  take_by (some (executing t)) i p = p

  -- A round of runWorker up to Execute, for a worker at the top of its loop.
  unfoldable pub take_task : ℕ → WorkPool A → WorkPool A
  take_task i p = take_by (get_elem? p.workers i) i p

  unfoldable pub end_task : ℕ → TaskHandle A → Option A → Option TaskError → WorkPool A → WorkPool A
  end_task i t v e p = record p {
    active = down p.active;
    idle = up p.idle;
    workers = set p.workers i looking;
    finished = set_completed v e t ∷ p.finished;
  }

  abbrev pub finish_by :
      Option (Worker A) → ℕ → Option A → Option TaskError → WorkPool A → WorkPool A
  finish_by none i v e p = p
  finish_by (some looking) i v e p = p
  finish_by (some (executing t)) i v e p = end_task i t v e p

  -- The rest of the round, with what Execute returns.
  unfoldable pub finish_task : ℕ → Option A → Option TaskError → WorkPool A → WorkPool A
  finish_task i v e p = finish_by (get_elem? p.workers i) i v e p

  -- The deferred function of runWorker: it takes one off the active count, if that is not 0.
  unfoldable pub leave : WorkPool A → WorkPool A
  leave p =
      let q : WorkPool A = record p { worker_count = down p.worker_count } in
      if ltb p.active.downs p.active.ups
      then record q { active = down p.active }
      else if ltb p.idle.downs p.idle.ups
      then record q { idle = down p.idle }
      else q

  abbrev pub exit_by : Option (Worker A) → ℕ → WorkPool A → WorkPool A
  exit_by none i p = p
  exit_by (some looking) i p =
      let left = leave (record p { workers = take i p.workers ++ drop (suc i) p.workers }) in
      if p.stop_closed || p.cancelled then left else p
  exit_by (some (executing t)) i p = p

  -- A worker at the top of its loop, or one that sleeps there, sees that it should stop.
  unfoldable pub exit_worker : ℕ → WorkPool A → WorkPool A
  exit_worker i p = exit_by (get_elem? p.workers i) i p
