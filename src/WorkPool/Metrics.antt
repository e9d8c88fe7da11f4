-- ===== src/WorkPool/Metrics.antt =====
-- workpool/metrics.go: Metrics. The counters of type uint64 are their 64 bits. Times are numbers of nanoseconds; a sum of them
-- would wrap at 2 ^ 63. A rate, which the source computes in floating point, is the quotient that it stands for.
use fyer_kit.Prelude.{
  ℕ, ◌+◌, ◌-◌, ◌/◌, ◌%◌, Bool, true, false, ◌&&◌, List, [], ◌∷◌, ltb, ◌==◌, if◌then◌else◌,
}
use fyer_kit.Prelude.Word.{u64_mod, add_one_u64, ℤ, pos, geb}

pub record Metrics : Type 0 where
  pub total_tasks : ℕ
  pub completed_tasks : ℕ
  pub failed_tasks : ℕ
  pub canceled_tasks : ℕ
  pub queued_tasks : ℕ
  pub avg_wait_time : ℕ
  pub avg_process_time : ℕ
  pub active_workers : ℤ
  pub idle_workers : ℤ
  pub total_workers : ℤ
  pub peak_workers : ℤ
  pub total_wait_time : ℕ
  pub total_process_time : ℕ

unfoldable pub new_metrics : Metrics
new_metrics = record {
  total_tasks = 0;
  completed_tasks = 0;
  failed_tasks = 0;
  canceled_tasks = 0;
  queued_tasks = 0;
  avg_wait_time = 0;
  avg_process_time = 0;
  active_workers = pos 0;
  idle_workers = pos 0;
  total_workers = pos 0;
  peak_workers = pos 0;
  total_wait_time = 0;
  total_process_time = 0;
}

unfoldable pub reset : Metrics → Metrics
reset m = record m {
  total_tasks = 0;
  completed_tasks = 0;
  failed_tasks = 0;
  canceled_tasks = 0;
  queued_tasks = 0;
  active_workers = pos 0;
  idle_workers = pos 0;
  total_workers = pos 0;
  peak_workers = pos 0;
  total_wait_time = 0;
  total_process_time = 0;
  avg_wait_time = 0;
  avg_process_time = 0;
}

unfoldable pub task_submitted : Metrics → Metrics
task_submitted m = record m {
  total_tasks = add_one_u64 m.total_tasks;
  queued_tasks = add_one_u64 m.queued_tasks;
}

-- atomic.AddUint64(&n, ^uint64(0))
abbrev pub take_one_u64 : ℕ → ℕ
take_one_u64 n = (n + (u64_mod - 1)) % u64_mod

unfoldable pub finished_total : Metrics → ℕ
finished_total m = (m.completed_tasks + m.failed_tasks + m.canceled_tasks) % u64_mod

unfoldable pub task_started : ℕ → Metrics → Metrics
unfolding finished_total
task_started wait m =
    let total_wait = m.total_wait_time + wait in
    record m {
      queued_tasks = take_one_u64 m.queued_tasks;
      total_wait_time = total_wait;
      avg_wait_time =
          if ltb 0 (finished_total m) then total_wait / (finished_total m + 1) else m.avg_wait_time;
    }

abbrev pub count_result : Bool → Metrics → Metrics
count_result true m = record m { completed_tasks = add_one_u64 m.completed_tasks }
count_result false m = record m { failed_tasks = add_one_u64 m.failed_tasks }

unfoldable pub task_completed : ℕ → Bool → Metrics → Metrics
task_completed time success m =
    let n = count_result success m in
    let total_time = m.total_process_time + time in
    let processed = (n.completed_tasks + n.failed_tasks) % u64_mod in
    record n {
      total_process_time = total_time;
      avg_process_time = if ltb 0 processed then total_time / processed else m.avg_process_time;
    }

unfoldable pub task_canceled : Metrics → Metrics
task_canceled m = record m {
  canceled_tasks = add_one_u64 m.canceled_tasks;
  queued_tasks = take_one_u64 m.queued_tasks;
}

-- The loop that raises PeakWorkers. Each round but the last meets a value that others have stored between its load and its
-- swap, so that the swap is done only if that is the value loaded.
unfoldable pub raise_peak : List ℤ → ℤ → ℤ → ℤ
raise_peak [] total current = if geb current total then current else total
raise_peak (stored ∷ rounds) total current =
    let later = raise_peak rounds total stored in
    if geb current total
    then stored
    else if geb current stored && geb stored current
    then total
    else later

unfoldable pub worker_status_changed : List ℤ → ℤ → ℤ → ℤ → Metrics → Metrics
unfolding raise_peak
worker_status_changed rounds active idle total m = record m {
  active_workers = active;
  idle_workers = idle;
  total_workers = total;
  peak_workers = raise_peak rounds total m.peak_workers;
}

-- The copy that Snapshot returns has no sums.
unfoldable pub snapshot : Metrics → Metrics
snapshot m = record m { total_wait_time = 0; total_process_time = 0 }

pub data Rate : Type 0 where
  none_of all_of : Rate
  quotient : ℤ → ℤ → Rate

abbrev pub is_zero_int : ℤ → Bool
is_zero_int n = geb n (pos 0) && geb (pos 0) n

unfoldable pub worker_utilization : Metrics → Rate
worker_utilization m =
    if is_zero_int m.total_workers then none_of else quotient m.active_workers m.total_workers

unfoldable pub queue_utilization : ℕ → Metrics → Rate
queue_utilization capacity m =
    if capacity == 0
    then none_of
    else if ltb capacity m.queued_tasks
    then all_of
    else quotient (pos m.queued_tasks) (pos capacity)

unfoldable pub task_success_rate : Metrics → Rate
task_success_rate m =
    let total = (m.completed_tasks + m.failed_tasks) % u64_mod in
    if total == 0 then all_of else quotient (pos m.completed_tasks) (pos total)
