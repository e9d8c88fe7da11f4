-- ===== src/WorkPool/Tests.antt =====
-- workpool/: the theorems at concrete tasks and pools.
use mathlib.Core.List.{Perm}
use fyer_kit.Prelude.{
  ℕ, ◌≤◌, ◌≡◌, refl, true, false, List, [], ◌∷◌, Option, none, some, arith, length, get_elem?,
}
use fyer_kit.Prelude.Word.{pos, negsuc}
use fyer_kit.WorkPool.Config.{
  WorkPoolConfig, with_initial_workers, with_max_workers, with_min_workers, apply_options,
  default_config, corrected, raise_initial, raise_max,
}
use fyer_kit.WorkPool.Task.{
  TaskHandle, TaskConfig, context_canceled, with_priority, with_timeout, new_task_handle,
  apply_task_options,
}
use fyer_kit.WorkPool.Life.{TaskCall, cancels, runs, completes, any_ends, after_calls, done_once}
use fyer_kit.WorkPool.TaskQueue
use fyer_kit.WorkPool.TaskQueue.{length-enqueue}
use fyer_kit.WorkPool.Workers.{
  WorkPool, new_work_pool, looking, executing, take_task, begin_task, start, adjust_workers,
  add_workers, add_worker, submit, accept, grow_for, try_add_worker, below_max,
  with_default_timeout, shutting_down,
}
use fyer_kit.WorkPool.Run.{
  Action, starts, submits, scales, takes, finishes, exits, begins_shutdown, closes_stop,
  ends_shutdown, act, act_all,
}
use fyer_kit.WorkPool.TaskQueue.Serve.{IsHeap, Served, enqueue-IsHeap}
use fyer_kit.WorkPool.TaskQueue.Removal.{RemovesId, remove_id-RemovesId}
use fyer_kit.WorkPool.Metrics.{new_metrics}
use fyer_kit.WorkPool.Measured.{run_measured, Agrees, run_measured-Agrees}
use fyer_kit.WorkPool.Urgent.{take_task-Served}

abbrev urgent : List (TaskConfig → TaskConfig)
urgent = with_priority (pos 10) ∷ with_timeout (pos 7) ∷ []

abbrev task_calls : List (TaskCall ℕ)
task_calls = runs ∷ cancels ∷ cancels ∷ completes (some 3) none ∷ cancels ∷ []

done_once_example :
    let h : TaskHandle ℕ = after_calls (new_task_handle 1 urgent) task_calls in
    (h.closes ≤ 1) × (h.done_closed ≡ any_ends task_calls)
done_once_example = done_once 1 urgent task_calls

-- Two workers, of at most three; one takes the second task, which is urgent, and the pool is shut down.
abbrev actions : List (Action ℕ)
actions =
    starts
    ∷ submits 1 []
    ∷ submits 2 urgent
    ∷ takes 0
    ∷ scales true false
    ∷ takes 1
    ∷ begins_shutdown
    ∷ submits 3 []
    ∷ finishes 1 (some 4) none
    ∷ closes_stop
    ∷ exits 1
    ∷ finishes 0 none (some context_canceled)
    ∷ exits 0
    ∷ ends_shutdown
    ∷ []

abbrev options : List (WorkPoolConfig → WorkPoolConfig)
options = with_initial_workers (pos 2) ∷ with_max_workers (pos 3) ∷ with_min_workers (negsuc 0) ∷ []

abbrev leaving : WorkPool ℕ
leaving = record (new_work_pool options) {
  stop_closed = true;
  status = shutting_down;
  workers = executing (new_task_handle 1 urgent) ∷ looking ∷ [];
  worker_count = record { ups = 2; downs = 0 };
  active = record { ups = 1; downs = 0 };
  idle = record { ups = 2; downs = 1 };
}

-- The more urgent of the tasks comes first.
urgent_first :
    ◌≡◌ {A = Option ℕ}
      (elim (TaskQueue.dequeue (
        TaskQueue.enqueue
          (new_task_handle {A = ℕ} 2 urgent)
          (TaskQueue.enqueue (new_task_handle 1 []) []))) [ none ↦ none | some r ↦ some (r.0).id ])
      (some 2)
unfolding TaskQueue.dequeue TaskQueue.enqueue TaskQueue.sift_up TaskQueue.sift_down TaskQueue.less
    TaskQueue.swap TaskQueue.pop_last TaskQueue.first_child new_task_handle apply_task_options
    with_priority with_timeout
urgent_first = refl

abbrev waiting : List (TaskHandle ℕ)
waiting = TaskQueue.enqueue (new_task_handle 2 urgent) (TaskQueue.enqueue (new_task_handle 1 []) [])

waiting-IsHeap : IsHeap waiting
waiting-IsHeap = (enqueue-IsHeap (new_task_handle 2 urgent) _ one.0).0
  where
    one :
        IsHeap (TaskQueue.enqueue (new_task_handle {A = ℕ} 1 []) [])
        × Perm (TaskQueue.enqueue (new_task_handle {A = ℕ} 1 []) []) (new_task_handle 1 [] ∷ [])
    one = enqueue-IsHeap (new_task_handle 1 []) [] λ c p q. absurd (omega arith)

remove_id-RemovesId_example : RemovesId 1 waiting (TaskQueue.remove_id 1 waiting)
remove_id-RemovesId_example = remove_id-RemovesId 1 waiting waiting-IsHeap

-- Two tasks wait for the one worker.
abbrev early : List (Action ℕ)
early = starts ∷ submits 1 [] ∷ submits 2 urgent ∷ []

abbrev early_pool : WorkPool ℕ
early_pool = act_all (new_work_pool (with_initial_workers (pos 1) ∷ [])) early

early_state :
    (get_elem? early_pool.workers 0 ≡ some looking)
    × (early_pool.stop_closed ≡ false)
    × (early_pool.cancelled ≡ false)
    × (length early_pool.queue ≡ 2)
unfolding act_all act start adjust_workers add_workers add_worker submit accept grow_for
    try_add_worker below_max with_default_timeout new_work_pool apply_options with_initial_workers
    default_config corrected raise_initial raise_max new_task_handle apply_task_options
    with_priority with_timeout TaskQueue.enqueue TaskQueue.sift_up TaskQueue.less TaskQueue.swap
early_state = (refl, refl, refl, refl)

take_task-Served_example :
    (t : TaskHandle ℕ) × (rest : List (TaskHandle ℕ)) × (take_task 0 early_pool
      ≡ begin_task 0 t rest early_pool)
    × Served early_pool.queue t rest
take_task-Served_example =
    take_task-Served (with_initial_workers (pos 1) ∷ []) early 0 early_state.0 early_state.1
      early_state.2 (omega (arith, early_state.3))

-- One task is done, one fails, and one waits.
abbrev measured : List (ℕ × Action ℕ)
measured =
    (0, starts)
    ∷ (0, submits 1 [])
    ∷ (0, submits 2 urgent)
    ∷ (1, takes 0)
    ∷ (0, submits 3 [])
    ∷ (20, finishes 0 (some 4) none)
    ∷ (2, takes 0)
    ∷ (30, finishes 0 none (some context_canceled))
    ∷ []

run_measured-Agrees_example :
    let (p, m) =
      run_measured measured (new_work_pool (with_initial_workers (pos 1) ∷ []), new_metrics) in
    Agrees p m
run_measured-Agrees_example = run_measured-Agrees (with_initial_workers (pos 1) ∷ []) measured
