-- ===== src/WorkPool/Urgent.antt =====
-- workpool/: the pool's queue stays in heap order through every sequence of actions, so that a worker starts the most
-- urgent task.
use fyer_kit.Prelude.{
  ℕ, zero, suc, ◌+◌, ◌-◌, ◌<◌, ◌≡◌, refl, sym, subst, Bool, false, ◌&&◌, ◌||◌, List, [], ◌∷◌,
  Option, none, some, arith, if-intro, ltb, ◌==◌, length, get_elem?,
}
use fyer_kit.WorkPool.Config.{WorkPoolConfig}
use fyer_kit.WorkPool.Task.{TaskError, TaskConfig, TaskHandle}
use fyer_kit.WorkPool.TaskQueue.{dequeue}
use fyer_kit.WorkPool.TaskQueue.Serve.{IsHeap, Served, enqueue-IsHeap, dequeue-Served}
use fyer_kit.WorkPool.Workers.{
  WorkPoolStatus, idle_pool, running_pool, shutting_down, stopped, Worker, looking, executing,
  WorkPool, new_work_pool, below_max, above_min, try_add_worker, start_from, start, is_running,
  accept, grow_for, submit, adjust_workers_based_on_load, begin_task, take_from, take_by, take_task,
  end_task, finish_by, finish_task, leave, exit_by, exit_worker, add_worker, add_workers,
  adjust_workers,
}
use fyer_kit.WorkPool.Run.{
  begin_from, begin_shutdown, close_stop, end_shutdown, expire_shutdown, Action, starts, submits,
  scales, takes, finishes, exits, begins_shutdown, closes_stop, ends_shutdown, expires, act,
  act_all,
}

module _ {A : Type 0} where
  abbrev Urgent : WorkPool A → Type 0
  Urgent p = IsHeap p.queue

  add_workers-Urgent : (n : ℕ) (p : WorkPool A) → Urgent p → Urgent (add_workers n p)
  unfolding add_workers add_worker
  add_workers-Urgent zero p h = h
  add_workers-Urgent (suc n) p h = add_workers-Urgent n (add_worker p) h

  adjust-Urgent : (n : ℕ) (p : WorkPool A) → Urgent p → Urgent (adjust_workers n p)
  unfolding adjust_workers
  adjust-Urgent n p h = add_workers-Urgent (n + p.worker_count.downs - p.worker_count.ups) p h

  start-Urgent : (p : WorkPool A) (s : WorkPoolStatus) → Urgent p → Urgent (start_from s p).1
  start-Urgent p running_pool h = h
  start-Urgent p shutting_down h = h
  start-Urgent p idle_pool h = adjust-Urgent p.config.initial_workers _ h
  start-Urgent p stopped h = adjust-Urgent p.config.initial_workers _ h

  begin-Urgent : (p : WorkPool A) (s : WorkPoolStatus) → Urgent p → Urgent (begin_from s p)
  begin-Urgent p stopped h = h
  begin-Urgent p shutting_down h = h
  begin-Urgent p idle_pool h = h
  begin-Urgent p running_pool h = h

  grow_for-Urgent : (p : WorkPool A) → Urgent p → Urgent (grow_for p)
  unfolding grow_for try_add_worker add_worker
  grow_for-Urgent p h =
      if-intro Urgent (below_max p && ltb p.idle.ups (length p.queue + p.idle.downs))
        (λ _. if-intro Urgent (below_max p) (λ _. h) λ _. h) λ _. h

  submit-Urgent :
      (id : ℕ) (options : List (TaskConfig → TaskConfig)) (p : WorkPool A)
      → Urgent p
      → Urgent (submit id options p).1
  unfolding submit accept
  submit-Urgent id options p h =
      if-intro (λ (r : Bool × WorkPool A). Urgent r.1) (is_running p.status)
        (λ _. grow_for-Urgent (accept id options p) (enqueue-IsHeap _ p.queue h).0) λ _. h

  scale-Urgent :
      (p : WorkPool A) (b s : Bool) → Urgent p → Urgent (adjust_workers_based_on_load b s p)
  unfolding adjust_workers_based_on_load
  scale-Urgent p b s h =
      if-intro Urgent (b && below_max p) (λ _. adjust-Urgent _ p h)
        λ _.
          if-intro Urgent (s && (above_min p && length p.queue == 0)) (λ _. adjust-Urgent _ p h)
            λ _. h

  -- What a worker that looks for a task gets from a queue in heap order.
  pub dequeue-cases :
      (l : List (TaskHandle A))
      → IsHeap l
      → (P : Option (TaskHandle A × List (TaskHandle A)) → Type 0) → P none
      → ((t : TaskHandle A) (k : List (TaskHandle A)) → Served l t k → P (some (t, k)))
      → P (dequeue l)
  unfolding dequeue
  dequeue-cases [] h P n s = n
  dequeue-cases (x ∷ l) h P n s =
      let (t, k, e, w) = dequeue-Served (x ∷ l) h (omega arith) in subst P (sym e) (s t k w)

  take-Urgent : (p : WorkPool A) (i : ℕ) (o : Option (Worker A)) → Urgent p → Urgent (take_by o i p)
  unfolding take_from begin_task
  take-Urgent p i none h = h
  take-Urgent p i (some (executing t)) h = h
  take-Urgent p i (some looking) h =
      if-intro Urgent (p.stop_closed || p.cancelled) (λ _. h)
        λ _. dequeue-cases p.queue h (λ o. Urgent (take_from o i p)) h λ t k w. w.heap

  finish-Urgent :
      (p : WorkPool A) (i : ℕ) (x : Option A) (r : Option TaskError) (o : Option (Worker A))
      → Urgent p
      → Urgent (finish_by o i x r p)
  unfolding end_task
  finish-Urgent p i x r none h = h
  finish-Urgent p i x r (some looking) h = h
  finish-Urgent p i x r (some (executing t)) h = h

  exit-Urgent : (p : WorkPool A) (i : ℕ) (o : Option (Worker A)) → Urgent p → Urgent (exit_by o i p)
  unfolding leave
  exit-Urgent p i none h = h
  exit-Urgent p i (some (executing t)) h = h
  exit-Urgent p i (some looking) h =
      if-intro Urgent (p.stop_closed || p.cancelled)
        (λ _.
          if-intro Urgent (ltb p.active.downs p.active.ups) (λ _. h)
            λ _. if-intro Urgent (ltb p.idle.downs p.idle.ups) (λ _. h) λ _. h)
        λ _. h

  pub act-Urgent : (p : WorkPool A) (a : Action A) → Urgent p → Urgent (act p a)
  unfolding act start take_task finish_task exit_worker begin_shutdown close_stop end_shutdown
      expire_shutdown
  act-Urgent p starts h = start-Urgent p p.status h
  act-Urgent p (submits id options) h = submit-Urgent id options p h
  act-Urgent p (scales b s) h = scale-Urgent p b s h
  act-Urgent p (takes i) h = take-Urgent p i (get_elem? p.workers i) h
  act-Urgent p (finishes i v e) h = finish-Urgent p i v e (get_elem? p.workers i) h
  act-Urgent p (exits i) h = exit-Urgent p i (get_elem? p.workers i) h
  act-Urgent p begins_shutdown h = begin-Urgent p p.status h
  act-Urgent p closes_stop h = if-intro Urgent (length p.queue == 0) (λ _. h) λ _. h
  act-Urgent p ends_shutdown h = if-intro Urgent (length p.workers == 0) (λ _. h) λ _. h
  act-Urgent p expires h = h

  act_all-Urgent :
      (actions : List (Action A)) (p : WorkPool A) → Urgent p → Urgent (act_all p actions)
  unfolding act_all
  act_all-Urgent [] p h = h
  act_all-Urgent (a ∷ rest) p h = act_all-Urgent rest (act p a) (act-Urgent p a h)

-- After any sequence of actions of a new pool, a worker at the top of its loop, in a pool that is neither stopped nor
-- cancelled and whose queue is not empty, starts a task of the highest priority, and the queue keeps the other tasks, in
-- heap order.
pub take_task-Served :
    {A : Type 0} (options : List (WorkPoolConfig → WorkPoolConfig)) (actions : List (Action A))
    (i : ℕ)
    → let p : WorkPool A = act_all (new_work_pool options) actions in
      get_elem? p.workers i ≡ some looking
      → p.stop_closed ≡ false
      → p.cancelled ≡ false
      → 0 < length p.queue
      → (t : TaskHandle A) × (rest : List (TaskHandle A)) × (take_task i p ≡ begin_task i t rest p)
        × Served p.queue t rest
unfolding take_task take_from
take_task-Served options actions i w s c n =
    let p = act_all (new_work_pool options) actions in
    let (t, rest, e, v) =
      dequeue-Served p.queue
        (act_all-Urgent actions (new_work_pool options)
          (unfold new_work_pool in λ c p q. absurd (omega arith)))
        n in
    (t, rest, rw (w, s, c, e) refl, v)
