-- ===== src/WorkPool/Measured.antt =====
-- workpool/workpool.go with workpool/metrics.go: the calls that the pool makes of its metrics as tasks come, start and end.
-- Those of the workers' gauges are left out.
use native.Mathlib.Nat.{mod-add-mod, add-mod_right}
use fyer_kit.Prelude.{
  ℕ, suc, ◌+◌, ◌-◌, ◌%◌, ◌^◌, ◌≡◌, refl, sym, ap, ◌∙◌, inl, inr, Bool, true, false, ◌||◌, List, [],
  ◌∷◌, Option, none, some, arith, if-intro, ◌==◌, if◌then◌else◌, length, get_elem?, Bool-cases,
}
use fyer_kit.Prelude.Word.{add_one_u64}
use fyer_kit.WorkPool.Config.{WorkPoolConfig}
use fyer_kit.WorkPool.Task.{TaskError, TaskConfig, TaskHandle}
use fyer_kit.WorkPool.TaskQueue.{dequeue, length-enqueue, dequeue-GivesUp}
use fyer_kit.WorkPool.Metrics.{
  Metrics, new_metrics, take_one_u64, task_submitted, task_started, task_completed,
}
use fyer_kit.WorkPool.Workers.{
  Worker, looking, executing, WorkPool, new_work_pool, start, is_running, accept, grow_for, submit,
  begin_task, take_from, take_by, take_task, end_task, finish_by, finish_task, exit_worker,
}
use fyer_kit.WorkPool.Run.{
  begin_shutdown, close_stop, end_shutdown, expire_shutdown, Action, starts, submits, scales, takes,
  finishes, exits, begins_shutdown, closes_stop, ends_shutdown, expires, act,
}
use fyer_kit.WorkPool.Unchanged.{Same, start-Same, begin-Same, grow_for-Same, scale-Same, exit-Same}

abbrev pub succeeded : Option TaskError → Bool
succeeded none = true
succeeded (some e) = false

one_more : (n q : ℕ) → q ≡ n % 2 ^ 64 → add_one_u64 q ≡ (n + 1) % 2 ^ 64
one_more n q e = ap add_one_u64 e ∙ mod-add-mod n (2 ^ 64) 1

one_less : (n k q : ℕ) → n ≡ k + 1 → q ≡ n % 2 ^ 64 → take_one_u64 q ≡ k % 2 ^ 64
one_less n k q e f =
    ap take_one_u64 f
    ∙ mod-add-mod n (2 ^ 64) (2 ^ 64 - 1)
    ∙ ap (λ n. n % 2 ^ 64) (omega arith)
    ∙ add-mod_right k (2 ^ 64)

one_ended :
    (c f n : ℕ) → (c + f) % 2 ^ 64 ≡ n % 2 ^ 64 → ((c + 1) % 2 ^ 64 + f) % 2 ^ 64 ≡ suc n % 2 ^ 64
one_ended c f n e =
    mod-add-mod (c + 1) (2 ^ 64) f
    ∙ ap (λ n. n % 2 ^ 64) (omega arith)
    ∙ sym (mod-add-mod (c + f) (2 ^ 64) 1)
    ∙ ap (λ n. (n + 1) % 2 ^ 64) e
    ∙ mod-add-mod n (2 ^ 64) 1
    ∙ ap (λ n. n % 2 ^ 64) (omega arith)

module _ {A : Type 0} where
  unfoldable pub measure_submit : WorkPool A → Metrics → Metrics
  measure_submit p m = if is_running p.status then task_submitted m else m

  abbrev pub measure_from : ℕ → Option (TaskHandle A × List (TaskHandle A)) → Metrics → Metrics
  measure_from time none m = m
  measure_from time (some (t, rest)) m = task_started time m

  abbrev pub measure_take : ℕ → Option (Worker A) → WorkPool A → Metrics → Metrics
  measure_take time none p m = m
  measure_take time (some looking) p m =
      let taken = measure_from time (dequeue p.queue) m in
      if p.stop_closed || p.cancelled then m else taken
  measure_take time (some (executing t)) p m = m

  abbrev pub measure_finish : ℕ → Option (Worker A) → Option TaskError → Metrics → Metrics
  measure_finish time none e m = m
  measure_finish time (some looking) e m = m
  measure_finish time (some (executing t)) e m = task_completed time (succeeded e) m

  -- `time` is the wait or the run that the action measures, and `p` the pool before it.
  unfoldable pub measure : ℕ → Action A → WorkPool A → Metrics → Metrics
  measure time (submits id options) p m = measure_submit p m
  measure time (takes i) p m = measure_take time (get_elem? p.workers i) p m
  measure time (finishes i v e) p m = measure_finish time (get_elem? p.workers i) e m
  measure time starts p m = m
  measure time (scales b s) p m = m
  measure time (exits i) p m = m
  measure time begins_shutdown p m = m
  measure time closes_stop p m = m
  measure time ends_shutdown p m = m
  measure time expires p m = m

  unfoldable pub run_measured : List (ℕ × Action A) → WorkPool A × Metrics → WorkPool A × Metrics
  run_measured [] s = s
  run_measured ((time, a) ∷ rest) (p, m) = run_measured rest (act p a, measure time a p m)

  -- The metrics count the tasks that the pool has, as far as 64 bits go.
  pub record Agrees (p : WorkPool A) (m : Metrics) : Type 0 where
    pub submitted : m.total_tasks ≡ p.total_tasks
    pub queued : m.queued_tasks ≡ length p.queue % 2 ^ 64
    pub ended : (m.completed_tasks + m.failed_tasks) % 2 ^ 64 ≡ length p.finished % 2 ^ 64
    pub uncanceled : m.canceled_tasks ≡ 0

  Same-Agrees : (p q : WorkPool A) (m : Metrics) → Same p q → Agrees p m → Agrees q m
  Same-Agrees p q m (a, b, c) v = record {
    submitted = v.submitted ∙ sym c;
    queued = v.queued ∙ ap (λ n. n % 2 ^ 64) (sym a);
    ended = v.ended ∙ ap (λ n. n % 2 ^ 64) (sym b);
    uncanceled = v.uncanceled;
  }

  submit-Agrees :
      (id : ℕ) (options : List (TaskConfig → TaskConfig)) (p : WorkPool A) (m : Metrics)
      → Agrees p m
      → Agrees (submit id options p).1 (measure_submit p m)
  unfolding submit measure_submit task_submitted
  submit-Agrees id options p m v = elim (Bool-cases (is_running p.status)) [
    | inl e ↦ rw e (
        Same-Agrees (accept id options p) (grow_for (accept id options p)) _
          (grow_for-Same (accept id options p)) accepted)
    | inr e ↦ rw e v
  ]
    where
      accepted : Agrees (accept id options p) (task_submitted m)
      accepted =
          unfold accept task_submitted in
          record {
            submitted = ap add_one_u64 v.submitted;
            queued =
                one_more (length p.queue) m.queued_tasks v.queued
                ∙ ap (λ n. n % 2 ^ 64) (sym (length-enqueue _ p.queue));
            ended = v.ended;
            uncanceled = v.uncanceled;
          }

  take-Agrees :
      (time : ℕ) (p : WorkPool A) (m : Metrics) (i : ℕ) (o : Option (Worker A))
      → Agrees p m
      → Agrees (take_by o i p) (measure_take time o p m)
  unfolding take_from begin_task task_started
  take-Agrees time p m i none v = v
  take-Agrees time p m i (some (executing t)) v = v
  take-Agrees time p m i (some looking) v = elim (Bool-cases (p.stop_closed || p.cancelled)) [
    | inl e ↦ rw e v
    | inr e ↦ rw e (elim (dequeue-GivesUp p.queue) [
      | inl d ↦ rw d v
      | inr (t, rest, d, n) ↦ rw d (record {
        submitted = v.submitted;
        queued = one_less (length p.queue) (length rest) m.queued_tasks n v.queued;
        ended = v.ended;
        uncanceled = v.uncanceled;
      })
    ])
  ]

  finish-Agrees :
      (time : ℕ) (p : WorkPool A) (m : Metrics) (i : ℕ) (x : Option A) (e : Option TaskError)
      (o : Option (Worker A))
      → Agrees p m
      → Agrees (finish_by o i x e p) (measure_finish time o e m)
  unfolding end_task task_completed
  finish-Agrees time p m i x e none v = v
  finish-Agrees time p m i x e (some looking) v = v
  finish-Agrees time p m i x none (some (executing t)) v = record {
    submitted = v.submitted;
    queued = v.queued;
    ended = one_ended m.completed_tasks m.failed_tasks (length p.finished) v.ended;
    uncanceled = v.uncanceled;
  }
  finish-Agrees time p m i x (some r) (some (executing t)) v = record {
    submitted = v.submitted;
    queued = v.queued;
    ended =
        ap (λ n. n % 2 ^ 64) (omega arith)
        ∙ one_ended m.failed_tasks m.completed_tasks (length p.finished)
            (ap (λ n. n % 2 ^ 64) (omega arith) ∙ v.ended);
    uncanceled = v.uncanceled;
  }

  act-Agrees :
      (time : ℕ) (a : Action A) (p : WorkPool A) (m : Metrics)
      → Agrees p m
      → Agrees (act p a) (measure time a p m)
  unfolding act measure start take_task finish_task exit_worker begin_shutdown close_stop
      end_shutdown expire_shutdown
  act-Agrees time (submits id options) p m v = submit-Agrees id options p m v
  act-Agrees time (takes i) p m v = take-Agrees time p m i (get_elem? p.workers i) v
  act-Agrees time (finishes i x e) p m v = finish-Agrees time p m i x e (get_elem? p.workers i) v
  act-Agrees time starts p m v = Same-Agrees p _ m (start-Same p p.status) v
  act-Agrees time (scales b s) p m v = Same-Agrees p _ m (scale-Same p b s) v
  act-Agrees time (exits i) p m v = Same-Agrees p _ m (exit-Same p i (get_elem? p.workers i)) v
  act-Agrees time begins_shutdown p m v = Same-Agrees p _ m (begin-Same p p.status) v
  act-Agrees time closes_stop p m v =
      Same-Agrees p _ m
        (if-intro (Same p) (length p.queue == 0) (λ _. (refl, refl, refl)) λ _. (refl, refl, refl))
        v
  act-Agrees time ends_shutdown p m v =
      Same-Agrees p _ m
        (if-intro (Same p) (length p.workers == 0) (λ _. (refl, refl, refl))
          λ _. (refl, refl, refl))
        v
  act-Agrees time expires p m v = Same-Agrees p _ m (refl, refl, refl) v

  run_measured-from :
      (actions : List (ℕ × Action A)) (p : WorkPool A) (m : Metrics)
      → Agrees p m
      → let (q, k) = run_measured actions (p, m) in Agrees q k
  unfolding run_measured
  run_measured-from [] p m v = v
  run_measured-from ((time, a) ∷ rest) p m v =
      run_measured-from rest (act p a) (measure time a p m) (act-Agrees time a p m v)

-- After any actions of a new pool, with any times measured, the metrics agree with it as far as 64 bits go: QueuedTasks is the
-- number of tasks in the queue, CompletedTasks and FailedTasks together that of the tasks ended, TotalTasks that of the
-- tasks accepted; and CanceledTasks is 0, whatever the tasks answered.
pub run_measured-Agrees :
    {A : Type 0} (options : List (WorkPoolConfig → WorkPoolConfig)) (actions : List (ℕ × Action A))
    → let (p, m) = run_measured actions (new_work_pool options, new_metrics) in Agrees p m
run_measured-Agrees options actions =
    run_measured-from actions (new_work_pool options) new_metrics (
      unfold new_work_pool new_metrics in
      record { submitted = refl; queued = refl; ended = refl; uncanceled = refl })
