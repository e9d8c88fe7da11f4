-- ===== src/WorkPool/Run.antt =====
-- workpool/workpool.go: Shutdown in its parts, and what the goroutines and the callers of a pool do, as a list of actions,
-- each of which runs alone.
use fyer_kit.Prelude.{ℕ, Bool, true, List, [], ◌∷◌, Option, ◌==◌, if◌then◌else◌, length}
use fyer_kit.WorkPool.Task.{TaskError, TaskConfig}
use fyer_kit.WorkPool.Workers.{
  WorkPoolStatus, idle_pool, running_pool, shutting_down, stopped, WorkPool, start, submit,
  adjust_workers_based_on_load, take_task, finish_task, exit_worker,
}

pub data Action (A : Type 0) : Type 0 where
  starts begins_shutdown closes_stop ends_shutdown expires : Action A
  submits : ℕ → List (TaskConfig → TaskConfig) → Action A
  scales : Bool → Bool → Action A
  takes : ℕ → Action A
  exits : ℕ → Action A
  finishes : ℕ → Option A → Option TaskError → Action A

module _ {A : Type 0} where
  abbrev pub begin_from : WorkPoolStatus → WorkPool A → WorkPool A
  begin_from stopped p = p
  begin_from shutting_down p = p
  begin_from idle_pool p = record p { status = shutting_down }
  begin_from running_pool p = record p { status = shutting_down }

  -- The parts of Shutdown: its start, the close of stopCh once the queue is empty, its end once all workers have
  -- left, and its end if its context is done before.
  unfoldable pub begin_shutdown : WorkPool A → WorkPool A
  begin_shutdown p = begin_from p.status p

  unfoldable pub close_stop : WorkPool A → WorkPool A
  close_stop p = if length p.queue == 0 then record p { stop_closed = true } else p

  unfoldable pub end_shutdown : WorkPool A → WorkPool A
  end_shutdown p = if length p.workers == 0 then record p { status = stopped } else p

  unfoldable pub expire_shutdown : WorkPool A → WorkPool A
  expire_shutdown p = record p { cancelled = true }

  -- What may happen to a pool. The parts of Shutdown may come at any time, which allows more orders than the code does.
  unfoldable pub act : WorkPool A → Action A → WorkPool A
  act p starts = (start p).1
  act p (submits id options) = (submit id options p).1
  act p (scales busy slack) = adjust_workers_based_on_load busy slack p
  act p (takes i) = take_task i p
  act p (finishes i v e) = finish_task i v e p
  act p (exits i) = exit_worker i p
  act p begins_shutdown = begin_shutdown p
  act p closes_stop = close_stop p
  act p ends_shutdown = end_shutdown p
  act p expires = expire_shutdown p

  unfoldable pub act_all : WorkPool A → List (Action A) → WorkPool A
  act_all p [] = p
  act_all p (a ∷ as') = act_all (act p a) as'
