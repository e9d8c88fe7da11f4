-- ===== src/WorkPool/Tasks.antt =====
-- workpool/workpool.go: each task that Submit accepts is in one place: queued, with a worker, or finished.
use fyer_kit.Prelude.{ℕ, ◌+◌, ◌≡◌, ◌&&◌, List, [], ◌∷◌, if◌then◌else◌, ◌==◌}
use fyer_kit.WorkPool.Task.{TaskHandle}
use fyer_kit.WorkPool.Workers.{Worker, looking, executing, WorkPool, is_running}
use fyer_kit.WorkPool.Run.{
  Action, starts, submits, scales, takes, finishes, exits, begins_shutdown, closes_stop,
  ends_shutdown, expires, act,
}

module _ {A : Type 0} where
  -- How often a task with this identity is among some tasks, and with some workers.
  abbrev pub is_task : ℕ → TaskHandle A → ℕ
  is_task id t = if t.id == id then 1 else 0

  abbrev pub among : ℕ → List (TaskHandle A) → ℕ
  among id [] = 0
  among id (t ∷ l) = is_task id t + among id l

  abbrev pub held : ℕ → Worker A → ℕ
  held id looking = 0
  held id (executing t) = is_task id t

  abbrev pub with_workers : ℕ → List (Worker A) → ℕ
  with_workers id [] = 0
  with_workers id (w ∷ ws) = held id w + with_workers id ws

  abbrev pub places : ℕ → WorkPool A → ℕ
  places id p = among id p.queue + with_workers id p.workers + among id p.finished

  -- Whether an action submits a task of this identity to a pool that takes it.
  abbrev pub accepts : ℕ → WorkPool A → Action A → ℕ
  accepts id p (submits n options) = if is_running p.status && n == id then 1 else 0
  accepts id p starts = 0
  accepts id p (scales b s) = 0
  accepts id p (takes i) = 0
  accepts id p (finishes i v e) = 0
  accepts id p (exits i) = 0
  accepts id p begins_shutdown = 0
  accepts id p closes_stop = 0
  accepts id p ends_shutdown = 0
  accepts id p expires = 0

  abbrev pub accepted : ℕ → WorkPool A → List (Action A) → ℕ
  accepted id p [] = 0
  accepted id p (a ∷ actions) = accepts id p a + accepted id (act p a) actions

  module _ (id : ℕ) where
    -- The tasks stay.
    abbrev Stays : WorkPool A → WorkPool A → Type 0
    Stays p q = places id q ≡ places id p
