-- ===== src/WorkPool/Task.antt =====
-- workpool/work.go: a taskHandle. Its methods hold its lock throughout. A closed channel is a flag, and the number of
-- calls of `close(h.done)` is kept, since a second one would panic. The times of the start and the end are left out.
use fyer_kit.Prelude.{
  ℕ, ◌+◌, Bool, true, false, List, [], ◌∷◌, Option, none, some, ltb, if◌then◌else◌,
}
use fyer_kit.Prelude.Word.{ℤ, pos, negsuc}

pub data TaskStatus : Type 0 where
  pending running completed failed canceled : TaskStatus

-- An error of Execute: one that wraps context.Canceled or DeadlineExceeded, or another.
pub data TaskError : Type 0 where
  context_canceled deadline_exceeded : TaskError
  other_error : ℕ → TaskError

-- A priority and a timeout are ints.
pub record TaskConfig : Type 0 where
  pub priority : ℤ
  pub timeout : ℤ

abbrev pub default_task_config : TaskConfig
default_task_config = record { priority = pos 5; timeout = pos 0 }

unfoldable pub with_priority : ℤ → TaskConfig → TaskConfig
with_priority p c = record c { priority = p }

unfoldable pub with_timeout : ℤ → TaskConfig → TaskConfig
with_timeout t c = record c { timeout = t }

unfoldable pub apply_task_options : List (TaskConfig → TaskConfig) → TaskConfig → TaskConfig
apply_task_options [] c = c
apply_task_options (option ∷ options) c = apply_task_options options (option c)

-- `deadline` is that of the task's context; `context_done` says that the cancel function was called.
pub record TaskHandle (A : Type 0) : Type 0 where
  pub id : ℕ
  pub config : TaskConfig
  pub status : TaskStatus
  pub value : Option A
  pub error : Option TaskError
  pub done_closed : Bool
  pub closes : ℕ
  pub deadline : Option ℕ
  pub context_done : Bool

-- `if config.timeout > 0 { ... }`
abbrev pub timeout_of : ℤ → Option ℕ
timeout_of (pos t) = if ltb 0 t then some t else none
timeout_of (negsuc t) = none

abbrev pub is_terminal : TaskStatus → Bool
is_terminal completed = true
is_terminal failed = true
is_terminal canceled = true
is_terminal pending = false
is_terminal running = false

-- The status that an error of Execute leads to.
abbrev pub final_status : Option TaskError → TaskStatus
final_status none = completed
final_status (some context_canceled) = canceled
final_status (some deadline_exceeded) = canceled
final_status (some (other_error n)) = failed

module _ {A : Type 0} where
  unfoldable pub new_task_handle : ℕ → List (TaskConfig → TaskConfig) → TaskHandle A
  unfolding apply_task_options
  new_task_handle id options =
      let config = apply_task_options options default_task_config in
      record {
        id = id;
        config = config;
        status = pending;
        value = none;
        error = none;
        done_closed = false;
        closes = 0;
        deadline = timeout_of config.timeout;
        context_done = false;
      }

  -- `if !h.doneClosed { close(h.done); h.doneClosed = true }`
  unfoldable pub close_done : TaskHandle A → TaskHandle A
  close_done h = if h.done_closed then h else record h { done_closed = true; closes = h.closes + 1 }

  -- The status is returned with the error.
  unfoldable pub cancel : TaskHandle A → Option TaskStatus × TaskHandle A
  cancel h =
      if is_terminal h.status
      then (some h.status, h)
      else (none, close_done (record h { status = canceled; context_done = true }))

  unfoldable pub set_running : TaskHandle A → TaskHandle A
  set_running h = record h { status = running }

  unfoldable pub set_completed : Option A → Option TaskError → TaskHandle A → TaskHandle A
  set_completed v e h = close_done (record h { value = v; error = e; status = final_status e })

  -- Result gives nothing while it waits.
  unfoldable pub result_of : TaskHandle A → Option (Option A × Option TaskError)
  result_of h = if h.done_closed then some (h.value, h.error) else none

  unfoldable pub status_of : TaskHandle A → TaskStatus
  status_of h = h.status
