-- ===== src/ConnLimit/Window.antt =====
-- pool/connlimit/limiter.go: WindowLimiter. Times are nanoseconds since an epoch that lies a window
-- before every reading, so `r.After(now.Add(-w))` is `now < r + w`. A call's readings of the clock
-- are its arguments: time.Now() in cleanupOldRequests, then the later one.
pub mod Rate
pub mod Reserve
use fyer_kit.Prelude.{
  ℕ, ◌+◌, ◌-◌, Bool, true, false, not, ◌&&◌, List, [], ◌∷◌, ◌++◌, ltb, leb, ◌==◌, if◌then◌else◌,
  length,
}

pub record WindowLimiter : Type 0 where
  pub window_size : ℕ
  pub max_requests : ℕ
  pub requests : List ℕ
  pub max_wait_time : ℕ

-- 5 * time.Second
abbrev pub default_max_wait : ℕ
default_max_wait = 5_000_000_000

unfoldable pub with_window_max_wait_time : ℕ → WindowLimiter → WindowLimiter
with_window_max_wait_time d l = record l { max_wait_time = d }

apply_window_options : List (WindowLimiter → WindowLimiter) → WindowLimiter → WindowLimiter
apply_window_options [] l = l
apply_window_options (opt ∷ opts) l = apply_window_options opts (opt l)

unfoldable pub new_window_limiter : ℕ → ℕ → List (WindowLimiter → WindowLimiter) → WindowLimiter
unfolding apply_window_options
new_window_limiter window_size max_requests opts = apply_window_options opts (record {
  window_size = window_size;
  max_requests = max_requests;
  requests = [];
  max_wait_time = default_max_wait;
})

-- The loop that looks for the first request inside the window, with the cut behind it.
unfoldable pub drop_old : ℕ → ℕ → List ℕ → List ℕ
drop_old now w [] = []
drop_old now w (r ∷ rs) = elim (ltb now (r + w)) [ true ↦ r ∷ rs | false ↦ drop_old now w rs ]

unfoldable pub cleanup_old_requests : ℕ → WindowLimiter → WindowLimiter
cleanup_old_requests now l = record l { requests = drop_old now l.window_size l.requests }

-- The part of Allow behind the cleanup.
unfoldable pub admit : ℕ → WindowLimiter → Bool × WindowLimiter
admit stamp l =
    if leb l.max_requests (length l.requests)
    then (false, l)
    else (true, record l { requests = l.requests ++ stamp ∷ [] })

unfoldable pub allow : ℕ → ℕ → WindowLimiter → Bool × WindowLimiter
allow now stamp l = admit stamp (cleanup_old_requests now l)

-- The waiting time that Reserve returns with `true`; it never returns `false`.
unfoldable pub wait_for : ℕ → ℕ → List ℕ → ℕ
wait_for now w [] = 0
wait_for now w (oldest ∷ rs) = if leb (oldest + w) now then 0 else oldest + w - now

unfoldable pub reserve : ℕ → ℕ → WindowLimiter → (ℕ × Bool) × WindowLimiter
unfolding wait_for
reserve now later l =
    let l' = cleanup_old_requests now l in
    if ltb (length l'.requests) l'.max_requests
    then ((0, true), l')
    else ((wait_for later l'.window_size l'.requests, true), l')

pub data WaitError : Type 0 where
  limit_exceeded burst_exceeded wait_timeout context_error : WaitError

pub data WaitResult : Type 0 where
  granted : WaitResult
  failed : WaitError → WaitResult

-- What ends the select: the timer, at which the clock reads two more times, or the context.
pub data Alarm : Type 0 where
  timer_at : ℕ → ℕ → Alarm
  context_done : Alarm

unfoldable pub after_alarm : Alarm → WindowLimiter → WaitResult × WindowLimiter
after_alarm (timer_at now stamp) l =
    let (passed, l') = allow now stamp l in (if passed then granted else failed limit_exceeded, l')
after_alarm context_done l = (failed context_error, l)

-- Wait gives the mutex up between its steps; `others` is what other callers do to the limiter
-- while this one waits for its timer.
unfoldable pub wait :
    ℕ
    → ℕ
    → ℕ
    → ℕ
    → (WindowLimiter → WindowLimiter)
    → Alarm
    → WindowLimiter
    → WaitResult × WindowLimiter
unfolding after_alarm
wait now stamp now' later others alarm l =
    let (passed, l₁) = allow now stamp l in
    let ((wait_time, fits), l₂) = reserve now' later l₁ in
    if passed
    then (granted, l₁)
    else if not fits
    then (failed burst_exceeded, l₂)
    else if ltb 0 l₂.max_wait_time && ltb l₂.max_wait_time wait_time
    then (failed wait_timeout, l₂)
    else after_alarm alarm (others l₂)

unfoldable pub close : WindowLimiter → WindowLimiter
close l = record l { requests = [] }
