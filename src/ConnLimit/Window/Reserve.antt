-- ===== src/ConnLimit/Window/Reserve.antt =====
-- pool/connlimit/limiter.go: what WindowLimiter.Reserve and Wait promise.
use fyer_kit.Prelude.{
  ℕ, ◌+◌, ◌≤◌, ◌<◌, ◌≡◌, ◌≢◌, ◌⊎◌, ◌∙◌, Bool, true, not, List, [], ◌∷◌, arith, ltb, leb, length,
  length-append, if-intro,
}
use fyer_kit.ConnLimit.Window.{
  WindowLimiter, drop_old, cleanup_old_requests, admit, allow, wait_for, reserve, wait, after_alarm,
  burst_exceeded, granted, failed, Alarm, timer_at, context_done,
}
use fyer_kit.ConnLimit.Window.Rate.{length-drop_old}

-- At a full list the request is granted from the moment on that the waiting time names.
full_exact :
    (w max later t : ℕ) (xs : List ℕ)
    → 0 < max
    → length xs ≡ max
    → later ≤ t
    → leb max (length (drop_old t w xs)) ≡ not (leb (later + wait_for later w xs) t)
unfolding drop_old wait_for
full_exact w max later t [] pos full h = absurd (omega arith)
full_exact w max later t (x ∷ xs) pos full h = ground (arith, length-drop_old w t xs)

allow_passes :
    (now stamp : ℕ) (l : WindowLimiter)
    → (allow now stamp l).0
      ≡ not (leb l.max_requests (length (drop_old now l.window_size l.requests)))
unfolding allow admit cleanup_old_requests
allow_passes now stamp l = ground arith

length-allow :
    (now stamp : ℕ) (l : WindowLimiter)
    → length l.requests ≤ l.max_requests
    → (length (allow now stamp l).1.requests ≤ l.max_requests)
      × ((allow now stamp l).1.max_requests ≡ l.max_requests)
      × ((allow now stamp l).1.max_wait_time ≡ l.max_wait_time)
unfolding allow admit cleanup_old_requests
length-allow now stamp l h = ground (
  arith,
  length-drop_old l.window_size now l.requests,
  length-append (drop_old now l.window_size l.requests) (stamp ∷ []),
)

-- With a positive limit and at most that many requests recorded, the waiting time that Reserve
-- returns is exact: if the next call is an Allow, at a reading of the clock no earlier than
-- Reserve's second, it is granted exactly when that time has passed since.
pub reserve_exact :
    (l : WindowLimiter) (now later t stamp : ℕ)
    → 0 < l.max_requests
    → length l.requests ≤ l.max_requests
    → later ≤ t
    → let r = reserve now later l in (allow t stamp r.1).0 ≡ leb (later + r.0.0) t
unfolding reserve cleanup_old_requests
reserve_exact l now later t stamp pos small h =
    if-intro (λ (r : (ℕ × Bool) × WindowLimiter). (allow t stamp r.1).0 ≡ leb (later + r.0.0) t)
      (ltb (length kept) l.max_requests)
      (λ room.
        allow_passes t stamp (cleanup_old_requests now l)
        ∙ ground (arith, room, length-drop_old l.window_size t kept))
      λ full.
        allow_passes t stamp (cleanup_old_requests now l)
        ∙ ground (
          arith,
          full_exact l.window_size l.max_requests later t kept pos
              (ground (arith, full, length-drop_old l.window_size now l.requests)) h,
        )
  where
    kept : List ℕ
    kept = drop_old now l.window_size l.requests

-- Reserve returns true on every limiter, so Wait returns ErrBurstExceeded on none, whatever
-- others do and whatever ends its wait.
pub wait_no_burst :
    (now stamp now' later : ℕ) (others : WindowLimiter → WindowLimiter) (a : Alarm)
    (l : WindowLimiter)
    → ((reserve now' later l).0.1 ≡ true)
      × ((wait now stamp now' later others a l).0 ≢ failed burst_exceeded)
unfolding wait reserve after_alarm
wait_no_burst now stamp now' later others (timer_at t s) l = (ground arith, λ e. ground arith)
wait_no_burst now stamp now' later others context_done l = (ground arith, λ e. ground arith)

max_wait-reserve :
    (now later : ℕ) (l : WindowLimiter) → (reserve now later l).1.max_wait_time ≡ l.max_wait_time
unfolding reserve cleanup_old_requests
max_wait-reserve now later l = ground arith

-- With a positive limit, at most that many requests recorded and no other caller meanwhile, Wait
-- is granted if its reserved time is within the largest wait (or there is none) and its timer
-- fires no earlier than that time after Reserve's second reading of the clock.
pub wait_granted :
    (now stamp now' later t stamp' : ℕ) (l : WindowLimiter)
    → 0 < l.max_requests
    → length l.requests ≤ l.max_requests
    → later + (reserve now' later (allow now stamp l).1).0.0 ≤ t
    → (l.max_wait_time ≡ 0) ⊎ ((reserve now' later (allow now stamp l).1).0.0 ≤ l.max_wait_time)
    → (wait now stamp now' later (λ l. l) (timer_at t stamp') l).0 ≡ granted
unfolding wait after_alarm
wait_granted now stamp now' later t stamp' l pos small fired fits =
    let k = length-allow now stamp l small in
    ground (
      arith,
      k,
      max_wait-reserve now' later (allow now stamp l).1,
      wait_no_burst now stamp now' later (λ l. l) context_done (allow now stamp l).1,
      reserve_exact (allow now stamp l).1 now' later t stamp' (omega (arith, k)) (omega (arith, k))
          (omega arith),
    )
