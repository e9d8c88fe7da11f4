-- ===== src/ConnLimit/Tests.antt =====
-- pool/connlimit/limiter.go: the theorems at a window of ten units for two requests.
use fyer_kit.Prelude.{ℕ, ◌+◌, ◌≤◌, ◌≡◌, refl, inr, List, [], ◌∷◌, leb, arith}
use fyer_kit.ConnLimit.Window.{
  WindowLimiter, new_window_limiter, with_window_max_wait_time, allow, admit, reserve,
  cleanup_old_requests, drop_old, wait, wait_for, granted, timer_at,
}
use fyer_kit.ConnLimit.Window.Rate.{Monotone, grants, in_window, window_bounded}
use fyer_kit.ConnLimit.Window.Reserve.{reserve_exact, wait_granted}
use fyer_kit.ConnLimit.Adaptive.{AdaptiveLimiter, all_required}
use fyer_kit.ConnLimit.Adaptive.Both.{
  Readings, primary_times, secondary_times, both_grants, both_bounded,
}

abbrev busy : WindowLimiter
busy = record { window_size = 10; max_requests = 2; requests = 21 ∷ 24 ∷ []; max_wait_time = 50 }

abbrev roomy : WindowLimiter
roomy = record { window_size = 20; max_requests = 3; requests = 21 ∷ 24 ∷ []; max_wait_time = 50 }

abbrev both : AdaptiveLimiter WindowLimiter WindowLimiter
both = record { primary = busy; secondary = roomy; mode = all_required }

abbrev readings : List (ℕ × ℕ)
readings = (21, 21) ∷ (22, 23) ∷ (25, 25) ∷ (32, 32) ∷ []

readings-Monotone : Monotone 0 readings
readings-Monotone = ground arith

grants-readings :
    grants (new_window_limiter 10 2 (with_window_max_wait_time 50 ∷ [])) readings
    ≡ 21 ∷ 23 ∷ 32 ∷ []
unfolding grants allow admit cleanup_old_requests drop_old new_window_limiter
    with_window_max_wait_time
grants-readings = refl

window_bounded_example :
    in_window 10 32 (grants (new_window_limiter 10 2 (with_window_max_wait_time 50 ∷ [])) readings)
    ≤ 2
window_bounded_example = window_bounded 10 2 32 50 readings readings-Monotone

reserve_exact_example :
    (allow 31 31 (reserve 25 26 busy).1).0 ≡ leb (26 + (reserve 25 26 busy).0.0) 31
reserve_exact_example = reserve_exact busy 25 26 31 31 (omega arith) (omega arith) (omega arith)

busy-reserved : (reserve 26 26 (allow 25 25 busy).1).0.0 ≡ 5
unfolding reserve allow admit cleanup_old_requests drop_old wait_for
busy-reserved = refl

wait_granted_example : (wait 25 25 26 26 (λ l. l) (timer_at 31 31) busy).0 ≡ granted
wait_granted_example =
    wait_granted 25 25 26 26 31 31 busy (omega arith) (omega arith) (omega (arith, busy-reserved))
      (inr (omega (arith, busy-reserved)))

abbrev both_readings : List Readings
both_readings =
    ((21, 21), (22, 22)) ∷ ((22, 23), (23, 24)) ∷ ((25, 25), (25, 26)) ∷ ((32, 32), (33, 33)) ∷ []

both_bounded_example :
    (in_window 10 32 (primary_times (both_grants both both_readings)) ≤ 2)
    × (in_window 20 32 (secondary_times (both_grants both both_readings)) ≤ 3)
both_bounded_example =
    both_bounded both 32 0 both_readings refl (omega arith) (omega arith) (ground arith)
