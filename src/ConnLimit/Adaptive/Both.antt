-- ===== src/ConnLimit/Adaptive/Both.antt =====
-- pool/connlimit/limiter.go: AdaptiveLimiter with AllRequired over two sliding windows keeps the
-- limits of both.
use fyer_kit.Prelude.{
  ℕ, ◌≤◌, ◌≡◌, refl, List, [], ◌∷◌, Option, none, some, arith, length, if◌then◌else◌, if-intro,
}
use fyer_kit.ConnLimit.Window
use fyer_kit.ConnLimit.Window.{WindowLimiter, WaitError, Alarm, WaitResult, granted, failed}
use fyer_kit.ConnLimit.Window.Rate.{in_window, grants, Monotone, grants_bounded}
use fyer_kit.ConnLimit.Adaptive.{Limiter, AdaptiveLimiter, all_required, allow}

-- A sliding window as a Limiter, with the readings of the clock that a call takes.
abbrev pub as_error : WaitResult → Option WaitError
as_error granted = none
as_error (failed e) = some e

abbrev pub window_at : ℕ → ℕ → Alarm → Limiter WaitError WindowLimiter
window_at now stamp alarm = record {
  allow = Window.allow now stamp;
  wait = λ l. let (r, l') = Window.wait now stamp stamp stamp (λ x. x) alarm l in (as_error r, l');
  reserve = Window.reserve now stamp;
  close = λ l. (none, Window.close l);
}

-- A call takes its own readings of the clock for each limiter, where it asks both.
abbrev pub Readings : Type 0
Readings = (ℕ × ℕ) × (ℕ × ℕ)

-- The times that the two limiters record of each request that the combined limiter grants.
unfoldable pub both_grants :
    AdaptiveLimiter WindowLimiter WindowLimiter → List Readings → List (ℕ × ℕ)
both_grants l [] = []
both_grants l (((now, stamp), (now', stamp')) ∷ ts) =
    let (passed, l') =
      allow (window_at now stamp Alarm.context_done) (window_at now' stamp' Alarm.context_done) l in
    let rest = both_grants l' ts in if passed then (stamp, stamp') ∷ rest else rest

abbrev pub primary_times : List (ℕ × ℕ) → List ℕ
primary_times [] = []
primary_times ((g, g') ∷ gs) = g ∷ primary_times gs

abbrev pub secondary_times : List (ℕ × ℕ) → List ℕ
secondary_times [] = []
secondary_times ((g, g') ∷ gs) = g' ∷ secondary_times gs

-- The readings do not go back: the secondary limiter is asked after the primary one.
abbrev pub MonotoneBoth : ℕ → List Readings → Type 0
MonotoneBoth last [] = Unit
MonotoneBoth last (((now, stamp), (now', stamp')) ∷ ts) =
    (last ≤ now) × (now ≤ stamp) × (stamp ≤ now') × (now' ≤ stamp') × MonotoneBoth stamp' ts

asked_primary : List Readings → List (ℕ × ℕ)
asked_primary [] = []
asked_primary ((r, r') ∷ ts) = r ∷ asked_primary ts

-- The secondary's readings in the calls that the primary limiter lets through.
passed_primary : WindowLimiter → List Readings → List (ℕ × ℕ)
passed_primary l [] = []
passed_primary l (((now, stamp), r') ∷ ts) =
    let (passed, l') = Window.allow now stamp l in
    let rest = passed_primary l' ts in if passed then r' ∷ rest else rest

Monotone-weaken : (a b : ℕ) (ts : List (ℕ × ℕ)) → a ≤ b → Monotone b ts → Monotone a ts
Monotone-weaken a b [] h m = tt
Monotone-weaken a b ((now, stamp) ∷ ts) h m = (omega arith, m.1, m.2)

Monotone-asked_primary :
    (last : ℕ) (ts : List Readings) → MonotoneBoth last ts → Monotone last (asked_primary ts)
unfolding asked_primary
Monotone-asked_primary last [] m = tt
Monotone-asked_primary last (((now, stamp), (now', stamp')) ∷ ts) (a, b, c, d, m) = (
  a,
  b,
  Monotone-weaken stamp stamp' (asked_primary ts) (omega arith)
      (Monotone-asked_primary stamp' ts m),
)

Monotone-passed_primary :
    (last : ℕ) (l : WindowLimiter) (ts : List Readings)
    → MonotoneBoth last ts
    → Monotone last (passed_primary l ts)
unfolding passed_primary
Monotone-passed_primary last l [] m = tt
Monotone-passed_primary last l (((now, stamp), (now', stamp')) ∷ ts) (a, b, c, d, m) =
    let ih = Monotone-passed_primary stamp' (Window.allow now stamp l).1 ts m in
    if-intro (Monotone last) (Window.allow now stamp l).0 (λ _. (omega arith, d, ih))
      λ _. Monotone-weaken last stamp' _ (omega arith) ih

abbrev asked_one :
    ℕ
    → ℕ
    → AdaptiveLimiter WindowLimiter WindowLimiter
    → AdaptiveLimiter WindowLimiter WindowLimiter
asked_one now stamp l = record l { primary = (Window.allow now stamp l.primary).1 }

abbrev asked_both :
    Readings
    → AdaptiveLimiter WindowLimiter WindowLimiter
    → AdaptiveLimiter WindowLimiter WindowLimiter
asked_both ((now, stamp), (now', stamp')) l = record l {
  primary = (Window.allow now stamp l.primary).1;
  secondary = (Window.allow now' stamp' l.secondary).1;
}

-- What the primary refuses the combination refuses.
both_grants-le-primary :
    (w t : ℕ) (l : AdaptiveLimiter WindowLimiter WindowLimiter) (ts : List Readings)
    → l.mode ≡ all_required
    → in_window w t (primary_times (both_grants l ts))
      ≤ in_window w t (grants l.primary (asked_primary ts))
unfolding both_grants grants allow asked_primary
both_grants-le-primary w t l [] h = omega arith
both_grants-le-primary w t l (((now, stamp), (now', stamp')) ∷ ts) h = ground (
  arith,
  both_grants-le-primary w t (asked_one now stamp l) ts h,
  both_grants-le-primary w t (asked_both ((now, stamp), (now', stamp')) l) ts h,
)

-- The secondary limiter decides over the calls that the primary lets through.
both_grants-eq-secondary :
    (l : AdaptiveLimiter WindowLimiter WindowLimiter) (ts : List Readings)
    → l.mode ≡ all_required
    → secondary_times (both_grants l ts) ≡ grants l.secondary (passed_primary l.primary ts)
unfolding both_grants grants passed_primary allow
both_grants-eq-secondary l [] h = refl
both_grants-eq-secondary l (((now, stamp), (now', stamp')) ∷ ts) h = ground (
  arith,
  both_grants-eq-secondary (asked_one now stamp l) ts h,
  both_grants-eq-secondary (asked_both ((now, stamp), (now', stamp')) l) ts h,
)

-- With AllRequired over two window limiters, each with at most its limit of requests recorded,
-- where each limiter takes its own readings of the clock in a call and the readings do not go
-- back: no interval of the length of the primary's window holds more granted requests than the
-- primary's limit, by the times that the primary records, and none of the secondary's more than
-- the secondary's, by the times that the secondary records.
pub both_bounded :
    (l : AdaptiveLimiter WindowLimiter WindowLimiter) (t last : ℕ) (ts : List Readings)
    → l.mode ≡ all_required
    → length l.primary.requests ≤ l.primary.max_requests
    → length l.secondary.requests ≤ l.secondary.max_requests
    → MonotoneBoth last ts
    → (in_window l.primary.window_size t (primary_times (both_grants l ts))
        ≤ l.primary.max_requests)
      × (in_window l.secondary.window_size t (secondary_times (both_grants l ts))
          ≤ l.secondary.max_requests)
both_bounded l t last ts h p q m = (
  omega (
    arith,
    both_grants-le-primary l.primary.window_size t l ts h,
    grants_bounded t last l.primary (asked_primary ts) p (Monotone-asked_primary last ts m),
  ),
  rw (both_grants-eq-secondary l ts h) (
      omega (
        arith,
        grants_bounded t last l.secondary (passed_primary l.primary ts) q
            (Monotone-passed_primary last l.primary ts m),
      )),
)
