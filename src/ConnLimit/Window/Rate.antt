-- ===== src/ConnLimit/Window/Rate.antt =====
-- pool/connlimit/limiter.go: WindowLimiter never grants more than its limit in any window.
use fyer_kit.Prelude.{
  ℕ, ◌+◌, ◌≤◌, ◌<◌, ◌≡◌, refl, Bool, ◌&&◌, List, [], ◌∷◌, ◌++◌, arith, ltb, leb, length,
  length-append, if◌then◌else◌, Bool-cases, if-intro, inl, inr,
}
use fyer_kit.ConnLimit.Window.{
  WindowLimiter, new_window_limiter, drop_old, cleanup_old_requests, admit, allow,
  with_window_max_wait_time,
}

-- How many of the times lie in the window of length `w` that ends at `t`.
abbrev pub in_window : ℕ → ℕ → List ℕ → ℕ
in_window w t [] = 0
in_window w t (g ∷ gs) = (if ltb t (g + w) && leb g t then 1 else 0) + in_window w t gs

-- The recorded times of the requests that a sequence of calls, each with its two readings of the
-- clock, is granted.
unfoldable pub grants : WindowLimiter → List (ℕ × ℕ) → List ℕ
grants l [] = []
grants l ((now, stamp) ∷ ts) =
    let (passed, l') = allow now stamp l in
    let rest = grants l' ts in if passed then stamp ∷ rest else rest

-- The readings do not go back.
abbrev pub Monotone : ℕ → List (ℕ × ℕ) → Type 0
Monotone last [] = Unit
Monotone last ((now, stamp) ∷ ts) = (last ≤ now) × (now ≤ stamp) × Monotone stamp ts

in_window-append :
    (w t : ℕ) (xs ys : List ℕ) → in_window w t (xs ++ ys) ≡ in_window w t xs + in_window w t ys
in_window-append w t [] ys = omega arith
in_window-append w t (x ∷ xs) ys = ground (arith, in_window-append w t xs ys)

in_window-le-length : (w t : ℕ) (xs : List ℕ) → in_window w t xs ≤ length xs
in_window-le-length w t [] = omega arith
in_window-le-length w t (x ∷ xs) = ground (arith, in_window-le-length w t xs)

-- A window that ends at or after the cleanup counts nothing that the cleanup drops.
in_window-drop_old :
    (w t now : ℕ) (xs : List ℕ) → now ≤ t → in_window w t (drop_old now w xs) ≡ in_window w t xs
unfolding drop_old
in_window-drop_old w t now [] h = refl
in_window-drop_old w t now (x ∷ xs) h = ground (arith, in_window-drop_old w t now xs h)

pub length-drop_old : (w now : ℕ) (xs : List ℕ) → length (drop_old now w xs) ≤ length xs
unfolding drop_old
length-drop_old w now [] = omega arith
length-drop_old w now (x ∷ xs) = ground (arith, length-drop_old w now xs)

-- Requests granted from `last` on lie outside every window that ends before `last`.
in_window-grants_later :
    (w t last : ℕ) (l : WindowLimiter) (ts : List (ℕ × ℕ))
    → t < last
    → Monotone last ts
    → in_window w t (grants l ts) ≡ 0
unfolding grants
in_window-grants_later w t last l [] h m = refl
in_window-grants_later w t last l ((now, stamp) ∷ ts) h m =
    ground (arith, in_window-grants_later w t stamp (allow now stamp l).1 ts (omega arith) m.2)

pub grants_bounded :
    (t last : ℕ) (l : WindowLimiter) (ts : List (ℕ × ℕ))
    → length l.requests ≤ l.max_requests
    → Monotone last ts
    → in_window l.window_size t l.requests + in_window l.window_size t (grants l ts)
      ≤ l.max_requests
unfolding grants allow admit cleanup_old_requests
grants_bounded t last l [] h m = omega (arith, in_window-le-length l.window_size t l.requests)
grants_bounded t last l ((now, stamp) ∷ ts) h m = elim (Bool-cases (ltb t now)) [
  | inl early ↦ omega (
    arith,
    in_window-le-length l.window_size t l.requests,
    in_window-grants_later l.window_size t now l ((now, stamp) ∷ ts) (ground (arith, early))
        (omega arith, m.1, m.2),
  )
  | inr late ↦
      let same = in_window-drop_old l.window_size t now l.requests (ground (arith, late)) in
      if-intro
        (λ (p : Bool × WindowLimiter).
          in_window l.window_size t l.requests
            + in_window l.window_size t (if p.0 then stamp ∷ grants p.1 ts else grants p.1 ts)
          ≤ l.max_requests)
        (leb l.max_requests (length kept))
        (λ full. omega (
          arith,
          same,
          grants_bounded t stamp (cleanup_old_requests now l) ts
              (omega (arith, length-drop_old l.window_size now l.requests)) m.2,
        ))
        λ room. omega (
          arith,
          same,
          in_window-append l.window_size t kept (stamp ∷ []),
          grants_bounded t stamp (record l { requests = kept ++ stamp ∷ [] }) ts
              (ground (arith, room, length-append kept (stamp ∷ []))) m.2,
        )
]
  where
    kept : List ℕ
    kept = drop_old now l.window_size l.requests

-- However often a new limiter is asked, with readings of the clock that do not go back, no
-- interval of the length of its window holds more granted requests than its limit.
pub window_bounded :
    (w max t : ℕ) (opts_wait : ℕ) (ts : List (ℕ × ℕ))
    → Monotone 0 ts
    → in_window w t
        (grants (new_window_limiter w max (with_window_max_wait_time opts_wait ∷ [])) ts)
      ≤ max
unfolding new_window_limiter with_window_max_wait_time
window_bounded w max t opts_wait ts m = omega (
  arith,
  grants_bounded t 0 (new_window_limiter w max (with_window_max_wait_time opts_wait ∷ [])) ts
      (omega arith) m,
)
