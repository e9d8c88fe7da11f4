-- ===== src/Set/ConcurrentSet/Counts.antt =====
-- set/concurrentset.go: how many calls are where, and what a change of one of them does to that.
use mathlib.Core.Option.{some-injective, none-ne-some}
use native.Mathlib.Decide.{dec_lt}
use fyer_kit.Prelude.{
  ap, subst, ℕ, zero, suc, ◌+◌, ◌<◌, ◌≡◌, refl, List, [], ◌∷◌, some, get_elem?, set, arith,
}
use fyer_kit.Set.HashSet.{HashSet}
use fyer_kit.Set.ConcurrentSet.{writes, reads, Phase, ready, locking, inside, finished}

module _ {A : Type 0} where
  abbrev pub reading : Phase A → ℕ
  reading (inside (reads c) s) = 1
  reading (inside (writes c) s) = 0
  reading (ready c) = 0
  reading (locking c) = 0
  reading (finished r) = 0

  abbrev pub writing_now : Phase A → ℕ
  writing_now (inside (writes c) s) = 1
  writing_now (inside (reads c) s) = 0
  writing_now (ready c) = 0
  writing_now (locking c) = 0
  writing_now (finished r) = 0

  abbrev pub waiting : Phase A → ℕ
  waiting (locking c) = 1
  waiting (inside c s) = 0
  waiting (ready c) = 0
  waiting (finished r) = 0

  -- The steps that the call has before it.
  abbrev pub steps_left : Phase A → ℕ
  steps_left (ready (writes c)) = 3
  steps_left (ready (reads c)) = 2
  steps_left (locking c) = 2
  steps_left (inside c s) = 1
  steps_left (finished r) = 0

  unfoldable pub total : (Phase A → ℕ) → List (Phase A) → ℕ
  total f [] = 0
  total f (x ∷ xs) = f x + total f xs

  pub total-set :
      (f : Phase A → ℕ) (l : List (Phase A)) (i : ℕ) (x y : Phase A)
      → get_elem? l i ≡ some x
      → total f (set l i y) + f x ≡ total f l + f y
  unfolding total
  total-set f [] i x y e = absurd (none-ne-some x e)
  total-set f (z ∷ l) zero x y e = let same : f z ≡ f x = ap f (some-injective z x e) in omega arith
  total-set f (z ∷ l) (suc i) x y e = omega (arith, total-set f l i x y e)

  -- A call that counts is somewhere.
  pub total-found :
      (f : Phase A → ℕ) (l : List (Phase A))
      → 0 < total f l
      → (i : ℕ) × (x : Phase A) × (get_elem? l i ≡ some x) × (0 < f x)
  unfolding total
  total-found f [] h = absurd (omega arith)
  total-found f (x ∷ l) h = elim (dec_lt 0 (f x)) [
    | yes p ↦ (0, x, refl, p)
    | no np ↦ let (i, y, e, p) = total-found f l (omega arith) in (suc i, y, e, p)
  ]

  abbrev pub Saw : HashSet A → Phase A → Type 0
  Saw s (inside c seen) = seen ≡ s
  Saw s (ready c) = Unit
  Saw s (locking c) = Unit
  Saw s (finished r) = Unit

  -- Every call inside has read the set as it is.
  abbrev pub AllSaw : HashSet A → List (Phase A) → Type 0
  AllSaw s [] = Unit
  AllSaw s (x ∷ xs) = Saw s x × AllSaw s xs

  pub AllSaw-at :
      (s : HashSet A) (l : List (Phase A)) (i : ℕ) (x : Phase A)
      → get_elem? l i ≡ some x
      → AllSaw s l
      → Saw s x
  AllSaw-at s [] i x e h = absurd (none-ne-some x e)
  AllSaw-at s (z ∷ l) zero x e h = subst (Saw s) (some-injective z x e) h.0
  AllSaw-at s (z ∷ l) (suc i) x e h = AllSaw-at s l i x e h.1

  pub AllSaw-set :
      (s : HashSet A) (l : List (Phase A)) (i : ℕ) (y : Phase A)
      → Saw s y
      → AllSaw s l
      → AllSaw s (set l i y)
  AllSaw-set s [] i y h k = tt
  AllSaw-set s (z ∷ l) zero y h k = (h, k.1)
  AllSaw-set s (z ∷ l) (suc i) y h k = (k.0, AllSaw-set s l i y h k.1)

  Saw-outside : (s : HashSet A) (x : Phase A) → reading x + writing_now x ≡ 0 → Saw s x
  Saw-outside s (ready c) h = tt
  Saw-outside s (locking c) h = tt
  Saw-outside s (finished r) h = tt
  Saw-outside s (inside (reads c) seen) h = absurd (omega arith)
  Saw-outside s (inside (writes c) seen) h = absurd (omega arith)

  -- Where no call is inside, any set is as good.
  pub AllSaw-none :
      (s : HashSet A) (l : List (Phase A)) → total reading l + total writing_now l ≡ 0 → AllSaw s l
  unfolding total
  AllSaw-none s [] h = tt
  AllSaw-none s (x ∷ l) h = (Saw-outside s x (omega arith), AllSaw-none s l (omega arith))
