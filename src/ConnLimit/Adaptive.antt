-- ===== src/ConnLimit/Adaptive.antt =====
-- pool/connlimit/limiter.go: the interface Limiter and AdaptiveLimiter, which asks two limiters. A
-- limiter is its state with the interface's operations; each returns the state that it leaves.
pub mod Both
use fyer_kit.Prelude.{
  ℕ, ◌+◌, ◌≤◌, ◌≡◌, ◌≢◌, refl, ◌⊎◌, inl, inr, ◌↔◌, Bool, true, false, not, ◌&&◌, ◌||◌, Option, none,
  some, arith, ltb, min, if◌then◌else◌, ◌==◌, Bool-cases,
}

-- Errors of Wait and Close are values of a type of the client's; `none` is nil.
pub record Limiter {ℓ κ} (E : Type κ) (S : Type ℓ) : Type (ℓ ⊔ κ) where
  pub allow : S → Bool × S
  pub wait : S → Option E × S
  pub reserve : S → (ℕ × Bool) × S
  pub close : S → Option E × S

abbrev pub primary_only : ℕ
primary_only = 0

abbrev pub all_required : ℕ
all_required = 1

abbrev pub any_allowed : ℕ
any_allowed = 2

pub record AdaptiveLimiter {ℓ} (S T : Type ℓ) : Type ℓ where
  pub primary : S
  pub secondary : T
  pub mode : ℕ

-- Which of the two concurrent waits of AnyAllowed reports first.
pub data First : Type 0 where
  primary_first secondary_first : First

module _ {ℓ κ} {E : Type κ} {S T : Type ℓ} (P : Limiter E S) (Q : Limiter E T) where
  unfoldable pub new_adaptive_limiter : S → T → ℕ → AdaptiveLimiter S T
  new_adaptive_limiter s t mode = record { primary = s; secondary = t; mode = mode }

  allow_primary : AdaptiveLimiter S T → Bool × AdaptiveLimiter S T
  allow_primary l = let (b, s) = P.allow l.primary in (b, record l { primary = s })

  allow_secondary : AdaptiveLimiter S T → Bool × AdaptiveLimiter S T
  allow_secondary l = let (b, t) = Q.allow l.secondary in (b, record l { secondary = t })

  -- Go's `&&` and `||` ask the second limiter only if the first leaves the answer open.
  unfoldable pub allow : AdaptiveLimiter S T → Bool × AdaptiveLimiter S T
  unfolding allow_primary allow_secondary
  allow l =
      let (b, l') = allow_primary l in
      if l.mode == all_required
      then (if b then allow_secondary l' else (false, l'))
      else if l.mode == any_allowed
      then (if b then (true, l') else allow_secondary l')
      else (b, l')

  pick_wait : First → Option E → Option E → Option E
  pick_wait f none e₂ = none
  pick_wait f (some e) none = none
  pick_wait primary_first (some e₁) (some e₂) = some e₁
  pick_wait secondary_first (some e₁) (some e₂) = some e₂

  -- With AnyAllowed both waits run to their end, also when the first has decided the answer; the state is
  -- the one behind both.
  unfoldable pub wait : First → AdaptiveLimiter S T → Option E × AdaptiveLimiter S T
  unfolding pick_wait
  wait f l =
      let (e₁, s) = P.wait l.primary in
      let (e₂, t) = Q.wait l.secondary in
      let l₁ : AdaptiveLimiter S T = record l { primary = s } in
      let l₂ : AdaptiveLimiter S T = record l { primary = s; secondary = t } in
      if l.mode == all_required
      then elim e₁ [ none ↦ (e₂, l₂) | some e ↦ (some e, l₁) ]
      else if l.mode == any_allowed
      then (pick_wait f e₁ e₂, l₂)
      else (e₁, l₁)

  unfoldable pub reserve : AdaptiveLimiter S T → (ℕ × Bool) × AdaptiveLimiter S T
  reserve l =
      let ((d₁, ok₁), s) = P.reserve l.primary in
      let ((d₂, ok₂), t) = Q.reserve l.secondary in
      let l₁ : AdaptiveLimiter S T = record l { primary = s } in
      let l₂ : AdaptiveLimiter S T = record l { primary = s; secondary = t } in
      if l.mode == all_required
      then (if not ok₁
          then ((0, false), l₁)
          else if not ok₂
          then ((0, false), l₂)
          else if ltb d₂ d₁
          then ((d₁, true), l₂)
          else ((d₂, true), l₂))
      else if l.mode == any_allowed
      then (if not ok₁ && not ok₂
          then ((0, false), l₂)
          else if not ok₁
          then ((d₂, true), l₂)
          else if not ok₂
          then ((d₁, true), l₂)
          else if ltb d₁ d₂
          then ((d₁, true), l₂)
          else ((d₂, true), l₂))
      else ((d₁, ok₁), l₁)

  unfoldable pub close : AdaptiveLimiter S T → Option E × AdaptiveLimiter S T
  close l =
      let (e₁, s) = P.close l.primary in
      let (e₂, t) = Q.close l.secondary in
      let l' : AdaptiveLimiter S T = record l { primary = s; secondary = t } in
      elim e₁ [ none ↦ (e₂, l') | some e ↦ (some e, l') ]
