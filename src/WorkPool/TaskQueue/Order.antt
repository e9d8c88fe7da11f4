-- ===== src/WorkPool/TaskQueue/Order.antt =====
-- The heap order of workpool/queue.go. A priority is an int: `above` and `below` are its parts over and under 0, so that an
-- order of priorities is a linear one of numbers.
use mathlib.Core.List.Perm
use mathlib.Core.List.{Perm}
use native.Mathlib.Decide.{ℕ_discrete}
use fyer_kit.Prelude.{
  get_or-set_self, get_or-set_ne, ℕ, zero, suc, ◌+◌, ◌-◌, ◌/◌, ◌≤◌, ◌<◌, ◌≡◌, refl, ◌∙◌, List, [],
  ◌∷◌, Option, none, some, ltb, leb, ◌==◌, if◌then◌else◌, length, get_elem?, get_or, set, arith,
  length-set, get_elem?-eq-get_or,
}
use fyer_kit.Prelude.Word.{ℤ, pos, negsuc, geb}
use fyer_kit.WorkPool.Task.{TaskHandle}
use fyer_kit.WorkPool.TaskQueue.{higher, less, swap}

abbrev pub over : ℤ → ℕ
over (pos n) = n
over (negsuc n) = 0

abbrev pub under : ℤ → ℕ
under (pos n) = 0
under (negsuc n) = n + 1

pub geb-eq : (p q : ℤ) → geb p q ≡ leb (over q + under p) (over p + under q)
geb-eq (pos a) (pos b) = ground arith
geb-eq (pos a) (negsuc b) = ground arith
geb-eq (negsuc a) (pos b) = ground arith
geb-eq (negsuc a) (negsuc b) = ground arith

set-perm {ℓ} :
    {A : Type ℓ} (l : List A) (i : ℕ) (v d : A)
    → i < length l
    → Perm (get_or l i d ∷ set l i v) (v ∷ l)
set-perm [] i v d h = absurd (omega arith)
set-perm (x ∷ l) zero v d h = Perm.swap v x l
set-perm (x ∷ l) (suc i) v d h =
    let rest = Perm.cons x (set-perm l i v d (omega arith)) in
    Perm.trans (Perm.swap x (get_or l i d) (set l i v)) (Perm.trans rest (Perm.swap v x l))

-- The parent of an index.
abbrev pub parent : ℕ → ℕ
parent c = (c - 1) / 2

module _ {A : Type 0} where
  abbrev pub over_of : Option (TaskHandle A) → ℕ
  over_of none = 0
  over_of (some t) = over t.config.priority

  abbrev pub under_of : Option (TaskHandle A) → ℕ
  under_of none = 0
  under_of (some t) = under t.config.priority

  unfoldable pub up_at : List (TaskHandle A) → ℕ → ℕ
  up_at l i = over_of (get_elem? l i)

  unfoldable pub dn_at : List (TaskHandle A) → ℕ → ℕ
  dn_at l i = under_of (get_elem? l i)

  -- The item at `c` has no higher priority than that at `p`.
  abbrev pub Below : List (TaskHandle A) → ℕ → ℕ → Type 0
  Below l c p = up_at l c + dn_at l p ≤ up_at l p + dn_at l c

  abbrev pub Ordered : ℕ → List (TaskHandle A) → Type 0
  Ordered n l = (c : ℕ) → 0 < c → c < n → Below l c (parent c)

  -- Around `i`, from its parent to its children.
  abbrev pub Bridged : ℕ → List (TaskHandle A) → ℕ → Type 0
  Bridged n l i = (c : ℕ) → 0 < c → c < n → parent c ≡ i → 0 < i → Below l c (parent i)

  higher-eq :
      (s t : TaskHandle A)
      → higher (some s) (some t)
        ≡ ltb (over_of (some t) + under_of (some s)) (over_of (some s) + under_of (some t))
  higher-eq s t = rw (geb-eq t.config.priority s.config.priority) (ground arith)

  pub less-eq :
      (l : List (TaskHandle A)) (i j : ℕ)
      → i < length l
      → j < length l
      → less l i j ≡ ltb (up_at l j + dn_at l i) (up_at l i + dn_at l j)
  unfolding less up_at dn_at
  less-eq [] i j h k = absurd (omega arith)
  less-eq (x ∷ l) i j h k =
      rw (get_elem?-eq-get_or (x ∷ l) i x h, get_elem?-eq-get_or (x ∷ l) j x k)
        (higher-eq (get_or (x ∷ l) i x) (get_or (x ∷ l) j x))

  pub get_elem?-set :
      (l : List (TaskHandle A)) (i j : ℕ) (v : TaskHandle A)
      → i < length l
      → get_elem? (set l i v) j ≡ (if i == j then some v else get_elem? l j)
  get_elem?-set [] i j v h = absurd (omega arith)
  get_elem?-set (x ∷ l) zero zero v h = refl
  get_elem?-set (x ∷ l) zero (suc j) v h = ground arith
  get_elem?-set (x ∷ l) (suc i) zero v h = ground arith
  get_elem?-set (x ∷ l) (suc i) (suc j) v h = ground (arith, get_elem?-set l i j v)

  -- What holds for any default holds for a list that has an item.
  from_first :
      {P : Type 0} (l : List (TaskHandle A)) {i : ℕ} → i < length l → (TaskHandle A → P) → P
  from_first [] h f = absurd (omega arith)
  from_first (x ∷ l) h f = f x

  module _ (l : List (TaskHandle A)) (i j : ℕ) (h : i < length l) (k : j < length l) where
    module _ (d : TaskHandle A) where
      swap-eq : swap l i j ≡ set (set l i (get_or l j d)) j (get_or l i d)
      unfolding swap
      swap-eq = rw (get_elem?-eq-get_or l i d h, get_elem?-eq-get_or l j d k) refl

      get_elem?-swap_at :
          (c : ℕ)
          → get_elem? (swap l i j) c
            ≡ (if j == c then get_elem? l i else if i == c then get_elem? l j else get_elem? l c)
      get_elem?-swap_at c =
          rw
            (
              swap-eq,
              get_elem?-set (set l i (get_or l j d)) j c (get_or l i d) (rw length-set k),
              get_elem?-set l i c (get_or l j d) h,
              get_elem?-eq-get_or l i d h,
              get_elem?-eq-get_or l j d k,
            )
            refl

      swap-perm_at : Perm (swap l i j) l
      swap-perm_at =
          let kept : get_or (set l i (get_or l j d)) j d ≡ get_or l j d = kept_at in
          let second =
            rw kept at (set-perm (set l i (get_or l j d)) j (get_or l i d) d (rw length-set k)) in
          rw swap-eq (Perm.cons_inv (Perm.trans second (set-perm l i (get_or l j d) d h)))
        where
          kept_at : get_or (set l i (get_or l j d)) j d ≡ get_or l j d
          kept_at = elim (ℕ_discrete i j) [
            | yes e ↦ rw e (get_or-set_self l j (get_or l j d) d k)
            | no ne ↦ get_or-set_ne l i j (get_or l j d) d ne
          ]

  module _ (l : List (TaskHandle A)) (i j : ℕ) (h : i < length l) (k : j < length l) where
    pub get_elem?-swap :
        (c : ℕ)
        → get_elem? (swap l i j) c
          ≡ (if j == c then get_elem? l i else if i == c then get_elem? l j else get_elem? l c)
    get_elem?-swap c = from_first l h (λ d. get_elem?-swap_at l i j h k d c)

    pub swap-perm : Perm (swap l i j) l
    swap-perm = from_first l h (swap-perm_at l i j h k)

    pub up_at-swap :
        (c : ℕ)
        → up_at (swap l i j) c
          ≡ (if j == c then up_at l i else if i == c then up_at l j else up_at l c)
    unfolding up_at
    up_at-swap c = rw (get_elem?-swap c) (ground arith)

    pub dn_at-swap :
        (c : ℕ)
        → dn_at (swap l i j) c
          ≡ (if j == c then dn_at l i else if i == c then dn_at l j else dn_at l c)
    unfolding dn_at
    dn_at-swap c = rw (get_elem?-swap c) (ground arith)

  -- `k` holds the items of `l`, with the first `n` in order and the others where they were.
  abbrev pub Sifted : ℕ → List (TaskHandle A) → List (TaskHandle A) → Type 0
  Sifted n l k = Ordered n k × Perm k l × ((c : ℕ) → n ≤ c → get_elem? k c ≡ get_elem? l c)

  pub Sifted-swap :
      (n : ℕ) (l : List (TaskHandle A)) (i j : ℕ) {k : List (TaskHandle A)}
      → i < n
      → j < n
      → n ≤ length l
      → Sifted n (swap l i j) k
      → Sifted n l k
  Sifted-swap n l i j h h' m (ordered, same, kept) =
      let hi : i < length l = omega arith in
      let hj : j < length l = omega arith in
      (
        ordered,
        Perm.trans same (swap-perm l i j hi hj),
        λ c q. kept c q ∙ get_elem?-swap l i j hi hj c ∙ ground arith,
      )
