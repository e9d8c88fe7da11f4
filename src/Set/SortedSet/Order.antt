-- ===== src/Set/SortedSet/Order.antt =====
-- set/sortedset.go: the position that Add searches for keeps the slice in order.
use fyer_kit.Prelude.{
  ℕ, zero, suc, ◌≤◌, ◌<◌, ◌≡◌, refl, ◌∙◌, Bool, true, false, List, [], ◌∷◌, arith, ltb, leb,
  if-intro, length, get_or, Bool-cases, lt→ltb, inl, inr,
}
use fyer_kit.Set.SortedSet.{insert_at}

-- The comparator is a strict weak order.
pub record IsOrder {A : Type 0} (less : A → A → Bool) : Type 0 where
  pub asymmetric : (x y : A) → less x y ≡ true → less y x ≡ false
  pub extends : (x y z : A) → less x y ≡ true → less z y ≡ false → less x z ≡ true

-- sort.Search finds the first index at which a test that stays true once it is true holds.
pub record IsSearch (search : ℕ → (ℕ → Bool) → ℕ) : Type 0 where
  pub first :
      (n : ℕ) (f : ℕ → Bool)
      → ((i j : ℕ) → i ≤ j → j < n → f i ≡ true → f j ≡ true)
      → (i : ℕ) → i < n
      → f i ≡ leb (search n f) i

-- The two cases of the insertion, along the slice.
pub insert_at-zero {ℓ} : {A : Type ℓ} (x : A) (xs : List A) → insert_at 0 x xs ≡ x ∷ xs
unfolding insert_at
insert_at-zero x [] = refl
insert_at-zero x (y ∷ ys) = rw (lt→ltb 0 (length (y ∷ ys)) (omega arith)) refl

pub insert_at-nil {ℓ} : {A : Type ℓ} (i : ℕ) (x : A) → insert_at i x [] ≡ x ∷ []
unfolding insert_at
insert_at-nil zero x = refl
insert_at-nil (suc i) x =
    if-intro (λ l. l ≡ x ∷ []) (ltb (suc i) 0) (λ e. absurd (ground (arith, e))) (λ _. refl)

pub insert_at-suc {ℓ} :
    {A : Type ℓ} (i : ℕ) (x y : A) (ys : List A)
    → insert_at (suc i) x (y ∷ ys) ≡ y ∷ insert_at i x ys
unfolding insert_at
insert_at-suc i x y ys = elim (Bool-cases (ltb i (length ys))) [
  | inl e ↦ let e' : ltb (suc i) (length (y ∷ ys)) ≡ true = ground (arith, e) in simp (e, e') refl
  | inr e ↦ let e' : ltb (suc i) (length (y ∷ ys)) ≡ false = ground (arith, e) in simp (e, e') refl
]

module _ {A : Type 0} (less : A → A → Bool) where
  -- No element of the list comes before the given one.
  abbrev pub NoneBefore : A → List A → Type 0
  NoneBefore x [] = Unit
  NoneBefore x (y ∷ ys) = (less y x ≡ false) × NoneBefore x ys

  abbrev pub IsOrdered : List A → Type 0
  IsOrdered [] = Unit
  IsOrdered (x ∷ xs) = NoneBefore x xs × IsOrdered xs

  NoneBefore-get_or :
      (x z : A) (xs : List A) (i : ℕ)
      → NoneBefore x xs
      → i < length xs
      → less (get_or xs i z) x ≡ false
  NoneBefore-get_or x z [] i h lt = absurd (omega arith)
  NoneBefore-get_or x z (y ∷ ys) zero h lt = h.0
  NoneBefore-get_or x z (y ∷ ys) (suc i) h lt = NoneBefore-get_or x z ys i h.1 (omega arith)

  module _ (O : IsOrder less) (z : A) where
    -- A test for what comes behind an element stays true along an ordered slice.
    stays :
        (x : A) (xs : List A)
        → IsOrdered xs
        → (i j : ℕ) → i ≤ j
        → j < length xs
        → less x (get_or xs i z) ≡ true
        → less x (get_or xs j z) ≡ true
    stays x [] o i j le lt h = absurd (omega arith)
    stays x (y ∷ ys) o zero zero le lt h = h
    stays x (y ∷ ys) o zero (suc j) le lt h =
        O.extends x y (get_or ys j z) h (NoneBefore-get_or y z ys j o.0 (omega arith))
    stays x (y ∷ ys) o (suc i) zero le lt h = absurd (omega arith)
    stays x (y ∷ ys) o (suc i) (suc j) le lt h = stays x ys o.1 i j (omega arith) (omega arith) h

    insert_at-NoneBefore :
        (y x : A) (i : ℕ) (xs : List A)
        → less x y ≡ false
        → NoneBefore y xs
        → NoneBefore y (insert_at i x xs)
    insert_at-NoneBefore y x zero xs h n = rw (insert_at-zero x xs) (h, n)
    insert_at-NoneBefore y x (suc i) [] h n = rw (insert_at-nil (suc i) x) (h, tt)
    insert_at-NoneBefore y x (suc i) (w ∷ ws) h n =
        rw (insert_at-suc i x w ws) (n.0, insert_at-NoneBefore y x i ws h n.1)

    -- Behind every element, if each of them comes later.
    NoneBefore-all :
        (x : A) (xs : List A)
        → ((j : ℕ) → j < length xs → less x (get_or xs j z) ≡ true)
        → NoneBefore x xs
    NoneBefore-all x [] h = tt
    NoneBefore-all x (y ∷ ys) h = (
      O.asymmetric x y (h 0 (omega arith)),
      NoneBefore-all x ys (λ j lt. h (suc j) (omega arith)),
    )

    insert_at-IsOrdered :
        (x : A) (i : ℕ) (xs : List A)
        → IsOrdered xs
        → ((j : ℕ) → j < length xs → less x (get_or xs j z) ≡ leb i j)
        → IsOrdered (insert_at i x xs)
    insert_at-IsOrdered x zero xs o h =
        rw (insert_at-zero x xs) (NoneBefore-all x xs (λ j lt. h j lt ∙ ground arith), o)
    insert_at-IsOrdered x (suc i) [] o h = rw (insert_at-nil (suc i) x) (tt, tt)
    insert_at-IsOrdered x (suc i) (y ∷ ys) o h = rw (insert_at-suc i x y ys) (
      insert_at-NoneBefore y x i ys (h 0 (omega arith) ∙ ground arith) o.0,
      insert_at-IsOrdered x i ys o.1 (λ j lt. h (suc j) (omega arith) ∙ ground arith),
    )

    -- The position that the search finds for an element keeps an ordered slice ordered.
    pub search-IsOrdered :
        (search : ℕ → (ℕ → Bool) → ℕ) (x : A) (xs : List A)
        → IsSearch search
        → IsOrdered xs
        → IsOrdered (insert_at (search (length xs) (λ i. less x (get_or xs i z))) x xs)
    search-IsOrdered search x xs found o =
        insert_at-IsOrdered x _ xs o
          (found.first (length xs) (λ i. less x (get_or xs i z)) (stays x xs o))
