-- ===== src/Set/SortedSet/Keep.antt =====
-- set/sortedset.go: every operation keeps the slice in order and equal to the map, as sets of keys.
use fyer_kit.Prelude.{
  ℕ, zero, suc, ◌≡◌, refl, sym, ap, ◌∙◌, Bool, true, false, not, ◌&&◌, ◌||◌, List, [], ◌∷◌, arith,
  if-intro, length, get_or, Bool-cases, inl, inr,
}
use fyer_kit.Set.HashSet.{has_key, delete_key}
use fyer_kit.Set.HashSet.Member.{IsEquality, equal-eq, equal-sym, has_key-delete_key}
use fyer_kit.Set.HashSet.Count.{IsMap, delete_key-IsMap}
use fyer_kit.Set.SortedSet.{SortedSet, insert_at, contains, remove_first, remove, add}
use fyer_kit.Set.SortedSet.Order.{
  IsOrder, IsSearch, NoneBefore, IsOrdered, insert_at-zero, insert_at-nil, insert_at-suc,
  search-IsOrdered,
}

-- The map and the slice hold the same keys, each once, and the slice is in order.
pub record IsSorted {A : Type 0} (equal less : A → A → Bool) (s : SortedSet A) : Type 0 where
  pub is_map : IsMap equal s.items
  pub once : IsMap equal s.elements
  pub same : (x : A) → has_key equal x s.elements ≡ has_key equal x s.items
  pub ordered : IsOrdered less s.elements

module _ {A : Type 0} (equal : A → A → Bool) (E : IsEquality equal) where
  pub has_key-insert_at :
      (x y : A) (i : ℕ) (xs : List A)
      → has_key equal x (insert_at i y xs) ≡ (equal x y || has_key equal x xs)
  unfolding has_key
  has_key-insert_at x y zero xs = rw (insert_at-zero y xs) refl
  has_key-insert_at x y (suc i) [] = rw (insert_at-nil (suc i) y) refl
  has_key-insert_at x y (suc i) (z ∷ zs) =
      rw (insert_at-suc i y z zs) (ap (equal x z ||◌) (has_key-insert_at x y i zs) ∙ ground arith)

  pub insert_at-IsMap :
      (y : A) (i : ℕ) (xs : List A)
      → IsMap equal xs
      → has_key equal y xs ≡ false
      → IsMap equal (insert_at i y xs)
  unfolding has_key
  insert_at-IsMap y zero xs m h = rw (insert_at-zero y xs) (h, m)
  insert_at-IsMap y (suc i) [] m h = rw (insert_at-nil (suc i) y) (refl, tt)
  insert_at-IsMap y (suc i) (z ∷ zs) m h = rw (insert_at-suc i y z zs) (
    has_key-insert_at z y i zs ∙ ground (arith, m.0, h, equal-sym equal E z y),
    insert_at-IsMap y i zs m.1 (ground (arith, h)),
  )

  has_key-remove_first :
      (x y : A) (xs : List A)
      → IsMap equal xs
      → has_key equal x (remove_first equal y xs) ≡ (has_key equal x xs && not (equal y x))
  unfolding has_key remove_first
  has_key-remove_first x y [] m = refl
  has_key-remove_first x y (z ∷ zs) m =
      if-intro (λ l. has_key equal x l ≡ ((equal x z || has_key equal x zs) && not (equal y x)))
        (equal z y)
        (λ e.
          unfold has_key in
          ground (
            arith,
            e,
            m.0,
            equal-sym equal E x z,
            equal-sym equal E x y,
            equal-eq equal E z y e (λ t. equal t x),
            λ (f : equal x z ≡ true). equal-eq equal E x z f (λ t. has_key equal t zs),
          ))
        (λ e.
          unfold has_key in
          ground (
            arith,
            e,
            has_key-remove_first x y zs m.1,
            equal-sym equal E x y,
            λ (f : equal x z ≡ true). equal-eq equal E x z f (λ t. equal t y),
          ))

  remove_first-IsMap :
      (y : A) (xs : List A) → IsMap equal xs → IsMap equal (remove_first equal y xs)
  unfolding remove_first
  remove_first-IsMap y [] m = tt
  remove_first-IsMap y (z ∷ zs) m =
      if-intro (IsMap equal) (equal z y) (λ _. m.1)
        λ _. (has_key-remove_first z y zs m.1 ∙ ground (arith, m.0), remove_first-IsMap y zs m.1)

  module _ (less : A → A → Bool) where
    remove_first-NoneBefore :
        (x y : A) (xs : List A) → NoneBefore less x xs → NoneBefore less x (remove_first equal y xs)
    unfolding remove_first
    remove_first-NoneBefore x y [] n = tt
    remove_first-NoneBefore x y (z ∷ zs) n =
        if-intro (NoneBefore less x) (equal z y) (λ _. n.1)
          λ _. (n.0, remove_first-NoneBefore x y zs n.1)

    remove_first-IsOrdered :
        (y : A) (xs : List A) → IsOrdered less xs → IsOrdered less (remove_first equal y xs)
    unfolding remove_first
    remove_first-IsOrdered y [] o = tt
    remove_first-IsOrdered y (z ∷ zs) o =
        if-intro (IsOrdered less) (equal z y) (λ _. o.1)
          λ _. (remove_first-NoneBefore z y zs o.0, remove_first-IsOrdered y zs o.1)

    add_present :
        (search : ℕ → (ℕ → Bool) → ℕ) (z x : A) (s : SortedSet A)
        → has_key equal x s.items ≡ true
        → add equal less search z x s ≡ (false, s)
    unfolding add
    add_present search z x s h = rw h refl

    add_absent :
        (search : ℕ → (ℕ → Bool) → ℕ) (z x : A) (s : SortedSet A)
        → has_key equal x s.items ≡ false
        → add equal less search z x s ≡ (
          true,
          record {
            items = x ∷ s.items;
            elements =
                insert_at
                  (search (length s.elements) (λ i. less x (get_or s.elements i z)))
                  x
                  s.elements;
          },
        )
    unfolding add
    add_absent search z x s h = rw h refl

    add_absent-IsSorted :
        (i : ℕ) (x : A) (s : SortedSet A)
        → IsSorted equal less s
        → has_key equal x s.items ≡ false
        → IsOrdered less (insert_at i x s.elements)
        → IsSorted equal less (record { items = x ∷ s.items; elements = insert_at i x s.elements })
    add_absent-IsSorted i x s v h o = record {
      is_map = (h, v.is_map);
      once = insert_at-IsMap x i s.elements v.once (v.same x ∙ h);
      same =
          λ y. has_key-insert_at y x i s.elements ∙ unfold has_key in ap (equal y x ||◌) (v.same y);
      ordered = o;
    }

    remove_present-IsSorted :
        (x : A) (s : SortedSet A)
        → IsSorted equal less s
        → IsSorted equal less (record {
          items = delete_key equal x s.items;
          elements = remove_first equal x s.elements;
        })
    remove_present-IsSorted x s v = record {
      is_map = delete_key-IsMap equal E x s.items v.is_map;
      once = remove_first-IsMap x s.elements v.once;
      same = λ y.
          has_key-remove_first y x s.elements v.once
          ∙ ap (◌&& not (equal x y)) (v.same y)
          ∙ sym (has_key-delete_key equal E y x s.items);
      ordered = remove_first-IsOrdered x s.elements v.ordered;
    }

    remove_present :
        (x : A) (s : SortedSet A)
        → has_key equal x s.items ≡ true
        → remove equal x s ≡ (
          true,
          record { items = delete_key equal x s.items; elements = remove_first equal x s.elements },
        )
    unfolding remove
    remove_present x s h = rw h refl

    remove_missing :
        (x : A) (s : SortedSet A) → has_key equal x s.items ≡ false → remove equal x s ≡ (false, s)
    unfolding remove
    remove_missing x s h = rw h refl

    -- If the comparator is a strict weak order and sort.Search finds the first index at which a
    -- test becomes and stays true: Add on a sorted set answers true just for an element that is
    -- not there, and leaves a sorted set of the elements and the new one.
    pub add-IsSorted :
        (search : ℕ → (ℕ → Bool) → ℕ) (z x y : A) (s : SortedSet A)
        → IsOrder less
        → IsSearch search
        → IsSorted equal less s
        → let (fresh, t) = add equal less search z x s in
          IsSorted equal less t
          × (fresh ≡ not (contains equal x s))
          × (contains equal y t ≡ (equal y x || contains equal y s))
    add-IsSorted search z x y s O found v = elim (Bool-cases (has_key equal x s.items)) [
      | inl h ↦ rw (add_present search z x s h) (
        v,
        unfold contains in rw h refl,
        unfold contains in
            ground (
              arith,
              h,
              λ (e : equal y x ≡ true). equal-eq equal E y x e (λ t. has_key equal t s.items),
            ),
      )
      | inr h ↦ rw (add_absent search z x s h) (
        add_absent-IsSorted _ x s v h
            (search-IsOrdered less O z search x s.elements found v.ordered),
        unfold contains in rw h refl,
        unfold contains has_key in refl,
      )
    ]

    -- Remove on a sorted set answers true just for an element that is there, and leaves a sorted
    -- set of the others.
    pub remove-IsSorted :
        (x y : A) (s : SortedSet A)
        → IsSorted equal less s
        → let (found, t) = remove equal x s in
          IsSorted equal less t
          × (found ≡ contains equal x s)
          × (contains equal y t ≡ (contains equal y s && not (equal x y)))
    remove-IsSorted x y s v = elim (Bool-cases (has_key equal x s.items)) [
      | inl h ↦ rw (remove_present x s h) (
        remove_present-IsSorted x s v,
        unfold contains in sym h,
        unfold contains in has_key-delete_key equal E y x s.items,
      )
      | inr h ↦ rw (remove_missing x s h) (
        v,
        unfold contains in sym h,
        unfold contains in
            ground (
              arith,
              h,
              λ (e : equal x y ≡ true). equal-eq equal E x y e (λ t. has_key equal t s.items),
            ),
      )
    ]
