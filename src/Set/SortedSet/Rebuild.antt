-- ===== src/Set/SortedSet/Rebuild.antt =====
-- set/sortedset.go: AddAll, RemoveAll and RetainAll, which change the map and sort the slice again.
use fyer_kit.Prelude.{
  ℕ, suc, ◌+◌, ◌≤◌, ◌≡◌, refl, sym, ap, ◌∙◌, Bool, true, false, not, ◌&&◌, ◌||◌, List, [], ◌∷◌,
  arith, ◌==◌, if◌then◌else◌, if-intro, length, Bool-cases, inl, inr,
}
use fyer_kit.Set.HashSet.{has_key, put_key, put_keys, missing_from, delete_keys}
use fyer_kit.Set.HashSet.Member.{IsEquality, equal-eq, has_key-put_key}
use fyer_kit.Set.HashSet.Count.{
  IsMap, has_key-put_keys, has_key-missing_from, missing_from-IsMap, delete_keys_lem, put_key-IsMap,
}
use fyer_kit.Set.HashSet.Batch.{IsRange}
use fyer_kit.Set.SortedSet.{
  SortedSet, contains, put_new, mark, sort_again, add_all, remove_all, retain_all, size,
}
use fyer_kit.Set.SortedSet.Order.{IsOrdered}
use fyer_kit.Set.SortedSet.Keep.{IsSorted}

-- sort.Slice leaves the same elements in order.
pub record IsSort {A : Type 0} (equal less : A → A → Bool) (sort : (A → A → Bool) → List A → List A)
    : Type 0 where
  pub orders : (xs : List A) → IsOrdered less (sort less xs)
  pub same_keys : (x : A) (xs : List A) → has_key equal x (sort less xs) ≡ has_key equal x xs
  pub same_once : (xs : List A) → IsMap equal xs → IsMap equal (sort less xs)

module _ {A : Type 0} (equal : A → A → Bool) where
  -- How many entries of the first list are in the second, each repetition counted.
  pub entries_in : List A → List A → ℕ
  entries_in [] items = 0
  entries_in (x ∷ xs) items =
      let rest = entries_in xs items in if has_key equal x items then suc rest else rest

module _ {A : Type 0} (equal : A → A → Bool) (E : IsEquality equal) where
  put_new_lem :
      (xs : List A) (count : ℕ) (items : List A)
      → IsMap equal items
      → let (n, ys) = put_new equal xs count items in
        IsMap equal ys
        × (n + length items ≡ count + length ys)
        × ((y : A) → has_key equal y ys ≡ (has_key equal y xs || has_key equal y items))
  unfolding put_new has_key
  put_new_lem [] count items m = (m, refl, λ y. refl)
  put_new_lem (x ∷ xs) count items m = elim (Bool-cases (has_key equal x items)) [
    | inl h ↦
        let (m', n, c) = put_new_lem xs count items m in
        simp h (
          m',
          n,
          λ y.
              c y
              ∙ ground (
                arith,
                h,
                λ (e : equal y x ≡ true). equal-eq equal E y x e (λ t. has_key equal t items),
              ),
        )
    | inr h ↦
        let (m', n, c) = put_new_lem xs (count + 1) (x ∷ items) (h, m) in
        simp h (m', omega (arith, n), λ y. c y ∙ ground arith)
  ]

  put_new-grows :
      (xs : List A) (count : ℕ) (items : List A) → count ≤ (put_new equal xs count items).0
  unfolding put_new
  put_new-grows [] count items = omega arith
  put_new-grows (x ∷ xs) count items = elim (Bool-cases (has_key equal x items)) [
    | inl h ↦ simp h (put_new-grows xs count items)
    | inr h ↦ simp h (omega (arith, put_new-grows xs (count + 1) (x ∷ items)))
  ]

  -- A count that stands still means a map that stands still.
  put_new-idle :
      (xs : List A) (count : ℕ) (items : List A)
      → (put_new equal xs count items).0 ≡ count
      → (put_new equal xs count items).1 ≡ items
  unfolding put_new
  put_new-idle [] count items = λ e. refl
  put_new-idle (x ∷ xs) count items = elim (Bool-cases (has_key equal x items)) [
    | inl h ↦ simp h (put_new-idle xs count items)
    | inr h ↦ simp h (λ e. absurd (omega (arith, e, put_new-grows xs (count + 1) (x ∷ items))))
  ]

  mark_lem :
      (xs : List A) (removed : ℕ) (to_remove items : List A)
      → IsMap equal to_remove
      → let (n, ys) = mark equal xs removed to_remove items in
        IsMap equal ys
        × (n ≡ removed + entries_in equal xs items)
        × ((y : A)
            → has_key equal y ys
              ≡ ((has_key equal y xs && has_key equal y items) || has_key equal y to_remove))
  unfolding mark has_key entries_in
  mark_lem [] removed to_remove items m = (m, omega arith, λ y. refl)
  mark_lem (x ∷ xs) removed to_remove items m = elim (Bool-cases (has_key equal x items)) [
    | inl h ↦
        let (m', n, c) =
          mark_lem xs (removed + 1) (put_key equal x to_remove) items
            (put_key-IsMap equal E x to_remove m) in
        simp h (
          m',
          omega (arith, n),
          λ y.
              c y
              ∙ ground (
                arith,
                h,
                has_key-put_key equal E y x to_remove,
                λ (e : equal y x ≡ true). equal-eq equal E y x e (λ t. has_key equal t items),
              ),
        )
    | inr h ↦
        let (m', n, c) = mark_lem xs removed to_remove items m in
        simp h (
          m',
          n,
          λ y.
              c y
              ∙ ground (
                arith,
                h,
                λ (e : equal y x ≡ true). equal-eq equal E y x e (λ t. has_key equal t items),
              ),
        )
  ]

  -- Where no entry is in the list, none of the keys is.
  entries_in-none :
      (xs items : List A) (y : A)
      → entries_in equal xs items ≡ 0
      → (has_key equal y xs && has_key equal y items) ≡ false
  unfolding has_key entries_in
  entries_in-none [] items y h = refl
  entries_in-none (x ∷ xs) items y h = elim (Bool-cases (has_key equal x items)) [
    | inl e ↦ absurd (ground (arith, e, h))
    | inr e ↦ ground (
      arith,
      e,
      h,
      entries_in-none xs items y,
      λ (f : equal y x ≡ true). equal-eq equal E y x f (λ t. has_key equal t items),
    )
  ]

  module _ (less : A → A → Bool) (sort : (A → A → Bool) → List A → List A) (visit : List A → List A)
      (sorts : IsSort equal less sort) (range : IsRange equal visit) where
    sort_again-IsSorted :
        (items : List A)
        → IsMap equal items
        → IsSorted equal less (sort_again equal less sort visit items)
    unfolding sort_again
    sort_again-IsSorted items m = record {
      is_map = m;
      once = sorts.same_once (visit items) (range.once items m);
      same = λ x. sorts.same_keys x (visit items) ∙ range.complete x items;
      ordered = sorts.orders (visit items);
    }

    -- If sort.Slice puts a list in order and keeps its keys, and a range passes each key of the
    -- map once: AddAll on a sorted set leaves a sorted set of its elements and the given ones,
    -- and returns by how many it grew, also where an element is given twice.
    pub add_all-IsSorted :
        (xs : List A) (s : SortedSet A) (y : A)
        → IsSorted equal less s
        → let (n, t) = add_all equal less sort visit xs s in
          IsSorted equal less t
          × (n + size s ≡ size t)
          × (contains equal y t ≡ (has_key equal y xs || contains equal y s))
    unfolding add_all contains size
    add_all-IsSorted xs s y v =
        let (m, n, c) = put_new_lem xs 0 s.items v.is_map in
        if-intro
          (λ (r : ℕ × SortedSet A).
            IsSorted equal less r.1
            × (r.0 + length s.items ≡ length r.1.items)
            × (has_key equal y r.1.items ≡ (has_key equal y xs || has_key equal y s.items)))
          ((put_new equal xs 0 s.items).0 == 0)
          (λ e. (
            v,
            omega arith,
            ap (has_key equal y) (sym (put_new-idle xs 0 s.items (ground (arith, e)))) ∙ c y,
          ))
          λ _. (
            sort_again-IsSorted _ m,
            unfold sort_again in omega (arith, n),
            unfold sort_again in c y,
          )

    -- If sort.Slice puts a list in order and keeps its keys, and a range passes each key of the
    -- map once: RemoveAll on a sorted set leaves a sorted set of its elements that are not given.
    -- What it returns is the number of given entries that were in the set, an element that is
    -- given twice counted twice.
    pub remove_all-IsSorted :
        (xs : List A) (s : SortedSet A) (y : A)
        → IsSorted equal less s
        → let (n, t) = remove_all equal less sort visit xs s in
          IsSorted equal less t
          × (n ≡ entries_in equal xs s.items)
          × (contains equal y t ≡ (contains equal y s && not (has_key equal y xs)))
    unfolding remove_all contains
    remove_all-IsSorted xs s y v =
        let (m, n, c) = mark_lem xs 0 [] s.items tt in
        let (m', gone, d) =
          delete_keys_lem equal E (mark equal xs 0 [] s.items).1 s.items m v.is_map
            λ x e. ground (arith, e, c x, nothing x) in
        let left : has_key equal y (delete_keys equal (mark equal xs 0 [] s.items).1 s.items)
            ≡ (has_key equal y s.items && not (has_key equal y xs)) =
          d y ∙ ground (arith, c y, nothing y) in
        if-intro
          (λ (r : ℕ × SortedSet A).
            IsSorted equal less r.1
            × (r.0 ≡ entries_in equal xs s.items)
            × (has_key equal y r.1.items ≡ (has_key equal y s.items && not (has_key equal y xs))))
          ((mark equal xs 0 [] s.items).0 == 0)
          (λ e. (v, ground (arith, e, n), ground (arith, e, n, entries_in-none xs s.items y)))
          λ _. (sort_again-IsSorted _ m', n ∙ omega arith, unfold sort_again in left)
      where
        nothing : (x : A) → has_key equal x [] ≡ false
        nothing x = unfold has_key in refl

    -- If sort.Slice puts a list in order and keeps its keys, and a range passes each key of the
    -- map once: RetainAll on a sorted set leaves a sorted set of its elements that are given, and
    -- returns by how many it shrank.
    pub retain_all-IsSorted :
        (xs : List A) (s : SortedSet A) (y : A)
        → IsSorted equal less s
        → let (n, t) = retain_all equal less sort visit xs s in
          IsSorted equal less t
          × (n + size t ≡ size s)
          × (contains equal y t ≡ (contains equal y s && has_key equal y xs))
    unfolding retain_all contains size
    retain_all-IsSorted xs s y v =
        let (m, n, d) =
          delete_keys_lem equal E gone s.items
            (missing_from-IsMap equal E retain (visit s.items) (range.once s.items v.is_map))
            v.is_map λ x e. ground (arith, e, is_gone x, range.complete x s.items) in
        if-intro
          (λ (r : ℕ × SortedSet A).
            IsSorted equal less r.1
            × (r.0 + length r.1.items ≡ length s.items)
            × (has_key equal y r.1.items ≡ (has_key equal y s.items && has_key equal y xs)))
          (length gone == 0)
          (λ e. (
            v,
            omega arith,
            ground (arith, empty gone e, is_gone y, is_kept, range.complete y s.items),
          ))
          λ _. (
            sort_again-IsSorted _ m,
            unfold sort_again in n,
            unfold sort_again in
                (d y ∙ ground (arith, is_gone y, is_kept, range.complete y s.items)),
          )
      where
        retain : List A
        retain = put_keys equal xs []

        gone : List A
        gone = missing_from equal retain (visit s.items)

        is_gone :
            (x : A)
            → has_key equal x gone
              ≡ (has_key equal x (visit s.items) && not (has_key equal x retain))
        is_gone x = has_key-missing_from equal E retain (visit s.items) x

        is_kept : has_key equal y retain ≡ has_key equal y xs
        is_kept = has_key-put_keys equal E xs [] y ∙ unfold has_key in ground arith

        empty : (l : List A) → (length l == 0) ≡ true → has_key equal y l ≡ false
        empty [] e = unfold has_key in refl
        empty (x ∷ l) e = absurd (ground (arith, e))
