-- ===== src/Slice/Access.antt =====
-- slice/iterator.go and slice/slice.go: Filter, Find, Any, All and Map against each other and against Get.
use fyer_kit.Prelude.{
  ◌≡◌, refl, sym, ap, ◌∙◌, Bool, true, not, List, [], ◌∷◌, ◌++◌, if◌then◌else◌, inl, inr,
  Bool-cases,
}
use fyer_kit.Slice.{SafeSlice, new_slice, append_items, to_slice}
use fyer_kit.Slice.Iterator.{find_in, find, filter_into, filter, any, all_in, all}

module _ {ℓ} {A : Type ℓ} where
  -- The elements that the predicate accepts.
  pub accepted : (A → Bool) → List A → List A
  accepted p [] = []
  accepted p (x ∷ xs) = let rest = accepted p xs in if p x then x ∷ rest else rest

  append-snoc : (xs : List A) (x : A) (ys : List A) → (xs ++ x ∷ []) ++ ys ≡ xs ++ x ∷ ys
  append-snoc [] x ys = refl
  append-snoc (y ∷ xs) x ys = ap (y ∷◌) (append-snoc xs x ys)

  append-nil : (xs : List A) → xs ++ [] ≡ xs
  append-nil [] = refl
  append-nil (x ∷ xs) = ap (x ∷◌) (append-nil xs)

  filter_into-accepted :
      (p : A → Bool) (xs : List A) (result : SafeSlice A)
      → (filter_into p xs result).items ≡ result.items ++ accepted p xs
  unfolding filter_into accepted append_items
  filter_into-accepted p [] result = sym (append-nil result.items)
  filter_into-accepted p (x ∷ xs) result = elim (Bool-cases (p x)) [
    | inl e ↦ simp e (
        filter_into-accepted p xs (append_items (x ∷ []) result)
        ∙ append-snoc result.items x (accepted p xs))
    | inr e ↦ simp e (filter_into-accepted p xs result)
  ]

  filter-accepted : (p : A → Bool) (s : SafeSlice A) → (filter p s).items ≡ accepted p s.items
  unfolding filter to_slice new_slice
  filter-accepted p s = filter_into-accepted p s.items new_slice

  all_in-accepted : (p : A → Bool) (xs : List A) → all_in p (accepted p xs) ≡ true
  unfolding all_in accepted
  all_in-accepted p [] = refl
  all_in-accepted p (x ∷ xs) = elim (Bool-cases (p x)) [
    | inl e ↦ rw e (rw e (all_in-accepted p xs))
    | inr e ↦ rw e (all_in-accepted p xs)
  ]

  find_in-accepted :
      (z : A) (p : A → Bool) (xs : List A) → find_in z p (accepted p xs) ≡ find_in z p xs
  unfolding find_in accepted
  find_in-accepted z p [] = refl
  find_in-accepted z p (x ∷ xs) = elim (Bool-cases (p x)) [
    | inl e ↦ simp e refl
    | inr e ↦ simp e (find_in-accepted z p xs)
  ]

  find_in-all_in :
      (z : A) (p : A → Bool) (xs : List A) → (find_in z p xs).1 ≡ not (all_in (λ x. not (p x)) xs)
  unfolding find_in all_in
  find_in-all_in z p [] = refl
  find_in-all_in z p (x ∷ xs) = elim (Bool-cases (p x)) [
    | inl e ↦ simp e refl
    | inr e ↦ simp e (find_in-all_in z p xs)
  ]

  -- Filter keeps exactly the accepted elements, in order: every element of the result is accepted (All),
  -- Find answers the same on the result as on the slice; and Any holds just when not every
  -- element is refused.
  pub filter-all-any :
      (zero_value : A) (p : A → Bool) (s : SafeSlice A)
      → ((filter p s).items ≡ accepted p s.items)
        × (all p (filter p s) ≡ true)
        × (find zero_value p (filter p s) ≡ find zero_value p s)
        × (any zero_value p s ≡ not (all (λ x. not (p x)) s))
  unfolding all find any to_slice
  filter-all-any z p s = (
    filter-accepted p s,
    rw (filter-accepted p s) (all_in-accepted p s.items),
    rw (filter-accepted p s) (find_in-accepted z p s.items),
    find_in-all_in z p s.items,
  )
