-- ===== src/Slice/Atomic.antt =====
-- slice/atomic.go: the methods of SafeSlice that read and write under one lock.
use fyer_kit.Prelude.{
  Bool, true, false, List, [], ◌∷◌, ◌++◌, none, some, ◌==◌, if◌then◌else◌, length, get_or, set,
}
use fyer_kit.Prelude.Word.{ℤ, pos, negsuc, check_index}
use fyer_kit.Slice.{SafeSlice, remove_at}

module _ {ℓ} {A : Type ℓ} where
  -- The loop of FindAndUpdate.
  unfoldable pub update_first : (A → Bool) → (A → A) → List A → Bool × List A
  update_first predicate f [] = (false, [])
  update_first predicate f (x ∷ xs) =
      let (found, ys) = update_first predicate f xs in
      if predicate x then (true, f x ∷ xs) else (found, x ∷ ys)

  unfoldable pub find_and_update : (A → Bool) → (A → A) → SafeSlice A → Bool × SafeSlice A
  find_and_update predicate f s =
      let (found, ys) = update_first predicate f s.items in (found, record { items = ys })

module _ {ℓ} {A : Type ℓ} (zero_value : A) where
  unfoldable pub compare_and_swap : ℤ → A → A → (A → A → Bool) → SafeSlice A → Bool × SafeSlice A
  compare_and_swap i expected v equals s = elim (check_index i (length s.items)) [
    | none ↦ (false, s)
    | some k ↦
        if equals (get_or s.items k zero_value) expected
        then (true, record { items = set s.items k v })
        else (false, s)
  ]

  unfoldable pub atomic_update : ℤ → (A → A) → SafeSlice A → Bool × SafeSlice A
  atomic_update i f s = elim (check_index i (length s.items)) [
    | none ↦ (false, s)
    | some k ↦ (true, record { items = set s.items k (f (get_or s.items k zero_value)) })
  ]

  unfoldable pub compare_and_delete : ℤ → A → (A → A → Bool) → SafeSlice A → Bool × SafeSlice A
  compare_and_delete i expected equals s = elim (check_index i (length s.items)) [
    | none ↦ (false, s)
    | some k ↦
        if equals (get_or s.items k zero_value) expected
        then (true, record { items = remove_at k s.items })
        else (false, s)
  ]

  -- `index == len(s.items)`, where the index is out of range.
  unfoldable pub compute_at_end : ℤ → A → SafeSlice A → (A × Bool) × SafeSlice A
  compute_at_end (pos i) v s =
      if i == length s.items
      then ((v, true), record { items = s.items ++ v ∷ [] })
      else ((zero_value, false), s)
  compute_at_end (negsuc i) v s = ((zero_value, false), s)

  unfoldable pub get_or_compute : ℤ → (Unit {0} → A) → SafeSlice A → (A × Bool) × SafeSlice A
  unfolding compute_at_end
  get_or_compute i compute s = elim (check_index i (length s.items)) [
    | none ↦ compute_at_end i (compute tt) s
    | some k ↦ ((get_or s.items k zero_value, false), s)
  ]
