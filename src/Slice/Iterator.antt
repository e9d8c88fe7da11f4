-- ===== src/Slice/Iterator.antt =====
-- slice/iterator.go: Iterator, which reads a snapshot of the slice (ToSlice), and Map.
use fyer_kit.Prelude.{ℕ, suc, Bool, true, false, not, List, [], ◌∷◌, if◌then◌else◌}
use fyer_kit.Slice.{SafeSlice, new_slice, append_items, to_slice}

module _ {ℓ} {A : Type ℓ} where
  -- The calls that ForEach makes, in order: each index and item once.
  unfoldable pub for_each_from : ℕ → List A → List (ℕ × A)
  for_each_from i [] = []
  for_each_from i (x ∷ xs) = (i, x) ∷ for_each_from (suc i) xs

  unfoldable pub for_each : SafeSlice A → List (ℕ × A)
  unfolding to_slice
  for_each s = for_each_from 0 (to_slice s)

  -- The loop of Find; `zero_value` is the zero value of the element type.
  unfoldable pub find_in : A → (A → Bool) → List A → A × Bool
  find_in zero_value predicate [] = (zero_value, false)
  find_in zero_value predicate (x ∷ xs) =
      let later = find_in zero_value predicate xs in if predicate x then (x, true) else later

  unfoldable pub find : A → (A → Bool) → SafeSlice A → A × Bool
  find zero_value predicate s = find_in zero_value predicate (to_slice s)

  -- The loop of Filter, which appends to the result one by one.
  unfoldable pub filter_into : (A → Bool) → List A → SafeSlice A → SafeSlice A
  filter_into predicate [] result = result
  filter_into predicate (x ∷ xs) result =
      filter_into predicate xs (if predicate x then append_items (x ∷ []) result else result)

  unfoldable pub filter : (A → Bool) → SafeSlice A → SafeSlice A
  filter predicate s = filter_into predicate (to_slice s) new_slice

  unfoldable pub any : A → (A → Bool) → SafeSlice A → Bool
  any zero_value predicate s = (find zero_value predicate s).1

  -- The loop of All.
  unfoldable pub all_in : (A → Bool) → List A → Bool
  all_in predicate [] = true
  all_in predicate (x ∷ xs) =
      let later = all_in predicate xs in if not (predicate x) then false else later

  unfoldable pub all : (A → Bool) → SafeSlice A → Bool
  all predicate s = all_in predicate (to_slice s)

module _ {ℓ κ} {A : Type ℓ} {R : Type κ} where
  -- The loop of Map.
  unfoldable pub map_into : (A → R) → List A → SafeSlice R → SafeSlice R
  map_into mapper [] result = result
  map_into mapper (x ∷ xs) result = map_into mapper xs (append_items (mapper x ∷ []) result)

  unfoldable pub map : (A → R) → SafeSlice A → SafeSlice R
  map mapper s = map_into mapper (to_slice s) new_slice
