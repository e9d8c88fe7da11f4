-- ===== src/Set/SortedSet.antt =====
-- set/sortedset.go: SortedSet, a map of keys with a slice of the same keys in order. `less` is its comparator,
-- `equal` Go's == on keys. `sort` is sort.Slice, `search` is sort.Search, and `visit` is the
-- order in which a range passes the keys of a map; `zero_value` fills in for a read out of range.
pub mod Order
pub mod Keep
pub mod Rebuild
mod Tests
use fyer_kit.Prelude.{
  ℕ, suc, ◌+◌, Bool, true, false, not, ◌||◌, List, [], ◌∷◌, ◌++◌, ltb, ◌==◌, if◌then◌else◌, length,
  get_or, take, drop,
}
use fyer_kit.Set.HashSet.{
  Other, has_key, delete_key, put_key, put_keys, missing_from, delete_keys, all_in,
}

pub record SortedSet {ℓ} (A : Type ℓ) : Type ℓ where
  pub items : List A
  pub elements : List A

unfoldable pub no_elements {ℓ} : {A : Type ℓ} → SortedSet A
no_elements = record { items = []; elements = [] }

-- `append(xs, x)`, with the copy that makes room at the position if it is not the end.
unfoldable pub insert_at {ℓ} : {A : Type ℓ} → ℕ → A → List A → List A
insert_at i x xs = if ltb i (length xs) then take i xs ++ x ∷ drop i xs else xs ++ x ∷ []

module _ {ℓ} {A : Type ℓ} (equal : A → A → Bool) where
  unfoldable pub contains : A → SortedSet A → Bool
  contains x s = has_key equal x s.items

  -- The loop that looks for the element's position, with the cut behind it.
  unfoldable pub remove_first : A → List A → List A
  remove_first x [] = []
  remove_first x (y ∷ ys) = let rest = remove_first x ys in if equal y x then ys else y ∷ rest

  unfoldable pub remove : A → SortedSet A → Bool × SortedSet A
  remove x s = if not (has_key equal x s.items) then (false, s) else (
    true,
    record { items = delete_key equal x s.items; elements = remove_first x s.elements },
  )

  -- The first loop of AddAll: the map fills up while new elements are counted.
  unfoldable pub put_new : List A → ℕ → List A → ℕ × List A
  put_new [] count items = (count, items)
  put_new (x ∷ xs) count items =
      let fresh = not (has_key equal x items) in
      put_new xs (if fresh then count + 1 else count) (if fresh then x ∷ items else items)

  -- The first loop of RemoveAll: the marks, and a count that goes up at each mark.
  unfoldable pub mark : List A → ℕ → List A → List A → ℕ × List A
  mark [] removed to_remove items = (removed, to_remove)
  mark (x ∷ xs) removed to_remove items =
      let found = has_key equal x items in
      mark xs (if found then removed + 1 else removed)
        (if found then put_key equal x to_remove else to_remove) items

  unfoldable pub contains_all : List A → SortedSet A → Bool
  contains_all [] s = true
  contains_all (x ∷ xs) s =
      let rest = contains_all xs s in if not (contains x s) then false else rest

module _ {ℓ} {A : Type ℓ} where
  unfoldable pub size : SortedSet A → ℕ
  size s = length s.items

  unfoldable pub clear : SortedSet A → SortedSet A
  clear s = no_elements

  unfoldable pub is_empty : SortedSet A → Bool
  is_empty s = length s.items == 0

  unfoldable pub to_slice : SortedSet A → List A
  to_slice s = s.elements

  unfoldable pub is_subset : SortedSet A → Other A → Bool
  is_subset s other =
      let rest = all_in other.has s.elements in if ltb other.count (size s) then false else rest

module _ {ℓ} {A : Type ℓ} (equal : A → A → Bool) where
  -- The other set as a SortedSet: its ForEach passes the slice on.
  unfoldable pub other_sorted : SortedSet A → Other A
  other_sorted s = record { has = λ x. contains equal x s; elements = s.elements; count = size s }

  unfoldable pub is_superset : SortedSet A → SortedSet A → Bool
  is_superset s other = is_subset other (other_sorted s)

module _ {ℓ} {A : Type ℓ} (equal less : A → A → Bool) (search : ℕ → (ℕ → Bool) → ℕ)
    (zero_value : A) where
  unfoldable pub add : A → SortedSet A → Bool × SortedSet A
  add x s = if has_key equal x s.items then (false, s) else (
    true,
    record {
      items = x ∷ s.items;
      elements =
          insert_at (search (length s.elements) (λ i. less x (get_or s.elements i zero_value))) x
            s.elements;
    },
  )

  -- The loops that add, of New and of the set operations.
  unfoldable pub add_where : (A → Bool) → List A → SortedSet A → SortedSet A
  add_where keep [] result = result
  add_where keep (x ∷ xs) result = add_where keep xs (if keep x then (add x result).1 else result)

  unfoldable pub new_sorted : List A → SortedSet A
  new_sorted xs = add_where (λ _. true) xs no_elements

  unfoldable pub union : SortedSet A → Other A → SortedSet A
  union s other =
      add_where (λ _. true) other.elements (add_where (λ _. true) s.elements (new_sorted []))

  unfoldable pub intersection : SortedSet A → Other A → SortedSet A
  intersection s other = add_where other.has s.elements (new_sorted [])

  unfoldable pub difference : SortedSet A → Other A → SortedSet A
  difference s other = add_where (λ x. not (other.has x)) s.elements (new_sorted [])

  unfoldable pub symmetric_difference : SortedSet A → Other A → SortedSet A
  symmetric_difference s other =
      difference (union s other) (other_sorted equal (intersection s other))

module _ {ℓ} {A : Type ℓ} (equal less : A → A → Bool) (sort : (A → A → Bool) → List A → List A)
    (visit : List A → List A) where
  -- The end of the batch operations: the slice is built again from the map.
  unfoldable pub sort_again : List A → SortedSet A
  sort_again items = record { items = items; elements = sort less (visit items) }

  unfoldable pub add_all : List A → SortedSet A → ℕ × SortedSet A
  add_all xs s =
      let (count, items) = put_new equal xs 0 s.items in
      if count == 0 then (0, s) else (count, sort_again items)

  unfoldable pub remove_all : List A → SortedSet A → ℕ × SortedSet A
  remove_all xs s =
      let (removed, to_remove) = mark equal xs 0 [] s.items in
      if removed == 0 then (0, s) else (removed, sort_again (delete_keys equal to_remove s.items))

  unfoldable pub retain_all : List A → SortedSet A → ℕ × SortedSet A
  retain_all xs s =
      let to_remove = missing_from equal (put_keys equal xs []) (visit s.items) in
      if length to_remove == 0
      then (0, s)
      else (length to_remove, sort_again (delete_keys equal to_remove s.items))
