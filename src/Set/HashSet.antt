-- ===== src/Set/HashSet.antt =====
-- set/hashset.go: HashSet. The Go map is the list of its keys, none of them twice; `equal` is Go's == on
-- keys. The order of a range over the map is the runtime's: `visit` lists the keys in that order.
pub mod Member
pub mod Count
pub mod Batch
pub mod Subset
use fyer_kit.Prelude.{
  ℕ, ◌+◌, Bool, true, false, not, ◌||◌, List, [], ◌∷◌, ltb, ◌==◌, if◌then◌else◌, length,
}

pub record HashSet {ℓ} (A : Type ℓ) : Type ℓ where
  pub items : List A

-- What the set operations ask another Set: Contains, the elements that ForEach passes on, and Size.
pub record Other {ℓ} (A : Type ℓ) : Type ℓ where
  pub has : A → Bool
  pub elements : List A
  pub count : ℕ

module _ {ℓ} {A : Type ℓ} (equal : A → A → Bool) where
  -- `_, exists := items[x]`
  unfoldable pub has_key : A → List A → Bool
  has_key x [] = false
  has_key x (y ∷ ys) = equal x y || has_key x ys

  -- `delete(items, x)`
  unfoldable pub delete_key : A → List A → List A
  delete_key x [] = []
  delete_key x (y ∷ ys) = let rest = delete_key x ys in if equal x y then rest else y ∷ rest

  -- `items[x] = struct{}{}`
  unfoldable pub put_key : A → List A → List A
  put_key x ys = if has_key x ys then ys else x ∷ ys

  unfoldable pub add : A → HashSet A → Bool × HashSet A
  add x s = if has_key x s.items then (false, s) else (true, record { items = put_key x s.items })

  unfoldable pub remove : A → HashSet A → Bool × HashSet A
  remove x s =
      if not (has_key x s.items)
      then (false, s)
      else (true, record { items = delete_key x s.items })

  unfoldable pub contains : A → HashSet A → Bool
  contains x s = has_key x s.items

  -- The loops of AddAll and RemoveAll, with the counter.
  unfoldable pub add_each : List A → ℕ → HashSet A → ℕ × HashSet A
  add_each [] added s = (added, s)
  add_each (x ∷ xs) added s =
      let (fresh, t) = add x s in add_each xs (if fresh then added + 1 else added) t

  unfoldable pub add_all : List A → HashSet A → ℕ × HashSet A
  add_all xs s = add_each xs 0 s

  unfoldable pub remove_each : List A → ℕ → HashSet A → ℕ × HashSet A
  remove_each [] removed s = (removed, s)
  remove_each (x ∷ xs) removed s =
      let (found, t) = remove x s in remove_each xs (if found then removed + 1 else removed) t

  unfoldable pub remove_all : List A → HashSet A → ℕ × HashSet A
  remove_all xs s = remove_each xs 0 s

  unfoldable pub new_set : List A → HashSet A
  new_set xs = (add_each xs 0 (record { items = [] })).1

  -- The three loops of RetainAll.
  unfoldable pub put_keys : List A → List A → List A
  put_keys [] retain = retain
  put_keys (x ∷ xs) retain = put_keys xs (put_key x retain)

  unfoldable pub missing_from : List A → List A → List A
  missing_from retain [] = []
  missing_from retain (y ∷ ys) =
      let rest = missing_from retain ys in if not (has_key y retain) then y ∷ rest else rest

  unfoldable pub delete_keys : List A → List A → List A
  delete_keys [] ys = ys
  delete_keys (x ∷ xs) ys = delete_keys xs (delete_key x ys)

  unfoldable pub contains_all : List A → HashSet A → Bool
  contains_all [] s = true
  contains_all (x ∷ xs) s =
      let rest = contains_all xs s in if not (contains x s) then false else rest

  -- The loops that add to a result what another set says of each element.
  unfoldable pub add_where : (A → Bool) → List A → HashSet A → HashSet A
  add_where keep [] result = result
  add_where keep (x ∷ xs) result = add_where keep xs (if keep x then (add x result).1 else result)

module _ {ℓ} {A : Type ℓ} where
  -- The loop of IsSubset.
  unfoldable pub all_in : (A → Bool) → List A → Bool
  all_in has [] = true
  all_in has (x ∷ xs) = let rest = all_in has xs in if not (has x) then false else rest

  unfoldable pub size : HashSet A → ℕ
  size s = length s.items

  unfoldable pub clear : HashSet A → HashSet A
  clear s = record { items = [] }

  unfoldable pub is_empty : HashSet A → Bool
  is_empty s = length s.items == 0

module _ {ℓ} {A : Type ℓ} (equal : A → A → Bool) (visit : List A → List A) where
  unfoldable pub to_slice : HashSet A → List A
  to_slice s = visit s.items

  -- The other set as a HashSet.
  unfoldable pub other_set : HashSet A → Other A
  other_set s = record { has = λ x. contains equal x s; elements = visit s.items; count = size s }

  unfoldable pub retain_all : List A → HashSet A → ℕ × HashSet A
  retain_all xs s =
      let to_remove = missing_from equal (put_keys equal xs []) (visit s.items) in
      (length to_remove, record { items = delete_keys equal to_remove s.items })

  unfoldable pub union : HashSet A → Other A → HashSet A
  union s other =
      let result = add_where equal (λ _. true) (visit s.items) (new_set equal []) in
      add_where equal (λ _. true) other.elements result

  unfoldable pub intersection : HashSet A → Other A → HashSet A
  intersection s other = add_where equal other.has (visit s.items) (new_set equal [])

  unfoldable pub difference : HashSet A → Other A → HashSet A
  difference s other = add_where equal (λ x. not (other.has x)) (visit s.items) (new_set equal [])

  unfoldable pub symmetric_difference : HashSet A → Other A → HashSet A
  symmetric_difference s other = difference (union s other) (other_set (intersection s other))

  unfoldable pub is_subset : HashSet A → Other A → Bool
  is_subset s other =
      let rest = all_in other.has (visit s.items) in
      if ltb other.count (size s) then false else rest

  unfoldable pub is_superset : HashSet A → HashSet A → Bool
  is_superset s other = is_subset other (other_set s)
