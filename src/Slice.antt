-- ===== src/Slice.antt =====
-- slice/slice.go: SafeSlice. Every method runs under the mutex, so it is a function of the items; a
-- slice's spare capacity (NewWithCapacity, Cap) is the runtime's and is left out. An index is a ℤ.
pub mod Atomic
pub mod Iterator
pub mod Transaction
pub mod Access
pub mod Locked
pub mod Update
mod Tests
pub mod Batch
use fyer_kit.Prelude.{
  ℕ, zero, suc, ◌+◌, ◌≤◌, Bool, true, false, not, ◌&&◌, List, [], ◌∷◌, ◌++◌, Option, none, some,
  ltb, leb, ◌==◌, if◌then◌else◌, length, get_or, set, take, drop,
}
use fyer_kit.Prelude.Word.{ℤ, pos, negsuc, geb, check_index}

pub record SafeSlice {ℓ} (A : Type ℓ) : Type ℓ where
  pub items : List A

module _ {ℓ} {A : Type ℓ} where
  unfoldable pub new_slice : SafeSlice A
  new_slice = record { items = [] }

  unfoldable pub from_slice : List A → SafeSlice A
  from_slice xs = record { items = xs }

  unfoldable pub append_items : List A → SafeSlice A → SafeSlice A
  append_items xs s = if length xs == 0 then s else record { items = s.items ++ xs }

  unfoldable pub prepend : List A → SafeSlice A → SafeSlice A
  prepend xs s = if length xs == 0 then s else record { items = xs ++ s.items }

  unfoldable pub get_or_default : ℤ → A → SafeSlice A → A
  get_or_default i d s = elim (check_index i (length s.items)) [
    | none ↦ d
    | some k ↦ get_or s.items k d
  ]

  unfoldable pub set_item : ℤ → A → SafeSlice A → Bool × SafeSlice A
  set_item i v s = elim (check_index i (length s.items)) [
    | none ↦ (false, s)
    | some k ↦ (true, record { items = set s.items k v })
  ]

  -- `append(xs[:k], xs[k+1:]...)`
  abbrev pub remove_at : ℕ → List A → List A
  remove_at k xs = take k xs ++ drop (suc k) xs

  unfoldable pub delete : ℤ → SafeSlice A → Bool × SafeSlice A
  delete i s = elim (check_index i (length s.items)) [
    | none ↦ (false, s)
    | some k ↦ (true, record { items = remove_at k s.items })
  ]

  unfoldable pub delete_range : ℤ → ℤ → SafeSlice A → Bool × SafeSlice A
  delete_range (negsuc start) end s = (false, s)
  delete_range (pos start) (negsuc end) s = (false, s)
  delete_range (pos start) (pos end) s =
      if leb end (length s.items) && leb start end
      then (true, record { items = take start s.items ++ drop end s.items })
      else (false, s)

  -- The loop of BatchUpdate over the entries of its map, in the order of iteration.
  unfoldable pub update_all : List (ℤ × A) → List A → ℕ → ℕ × List A
  update_all [] xs count = (count, xs)
  update_all ((i, v) ∷ us) xs count =
      let next : ℕ × List A = elim (check_index i (length xs)) [
        | none ↦ (count, xs)
        | some k ↦ (count + 1, set xs k v)
      ] in
      update_all us next.1 next.0

  unfoldable pub batch_update : List (ℤ × A) → SafeSlice A → (ℕ × Bool) × SafeSlice A
  batch_update updates s =
      if length updates == 0
      then ((0, true), s)
      else let (count, xs) = update_all updates s.items 0 in
        ((count, count == length updates), record { items = xs })

-- sort.Sort(sort.Reverse(sort.IntSlice(is))): the ints from large to small.
unfoldable pub insert_down : ℤ → List ℤ → List ℤ
insert_down i [] = i ∷ []
insert_down i (j ∷ js) = if geb i j then i ∷ j ∷ js else j ∷ insert_down i js

unfoldable pub sort_down : List ℤ → List ℤ
sort_down [] = []
sort_down (i ∷ is) = insert_down i (sort_down is)

module _ {ℓ} {A : Type ℓ} where
  -- The loop of BatchDelete.
  unfoldable pub delete_all : List ℤ → List A → ℕ → ℕ × List A
  delete_all [] xs count = (count, xs)
  delete_all (i ∷ is) xs count =
      let next : ℕ × List A = elim (check_index i (length xs)) [
        | none ↦ (count, xs)
        | some k ↦ (count + 1, remove_at k xs)
      ] in
      delete_all is next.1 next.0

  unfoldable pub batch_delete : List ℤ → SafeSlice A → (ℕ × Bool) × SafeSlice A
  batch_delete indices s =
      if length indices == 0
      then ((0, true), s)
      else let (count, xs) = delete_all (sort_down indices) s.items 0 in
        ((count, count == length indices), record { items = xs })

  -- The callback of RangeAccess gets a copy; what it returns is the client's.
  unfoldable pub range_access {κ} : {R : Type κ} → (List A → R) → SafeSlice A → R × SafeSlice A
  range_access f s = (f s.items, s)

  unfoldable pub batch_operation : (List A → List A × Bool) → SafeSlice A → Bool × SafeSlice A
  batch_operation f s =
      let (new_items, apply_changes) = f s.items in
      if apply_changes then (true, record { items = new_items }) else (false, s)

  unfoldable pub len : SafeSlice A → ℕ
  len s = length s.items

  unfoldable pub clear : SafeSlice A → SafeSlice A
  clear s = record { items = take 0 s.items }

  unfoldable pub clone : SafeSlice A → SafeSlice A
  clone s = record { items = s.items }

  unfoldable pub to_slice : SafeSlice A → List A
  to_slice s = s.items

-- `zero_value` is the zero value of the element type.
module _ {ℓ} {A : Type ℓ} (zero_value : A) where
  unfoldable pub get : ℤ → SafeSlice A → A × Bool
  get i s = elim (check_index i (length s.items)) [
    | none ↦ (zero_value, false)
    | some k ↦ (get_or s.items k zero_value, true)
  ]

  -- The loop of GetMany, with the flag allSuccess.
  unfoldable pub get_all : List ℤ → SafeSlice A → List A × Bool
  get_all [] s = ([], true)
  get_all (i ∷ is) s =
      let (x, found) = get i s in let (xs, rest) = get_all is s in (x ∷ xs, found && rest)

  unfoldable pub get_many : List ℤ → SafeSlice A → List A × Bool
  get_many is s = if length is == 0 then ([], true) else get_all is s
