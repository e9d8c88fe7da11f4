-- ===== src/Slice/Locked.antt =====
-- slice/slice.go and slice/atomic.go: Get against Set and Delete, and each method that holds the lock over
-- a read and a write against the two calls made one after the other.
use fyer_kit.Prelude.{
  ℕ, zero, suc, ◌<◌, ◌≤◌, ◌≡◌, refl, ◌∙◌, Bool, true, false, ◌&&◌, List, [], ◌∷◌, ◌++◌, arith, ltb,
  ◌==◌, if◌then◌else◌, length, get_or, set, inl, inr, Bool-cases, ltb→lt, lt→ltb, length-set,
  length-append, get_or-set_self, get_or-set_ne,
}
use fyer_kit.Prelude.Word.{ℤ, pos, negsuc, geb}
use fyer_kit.Slice.{SafeSlice, len, get, set_item, delete, delete_range, remove_at}
use fyer_kit.Slice.Batch.{length-remove_at}
use fyer_kit.Slice.Atomic.{
  compare_and_swap, atomic_update, compare_and_delete, compute_at_end, get_or_compute,
}

-- a == b on ints
pub same : ℤ → ℤ → Bool
same a b = geb a b && geb b a

module _ {A : Type 0} (z : A) where
  get-set_in :
      (i j : ℕ) (v : A) (s : SafeSlice A)
      → i < length s.items
      → get z (pos j) (record { items = set s.items i v })
        ≡ (if same (pos i) (pos j) then (v, true) else get z (pos j) s)
  unfolding get same
  get-set_in i j v s lt = elim (Bool-cases (i == j)) [
    | inl e ↦ ground (arith, e, lt, length-set s.items i v, get_or-set_self s.items i v z lt)
    | inr e ↦ ground (arith, e, length-set s.items i v, get_or-set_ne s.items i j v z)
  ]

  get-set_at :
      (i : ℕ) (j : ℤ) (v : A) (s : SafeSlice A)
      → i < length s.items
      → get z j (record { items = set s.items i v })
        ≡ (if same (pos i) j then (v, true) else get z j s)
  get-set_at i (pos j) v s lt = get-set_in i j v s lt
  get-set_at i (negsuc j) v s lt = unfold same get in refl

  set_item_in :
      (i : ℕ) (v : A) (s : SafeSlice A)
      → ltb i (length s.items) ≡ true
      → set_item (pos i) v s ≡ (true, record { items = set s.items i v })
  unfolding set_item
  set_item_in i v s e = ground (arith, e)

  set_item_out :
      (i : ℕ) (v : A) (s : SafeSlice A)
      → ltb i (length s.items) ≡ false
      → set_item (pos i) v s ≡ (false, s)
  unfolding set_item
  set_item_out i v s e = ground (arith, e)

  get-set :
      (i j : ℤ) (v : A) (s : SafeSlice A)
      → get z j (set_item i v s).1
        ≡ (if (set_item i v s).0 && same i j then (v, true) else get z j s)
  get-set (negsuc i) j v s = unfold set_item in refl
  get-set (pos i) j v s = elim (Bool-cases (ltb i (length s.items))) [
    | inr e ↦ rw (set_item_out i v s e) refl
    | inl e ↦ rw (set_item_in i v s e) (get-set_at i j v s (ltb→lt i (length s.items) e))
  ]

  get_or-remove_at :
      (i j : ℕ) (xs : List A)
      → get_or (remove_at i xs) j z ≡ get_or xs (if ltb j i then j else suc j) z
  get_or-remove_at zero j [] = ground arith
  get_or-remove_at (suc i) j [] = ground arith
  get_or-remove_at zero j (x ∷ xs) = ground arith
  get_or-remove_at (suc i) zero (x ∷ xs) = ground arith
  get_or-remove_at (suc i) (suc j) (x ∷ xs) = get_or-remove_at i j xs ∙ ground arith

  get-delete :
      (i j : ℕ) (s : SafeSlice A)
      → i < length s.items
      → get z (pos j) (delete (pos i) s).1 ≡ get z (pos (if ltb j i then j else suc j)) s
  unfolding delete get
  get-delete i j s lt = ground (
    arith,
    lt,
    get_or-remove_at i j s.items,
    length-remove_at i s.items (lt→ltb i (length s.items) lt),
  )

  delete_one : (i : ℕ) (s : SafeSlice A) → delete (pos i) s ≡ delete_range (pos i) (pos (suc i)) s
  unfolding delete delete_range
  delete_one i s = ground arith

  delete_len :
      (i : ℕ) (s : SafeSlice A)
      → i < length s.items
      → suc (length (delete (pos i) s).1.items) ≡ length s.items
  unfolding delete
  delete_len i s lt = ground (arith, lt, length-remove_at i s.items (lt→ltb i (length s.items) lt))

  set_found : (i : ℤ) (v : A) (s : SafeSlice A) → (set_item i v s).0 ≡ (get z i s).1
  unfolding set_item get
  set_found i v s = ground arith

  set_len : (i : ℤ) (v : A) (s : SafeSlice A) → length (set_item i v s).1.items ≡ length s.items
  set_len (negsuc i) v s = unfold set_item in refl
  set_len (pos i) v s = elim (Bool-cases (ltb i (length s.items))) [
    | inr e ↦ rw (set_item_out i v s e) refl
    | inl e ↦ rw (set_item_in i v s e) (length-set s.items i v)
  ]

  swap_lem :
      (i : ℤ) (expected v : A) (equals : A → A → Bool) (s : SafeSlice A)
      → compare_and_swap z i expected v equals s ≡ (
          let (x, found) = get z i s in
          if found && equals x expected then set_item i v s else (false, s))
  unfolding compare_and_swap get set_item
  swap_lem i expected v equals s = ground arith

  update_lem :
      (i : ℤ) (f : A → A) (s : SafeSlice A) → atomic_update z i f s ≡ set_item i (f (get z i s).0) s
  unfolding atomic_update get set_item
  update_lem i f s = ground arith

  remove_lem :
      (i : ℤ) (expected : A) (equals : A → A → Bool) (s : SafeSlice A)
      → compare_and_delete z i expected equals s ≡ (
          let (x, found) = get z i s in
          if found && equals x expected then delete i s else (false, s))
  unfolding compare_and_delete get delete
  remove_lem i expected equals s = ground arith

  get_or-snoc : (xs : List A) (v : A) → get_or (xs ++ v ∷ []) (length xs) z ≡ v
  get_or-snoc [] v = refl
  get_or-snoc (x ∷ xs) v = get_or-snoc xs v

  -- GetOrCompute at an index in range or at the end returns the element that Get finds there afterwards,
  -- and says that it computed it just at the end.
  pub get_or_compute-get :
      (i : ℕ) (compute : Unit {0} → A) (s : SafeSlice A)
      → i ≤ length s.items
      → let ((v, fresh), t) = get_or_compute z (pos i) compute s in
        (get z (pos i) t ≡ (v, true)) × (fresh ≡ (i == length s.items))
  unfolding get get_or_compute compute_at_end
  get_or_compute-get i compute s le =
      ground (arith, le, get_or-snoc s.items (compute tt), length-append s.items (compute tt ∷ []))

  -- Set at any index, in range or not, succeeds just where Get does and keeps the length; afterwards Get
  -- finds the new value at that index, if Set succeeded, and at every other index what it found before.
  pub set_item-get :
      (i j : ℤ) (v : A) (s : SafeSlice A)
      → let (changed, t) = set_item i v s in
        (changed ≡ (get z i s).1)
        × (len t ≡ len s)
        × (get z j t ≡ (if changed && same i j then (v, true) else get z j s))
  unfolding len
  set_item-get i j v s = (set_found i v s, set_len i v s, get-set i j v s)

  -- CompareAndSwap, AtomicUpdate and CompareAndDelete, which hold the lock over a read and a write, give at
  -- every index the results and the slice that Get followed by Set or Delete gives where no other call
  -- comes between them.
  pub locked_calls :
      (i : ℤ) (expected v : A) (equals : A → A → Bool) (f : A → A) (s : SafeSlice A)
      → let (x, found) = get z i s in
        (compare_and_swap z i expected v equals s
          ≡ (if found && equals x expected then set_item i v s else (false, s)))
        × (atomic_update z i f s ≡ set_item i (f x) s)
        × (compare_and_delete z i expected equals s
            ≡ (if found && equals x expected then delete i s else (false, s)))
  locked_calls i expected v equals f s =
      (swap_lem i expected v equals s, update_lem i f s, remove_lem i expected equals s)

  -- Delete of an index in range is DeleteRange of that index alone, takes one element out, and moves
  -- the elements behind it up by one: Get at j then finds what it found at j before the index
  -- and at j + 1 from the index on.
  pub delete-get :
      (i j : ℕ) (s : SafeSlice A)
      → i < length s.items
      → (delete (pos i) s ≡ delete_range (pos i) (pos (suc i)) s)
        × (suc (length (delete (pos i) s).1.items) ≡ length s.items)
        × (get z (pos j) (delete (pos i) s).1 ≡ get z (pos (if ltb j i then j else suc j)) s)
  delete-get i j s lt = (delete_one i s, delete_len i s lt, get-delete i j s lt)
