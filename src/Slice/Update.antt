-- ===== src/Slice/Update.antt =====
-- slice/slice.go: BatchUpdate against a description that does not depend on the order of its map.
use fyer_kit.Prelude.{
  ℕ, zero, suc, ◌+◌, ◌≡◌, refl, ap, subst, ◌∙◌, true, false, List, [], ◌∷◌, arith, ltb, ◌==◌,
  if◌then◌else◌, length, get_or, set, Option, some, none, inl, inr, Bool-cases, length-set,
  get_or-set_self, get_or-set_ne, ltb→lt,
}
use fyer_kit.Prelude.Word.{ℤ, pos, negsuc}
use fyer_kit.Slice.{SafeSlice, update_all, batch_update}

module _ {A : Type 0} where
  -- The value that the updates give the place, if they name it.
  unfoldable pub new_at : List (ℤ × A) → ℕ → Option A
  new_at [] j = none
  new_at ((pos k, v) ∷ us) j = let rest = new_at us j in if k == j then some v else rest
  new_at ((negsuc k, v) ∷ us) j = new_at us j

  -- No place is named twice: the updates are the entries of a map.
  abbrev pub IsUpdate : List (ℤ × A) → Type 0
  IsUpdate [] = Unit
  IsUpdate ((pos k, v) ∷ us) = (new_at us k ≡ none) × IsUpdate us
  IsUpdate ((negsuc k, v) ∷ us) = IsUpdate us

  -- How many of the updates name a place below the length.
  unfoldable pub in_range : List (ℤ × A) → ℕ → ℕ
  in_range [] n = 0
  in_range ((pos k, v) ∷ us) n = let rest = in_range us n in if ltb k n then suc rest else rest
  in_range ((negsuc k, v) ∷ us) n = in_range us n

  -- The element at a place with its update.
  unfoldable pub updated : Option A → List A → ℕ → A → A
  updated none xs j z = get_or xs j z
  updated (some v) xs j z = if ltb j (length xs) then v else z

  get_or-beyond : (xs : List A) (j : ℕ) (z : A) → ltb j (length xs) ≡ false → get_or xs j z ≡ z
  get_or-beyond [] j z h = refl
  get_or-beyond (x ∷ xs) zero z h = absurd (ground (arith, h))
  get_or-beyond (x ∷ xs) (suc j) z h = get_or-beyond xs j z (ground (arith, h))

  update_in :
      (k : ℕ) (v : A) (us : List (ℤ × A)) (xs : List A) (count : ℕ)
      → ltb k (length xs) ≡ true
      → update_all ((pos k, v) ∷ us) xs count ≡ update_all us (set xs k v) (count + 1)
  unfolding update_all
  update_in k v us xs count h = simp h refl

  update_out :
      (k : ℕ) (v : A) (us : List (ℤ × A)) (xs : List A) (count : ℕ)
      → ltb k (length xs) ≡ false
      → update_all ((pos k, v) ∷ us) xs count ≡ update_all us xs count
  unfolding update_all
  update_out k v us xs count h = simp h refl

  update_negative :
      (k : ℕ) (v : A) (us : List (ℤ × A)) (xs : List A) (count : ℕ)
      → update_all ((negsuc k, v) ∷ us) xs count ≡ update_all us xs count
  unfolding update_all
  update_negative k v us xs count = refl

  updated-set_ne :
      (o : Option A) (k : ℕ) (v z : A) (xs : List A) (j : ℕ)
      → (k == j) ≡ false
      → updated o (set xs k v) j z ≡ updated o xs j z
  unfolding updated
  updated-set_ne none k v z xs j ne = get_or-set_ne xs k j v z (λ e. ground (arith, e, ne))
  updated-set_ne (some w) k v z xs j ne = ap (λ n. if ltb j n then w else z) (length-set xs k v)

  -- One update in range, seen at a place by the later ones.
  updated-set :
      (k : ℕ) (v z : A) (us : List (ℤ × A)) (xs : List A) (j : ℕ)
      → ltb k (length xs) ≡ true
      → new_at us k ≡ none
      → updated (new_at us j) (set xs k v) j z ≡ updated (new_at ((pos k, v) ∷ us) j) xs j z
  unfolding updated new_at
  updated-set k v z us xs j h free = elim (Bool-cases (k == j)) [
    | inl e ↦
        let here : k ≡ j = ground (arith, e) in
        let self : (k == k) ≡ true = ground arith in
        subst
          (λ t.
            updated (new_at us t) (set xs k v) t z ≡ updated (new_at ((pos k, v) ∷ us) t) xs t z)
          here (simp (free, self, h) (get_or-set_self xs k v z (ltb→lt k (length xs) h)))
    | inr e ↦ simp e (updated-set_ne (new_at us j) k v z xs j e)
  ]

  updated-skip :
      (k : ℕ) (v z : A) (us : List (ℤ × A)) (xs : List A) (j : ℕ)
      → ltb k (length xs) ≡ false
      → new_at us k ≡ none
      → updated (new_at us j) xs j z ≡ updated (new_at ((pos k, v) ∷ us) j) xs j z
  unfolding updated new_at
  updated-skip k v z us xs j h free = elim (Bool-cases (k == j)) [
    | inl e ↦
        let here : k ≡ j = ground (arith, e) in
        let self : (k == k) ≡ true = ground arith in
        subst (λ t. updated (new_at us t) xs t z ≡ updated (new_at ((pos k, v) ∷ us) t) xs t z) here
          (simp (free, self, h) (get_or-beyond xs k z h))
    | inr e ↦ simp e refl
  ]

  update_all_lem :
      (us : List (ℤ × A)) (xs : List A) (count j : ℕ) (z : A)
      → IsUpdate us
      → let (n, ys) = update_all us xs count in
        (get_or ys j z ≡ updated (new_at us j) xs j z)
        × (length ys ≡ length xs)
        × (n ≡ count + in_range us (length xs))
  unfolding in_range new_at updated
  update_all_lem [] xs count j z d = unfold update_all in (refl, refl, omega arith)
  update_all_lem ((negsuc k, v) ∷ us) xs count j z d =
      rw (update_negative k v us xs count) (update_all_lem us xs count j z d)
  update_all_lem ((pos k, v) ∷ us) xs count j z d = elim (Bool-cases (ltb k (length xs))) [
    | inl h ↦
        let (g, l, n) = update_all_lem us (set xs k v) (count + 1) j z d.1 in
        rw (update_in k v us xs count h) (
          g ∙ updated-set k v z us xs j h d.0,
          l ∙ length-set xs k v,
          ground (arith, n, length-set xs k v, h),
        )
    | inr h ↦
        let (g, l, n) = update_all_lem us xs count j z d.1 in
        rw (update_out k v us xs count h)
          (g ∙ updated-skip k v z us xs j h d.0, l, ground (arith, n, h))
  ]

  -- BatchUpdate of a map's entries, in whatever order the range over the map passes them: each place that
  -- an entry names and that is in range has the entry's value, every other place keeps its element,
  -- and the length stays; it returns the number of entries in range, and whether that is all of them.
  pub batch_update-IsUpdate :
      (updates : List (ℤ × A)) (s : SafeSlice A) (j : ℕ) (z : A)
      → IsUpdate updates
      → let ((count, all_updated), t) = batch_update updates s in
        (get_or t.items j z ≡ updated (new_at updates j) s.items j z)
        × (length t.items ≡ length s.items)
        × (count ≡ in_range updates (length s.items))
        × (all_updated ≡ (count == length updates))
  unfolding batch_update
  batch_update-IsUpdate [] s j z d = unfold new_at updated in_range in (refl, refl, refl, refl)
  batch_update-IsUpdate (u ∷ us) s j z d =
      let (g, l, n) = update_all_lem (u ∷ us) s.items 0 j z d in
      let filled : (length (u ∷ us) == 0) ≡ false = ground arith in
      rw filled (g, l, n ∙ omega arith, refl)
