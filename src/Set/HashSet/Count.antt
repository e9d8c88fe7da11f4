-- ===== src/Set/HashSet/Count.antt =====
-- set/hashset.go: AddAll, RemoveAll and RetainAll return by how many elements the set grows or shrinks.
use fyer_kit.Prelude.{
  ℕ, suc, ◌+◌, ◌≡◌, refl, ap, ◌∙◌, Bool, true, false, not, ◌&&◌, ◌||◌, List, [], ◌∷◌, arith,
  Bool-cases, inl, inr, if-intro, length,
}
use fyer_kit.Set.HashSet.{
  HashSet, has_key, delete_key, put_key, add, remove, add_each, remove_each, size, missing_from,
  delete_keys, put_keys,
}
use fyer_kit.Set.HashSet.Member.{
  IsEquality, equal-eq, equal-sym, has_key-put_key, has_key-delete_key,
}

-- No key stands twice.
abbrev pub IsMap : {A : Type 0} → (A → A → Bool) → List A → Type 0
IsMap equal [] = Unit
IsMap equal (y ∷ ys) = (has_key equal y ys ≡ false) × IsMap equal ys

module _ {A : Type 0} (equal : A → A → Bool) (E : IsEquality equal) where
  delete_key-absent :
      (x : A) (ys : List A) → has_key equal x ys ≡ false → delete_key equal x ys ≡ ys
  unfolding delete_key has_key
  delete_key-absent x [] h = refl
  delete_key-absent x (y ∷ ys) h = elim (Bool-cases (equal x y)) [
    | inl e ↦ absurd (ground (arith, e, h))
    | inr e ↦ simp e (ap (y ∷◌) (delete_key-absent x ys (ground (arith, e, h))))
  ]

  pub delete_key-IsMap :
      (x : A) (ys : List A) → IsMap equal ys → IsMap equal (delete_key equal x ys)
  unfolding delete_key
  delete_key-IsMap x [] m = tt
  delete_key-IsMap x (y ∷ ys) m =
      if-intro (IsMap equal) (equal x y) (λ _. delete_key-IsMap x ys m.1)
        λ _. (has_key-delete_key equal E y x ys ∙ ground (arith, m.0), delete_key-IsMap x ys m.1)

  pub length-delete_key :
      (x : A) (ys : List A)
      → IsMap equal ys
      → has_key equal x ys ≡ true
      → suc (length (delete_key equal x ys)) ≡ length ys
  unfolding delete_key has_key
  length-delete_key x [] m h = absurd (ground (arith, h))
  length-delete_key x (y ∷ ys) m h = elim (Bool-cases (equal x y)) [
    | inl e ↦
        let gone : has_key equal x ys ≡ false =
          equal-eq equal E x y e (λ t. has_key equal t ys) ∙ m.0 in
        simp e (ap (λ l. suc (length l)) (delete_key-absent x ys gone))
    | inr e ↦ simp e (ap suc (length-delete_key x ys m.1 (ground (arith, e, h))))
  ]

  pub put_key-IsMap : (x : A) (ys : List A) → IsMap equal ys → IsMap equal (put_key equal x ys)
  unfolding put_key
  put_key-IsMap x ys m = if-intro (IsMap equal) (has_key equal x ys) (λ _. m) λ h. (h, m)

  add_each_old :
      (x : A) (xs : List A) (n : ℕ) (s : HashSet A)
      → has_key equal x s.items ≡ true
      → add_each equal (x ∷ xs) n s ≡ add_each equal xs n s
  unfolding add_each add
  add_each_old x xs n s h = simp h refl

  add_each_fresh :
      (x : A) (xs : List A) (n : ℕ) (s : HashSet A)
      → has_key equal x s.items ≡ false
      → add_each equal (x ∷ xs) n s ≡ add_each equal xs (n + 1) (record { items = x ∷ s.items })
  unfolding add_each add put_key
  add_each_fresh x xs n s h = simp h refl

  remove_each_found :
      (x : A) (xs : List A) (n : ℕ) (s : HashSet A)
      → has_key equal x s.items ≡ true
      → remove_each equal (x ∷ xs) n s
        ≡ remove_each equal xs (n + 1) (record { items = delete_key equal x s.items })
  unfolding remove_each remove
  remove_each_found x xs n s h = simp h refl

  remove_each_absent :
      (x : A) (xs : List A) (n : ℕ) (s : HashSet A)
      → has_key equal x s.items ≡ false
      → remove_each equal (x ∷ xs) n s ≡ remove_each equal xs n s
  unfolding remove_each remove
  remove_each_absent x xs n s h = simp h refl

  pub add_each_lem :
      (xs : List A) (added : ℕ) (s : HashSet A)
      → IsMap equal s.items
      → let (n, t) = add_each equal xs added s in
        IsMap equal t.items
        × (n + size s ≡ added + size t)
        × ((y : A) → has_key equal y t.items ≡ (has_key equal y xs || has_key equal y s.items))
  unfolding has_key size
  add_each_lem [] added s m = unfold add_each in (m, refl, λ y. refl)
  add_each_lem (x ∷ xs) added s m = elim (Bool-cases (has_key equal x s.items)) [
    | inl h ↦
        let (m', n, c) = add_each_lem xs added s m in
        rw (add_each_old x xs added s h) (
          m',
          n,
          λ y.
              c y
              ∙ ground (
                arith,
                h,
                λ (e : equal y x ≡ true). equal-eq equal E y x e (λ t. has_key equal t s.items),
              ),
        )
    | inr h ↦
        let (m', n, c) = add_each_lem xs (added + 1) (record { items = x ∷ s.items }) (h, m) in
        rw (add_each_fresh x xs added s h) (m', omega (arith, n), λ y. c y ∙ ground arith)
  ]

  pub remove_each_lem :
      (xs : List A) (removed : ℕ) (s : HashSet A)
      → IsMap equal s.items
      → let (n, t) = remove_each equal xs removed s in
        IsMap equal t.items
        × (n + size t ≡ removed + size s)
        × ((y : A)
            → has_key equal y t.items ≡ (has_key equal y s.items && not (has_key equal y xs)))
  unfolding has_key size
  remove_each_lem [] removed s m = unfold remove_each in (m, refl, λ y. ground arith)
  remove_each_lem (x ∷ xs) removed s m = elim (Bool-cases (has_key equal x s.items)) [
    | inl h ↦
        let (m', n, c) =
          remove_each_lem xs (removed + 1) (record { items = delete_key equal x s.items })
            (delete_key-IsMap x s.items m) in
        rw (remove_each_found x xs removed s h) (
          m',
          omega (arith, n, length-delete_key x s.items m h),
          λ y. c y ∙ ground (arith, has_key-delete_key equal E y x s.items, equal-sym equal E y x),
        )
    | inr h ↦
        let (m', n, c) = remove_each_lem xs removed s m in
        rw (remove_each_absent x xs removed s h) (
          m',
          n,
          λ y.
              c y
              ∙ ground (
                arith,
                h,
                λ (e : equal y x ≡ true). equal-eq equal E y x e (λ t. has_key equal t s.items),
              ),
        )
  ]

  pub has_key-put_keys :
      (xs ys : List A) (y : A)
      → has_key equal y (put_keys equal xs ys) ≡ (has_key equal y xs || has_key equal y ys)
  unfolding put_keys has_key
  has_key-put_keys [] ys y = refl
  has_key-put_keys (x ∷ xs) ys y =
      has_key-put_keys xs (put_key equal x ys) y ∙ ground (arith, has_key-put_key equal E y x ys)

  pub has_key-missing_from :
      (retain ys : List A) (y : A)
      → has_key equal y (missing_from equal retain ys)
        ≡ (has_key equal y ys && not (has_key equal y retain))
  unfolding missing_from has_key
  has_key-missing_from retain [] y = refl
  has_key-missing_from retain (x ∷ xs) y =
      let same : equal y x ≡ true → has_key equal y retain ≡ has_key equal x retain =
        λ e. equal-eq equal E y x e (λ t. has_key equal t retain) in
      if-intro
        (λ l.
          has_key equal y l ≡ ((equal y x || has_key equal y xs) && not (has_key equal y retain)))
        (not (has_key equal x retain))
        (λ h. unfold has_key in ground (arith, h, same, has_key-missing_from retain xs y))
        (λ h. ground (arith, h, same, has_key-missing_from retain xs y))

  pub missing_from-IsMap :
      (retain ys : List A) → IsMap equal ys → IsMap equal (missing_from equal retain ys)
  unfolding missing_from
  missing_from-IsMap retain [] m = tt
  missing_from-IsMap retain (y ∷ ys) m =
      if-intro (IsMap equal) (not (has_key equal y retain))
        (λ _. (
          has_key-missing_from retain ys y ∙ ground (arith, m.0),
          missing_from-IsMap retain ys m.1,
        ))
        λ _. missing_from-IsMap retain ys m.1

  -- Deleting keys that are all there, each once, takes as many away.
  pub delete_keys_lem :
      (xs ys : List A)
      → IsMap equal xs
      → IsMap equal ys
      → ((y : A) → has_key equal y xs ≡ true → has_key equal y ys ≡ true)
      → IsMap equal (delete_keys equal xs ys)
        × (length xs + length (delete_keys equal xs ys) ≡ length ys)
        × ((y : A)
            → has_key equal y (delete_keys equal xs ys)
              ≡ (has_key equal y ys && not (has_key equal y xs)))
  unfolding delete_keys has_key
  delete_keys_lem [] ys l m h = (m, omega arith, λ y. ground arith)
  delete_keys_lem (x ∷ xs) ys l m h =
      let (m', n, c) =
        delete_keys_lem xs (delete_key equal x ys) l.1 (delete_key-IsMap x ys m) λ y e.
          has_key-delete_key equal E y x ys
          ∙ ground (
            arith,
            h y,
            e,
            l.0,
            λ (f : equal x y ≡ true). equal-eq equal E x y f (λ t. has_key equal t xs),
          ) in
      (
        m',
        omega (arith, n, length-delete_key x ys m (h x (ground (arith, E.reflexive x)))),
        λ y. c y ∙ ground (arith, has_key-delete_key equal E y x ys, equal-sym equal E y x),
      )
