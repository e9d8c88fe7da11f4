-- ===== src/Slice/Batch.antt =====
-- slice/slice.go: BatchDelete against a description that names no order of deletion.
use fyer_kit.Prelude.{
  ℕ, zero, suc, ◌+◌, ◌≤◌, ◌<◌, ◌≡◌, refl, sym, ap, ◌∙◌, Bool, true, false, ◌||◌, List, [], ◌∷◌,
  ◌++◌, arith, ltb, ◌==◌, if◌then◌else◌, length, take, drop, Bool-cases, if-intro, inl, inr,
}
use fyer_kit.Prelude.Word.{ℤ, pos, negsuc, geb}
use fyer_kit.Slice.{SafeSlice, remove_at, insert_down, sort_down, delete_all, batch_delete}

-- The index names the place.
unfoldable pub hits : ℤ → ℕ → Bool
hits (pos k) j = k == j
hits (negsuc k) j = false

-- One of the indices names the place.
unfoldable pub listed : List ℤ → ℕ → Bool
unfolding hits
listed [] j = false
listed (i ∷ is) j = hits i j || listed is j

-- No index in range stands twice.
abbrev pub Distinct : List ℤ → Type 0
Distinct [] = Unit
Distinct (pos k ∷ is) = (listed is k ≡ false) × Distinct is
Distinct (negsuc k ∷ is) = Distinct is

-- The elements at the places, counted from `i`, that the test does not name.
pub unlisted {ℓ} : {A : Type ℓ} → (ℕ → Bool) → ℕ → List A → List A
unlisted p i [] = []
unlisted p i (x ∷ xs) = let rest = unlisted p (suc i) xs in if p i then rest else x ∷ rest

module _ {ℓ} {A : Type ℓ} where
  unlisted_ext :
      (p q : ℕ → Bool) (i : ℕ) (xs : List A)
      → ((j : ℕ) → p j ≡ q j)
      → unlisted p i xs ≡ unlisted q i xs
  unfolding unlisted
  unlisted_ext p q i [] h = refl
  unlisted_ext p q i (x ∷ xs) h = rw (h i, unlisted_ext p q (suc i) xs h)

  unlisted_ext_in :
      (p q : ℕ → Bool) (i : ℕ) (xs : List A)
      → ((j : ℕ) → i ≤ j → j < i + length xs → p j ≡ q j)
      → unlisted p i xs ≡ unlisted q i xs
  unfolding unlisted
  unlisted_ext_in p q i [] h = refl
  unlisted_ext_in p q i (x ∷ xs) h =
      rw
        (
          h i (omega arith) (omega arith),
          unlisted_ext_in p q (suc i) xs (λ j le lt. h j (omega arith) (omega arith)),
        )
        refl

  unlisted_none :
      (p : ℕ → Bool) (i : ℕ) (xs : List A) → ((j : ℕ) → i ≤ j → p j ≡ false) → unlisted p i xs ≡ xs
  unfolding unlisted
  unlisted_none p i [] h = refl
  unlisted_none p i (x ∷ xs) h =
      rw (h i (omega arith)) (ap (x ∷◌) (unlisted_none p (suc i) xs (λ j le. h j (omega arith))))

  -- Removing one place before places below it is removing them together.
  unlisted-remove_at :
      (p q : ℕ → Bool) (i k : ℕ) (xs : List A)
      → ((j : ℕ) → q j ≡ (i + k == j || p j))
      → ((j : ℕ) → i + k ≤ j → p j ≡ false)
      → unlisted p i (remove_at k xs) ≡ unlisted q i xs
  unfolding unlisted
  unlisted-remove_at p q i zero [] e h = refl
  unlisted-remove_at p q i (suc k) [] e h = refl
  unlisted-remove_at p q i zero (x ∷ xs) e h = rw first (
      unlisted_none p i xs (λ j le. h j (omega arith))
      ∙ sym (unlisted_none q (suc i) xs λ j le. e j ∙ ground (arith, h j)))
    where
      first : q i ≡ true
      first = e i ∙ ground arith
  unlisted-remove_at p q i (suc k) (x ∷ xs) e h = rw (
    same,
    unlisted-remove_at p q (suc i) k xs (λ j. e j ∙ ground arith) (λ j le. h j (omega arith)),
  )
    where
      same : q i ≡ p i
      same = e i ∙ ground arith

listed-insert_down : (i : ℤ) (is : List ℤ) (j : ℕ) → listed (insert_down i is) j ≡ listed (i ∷ is) j
unfolding insert_down listed
listed-insert_down i [] j = refl
listed-insert_down i (k ∷ is) j =
    if-intro (λ l. listed l j ≡ listed (i ∷ k ∷ is) j) (geb i k) (λ _. refl)
      λ _. ap (hits k j ||◌) (listed-insert_down i is j) ∙ ground arith

listed-sort_down : (is : List ℤ) (j : ℕ) → listed (sort_down is) j ≡ listed is j
unfolding sort_down listed
listed-sort_down [] j = refl
listed-sort_down (i ∷ is) j =
    listed-insert_down i (sort_down is) j
    ∙ unfold listed in ap (hits i j ||◌) (listed-sort_down is j)

or-eq-false : (a b : Bool) → (a || b) ≡ false → (a ≡ false) × (b ≡ false)
or-eq-false a b h = ground arith

Distinct-tail : (i : ℤ) (is : List ℤ) → Distinct (i ∷ is) → Distinct is
Distinct-tail (pos i) is d = d.1
Distinct-tail (negsuc i) is d = d

Distinct-skip : (i k : ℤ) (is : List ℤ) → Distinct (i ∷ k ∷ is) → Distinct (i ∷ is)
unfolding listed
Distinct-skip (pos i) k is d = ((or-eq-false (hits k i) _ d.0).1, Distinct-tail k is d.1)
Distinct-skip (negsuc i) k is d = Distinct-tail k is d

-- The second index does not stand again, at the place of the first either.
Distinct-second :
    (i : ℤ) (k : ℕ) (is : List ℤ) → Distinct (i ∷ pos k ∷ is) → listed (i ∷ is) k ≡ false
unfolding listed
Distinct-second (pos i) k is d = ground (arith, d.1.0, or-eq-false (k == i) (listed is i) d.0)
Distinct-second (negsuc i) k is d = d.0

Distinct-behind :
    (i k : ℤ) (is js : List ℤ)
    → Distinct (i ∷ k ∷ is)
    → ((j : ℕ) → listed js j ≡ listed (i ∷ is) j)
    → Distinct js
    → Distinct (k ∷ js)
Distinct-behind i (pos k) is js d e r = (e k ∙ Distinct-second i k is d, r)
Distinct-behind i (negsuc k) is js d e r = r

Distinct-insert_down : (i : ℤ) (is : List ℤ) → Distinct (i ∷ is) → Distinct (insert_down i is)
unfolding insert_down
Distinct-insert_down i [] d = d
Distinct-insert_down i (k ∷ is) d =
    if-intro Distinct (geb i k) (λ _. d)
      λ _.
        Distinct-behind i k is (insert_down i is) d (listed-insert_down i is)
          (Distinct-insert_down i is (Distinct-skip i k is d))

Distinct-sort_down : (is : List ℤ) → Distinct is → Distinct (sort_down is)
unfolding sort_down
Distinct-sort_down [] d = tt
Distinct-sort_down (pos k ∷ is) (n, d) =
    Distinct-insert_down (pos k) (sort_down is) (listed-sort_down is k ∙ n, Distinct-sort_down is d)
Distinct-sort_down (negsuc k ∷ is) d =
    Distinct-insert_down (negsuc k) (sort_down is) (Distinct-sort_down is d)

-- Every later index is at most the first.
abbrev AtMost : ℤ → List ℤ → Type 0
AtMost i [] = Unit
AtMost i (k ∷ is) = (geb i k ≡ true) × AtMost i is

abbrev IsDown : List ℤ → Type 0
IsDown [] = Unit
IsDown (i ∷ is) = AtMost i is × IsDown is

geb_trans : (a b c : ℤ) → geb a b ≡ true → geb b c ≡ true → geb a c ≡ true
geb_trans a b c h k = ground arith

geb_total : (a b : ℤ) → geb a b ≡ false → geb b a ≡ true
geb_total a b h = ground arith

AtMost-trans : (i k : ℤ) (is : List ℤ) → geb i k ≡ true → AtMost k is → AtMost i is
AtMost-trans i k [] h a = tt
AtMost-trans i k (j ∷ is) h a = (geb_trans i k j h a.0, AtMost-trans i k is h a.1)

AtMost-insert_down :
    (b i : ℤ) (is : List ℤ) → geb b i ≡ true → AtMost b is → AtMost b (insert_down i is)
unfolding insert_down
AtMost-insert_down b i [] h a = (h, tt)
AtMost-insert_down b i (k ∷ is) h a =
    if-intro (AtMost b) (geb i k) (λ _. (h, a)) λ _. (a.0, AtMost-insert_down b i is h a.1)

IsDown-insert_down : (i : ℤ) (is : List ℤ) → IsDown is → IsDown (insert_down i is)
unfolding insert_down
IsDown-insert_down i [] d = (tt, tt)
IsDown-insert_down i (k ∷ is) d =
    if-intro IsDown (geb i k) (λ g. ((g, AtMost-trans i k is g d.0), d))
      λ g. (AtMost-insert_down k i is (geb_total i k g) d.0, IsDown-insert_down i is d.1)

IsDown-sort_down : (is : List ℤ) → IsDown (sort_down is)
unfolding sort_down
IsDown-sort_down [] = tt
IsDown-sort_down (i ∷ is) = IsDown-insert_down i (sort_down is) (IsDown-sort_down is)

-- Below a largest index that stands once, nothing at or above it is listed.
listed_above :
    (k : ℕ) (is : List ℤ)
    → AtMost (pos k) is
    → listed is k ≡ false
    → (j : ℕ) → k ≤ j
    → listed is j ≡ false
unfolding listed
listed_above k [] a n j le = refl
listed_above k (pos i ∷ is) a n j le =
    let (here, later) = or-eq-false (i == k) (listed is k) n in
    rw (listed_above k is a.1 later j le) (ground (arith, here))
listed_above k (negsuc i ∷ is) a n j le = listed_above k is a.1 n j le

pub length-remove_at {ℓ} :
    {A : Type ℓ} (k : ℕ) (xs : List A)
    → ltb k (length xs) ≡ true
    → suc (length (remove_at k xs)) ≡ length xs
length-remove_at zero [] lt = absurd (ground (arith, lt))
length-remove_at (suc k) [] lt = absurd (ground (arith, lt))
length-remove_at zero (x ∷ xs) lt = refl
length-remove_at (suc k) (x ∷ xs) lt = ap suc (length-remove_at k xs (ground (arith, lt)))

-- The loop deletes just what is listed, and counts what it deletes.
delete_all-unlisted {ℓ} :
    {A : Type ℓ} (is : List ℤ) (xs : List A) (count : ℕ)
    → IsDown is
    → Distinct is
    → ((delete_all is xs count).1 ≡ unlisted (listed is) 0 xs)
      × ((delete_all is xs count).0 + length (delete_all is xs count).1 ≡ count + length xs)
unfolding delete_all
delete_all-unlisted [] xs count down d =
    (sym (unlisted_none (listed []) 0 xs (λ j _. unfold listed in refl)), refl)
delete_all-unlisted (negsuc i ∷ is) xs count down d =
    let (e, c) = delete_all-unlisted is xs count down.1 d in
    (e ∙ unlisted_ext (listed is) (listed (negsuc i ∷ is)) 0 xs (λ j. unfold listed in refl), c)
delete_all-unlisted (pos k ∷ is) xs count down d = elim (Bool-cases (ltb k (length xs))) [
  | inl lt ↦
      let (e, c) = delete_all-unlisted is (remove_at k xs) (count + 1) down.1 d.1 in
      simp lt (
        e
            ∙ unlisted-remove_at (listed is) (listed (pos k ∷ is)) 0 k xs
                (λ j. unfold listed in ground arith)
                (λ j le. listed_above k is down.0 d.0 j (omega arith)),
        c ∙ omega (arith, length-remove_at k xs lt),
      )
  | inr ge ↦
      let (e, c) = delete_all-unlisted is xs count down.1 d.1 in
      simp ge (
        e
            ∙ unlisted_ext_in (listed is) (listed (pos k ∷ is)) 0 xs
                (λ j _ in_range. unfold listed in ground (arith, ge, in_range)),
        c,
      )
]

remove_at_twice {ℓ} :
    {A : Type ℓ} (k : ℕ) (xs : List A)
    → suc k < length xs
    → remove_at k (remove_at k xs) ≡ take k xs ++ drop (suc (suc k)) xs
remove_at_twice zero (x ∷ []) lt = absurd (omega arith)
remove_at_twice zero (x ∷ y ∷ xs) lt = refl
remove_at_twice k [] lt = absurd (omega arith)
remove_at_twice (suc k) (x ∷ xs) lt = ap (x ∷◌) (remove_at_twice k xs (omega arith))

delete_all_twice {ℓ} :
    {A : Type ℓ} (k : ℕ) (xs : List A)
    → suc k < length xs
    → delete_all (pos k ∷ pos k ∷ []) xs 0 ≡ (2, take k xs ++ drop (suc (suc k)) xs)
unfolding delete_all
delete_all_twice k xs lt =
    let first : ltb k (length xs) ≡ true = ground arith in
    let second : ltb k (length (remove_at k xs)) ≡ true =
      ground (arith, length-remove_at k xs first) in
    simp (first, second) (ap (λ ys. (2, ys)) (remove_at_twice k xs lt))

module _ {ℓ} {A : Type ℓ} where
  -- BatchDelete of indices among which no number of 0 or more stands twice removes the elements
  -- at those that are in range and no other, whatever order the indices come in, and keeps the
  -- order of the rest; it returns the number of elements removed, and whether that is the number
  -- of indices.
  pub batch_delete-Distinct :
      (indices : List ℤ) (s : SafeSlice A)
      → Distinct indices
      → let ((count, all_deleted), t) = batch_delete indices s in
        (t.items ≡ unlisted (listed indices) 0 s.items)
        × (count + length t.items ≡ length s.items)
        × (all_deleted ≡ (count == length indices))
  unfolding batch_delete
  batch_delete-Distinct [] s d =
      (sym (unlisted_none (listed []) 0 s.items (λ j _. unfold listed in refl)), omega arith, refl)
  batch_delete-Distinct (i ∷ is) s d =
      let (e, c) =
        delete_all-unlisted (sort_down (i ∷ is)) s.items 0 (IsDown-sort_down (i ∷ is))
          (Distinct-sort_down (i ∷ is) d) in
      let filled : (length (i ∷ is) == 0) ≡ false = ground arith in
      rw filled (
        e
            ∙ unlisted_ext (listed (sort_down (i ∷ is))) (listed (i ∷ is)) 0 s.items
                (listed-sort_down (i ∷ is)),
        c ∙ omega arith,
        refl,
      )

  -- BatchDelete of one index given twice, where an element follows, deletes two elements, the one
  -- at the index and the one behind it, and reports success.
  pub batch_delete_duplicate :
      (k : ℕ) (s : SafeSlice A)
      → suc k < length s.items
      → batch_delete (pos k ∷ pos k ∷ []) s
        ≡ ((2, true), record { items = take k s.items ++ drop (suc (suc k)) s.items })
  unfolding batch_delete sort_down insert_down
  batch_delete_duplicate k s lt =
      let order : geb (pos k) (pos k) ≡ true = ground arith in
      simp (order, delete_all_twice k s.items lt) refl
