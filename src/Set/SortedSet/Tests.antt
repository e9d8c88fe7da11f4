-- ===== src/Set/SortedSet/Tests.antt =====
-- set/sortedset.go: the theorems at sets of numbers under <, with a linear search and an insertion sort.
use fyer_kit.Prelude.{
  ℕ, zero, suc, ◌≤◌, ◌<◌, ◌≡◌, refl, ap, ◌∙◌, Bool, true, not, ◌||◌, List, [], ◌∷◌, ◌==◌, ltb, leb,
  length, get_or, arith, if◌then◌else◌, if-intro,
}
use fyer_kit.Set.HashSet.{has_key, put_key, delete_key, delete_keys}
use fyer_kit.Set.HashSet.Member.{IsEquality}
use fyer_kit.Set.HashSet.Count.{IsMap}
use fyer_kit.Set.HashSet.Batch.{IsRange}
use fyer_kit.Set.SortedSet.{SortedSet, contains, insert_at, add, remove_all, mark, sort_again}
use fyer_kit.Set.SortedSet.Order.{IsOrder, IsSearch, IsOrdered, search-IsOrdered}
use fyer_kit.Set.SortedSet.Keep.{IsSorted, has_key-insert_at, insert_at-IsMap, add-IsSorted}
use fyer_kit.Set.SortedSet.Rebuild.{IsSort}

abbrev equal : ℕ → ℕ → Bool
equal a b = a == b

abbrev in_order : List ℕ → List ℕ
in_order xs = xs

abbrev first_index : ℕ → (ℕ → Bool) → ℕ
first_index zero f = 0
first_index (suc n) f = let later = first_index n (λ i. f (suc i)) in if f 0 then 0 else suc later

abbrev insertion_sort : (ℕ → ℕ → Bool) → List ℕ → List ℕ
insertion_sort less [] = []
insertion_sort less (x ∷ xs) =
    let rest = insertion_sort less xs in
    insert_at (first_index (length rest) (λ i. less x (get_or rest i 0))) x rest

equal-IsEquality : IsEquality equal
equal-IsEquality = record { sound = λ x y e. ground (arith, e); reflexive = λ x. ground arith }

in_order-IsRange : IsRange equal in_order
in_order-IsRange = record { complete = λ x xs. refl; once = λ xs m. m }

ltb-IsOrder : IsOrder ltb
ltb-IsOrder = record {
  asymmetric = λ x y e. ground (arith, e);
  extends = λ x y z e f. ground (arith, e, f);
}

first_index-first :
    (n : ℕ) (f : ℕ → Bool)
    → ((i j : ℕ) → i ≤ j → j < n → f i ≡ true → f j ≡ true)
    → (i : ℕ) → i < n
    → f i ≡ leb (first_index n f) i
first_index-first zero f mono i lt = absurd (omega arith)
first_index-first (suc n) f mono zero lt =
    if-intro (λ k. f 0 ≡ leb k 0) (f 0) (λ e. e ∙ ground arith) λ e. e ∙ ground arith
first_index-first (suc n) f mono (suc i) lt =
    if-intro (λ k. f (suc i) ≡ leb k (suc i)) (f 0)
      (λ e. mono 0 (suc i) (omega arith) lt e ∙ ground arith)
      λ e.
        first_index-first n (λ k. f (suc k))
          (λ a b le h. mono (suc a) (suc b) (omega arith) (omega arith)) i (omega arith)
        ∙ ground arith

first_index-IsSearch : IsSearch first_index
first_index-IsSearch = record { first = first_index-first }

insertion_sort-IsOrdered : (xs : List ℕ) → IsOrdered ltb (insertion_sort ltb xs)
insertion_sort-IsOrdered [] = tt
insertion_sort-IsOrdered (x ∷ xs) =
    search-IsOrdered ltb ltb-IsOrder 0 first_index x (insertion_sort ltb xs) first_index-IsSearch
      (insertion_sort-IsOrdered xs)

has_key-insertion_sort :
    (y : ℕ) (xs : List ℕ) → has_key equal y (insertion_sort ltb xs) ≡ has_key equal y xs
unfolding has_key
has_key-insertion_sort y [] = refl
has_key-insertion_sort y (x ∷ xs) =
    has_key-insert_at equal equal-IsEquality y x _ (insertion_sort ltb xs)
    ∙ ap (equal y x ||◌) (has_key-insertion_sort y xs)

insertion_sort-IsMap : (xs : List ℕ) → IsMap equal xs → IsMap equal (insertion_sort ltb xs)
insertion_sort-IsMap [] m = tt
insertion_sort-IsMap (x ∷ xs) m =
    insert_at-IsMap equal equal-IsEquality x _ (insertion_sort ltb xs) (insertion_sort-IsMap xs m.1)
      (has_key-insertion_sort x xs ∙ m.0)

insertion_sort-IsSort : IsSort equal ltb insertion_sort
insertion_sort-IsSort = record {
  orders = insertion_sort-IsOrdered;
  same_keys = has_key-insertion_sort;
  same_once = insertion_sort-IsMap;
}

abbrev two : SortedSet ℕ
two = record { items = 7 ∷ 2 ∷ []; elements = 2 ∷ 7 ∷ [] }

two-IsSorted : IsSorted equal ltb two
unfolding has_key
two-IsSorted = record {
  is_map = (refl, (refl, tt));
  once = (refl, (refl, tt));
  same = λ x. ground arith;
  ordered = ((refl, tt), (tt, tt));
}

add_run : (add equal ltb first_index 0 5 two).1.elements ≡ 2 ∷ 5 ∷ 7 ∷ []
unfolding add has_key insert_at
add_run = refl

-- One element is removed, and the answer is 2.
remove_all_run :
    remove_all equal ltb insertion_sort in_order (7 ∷ 7 ∷ []) two
    ≡ (2, record { items = 2 ∷ []; elements = 2 ∷ [] })
unfolding remove_all mark put_key has_key delete_keys delete_key sort_again insert_at
remove_all_run = refl

add-IsSorted_example :
    IsSorted equal ltb (add equal ltb first_index 0 5 two).1
    × ((add equal ltb first_index 0 5 two).0 ≡ not (contains equal 5 two))
    × (contains equal 7 (add equal ltb first_index 0 5 two).1 ≡ (equal 7 5 || contains equal 7 two))
add-IsSorted_example =
    add-IsSorted equal equal-IsEquality ltb first_index 0 5 7 two ltb-IsOrder first_index-IsSearch
      two-IsSorted
