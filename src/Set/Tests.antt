-- ===== src/Set/Tests.antt =====
-- set/hashset.go: the theorems at sets of numbers, where a range passes the keys in the order of the list.
use fyer_kit.Prelude.{ℕ, ◌≡◌, refl, ◌↔◌, Bool, true, not, ◌&&◌, ◌||◌, List, [], ◌∷◌, ◌==◌, arith}
use fyer_kit.Set.HashSet.{
  HashSet, contains, has_key, put_key, delete_key, remove, remove_each, remove_all, put_keys,
  missing_from, delete_keys, retain_all, union, intersection, difference, symmetric_difference,
  is_subset, is_superset, other_set,
}
use fyer_kit.Set.HashSet.Member.{IsEquality, contains-operations}
use fyer_kit.Set.HashSet.Count.{IsMap}
use fyer_kit.Set.HashSet.Batch.{IsRange}
use fyer_kit.Set.HashSet.Subset.{Included, is_subset-Included}

abbrev equal : ℕ → ℕ → Bool
equal a b = a == b

abbrev in_order : List ℕ → List ℕ
in_order xs = xs

equal-IsEquality : IsEquality equal
equal-IsEquality = record { sound = λ x y e. ground (arith, e); reflexive = λ x. ground arith }

in_order-IsRange : IsRange equal in_order
in_order-IsRange = record { complete = λ x xs. refl; once = λ xs m. m }

abbrev odds : HashSet ℕ
odds = record { items = 1 ∷ 3 ∷ 5 ∷ [] }

abbrev small : HashSet ℕ
small = record { items = 1 ∷ 3 ∷ [] }

odds-IsMap : IsMap equal odds.items
unfolding has_key
odds-IsMap = (refl, (refl, (refl, tt)))

small-IsMap : IsMap equal small.items
unfolding has_key
small-IsMap = (refl, (refl, tt))

retain_run : retain_all equal in_order (3 ∷ 4 ∷ 3 ∷ []) odds ≡ (2, record { items = 3 ∷ [] })
unfolding retain_all missing_from put_keys put_key has_key delete_keys delete_key
retain_run = refl

remove_run : remove_all equal (3 ∷ 3 ∷ 4 ∷ []) odds ≡ (1, record { items = 1 ∷ 5 ∷ [] })
unfolding remove_all remove_each remove has_key delete_key
remove_run = refl

contains-operations_example :
    (contains equal 5 (union equal in_order small (other_set equal in_order odds))
      ≡ (contains equal 5 small || contains equal 5 odds))
    × (contains equal 5 (intersection equal in_order small (other_set equal in_order odds))
        ≡ (contains equal 5 small && contains equal 5 odds))
    × (contains equal 5 (difference equal in_order small (other_set equal in_order odds))
        ≡ (contains equal 5 small && not (contains equal 5 odds)))
    × (contains equal 5 (symmetric_difference equal in_order small (other_set equal in_order odds))
        ≡ ((contains equal 5 small && not (contains equal 5 odds))
            || (not (contains equal 5 small) && contains equal 5 odds)))
unfolding other_set contains
contains-operations_example =
    contains-operations equal equal-IsEquality in_order (λ x xs. refl) small
      (other_set equal in_order odds) 5 refl

is_subset-Included_example :
    ((is_subset equal in_order small (other_set equal in_order odds) ≡ true)
      ↔ Included equal small odds)
    × (is_superset equal in_order odds small
        ≡ is_subset equal in_order small (other_set equal in_order odds))
is_subset-Included_example =
    is_subset-Included equal equal-IsEquality in_order small odds in_order-IsRange small-IsMap
      odds-IsMap
