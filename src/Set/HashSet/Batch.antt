-- ===== src/Set/HashSet/Batch.antt =====
-- set/hashset.go: what New, AddAll, RemoveAll and RetainAll leave in a set, and what they return.
use fyer_kit.Prelude.{◌+◌, ◌≡◌, ◌∙◌, Bool, not, ◌&&◌, ◌||◌, List, [], arith}
use fyer_kit.Set.HashSet.{
  HashSet, has_key, contains, add_all, remove_all, new_set, put_keys, missing_from, retain_all,
  size,
}
use fyer_kit.Set.HashSet.Member.{IsEquality}
use fyer_kit.Set.HashSet.Count.{
  IsMap, add_each_lem, remove_each_lem, has_key-put_keys, has_key-missing_from, missing_from-IsMap,
  delete_keys_lem,
}

-- A range over a map passes each of its keys once.
pub record IsRange {A : Type 0} (equal : A → A → Bool) (visit : List A → List A) : Type 0 where
  pub complete : (x : A) (xs : List A) → has_key equal x (visit xs) ≡ has_key equal x xs
  pub once : (xs : List A) → IsMap equal xs → IsMap equal (visit xs)

module _ {A : Type 0} (equal : A → A → Bool) (E : IsEquality equal) where
  -- If == decides equality on the keys, New makes a set of just the given elements, none of them
  -- twice.
  pub contains-new_set :
      (xs : List A) (x : A)
      → IsMap equal (new_set equal xs).items
        × (contains equal x (new_set equal xs) ≡ has_key equal x xs)
  unfolding new_set contains
  contains-new_set xs x =
      let (m, _, c) = add_each_lem equal E xs 0 (record { items = [] }) tt in
      (m, c x ∙ unfold has_key in ground arith)

  -- If == decides equality on the keys, AddAll on a set leaves a set of its elements and the
  -- given ones, and returns by how many it grew, also where an element is given twice.
  pub contains-add_all :
      (xs : List A) (s : HashSet A) (x : A)
      → IsMap equal s.items
      → let (n, t) = add_all equal xs s in
        IsMap equal t.items
        × (n + size s ≡ size t)
        × (contains equal x t ≡ (has_key equal x xs || contains equal x s))
  unfolding add_all contains
  contains-add_all xs s x m =
      let (m', n, c) = add_each_lem equal E xs 0 s m in (m', omega (arith, n), c x)

  -- If == decides equality on the keys, RemoveAll on a set leaves a set of its elements that are
  -- not given, and returns by how many it shrank, also where an element is given twice.
  pub contains-remove_all :
      (xs : List A) (s : HashSet A) (x : A)
      → IsMap equal s.items
      → let (n, t) = remove_all equal xs s in
        IsMap equal t.items
        × (n + size t ≡ size s)
        × (contains equal x t ≡ (contains equal x s && not (has_key equal x xs)))
  unfolding remove_all contains
  contains-remove_all xs s x m =
      let (m', n, c) = remove_each_lem equal E xs 0 s m in (m', omega (arith, n), c x)

  -- If == decides equality on the keys, and a range over the map passes each of its keys once in
  -- whatever order, RetainAll on a set leaves a set of its elements that are given, and returns
  -- by how many it shrank.
  pub contains-retain_all :
      (visit : List A → List A) (xs : List A) (s : HashSet A) (x : A)
      → IsRange equal visit
      → IsMap equal s.items
      → let (n, t) = retain_all equal visit xs s in
        IsMap equal t.items
        × (n + size t ≡ size s)
        × (contains equal x t ≡ (contains equal x s && has_key equal x xs))
  unfolding retain_all contains size
  contains-retain_all visit xs s x range m =
      let (m', n, c) =
        delete_keys_lem equal E gone s.items
          (missing_from-IsMap equal E retain (visit s.items) (range.once s.items m)) m
          λ y e. ground (arith, e, is_gone y, range.complete y s.items) in
      (m', n, c x ∙ ground (arith, is_gone x, is_kept, range.complete x s.items))
    where
      retain : List A
      retain = put_keys equal xs []

      gone : List A
      gone = missing_from equal retain (visit s.items)

      is_gone :
          (y : A)
          → has_key equal y gone ≡ (has_key equal y (visit s.items) && not (has_key equal y retain))
      is_gone y = has_key-missing_from equal E retain (visit s.items) y

      is_kept : has_key equal x retain ≡ has_key equal x xs
      is_kept = has_key-put_keys equal E xs [] x ∙ unfold has_key in ground arith
