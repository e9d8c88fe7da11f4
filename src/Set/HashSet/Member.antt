-- ===== src/Set/HashSet/Member.antt =====
-- set/hashset.go: what Contains answers after each operation.
use fyer_kit.Prelude.{
  ◌≡◌, refl, sym, ap, ◌∙◌, Bool, true, not, ◌&&◌, ◌||◌, List, [], ◌∷◌, arith, Bool-cases, inl, inr,
}
use fyer_kit.Set.HashSet.{
  HashSet, Other, has_key, delete_key, put_key, add, contains, add_each, add_where, new_set, union,
  intersection, difference, symmetric_difference, other_set,
}

-- Go's == on keys decides equality: no key is a floating-point NaN.
pub record IsEquality {ℓ} {A : Type ℓ} (equal : A → A → Bool) : Type ℓ where
  pub sound : (x y : A) → equal x y ≡ true → x ≡ y
  pub reflexive : (x : A) → equal x x ≡ true

module _ {A : Type 0} (equal : A → A → Bool) (E : IsEquality equal) where
  pub equal-eq : (x y : A) → equal x y ≡ true → {B : Type 0} (f : A → B) → f x ≡ f y
  equal-eq x y e f = ap f (E.sound x y e)

  pub equal-sym : (x y : A) → equal x y ≡ equal y x
  equal-sym x y = elim (Bool-cases (equal x y)) [
    | inl e ↦ e ∙ ground (arith, E.reflexive x, equal-eq x y e (λ t. equal t x))
    | inr e ↦ elim (Bool-cases (equal y x)) [
      | inl f ↦ absurd (ground (arith, e, f, E.reflexive y, equal-eq y x f (λ t. equal t y)))
      | inr f ↦ e ∙ sym f
    ]
  ]

  pub has_key-put_key :
      (x y : A) (ys : List A)
      → has_key equal x (put_key equal y ys) ≡ (equal x y || has_key equal x ys)
  unfolding put_key has_key
  has_key-put_key x y ys = elim (Bool-cases (equal x y)) [
    | inl e ↦ ground (arith, e, equal-eq x y e (λ t. has_key equal t ys))
    | inr e ↦ ground (arith, e)
  ]

  pub has_key-delete_key :
      (x y : A) (ys : List A)
      → has_key equal x (delete_key equal y ys) ≡ (has_key equal x ys && not (equal y x))
  unfolding delete_key has_key
  has_key-delete_key x y [] = refl
  has_key-delete_key x y (z ∷ zs) = elim (Bool-cases (equal x z)) [
    | inl e ↦ ground (arith, e, equal-eq x z e (equal y), has_key-delete_key x y zs)
    | inr e ↦ ground (arith, e, has_key-delete_key x y zs)
  ]

  add-items : (x : A) (s : HashSet A) → (add equal x s).1.items ≡ put_key equal x s.items
  unfolding add put_key
  add-items x s = ground arith

  has_key-add :
      (x y : A) (s : HashSet A)
      → has_key equal x (add equal y s).1.items ≡ (equal x y || has_key equal x s.items)
  has_key-add x y s = ap (has_key equal x) (add-items y s) ∙ has_key-put_key x y s.items

  pub has_key-add_where :
      (keep : A → Bool) (xs : List A) (result : HashSet A) (x : A)
      → has_key equal x (add_where equal keep xs result).items
        ≡ ((has_key equal x xs && keep x) || has_key equal x result.items)
  unfolding add_where has_key
  has_key-add_where keep [] result x = refl
  has_key-add_where keep (y ∷ ys) result x =
      let same : equal x y ≡ true → keep x ≡ keep y = λ e. equal-eq x y e keep in
      elim (Bool-cases (keep y)) [
        | inl k ↦ simp k (
            has_key-add_where keep ys (add equal y result).1 x
            ∙ ground (arith, k, same, has_key-add x y result))
        | inr k ↦ simp k (has_key-add_where keep ys result x ∙ ground (arith, k, same))
      ]

  module _ (visit : List A → List A)
      (all_visited : (x : A) (xs : List A) → has_key equal x (visit xs) ≡ has_key equal x xs) where
    contains-union :
        (s : HashSet A) (other : Other A) (x : A)
        → contains equal x (union equal visit s other)
          ≡ (contains equal x s || has_key equal x other.elements)
    unfolding contains union new_set add_each has_key
    contains-union s other x =
        has_key-add_where (λ _. true) other.elements _ x
        ∙ ground (
          arith,
          has_key-add_where (λ _. true) (visit s.items) (new_set equal []) x,
          all_visited x s.items,
        )

    contains-intersection :
        (s : HashSet A) (other : Other A) (x : A)
        → contains equal x (intersection equal visit s other) ≡ (contains equal x s && other.has x)
    unfolding contains intersection new_set add_each has_key
    contains-intersection s other x =
        has_key-add_where other.has (visit s.items) _ x ∙ ground (arith, all_visited x s.items)

    contains-difference :
        (s : HashSet A) (other : Other A) (x : A)
        → contains equal x (difference equal visit s other)
          ≡ (contains equal x s && not (other.has x))
    unfolding contains difference new_set add_each has_key
    contains-difference s other x =
        has_key-add_where (λ y. not (other.has y)) (visit s.items) _ x
        ∙ ground (arith, all_visited x s.items)

    -- If == decides equality on the keys, a range over the map passes every key, and ForEach and
    -- Contains of the other set agree on an element: Union contains it just when one of the two
    -- sets does, Intersection when both do, Difference when only the first does,
    -- SymmetricDifference when just one of them does.
    pub contains-operations :
        (s : HashSet A) (other : Other A) (x : A)
        → has_key equal x other.elements ≡ other.has x
        → (contains equal x (union equal visit s other) ≡ (contains equal x s || other.has x))
          × (contains equal x (intersection equal visit s other)
              ≡ (contains equal x s && other.has x))
          × (contains equal x (difference equal visit s other)
              ≡ (contains equal x s && not (other.has x)))
          × (contains equal x (symmetric_difference equal visit s other) ≡ (
              (contains equal x s && not (other.has x))
              || (not (contains equal x s) && other.has x)))
    unfolding symmetric_difference other_set
    contains-operations s other x agree =
        let u = contains-union s other x in
        let i = contains-intersection s other x in
        let d =
          contains-difference (union equal visit s other)
            (other_set equal visit (intersection equal visit s other)) x in
        (
          u ∙ ap (contains equal x s ||◌) agree,
          i,
          contains-difference s other x,
          d ∙ ground (arith, u, i, agree),
        )
