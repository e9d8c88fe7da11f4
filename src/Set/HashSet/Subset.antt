-- ===== src/Set/HashSet/Subset.antt =====
-- set/hashset.go: IsSubset and ContainsAll against inclusion.
use fyer_kit.Prelude.{
  ◌≤◌, ◌≡◌, refl, sym, ◌∙◌, ◌↔◌, Bool, true, List, [], ◌∷◌, arith, Bool-cases, inl, inr,
}
use fyer_kit.Set.HashSet.{
  HashSet, has_key, contains, all_in, is_subset, is_superset, other_set, size,
}
use fyer_kit.Set.HashSet.Member.{IsEquality, equal-eq}
use fyer_kit.Set.HashSet.Count.{IsMap, delete_keys_lem}
use fyer_kit.Set.HashSet.Batch.{IsRange}

module _ {A : Type 0} (equal : A → A → Bool) where
  -- Every element of the first is one of the second.
  abbrev pub Included : HashSet A → HashSet A → Type 0
  Included s t = (x : A) → contains equal x s ≡ true → contains equal x t ≡ true

module _ {A : Type 0} (equal : A → A → Bool) (E : IsEquality equal) where
  all_in-all :
      (has : A → Bool) (xs : List A)
      → (all_in has xs ≡ true) ↔ ((x : A) → has_key equal x xs ≡ true → has x ≡ true)
  unfolding all_in has_key
  all_in-all has [] = (λ _ x h. absurd (ground (arith, h)), λ _. refl)
  all_in-all has (y ∷ ys) =
      let i = all_in-all has ys in
      (
        λ h x e. elim (Bool-cases (equal x y)) [
          | inl f ↦ equal-eq equal E x y f has ∙ ground (arith, h)
          | inr f ↦ i.0 (ground (arith, h)) x (ground (arith, e, f))
        ],
        λ h.
            ground (arith, h y (ground (arith, E.reflexive y)), i.1 λ x e. h x (ground (arith, e))),
      )

  Included-length :
      (s t : HashSet A)
      → IsMap equal s.items
      → IsMap equal t.items
      → Included equal s t
      → size s ≤ size t
  unfolding contains size
  Included-length s t m n h = omega (arith, (delete_keys_lem equal E s.items t.items m n h).1)

  -- If == decides equality on the keys and a range over the map passes each of its keys once,
  -- IsSubset of two hash sets says whether every element of the first is in the second: the test
  -- of the sizes that comes first never gives a wrong answer. IsSuperset says it with the sets in
  -- each other's place.
  pub is_subset-Included :
      (visit : List A → List A) (s t : HashSet A)
      → IsRange equal visit
      → IsMap equal s.items
      → IsMap equal t.items
      → ((is_subset equal visit s (other_set equal visit t) ≡ true) ↔ Included equal s t)
        × (is_superset equal visit t s ≡ is_subset equal visit s (other_set equal visit t))
  unfolding is_subset is_superset other_set
  is_subset-Included visit s t range m n =
      let a = all_in-all (λ x. contains equal x t) (visit s.items) in
      (
        (
          λ h x e. a.0 (ground (arith, h)) x (range.complete x s.items ∙ unfold contains in e),
          λ h. ground (
            arith,
            Included-length s t m n h,
            a.1 λ x e. h x (unfold contains in (sym (range.complete x s.items) ∙ e)),
          ),
        ),
        refl,
      )
