-- ===== src/WorkPool/TaskQueue.antt =====
-- workpool/queue.go: priorityQueue, a binary heap through container/heap. A method holds the queue's lock throughout, so
-- it is a function of the items. The loops of container/heap are on the number of rounds left, which is at most
-- the length.
pub mod Order
pub mod Up
pub mod Down
pub mod Serve
pub mod Removal
use fyer_kit.Prelude.{
  ℕ, zero, suc, ◌+◌, ◌-◌, ◌*◌, ◌/◌, ◌≡◌, refl, sym, ◌∙◌, ◌⊎◌, inl, inr, Bool, true, false, not,
  ◌&&◌, ◌||◌, List, [], ◌∷◌, ◌++◌, Option, none, some, ltb, leb, ◌==◌, if◌then◌else◌, length,
  get_elem?, set, take, arith, length-set, length-append, length-take, if-intro,
}
use fyer_kit.Prelude.Word.{geb}
use fyer_kit.WorkPool.Task.{TaskHandle}

module _ {A : Type 0} where
  -- `pq.items[i].config.priority > pq.items[j].config.priority`
  abbrev pub higher : Option (TaskHandle A) → Option (TaskHandle A) → Bool
  higher (some s) (some t) = not (geb t.config.priority s.config.priority)
  higher (some s) none = false
  higher none o = false

  unfoldable pub less : List (TaskHandle A) → ℕ → ℕ → Bool
  less l i j = higher (get_elem? l i) (get_elem? l j)

  abbrev pub put_both :
      List (TaskHandle A)
      → ℕ
      → ℕ
      → Option (TaskHandle A)
      → Option (TaskHandle A)
      → List (TaskHandle A)
  put_both l i j (some s) (some t) = set (set l i t) j s
  put_both l i j (some s) none = l
  put_both l i j none o = l

  unfoldable pub swap : List (TaskHandle A) → ℕ → ℕ → List (TaskHandle A)
  swap l i j = put_both l i j (get_elem? l i) (get_elem? l j)

  -- The loop of heap.up.
  unfoldable pub sift_up : ℕ → List (TaskHandle A) → ℕ → List (TaskHandle A)
  sift_up zero l j = l
  sift_up (suc rounds) l j =
      let i = (j - 1) / 2 in
      let risen = sift_up rounds (swap l i j) i in if i == j || not (less l j i) then l else risen

  unfoldable pub first_child : List (TaskHandle A) → ℕ → ℕ → ℕ
  unfolding less
  first_child l n i = let j = 2 * i + 1 in if ltb (j + 1) n && less l (j + 1) j then j + 1 else j

  -- The loop of heap.down, with the index that it ends at.
  unfoldable pub sift_down : ℕ → List (TaskHandle A) → ℕ → ℕ → List (TaskHandle A) × ℕ
  sift_down zero l n i = (l, i)
  sift_down (suc rounds) l n i =
      let j = first_child l n i in
      let sunk = sift_down rounds (swap l i j) n j in
      if leb n (2 * i + 1) then (l, i) else if less l j i then sunk else (l, i)

  -- heap.Push
  unfoldable pub enqueue : TaskHandle A → List (TaskHandle A) → List (TaskHandle A)
  enqueue t l = sift_up (length l + 1) (l ++ t ∷ []) (length l)

  abbrev pub with_rest :
      Option (TaskHandle A) → List (TaskHandle A) → Option (TaskHandle A × List (TaskHandle A))
  with_rest none l = none
  with_rest (some t) l = some (t, l)

  -- The method Pop: the last item and the others.
  unfoldable pub pop_last : List (TaskHandle A) → Option (TaskHandle A × List (TaskHandle A))
  pop_last l = with_rest (get_elem? l (length l - 1)) (take (length l - 1) l)

  -- heap.Pop, behind the test for an empty queue.
  unfoldable pub dequeue : List (TaskHandle A) → Option (TaskHandle A × List (TaskHandle A))
  dequeue l =
      let n = length l - 1 in
      let popped = pop_last (sift_down (length l) (swap l 0 n) n 0).0 in
      if length l == 0 then none else popped

  -- heap.Remove
  unfoldable pub remove_at : ℕ → List (TaskHandle A) → List (TaskHandle A)
  remove_at i l =
      let n = length l - 1 in
      let (down, k) = sift_down (length l) (swap l i n) n i in
      if n == i
      then take n l
      else if ltb i k
      then take n down
      else take n (sift_up (length l) down i)

  abbrev pub find_id : ℕ → ℕ → List (TaskHandle A) → Option ℕ
  find_id id i [] = none
  find_id id i (t ∷ ts) = let rest = find_id id (i + 1) ts in if t.id == id then some i else rest

  unfoldable pub remove_id : ℕ → List (TaskHandle A) → Bool × List (TaskHandle A)
  unfolding remove_at
  remove_id id l = elim (find_id id 0 l) [ none ↦ (false, l) | some i ↦ (true, remove_at i l) ]

  unfoldable pub peek : List (TaskHandle A) → Option (TaskHandle A)
  peek l = get_elem? l 0

  unfoldable pub clear : List (TaskHandle A) → List (TaskHandle A)
  clear l = []

  length-put_both :
      (l : List (TaskHandle A)) (i j : ℕ) (o o' : Option (TaskHandle A))
      → length (put_both l i j o o') ≡ length l
  length-put_both l i j (some s) (some t) = length-set (set l i t) j s ∙ length-set l i t
  length-put_both l i j (some s) none = refl
  length-put_both l i j none o = refl

  pub length-swap : (l : List (TaskHandle A)) (i j : ℕ) → length (swap l i j) ≡ length l
  unfolding swap
  length-swap l i j = length-put_both l i j (get_elem? l i) (get_elem? l j)

  pub length-sift_up : (n : ℕ) (l : List (TaskHandle A)) (j : ℕ) → length (sift_up n l j) ≡ length l
  unfolding sift_up
  length-sift_up zero l j = refl
  length-sift_up (suc n) l j =
      if-intro (λ (k : List (TaskHandle A)). length k ≡ length l)
        ((j - 1) / 2 == j || not (less l j ((j - 1) / 2))) (λ _. refl)
        λ _. length-sift_up n (swap l ((j - 1) / 2) j) ((j - 1) / 2) ∙ length-swap l ((j - 1) / 2) j

  pub length-sift_down :
      (r : ℕ) (l : List (TaskHandle A)) (n i : ℕ) → length (sift_down r l n i).0 ≡ length l
  unfolding sift_down
  length-sift_down zero l n i = refl
  length-sift_down (suc r) l n i =
      if-intro (λ (k : List (TaskHandle A) × ℕ). length k.0 ≡ length l) (leb n (2 * i + 1))
        (λ _. refl)
        λ _.
          if-intro (λ (k : List (TaskHandle A) × ℕ). length k.0 ≡ length l)
            (less l (first_child l n i) i)
            (λ _.
              length-sift_down r (swap l i (first_child l n i)) n (first_child l n i)
              ∙ length-swap l i (first_child l n i))
            λ _. refl

  pub length-enqueue :
      (t : TaskHandle A) (l : List (TaskHandle A)) → length (enqueue t l) ≡ length l + 1
  unfolding enqueue
  length-enqueue t l =
      length-sift_up (length l + 1) (l ++ t ∷ []) (length l)
      ∙ omega (arith, length-append l (t ∷ []))

  abbrev pub GivesUp : List (TaskHandle A) → Option (TaskHandle A × List (TaskHandle A)) → Type 0
  GivesUp l o =
      (o ≡ none)
      ⊎ ((t : TaskHandle A) × (k : List (TaskHandle A)) × (o ≡ some (t, k))
          × (length l ≡ length k + 1))

  with_rest-GivesUp :
      (l k : List (TaskHandle A)) (o : Option (TaskHandle A))
      → length l ≡ length k + 1
      → GivesUp l (with_rest o k)
  with_rest-GivesUp l k none n = inl refl
  with_rest-GivesUp l k (some t) n = inr (t, k, refl, n)

  pop_last-GivesUp : (l : List (TaskHandle A)) → GivesUp l (pop_last l)
  unfolding pop_last
  pop_last-GivesUp [] = inl refl
  pop_last-GivesUp (x ∷ l) =
      with_rest-GivesUp (x ∷ l) (take (length (x ∷ l) - 1) (x ∷ l))
        (get_elem? (x ∷ l) (length (x ∷ l) - 1))
        (omega (arith, length-take (length (x ∷ l) - 1) (x ∷ l)))

  -- A queue is empty, or gives up one task.
  pub dequeue-GivesUp : (l : List (TaskHandle A)) → GivesUp l (dequeue l)
  unfolding dequeue
  dequeue-GivesUp l =
      if-intro (GivesUp l) (length l == 0) (λ _. inl refl)
        λ _.
          elim (pop_last-GivesUp
            (sift_down (length l) (swap l 0 (length l - 1)) (length l - 1) 0).0) [
              | inl e ↦ inl e
              | inr (t, k, e, n) ↦ inr (t, k, e, sym same ∙ n)
            ]
    where
      same : length (sift_down (length l) (swap l 0 (length l - 1)) (length l - 1) 0).0 ≡ length l
      same =
          length-sift_down (length l) (swap l 0 (length l - 1)) (length l - 1) 0
          ∙ length-swap l 0 (length l - 1)
