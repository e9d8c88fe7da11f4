-- ===== src/Set/ConcurrentSet/Nested.antt =====
-- set/concurrentset.go: the six methods that take a second ConcurrentSet, and its lock inside their own, beside calls
-- that write. There are two sets, either of which may be the receiver and the other one.
use fyer_kit.Prelude.{
  ℕ, zero, suc, ◌+◌, ◌-◌, ◌≡◌, refl, ap, ◌∙◌, Bool, true, false, not, ◌&&◌, List, [], ◌∷◌, Option,
  none, some, ◌==◌, if◌then◌else◌, get_elem?, set,
}
use fyer_kit.Set.HashSet.{
  HashSet, other_set, union, intersection, difference, symmetric_difference, is_subset, is_superset,
}
use fyer_kit.Set.ConcurrentSet.{WriteCall, Reply, answers, makes, RwMutex, run_write}

pub data BothCall : Type 0 where
  both_union both_intersection both_difference both_symmetric_difference both_is_subset
        both_is_superset :
      BothCall

pub data Which : Type 0 where
  first_set second_set : Which

-- A call of two sets: not begun, with the receiver's lock, with both, with the other's given back; a call that writes: not
-- begun, waiting in Lock, inside; and a call that has returned.
pub data Stage (A : Type 0) : Type 0 where
  both_ready both_outer both_inner : BothCall → Which → Which → Stage A
  both_leaving : Reply A → Which → Stage A
  write_ready write_waiting write_inside : WriteCall A → Which → Stage A
  returned : Reply A → Stage A

pub record TwoSets (A : Type 0) : Type 0 where
  pub items_a : HashSet A
  pub items_b : HashSet A
  pub lock_a : RwMutex
  pub lock_b : RwMutex
  pub stages : List (Stage A)

-- RLock, which gives nothing where it waits, and RUnlock.
abbrev pub read_lock : RwMutex → Option RwMutex
read_lock l =
    if not l.writing && l.pending == 0 then some (record l { readers = l.readers + 1 }) else none

abbrev pub read_unlock : RwMutex → RwMutex
read_unlock l = record l { readers = l.readers - 1 }

module _ {A : Type 0} where
  abbrev pub items_of : Which → TwoSets A → HashSet A
  items_of first_set m = m.items_a
  items_of second_set m = m.items_b

  abbrev pub lock_of : Which → TwoSets A → RwMutex
  lock_of first_set m = m.lock_a
  lock_of second_set m = m.lock_b

  abbrev pub put_items : Which → HashSet A → TwoSets A → TwoSets A
  put_items first_set s m = record m { items_a = s }
  put_items second_set s m = record m { items_b = s }

  abbrev pub put_lock : Which → RwMutex → TwoSets A → TwoSets A
  put_lock first_set l m = record m { lock_a = l }
  put_lock second_set l m = record m { lock_b = l }

  abbrev pub enter : Option RwMutex → Which → ℕ → Stage A → TwoSets A → TwoSets A
  enter none w i next m = m
  enter (some l) w i next m = put_lock w l (record m { stages = set m.stages i next })

module _ {A : Type 0} (equal : A → A → Bool) (visit : List A → List A) where
  unfoldable pub run_both : BothCall → HashSet A → HashSet A → Reply A
  run_both both_union s t = makes (union equal visit s (other_set equal visit t))
  run_both both_intersection s t = makes (intersection equal visit s (other_set equal visit t))
  run_both both_difference s t = makes (difference equal visit s (other_set equal visit t))
  run_both both_symmetric_difference s t =
      makes (symmetric_difference equal visit s (other_set equal visit t))
  run_both both_is_subset s t = answers (is_subset equal visit s (other_set equal visit t))
  run_both both_is_superset s t = answers (is_superset equal visit s t)

  abbrev pub stage_step : Option (Stage A) → ℕ → TwoSets A → TwoSets A
  stage_step none i m = m
  stage_step (some (both_ready c w v)) i m =
      enter (read_lock (lock_of w m)) w i (both_outer c w v) m
  stage_step (some (both_outer c w v)) i m =
      enter (read_lock (lock_of v m)) v i (both_inner c w v) m
  stage_step (some (both_inner c w v)) i m =
      let r = run_both c (items_of w m) (items_of v m) in
      put_lock v (read_unlock (lock_of v m))
        (record m { stages = set m.stages i (both_leaving r w) })
  stage_step (some (both_leaving r w)) i m =
      put_lock w (read_unlock (lock_of w m)) (record m { stages = set m.stages i (returned r) })
  stage_step (some (write_ready c w)) i m =
      let l = lock_of w m in
      put_lock w (record l { pending = l.pending + 1 })
        (record m { stages = set m.stages i (write_waiting c w) })
  stage_step (some (write_waiting c w)) i m =
      let l = lock_of w m in
      if not l.writing && l.readers == 0
      then put_lock w (record l { writing = true; pending = l.pending - 1 })
          (record m { stages = set m.stages i (write_inside c w) })
      else m
  stage_step (some (write_inside c w)) i m =
      let (r, s) = run_write equal visit c (items_of w m) in
      put_lock w (record (lock_of w m) { writing = false })
        (put_items w s (record m { stages = set m.stages i (returned r) }))
  stage_step (some (returned r)) i m = m

  unfoldable pub run_stages : List ℕ → TwoSets A → TwoSets A
  run_stages [] m = m
  run_stages (i ∷ schedule) m = run_stages schedule (stage_step (get_elem? m.stages i) i m)

abbrev free_lock : RwMutex
free_lock = record { readers = 0; writing = false; pending = 0 }

unfoldable pub two_sets : {A : Type 0} → HashSet A → HashSet A → List (Stage A) → TwoSets A
two_sets s t stages = record {
  items_a = s;
  items_b = t;
  lock_a = free_lock;
  lock_b = free_lock;
  stages = stages;
}

module _ {A : Type 0} (equal : A → A → Bool) (visit : List A → List A) where
  -- What is left after each of four calls has taken one step, if the first two read and the others write.
  abbrev pub blocked :
      HashSet A
      → HashSet A
      → BothCall
      → BothCall
      → WriteCall A
      → WriteCall A
      → Which
      → Which
      → TwoSets A
  blocked s t c d x y w v =
      run_stages equal visit (0 ∷ 1 ∷ 2 ∷ 3 ∷ []) (
        two_sets s t (both_ready c w v ∷ both_ready d v w ∷ write_ready x w ∷ write_ready y v ∷ []))

  stays :
      (m : TwoSets A)
      → ((i : ℕ) → stage_step equal visit (get_elem? m.stages i) i m ≡ m)
      → (schedule : List ℕ) → run_stages equal visit schedule m ≡ m
  unfolding run_stages
  stays m h [] = refl
  stays m h (i ∷ schedule) = ap (run_stages equal visit schedule) (h i) ∙ stays m h schedule

  blocked-stays :
      (s t : HashSet A) (c d : BothCall) (x y : WriteCall A) (w v : Which) (i : ℕ)
      → let m = blocked s t c d x y w v in stage_step equal visit (get_elem? m.stages i) i m ≡ m
  unfolding run_stages two_sets
  blocked-stays s t c d x y first_set first_set zero = refl
  blocked-stays s t c d x y first_set first_set (suc zero) = refl
  blocked-stays s t c d x y first_set first_set (suc (suc zero)) = refl
  blocked-stays s t c d x y first_set first_set (suc (suc (suc zero))) = refl
  blocked-stays s t c d x y first_set second_set zero = refl
  blocked-stays s t c d x y first_set second_set (suc zero) = refl
  blocked-stays s t c d x y first_set second_set (suc (suc zero)) = refl
  blocked-stays s t c d x y first_set second_set (suc (suc (suc zero))) = refl
  blocked-stays s t c d x y second_set first_set zero = refl
  blocked-stays s t c d x y second_set first_set (suc zero) = refl
  blocked-stays s t c d x y second_set first_set (suc (suc zero)) = refl
  blocked-stays s t c d x y second_set first_set (suc (suc (suc zero))) = refl
  blocked-stays s t c d x y second_set second_set zero = refl
  blocked-stays s t c d x y second_set second_set (suc zero) = refl
  blocked-stays s t c d x y second_set second_set (suc (suc zero)) = refl
  blocked-stays s t c d x y second_set second_set (suc (suc (suc zero))) = refl
  blocked-stays s t c d x y first_set first_set (suc (suc (suc (suc i)))) = refl
  blocked-stays s t c d x y first_set second_set (suc (suc (suc (suc i)))) = refl
  blocked-stays s t c d x y second_set first_set (suc (suc (suc (suc i)))) = refl
  blocked-stays s t c d x y second_set second_set (suc (suc (suc (suc i)))) = refl

  outer_at :
      (s t : HashSet A) (c d : BothCall) (x y : WriteCall A) (w v : Which)
      → (blocked s t c d x y w v).stages
        ≡ both_outer c w v ∷ both_outer d v w ∷ write_waiting x w ∷ write_waiting y v ∷ []
  unfolding run_stages two_sets
  outer_at s t c d x y first_set first_set = refl
  outer_at s t c d x y first_set second_set = refl
  outer_at s t c d x y second_set first_set = refl
  outer_at s t c d x y second_set second_set = refl

  -- Two calls of methods that take a second ConcurrentSet, each with the other's receiver, which may be the same set, and a
  -- call that writes each of the sets can come to where both readers hold their own lock and both writers wait; from
  -- there no order of steps changes anything, so that none of the four ever returns.
  pub unions_block :
      (s t : HashSet A) (c d : BothCall) (x y : WriteCall A) (w v : Which) (schedule : List ℕ)
      → let m = run_stages equal visit schedule (blocked s t c d x y w v) in
        (m ≡ blocked s t c d x y w v)
        × (m.stages
            ≡ both_outer c w v ∷ both_outer d v w ∷ write_waiting x w ∷ write_waiting y v ∷ [])
  unions_block s t c d x y w v schedule =
      let still = stays (blocked s t c d x y w v) (blocked-stays s t c d x y w v) schedule in
      (still, ap (λ (m : TwoSets A). m.stages) still ∙ outer_at s t c d x y w v)
