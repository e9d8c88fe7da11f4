-- ===== src/Set/ConcurrentSet/Tests.antt =====
-- set/concurrentset.go: the theorems at concrete calls.
use fyer_kit.Prelude.{ℕ, ◌≤◌, ◌≡◌, refl, Bool, true, false, List, [], ◌∷◌, ◌==◌, length}
use fyer_kit.Set.HashSet.{HashSet, add, contains, has_key, put_key}
use fyer_kit.Set.ConcurrentSet.{
  Call, writes, reads, calls_add, calls_clear, calls_contains, answers, run_write, run_read, step,
  run, new_concurrent,
}
use fyer_kit.Set.ConcurrentSet.Counts.{steps_left, total}
use fyer_kit.Set.ConcurrentSet.Linear.{Guarded, run-Guarded}
use fyer_kit.Set.ConcurrentSet.Nested.{
  both_union, both_is_subset, first_set, second_set, both_outer, write_waiting, run_stages, blocked,
  unions_block,
}
use fyer_kit.Set.ConcurrentSet.Finish.{AllReturned, calls_return}

abbrev two : HashSet ℕ
two = record { items = 1 ∷ 2 ∷ [] }

abbrev calls : List (Call ℕ)
calls = writes (calls_add 3) ∷ reads (calls_contains 3) ∷ writes calls_clear ∷ []

-- Contains waits for Add and goes in before Clear, which waits as well.
abbrev schedule : List (ℕ × Bool)
schedule =
    (0, false)
    ∷ (1, false)
    ∷ (0, false)
    ∷ (2, false)
    ∷ (2, false)
    ∷ (0, false)
    ∷ (1, true)
    ∷ (2, false)
    ∷ (1, false)
    ∷ []

replies_at :
    (run ◌==◌ (λ xs. xs) schedule (new_concurrent two calls)).log
    ≡ (reads (calls_contains 3), answers true) ∷ (writes (calls_add 3), answers true) ∷ []
unfolding run step new_concurrent run_write run_read add contains has_key put_key
replies_at = refl

run-Guarded_example :
    Guarded ◌==◌ (λ xs. xs) two (run ◌==◌ (λ xs. xs) schedule (new_concurrent two calls))
run-Guarded_example = run-Guarded ◌==◌ (λ xs. xs) two calls schedule

calls_return_example :
    let m = run ◌==◌ (λ xs. xs) schedule (new_concurrent two calls) in
    (more : List (ℕ × Bool)) × (length more ≤ total steps_left m.phases)
    × AllReturned ◌==◌ (λ xs. xs) (run ◌==◌ (λ xs. xs) more m)
calls_return_example = calls_return ◌==◌ (λ xs. xs) two calls schedule

-- a.Union(b), b.IsSubset(a), a.Add(3) and b.Clear().
unions_block_example :
    let start =
      blocked ◌==◌
        (λ xs. xs)
        two
        two
        both_union
        both_is_subset
        (calls_add 3)
        calls_clear
        first_set
        second_set in
    let m = run_stages ◌==◌ (λ xs. xs) (2 ∷ 0 ∷ 1 ∷ 3 ∷ 0 ∷ []) start in
    (m ≡ start)
    × (m.stages
        ≡ both_outer both_union first_set second_set
          ∷ both_outer both_is_subset second_set first_set
          ∷ write_waiting (calls_add 3) first_set
          ∷ write_waiting calls_clear second_set
          ∷ [])
unions_block_example =
    unions_block ◌==◌ (λ xs. xs) two two both_union both_is_subset (calls_add 3) calls_clear
      first_set second_set (2 ∷ 0 ∷ 1 ∷ 3 ∷ 0 ∷ [])
