-- ===== src/Slice/Tests.antt =====
-- slice/slice.go, slice/atomic.go and slice/transaction.go: the theorems at a slice of four numbers.
use fyer_kit.Prelude.{get_or, ℕ, ◌+◌, ◌≡◌, refl, true, false, List, [], ◌∷◌, length, ◌==◌}
use fyer_kit.Prelude.Word.{ℤ, pos, negsuc}
use fyer_kit.Slice.{
  SafeSlice, batch_update, update_all, batch_delete, delete_all, sort_down, insert_down,
}
use fyer_kit.Slice.Transaction.{begin, commit}
use fyer_kit.Slice.Transaction.Replay.{
  Call, sets, appends, deletes, gets, lens, tx_run, direct_run, commit_replays,
}
use fyer_kit.Slice.Batch.{Distinct, listed, hits, unlisted, batch_delete-Distinct}
use fyer_kit.Slice.Update.{new_at, IsUpdate, in_range, updated, batch_update-IsUpdate}

abbrev four : SafeSlice ℕ
four = record { items = 5 ∷ 6 ∷ 7 ∷ 8 ∷ [] }

abbrev other : SafeSlice ℕ
other = record { items = 9 ∷ [] }

abbrev indices : List ℤ
indices = pos 0 ∷ negsuc 0 ∷ pos 2 ∷ []

abbrev edits : List (Call ℕ)
edits = sets (pos 1) 3 ∷ appends (4 ∷ []) ∷ deletes (pos 0) ∷ gets (pos 0) ∷ lens ∷ []

abbrev updates : List (ℤ × ℕ)
updates = (pos 2, 1) ∷ (pos 9, 2) ∷ (pos 0, 3) ∷ []

updates-IsUpdate : IsUpdate updates
unfolding new_at
updates-IsUpdate = (refl, (refl, (refl, tt)))

batch_update_run : batch_update updates four ≡ ((2, false), record { items = 3 ∷ 6 ∷ 1 ∷ 8 ∷ [] })
unfolding batch_update update_all
batch_update_run = refl

batch_update-IsUpdate_example :
    (get_or (batch_update updates four).1.items 2 0 ≡ updated (new_at updates 2) four.items 2 0)
    × (length (batch_update updates four).1.items ≡ length four.items)
    × ((batch_update updates four).0.0 ≡ in_range updates (length four.items))
    × ((batch_update updates four).0.1 ≡ ((batch_update updates four).0.0 == length updates))
batch_update-IsUpdate_example = batch_update-IsUpdate updates four 2 0 updates-IsUpdate

indices-Distinct : Distinct indices
unfolding listed hits
indices-Distinct = (refl, (refl, tt))

batch_delete_run : (batch_delete indices four).1.items ≡ 6 ∷ 8 ∷ []
unfolding batch_delete delete_all sort_down insert_down
batch_delete_run = refl

batch_delete-Distinct_example :
    ((batch_delete indices four).1.items ≡ unlisted (listed indices) 0 four.items)
    × ((batch_delete indices four).0.0 + length (batch_delete indices four).1.items
        ≡ length four.items)
    × ((batch_delete indices four).0.1 ≡ ((batch_delete indices four).0.0 == length indices))
batch_delete-Distinct_example = batch_delete-Distinct indices four indices-Distinct

commit_replays_example :
    ((tx_run 0 edits (begin four)).0 ≡ (direct_run 0 edits four).0)
    × ((commit (tx_run 0 edits (begin four)).1 other).0 ≡ true)
    × ((commit (tx_run 0 edits (begin four)).1 other).2 ≡ (direct_run 0 edits four).1)
commit_replays_example = commit_replays 0 edits four other
