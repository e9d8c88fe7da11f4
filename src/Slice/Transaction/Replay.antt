-- ===== src/Slice/Transaction/Replay.antt =====
-- slice/transaction.go against slice/slice.go: a transaction that commits does what the same calls
-- do directly, one that rolls back does nothing, and a finished one is dead.
use fyer_kit.Prelude.{
  ℕ, ◌≡◌, refl, ap, ◌∙◌, Bool, true, false, List, [], ◌∷◌, ◌++◌, arith, append-nil,
}
use fyer_kit.Prelude.Word.{ℤ}
use fyer_kit.Slice.{SafeSlice, append_items, set_item, delete, get, len}
use fyer_kit.Slice.Transaction.{
  Transaction, begin, tx_set, tx_append, tx_delete, tx_len, tx_get, commit, rollback,
}

-- The calls that a transaction and a slice share, and what a client sees of each.
pub data Call {ℓ} (A : Type ℓ) : Type ℓ where
  sets : ℤ → A → Call A
  appends : List A → Call A
  deletes gets : ℤ → Call A
  lens : Call A

pub data Reply {ℓ} (A : Type ℓ) : Type ℓ where
  flag : Bool → Reply A
  item : A × Bool → Reply A
  size : ℕ → Reply A

module _ {ℓ} {A : Type ℓ} (z : A) where
  unfoldable pub tx_call : Call A → Transaction A → Reply A × Transaction A
  tx_call (sets i v) tx = let (b, tx') = tx_set i v tx in (flag b, tx')
  tx_call (appends xs) tx = let (b, tx') = tx_append xs tx in (flag b, tx')
  tx_call (deletes i) tx = let (b, tx') = tx_delete i tx in (flag b, tx')
  tx_call (gets i) tx = (item (tx_get z i tx), tx)
  tx_call lens tx = (size (tx_len tx), tx)

  -- Append of a slice returns nothing; a transaction's says that it is open.
  unfoldable pub direct_call : Call A → SafeSlice A → Reply A × SafeSlice A
  direct_call (sets i v) s = let (b, s') = set_item i v s in (flag b, s')
  direct_call (appends xs) s = (flag true, append_items xs s)
  direct_call (deletes i) s = let (b, s') = delete i s in (flag b, s')
  direct_call (gets i) s = (item (get z i s), s)
  direct_call lens s = (size (len s), s)

  unfoldable pub tx_run : List (Call A) → Transaction A → List (Reply A) × Transaction A
  tx_run [] tx = ([], tx)
  tx_run (c ∷ cs) tx =
      let (r, tx') = tx_call c tx in let (rs, tx'') = tx_run cs tx' in (r ∷ rs, tx'')

  unfoldable pub direct_run : List (Call A) → SafeSlice A → List (Reply A) × SafeSlice A
  direct_run [] s = ([], s)
  direct_run (c ∷ cs) s =
      let (r, s') = direct_call c s in let (rs, s'') = direct_run cs s' in (r ∷ rs, s'')

  append_items_lem : (xs : List A) (s : SafeSlice A) → (append_items xs s).items ≡ s.items ++ xs
  unfolding append_items
  append_items_lem [] s = rw (append-nil s.items) (ground arith)
  append_items_lem (x ∷ xs) s = ground arith

  -- An open transaction answers each call as the slice of its working copy does, and stays open.
  call_agrees :
      (c : Call A) (s : SafeSlice A)
      → ◌≡◌ {A = Reply A × Transaction A}
          (tx_call c (begin s))
          ((direct_call c s).0, begin (direct_call c s).1)
  unfolding tx_call direct_call begin tx_set set_item tx_delete delete
  call_agrees (sets i v) s = ground arith
  call_agrees (appends xs) s = unfold tx_append in rw (append_items_lem xs s)
  call_agrees (deletes i) s = ground arith
  call_agrees (gets i) s = unfold tx_get get in refl
  call_agrees lens s = unfold tx_len len in refl

  run_agrees :
      (cs : List (Call A)) (s : SafeSlice A)
      → ◌≡◌ {A = List (Reply A) × Transaction A}
          (tx_run cs (begin s))
          ((direct_run cs s).0, begin (direct_run cs s).1)
  unfolding tx_run direct_run
  run_agrees [] s = refl
  run_agrees (c ∷ cs) s =
      let ih = run_agrees cs (direct_call c s).1 in
      ap (λ p. (p.0 ∷ (tx_run cs p.1).0, (tx_run cs p.1).1)) (call_agrees c s)
      ∙ ap (λ p. ((direct_call c s).0 ∷ p.0, p.1)) ih

  -- A transaction on a slice answers every sequence of calls as the slice would, and its Commit
  -- succeeds and sets the target to the items that the same calls, made directly, leave in the
  -- slice it began from, whatever the target holds by then.
  pub commit_replays :
      (cs : List (Call A)) (s t : SafeSlice A)
      → let r = tx_run cs (begin s) in
        let c = commit r.1 t in
        (r.0 ≡ (direct_run cs s).0) × (c.0 ≡ true) × (c.2 ≡ (direct_run cs s).1)
  unfolding commit begin
  commit_replays cs s t = rw (run_agrees cs s) (refl, refl, refl)

  dead_call : (c : Call A) (tx : Transaction A) → tx.committed ≡ true → (tx_call c tx).1 ≡ tx
  unfolding tx_call tx_set tx_append tx_delete
  dead_call (sets i v) tx h = ground arith
  dead_call (appends xs) tx h = ground arith
  dead_call (deletes i) tx h = ground arith
  dead_call (gets i) tx h = refl
  dead_call lens tx h = refl

  dead_run : (cs : List (Call A)) (tx : Transaction A) → tx.committed ≡ true → (tx_run cs tx).1 ≡ tx
  unfolding tx_run
  dead_run [] tx h = refl
  dead_run (c ∷ cs) tx h = ap (λ t. (tx_run cs t).1) (dead_call c tx h) ∙ dead_run cs tx h

  dead :
      (tx : Transaction A) (s : SafeSlice A)
      → tx.committed ≡ true
      → (commit tx s ≡ (false, tx, s)) × (rollback tx ≡ (false, tx))
  unfolding commit rollback
  dead tx s h = (ground arith, ground arith)

  -- After Commit or Rollback, and any further calls on the transaction, Commit fails and changes
  -- neither the transaction nor the slice, and Rollback fails and changes nothing.
  pub finished_is_dead :
      (cs : List (Call A)) (tx : Transaction A) (s t : SafeSlice A)
      → let c = (tx_run cs (commit tx s).1).1 in
        let r = (tx_run cs (rollback tx).1).1 in
        (commit c t ≡ (false, c, t))
        × (rollback c ≡ (false, c))
        × (commit r t ≡ (false, r, t))
        × (rollback r ≡ (false, r))
  finished_is_dead cs tx s t =
      let c = dead_run cs (commit tx s).1 over_commit in
      let r = dead_run cs (rollback tx).1 over_rollback in
      let d = dead (commit tx s).1 t over_commit in
      let e = dead (rollback tx).1 t over_rollback in rw (c, r) (d.0, d.1, e.0, e.1)
    where
      over_commit : (commit tx s).1.committed ≡ true
      over_commit = unfold commit in ground arith

      over_rollback : (rollback tx).1.committed ≡ true
      over_rollback = unfold rollback in ground arith
