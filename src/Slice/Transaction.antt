-- ===== src/Slice/Transaction.antt =====
-- slice/transaction.go: a transaction works on a copy of a slice's items. Its methods take the
-- transaction, and Commit the slice as well, which others may have changed since Begin.
pub mod Replay
use fyer_kit.Prelude.{
  ℕ, suc, Bool, true, false, List, [], ◌∷◌, ◌++◌, Option, none, some, if◌then◌else◌, length, get_or,
  set,
}
use fyer_kit.Prelude.Word.{ℤ, check_index}
use fyer_kit.Slice.{SafeSlice, remove_at}

pub record Transaction {ℓ} (A : Type ℓ) : Type ℓ where
  pub working_copy : List A
  pub committed : Bool

module _ {ℓ} {A : Type ℓ} where
  unfoldable pub begin : SafeSlice A → Transaction A
  begin s = record { working_copy = s.items; committed = false }

  -- `if tx.committed { return false }`, then the index.
  abbrev pub open_index : ℤ → Transaction A → Option ℕ
  open_index i tx = if tx.committed then none else check_index i (length tx.working_copy)

  unfoldable pub tx_set : ℤ → A → Transaction A → Bool × Transaction A
  tx_set i v tx = elim (open_index i tx) [
    | none ↦ (false, tx)
    | some k ↦ (true, record tx { working_copy = set tx.working_copy k v })
  ]

  unfoldable pub tx_append : List A → Transaction A → Bool × Transaction A
  tx_append xs tx =
      if tx.committed
      then (false, tx)
      else (true, record tx { working_copy = tx.working_copy ++ xs })

  unfoldable pub tx_delete : ℤ → Transaction A → Bool × Transaction A
  tx_delete i tx = elim (open_index i tx) [
    | none ↦ (false, tx)
    | some k ↦ (true, record tx { working_copy = remove_at k tx.working_copy })
  ]

  unfoldable pub tx_len : Transaction A → ℕ
  tx_len tx = if tx.committed then 0 else length tx.working_copy

  unfoldable pub commit : Transaction A → SafeSlice A → Bool × Transaction A × SafeSlice A
  commit tx s =
      if tx.committed
      then (false, tx, s)
      else (true, record tx { committed = true }, record { items = tx.working_copy })

  unfoldable pub rollback : Transaction A → Bool × Transaction A
  rollback tx =
      if tx.committed then (false, tx) else (true, record { working_copy = []; committed = true })

  unfoldable pub is_committed : Transaction A → Bool
  is_committed tx = tx.committed

-- `zero_value` is the zero value of the element type.
module _ {ℓ} {A : Type ℓ} (zero_value : A) where
  unfoldable pub tx_get : ℤ → Transaction A → A × Bool
  tx_get i tx = elim (open_index i tx) [
    | none ↦ (zero_value, false)
    | some k ↦ (get_or tx.working_copy k zero_value, true)
  ]
