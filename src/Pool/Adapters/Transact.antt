-- ===== src/Pool/Adapters/Transact.antt =====
-- pool/adapters/sql.go: the transaction that WithTransaction begins.
use fyer_kit.Prelude.{
  ◌+◌, ◌≡◌, refl, ap, inl, inr, Bool, true, false, ◌∷◌, Option, none, some, if◌then◌else◌,
  Option-cases,
}
use fyer_kit.Pool.Adapters.Sql.{
  SqlError, failed_to_commit, begins, commits, rolls_back, is_set, SqlConnection, end_held, begun,
  start_tx, begin_tx, commit_held, commit_tx, rollback_held, rollback_tx,
}
use fyer_kit.Pool.Adapters.Helpers.{TxAnswers, run_tx, after_begin, transact}

-- What Put is told, and the connection, after a transaction whose function answers `run` and whose Commit answers `commit`.
abbrev pub Settles :
    Option SqlError → Option SqlError → SqlConnection → Option SqlError × SqlConnection → Type 0
Settles none none c (e, d) = (e ≡ none) × (d.calls ≡ commits c.next_tx ∷ begins c.next_tx ∷ c.calls)
Settles none (some x) c (e, d) =
    (e ≡ some (failed_to_commit x)) × (d.calls ≡ commits c.next_tx ∷ begins c.next_tx ∷ c.calls)
Settles (some x) commit c (e, d) =
    (is_set e ≡ true) × (d.calls ≡ rolls_back c.next_tx ∷ begins c.next_tx ∷ c.calls)

settles :
    (a : TxAnswers) (run commit : Option SqlError) (c d : SqlConnection)
    → d.tx ≡ some c.next_tx
    → d.calls ≡ begins c.next_tx ∷ c.calls
    → a.on_commit ≡ commit
    → Settles run commit c (run_tx a run d) × ((run_tx a run d).1.tx ≡ none)
unfolding run_tx commit_tx commit_held rollback_tx rollback_held end_held
settles a none none c d e f g = (rw (e, g) (refl, ap (◌∷◌ (commits c.next_tx)) f), rw (e, g) refl)
settles a none (some x) c d e f g =
    (rw (e, g) (refl, ap (◌∷◌ (commits c.next_tx)) f), rw (e, g) refl)
settles a (some x) commit c d e f g = elim (Option-cases a.on_rollback) [
  | inl r ↦ (rw (e, r) (refl, ap (◌∷◌ (rolls_back c.next_tx)) f), rw (e, r) refl)
  | inr (y, r) ↦ (rw (e, r) (refl, ap (◌∷◌ (rolls_back c.next_tx)) f), rw (e, r) refl)
]

-- On an open connection without a transaction that has a database, where BeginTx succeeds, the transaction part of
-- WithTransaction begins one transaction and ends it: with Commit if the function succeeds, and Put is told of no error if
-- the Commit succeeds too; with Rollback if the function fails, and Put is told of an error. No transaction is held after it.
pub transact-Settles :
    (a : TxAnswers) (c : SqlConnection)
    → c.closed ≡ false
    → c.tx ≡ none
    → is_set c.db ≡ true
    → a.on_begin ≡ none
    → Settles a.on_run a.on_commit c (transact a c) × ((transact a c).1.tx ≡ none)
unfolding transact after_begin begin_tx start_tx
transact-Settles a c open_now free has_db ok =
    let d : SqlConnection = record c {
      tx = some c.next_tx;
      next_tx = c.next_tx + 1;
      calls = begins c.next_tx ∷ c.calls;
    } in
    let started : begin_tx a.on_begin c ≡ (begun c.next_tx, d) =
      rw (ok, open_now, free, has_db) (begins_either (is_set c.conn)) in
    rw started (settles a a.on_run a.on_commit c d refl refl refl)
  where
    begins_either : {A : Type 0} {x : A} (b : Bool) → (if b then x else x) ≡ x
    begins_either true = refl
    begins_either false = refl
