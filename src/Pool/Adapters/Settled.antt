-- ===== src/Pool/Adapters/Settled.antt =====
-- pool/adapters/sql.go: the transactions of an SQLConnection over a sequence of calls.
use fyer_kit.Prelude.{
  ℕ, ◌+◌, ◌<◌, ◌≡◌, refl, Bool, true, false, ◌||◌, List, [], ◌∷◌, Option, none, some, ◌==◌,
  if-intro, arith,
}
use fyer_kit.Pool.Adapters.Sql.{
  SqlError, SqlCall, begins, commits, rolls_back, closes_conn, is_set, SqlConnection, end_held,
  close_held, close, reset_held, reset_state, Begun, start_tx, begin_tx, commit_held, commit_tx,
  rollback_held, rollback_tx, HealthQuery,
}
use fyer_kit.Pool.Adapters.SqlFactory.{new_sql_connection}

-- A call of a method, with the answers of the driver.
pub data SqlOp : Type 0 where
  op_close : Option SqlError → Option SqlError → SqlOp
  op_reset : Option SqlError → ℕ → SqlOp
  op_begin op_commit op_rollback : Option SqlError → SqlOp

unfoldable pub run_op : SqlOp → SqlConnection → SqlConnection
run_op (op_close a b) c = (close a b c).1
run_op (op_reset a now) c = (reset_state a now c).1
run_op (op_begin a) c = (begin_tx a c).1
run_op (op_commit a) c = (commit_tx a c).1
run_op (op_rollback a) c = (rollback_tx a c).1

unfoldable pub run_ops : List SqlOp → SqlConnection → SqlConnection
run_ops [] c = c
run_ops (op ∷ ops) c = run_ops ops (run_op op c)

abbrev pub ends : ℕ → SqlCall → Bool
ends t (begins u) = false
ends t (commits u) = t == u
ends t (rolls_back u) = t == u
ends t (closes_conn u) = false

-- Commit or Rollback was called on the transaction, whatever the driver answered.
unfoldable pub ended : ℕ → List SqlCall → Bool
ended t [] = false
ended t (call ∷ calls) = ends t call || ended t calls

abbrev pub HeldOrNone : Option ℕ → ℕ → List SqlCall → Type 0
HeldOrNone none n calls = (t : ℕ) → t < n → ended t calls ≡ true
HeldOrNone (some u) n calls = (u + 1 ≡ n) × ((t : ℕ) → t < u → ended t calls ≡ true)

-- Commit or Rollback was called on every transaction begun, but perhaps not on the last, if the connection holds it.
abbrev pub Settled : SqlConnection → Type 0
Settled c = HeldOrNone c.tx c.next_tx c.calls

rolled_back :
    (u n : ℕ) (calls : List SqlCall)
    → HeldOrNone (some u) n calls
    → HeldOrNone none n (rolls_back u ∷ calls)
unfolding ended
rolled_back u n calls h t p = ground (arith, h.0, h.1 t)

committed :
    (u n : ℕ) (calls : List SqlCall)
    → HeldOrNone (some u) n calls
    → HeldOrNone none n (commits u ∷ calls)
unfolding ended
committed u n calls h t p = ground (arith, h.0, h.1 t)

still_held :
    (u n : ℕ) (calls : List SqlCall)
    → HeldOrNone (some u) n calls
    → HeldOrNone (some u) n (rolls_back u ∷ calls)
unfolding ended
still_held u n calls h = (h.0, λ t p. ground (arith, h.1 t))

end_held-Settled :
    (o : Option ℕ) (a : Option SqlError) (c : SqlConnection)
    → c.tx ≡ o
    → HeldOrNone o c.next_tx c.calls
    → Settled (end_held o a c).1 × ((end_held o a c).1.tx ≡ none)
unfolding end_held
end_held-Settled none a c e h = (rw e h, e)
end_held-Settled (some t) a c e h = (rolled_back t c.next_tx c.calls h, refl)

close_held-Settled :
    (o : Option ℕ) (a e : Option SqlError) (c : SqlConnection)
    → c.tx ≡ none
    → Settled c
    → Settled (close_held o a (e, c)).1
unfolding close_held
close_held-Settled none a e c n h = h
close_held-Settled (some k) a e c n h =
    let before = rw n at h in rw n (λ t p. unfold ended in before t p)

close-Settled : (a b : Option SqlError) (c : SqlConnection) → Settled c → Settled (close a b c).1
unfolding close
close-Settled a b c h =
    let (s, n) = end_held-Settled c.tx a c refl h in
    if-intro (λ (r : Option SqlError × SqlConnection). Settled r.1) c.closed (λ _. h)
      (λ _. close_held-Settled c.conn b (end_held c.tx a c).0 (end_held c.tx a c).1 n s)

reset-Settled :
    (o : Option ℕ) (a : Option SqlError) (now : ℕ) (c : SqlConnection)
    → c.tx ≡ o
    → HeldOrNone o c.next_tx c.calls
    → Settled (reset_held o a now c).1
unfolding reset_held
reset-Settled none a now c e h = rw e h
reset-Settled (some t) none now c e h = rolled_back t c.next_tx c.calls h
reset-Settled (some t) (some x) now c e h = rw e (still_held t c.next_tx c.calls h)

start-Settled :
    (a : Option SqlError) (c : SqlConnection) → c.tx ≡ none → Settled c → Settled (start_tx a c).1
unfolding start_tx
start-Settled none c e h = let before = rw e at h in (refl, λ t p. unfold ended in before t p)
start-Settled (some x) c e h = h

is_set-none : {A : Type 0} (o : Option A) → is_set o ≡ false → o ≡ none
is_set-none none e = refl
is_set-none (some a) e = absurd (ground (arith, e))

begin-Settled : (a : Option SqlError) (c : SqlConnection) → Settled c → Settled (begin_tx a c).1
unfolding begin_tx
begin-Settled a c h =
    let P : Begun × SqlConnection → Type 0 = λ r. Settled r.1 in
    if-intro P c.closed (λ _. h)
      λ _.
        if-intro P (is_set c.tx) (λ _. h)
          λ e.
            let started = start-Settled a c (is_set-none c.tx e) h in
            if-intro P (is_set c.conn) (λ _. started)
              λ _. if-intro P (is_set c.db) (λ _. started) λ _. h

commit-Settled :
    (o : Option ℕ) (a : Option SqlError) (c : SqlConnection)
    → HeldOrNone o c.next_tx c.calls
    → Settled c
    → Settled (commit_held o a c).1
unfolding commit_held
commit-Settled none a c h s = s
commit-Settled (some t) a c h s = committed t c.next_tx c.calls h

rollback-Settled :
    (o : Option ℕ) (a : Option SqlError) (c : SqlConnection)
    → HeldOrNone o c.next_tx c.calls
    → Settled c
    → Settled (rollback_held o a c).1
unfolding rollback_held end_held
rollback-Settled none a c h s = s
rollback-Settled (some t) a c h s = rolled_back t c.next_tx c.calls h

run_op-Settled : (op : SqlOp) (c : SqlConnection) → Settled c → Settled (run_op op c)
unfolding run_op reset_state commit_tx rollback_tx
run_op-Settled (op_close a b) c h = close-Settled a b c h
run_op-Settled (op_reset a now) c h = reset-Settled c.tx a now c refl h
run_op-Settled (op_begin a) c h = begin-Settled a c h
run_op-Settled (op_commit a) c h = commit-Settled c.tx a c h h
run_op-Settled (op_rollback a) c h = rollback-Settled c.tx a c h h

run_ops-from : (ops : List SqlOp) (c : SqlConnection) → Settled c → Settled (run_ops ops c)
unfolding run_ops
run_ops-from [] c h = h
run_ops-from (op ∷ ops) c h = run_ops-from ops (run_op op c) (run_op-Settled op c h)

-- On a new connection, any sequence of Close, ResetState, BeginTx, CommitTx and RollbackTx, with any answers of the driver,
-- leaves no begun transaction forgotten: Commit or Rollback has been called on each of them, also when the driver answered
-- that call with an error, but perhaps not on the last one, if the connection holds it.
pub run_ops-Settled :
    (ops : List SqlOp) (db conn : Option ℕ) (q : HealthQuery) (now : ℕ)
    → Settled (run_ops ops (new_sql_connection db conn q now))
unfolding new_sql_connection
run_ops-Settled ops db conn q now =
    run_ops-from ops (new_sql_connection db conn q now) λ t h. absurd (omega arith)
