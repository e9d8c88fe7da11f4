-- ===== src/Pool/Adapters/Helpers.antt =====
-- pool/adapters/: the helpers that get a connection of a pool, use it and put it back: WithPooledClient and PooledHTTPClient of
-- http.go, RedisPoolHelper of redis.go, GRPCClientPool of grpc.go, SQLPoolHelper of sql.go.
use fyer_kit.Prelude.{ℕ, ◌⊎◌, inl, inr, Bool, true, false, List, Option, none, some, if◌then◌else◌}
use fyer_kit.Pool.Types.{Conn, PoolError}
use fyer_kit.Pool.{ConnectionPool, Return, Handle, pooled, foreign, put, close_pooled}
use fyer_kit.Pool.Get.{Answers, Wake, GetResult, got, failed, waiting, panicked, get}
use fyer_kit.Pool.Adapters.Sql.{
  SqlError, failed_to_commit, rollback_failed_too, is_set, SqlConnection, Begun, not_begun, begun,
  begin_tx, commit_tx, rollback_tx,
}

-- What a helper meets: the answers of Get, whether the connection is of the kind asserted, what others do while it is
-- used, and the answers of the Put and of the Close.
pub record Call : Type 0 where
  pub answers : Answers
  pub wakes : List Wake
  pub kind_ok : Conn → Bool
  pub others : ConnectionPool → ConnectionPool
  pub first : Return
  pub second : Return

pub data HelpError : Type 0 where
  from_pool failed_to_get : PoolError → HelpError
  from_request : ℕ → HelpError
  invalid_executor not_a_sql_connection : HelpError

-- A value and an error, either of which may be nil.
pub data Helped (A : Type 0) : Type 0 where
  returned : Option A → Option HelpError → ConnectionPool → Helped A
  blocked : ConnectionPool → Helped A
  panics : ConnectionPool → Helped A

abbrev pub put_error : Option PoolError → Option HelpError
put_error none = none
put_error (some e) = some (from_pool e)

module _ {A : Type 0} where
  -- `conn, err := pool.Get(ctx); if err != nil { return nil, err }`
  unfoldable pub on_got :
      GetResult → (PoolError → HelpError) → (Conn → ConnectionPool → Helped A) → Helped A
  on_got (got c p) wrap use_it = use_it c p
  on_got (failed e p) wrap use_it = returned none (some (wrap e)) p
  on_got (waiting p) wrap use_it = blocked p
  on_got (panicked p) wrap use_it = panics p

  -- `return v, pool.Put(conn, err)`
  unfoldable pub put_value : Call → Option A → Bool → Conn → ConnectionPool → Helped A
  put_value u v erred c p =
      let (e, q) = put u.first (pooled c) erred p in returned v (put_error e) q

  -- `conn.Close(); return nil, pool.Put(conn, err)`
  unfoldable pub close_and_put : Call → Bool → Conn → ConnectionPool → Helped A
  unfolding put_value
  close_and_put u erred c p = put_value u none erred c (close_pooled u.second c p).1

  -- `defer conn.Close()`
  unfoldable pub then_close : Call → Conn → Helped A → Helped A
  then_close u c (returned v e p) = returned v e (close_pooled u.second c p).1
  then_close u c (blocked p) = blocked p
  then_close u c (panics p) = panics p

  -- An error of the request, or a response.
  unfoldable pub http_done : Call → A ⊎ ℕ → Conn → ConnectionPool → Helped A
  unfolding put_value close_and_put
  http_done u (inl v) c p = put_value u (some v) false c p
  http_done u (inr e) c p = close_and_put u true c p

  -- `send` is what the client under the connection answers.
  unfoldable pub with_pooled_client : Call → (ℕ → A ⊎ ℕ) → ConnectionPool → Helped A
  unfolding on_got http_done
  with_pooled_client u send p = on_got (get u.answers u.wakes p) from_pool λ c q.
      if u.kind_ok c then http_done u (send c.id) c (u.others q) else close_and_put u false c q

  unfoldable pub redis_done : Call → A ⊎ ℕ → Conn → ConnectionPool → Helped A
  redis_done u (inl v) c p = put_value u (some v) false c p
  redis_done u (inr e) c p = put_value u none true c p

  -- Execute of RedisPoolHelper
  unfoldable pub execute : Call → (ℕ → A ⊎ ℕ) → ConnectionPool → Helped A
  unfolding on_got redis_done then_close
  execute u run p = on_got (get u.answers u.wakes p) from_pool λ c q.
      then_close u c
        (if u.kind_ok c then redis_done u (run c.id) c (u.others q) else put_value u none false c q)

  -- `return result.(*redis.Cmd), nil`, which panics where the result is nil.
  abbrev pub as_cmd : Helped A → Helped A
  as_cmd (returned v (some e) p) = returned none (some e) p
  as_cmd (returned none none p) = panics p
  as_cmd (returned (some v) none p) = returned (some v) none p
  as_cmd (blocked p) = blocked p
  as_cmd (panics p) = panics p

  unfoldable pub execute_cmd : Call → (ℕ → A ⊎ ℕ) → ConnectionPool → Helped A
  unfolding execute
  execute_cmd u cmd p = as_cmd (execute u cmd p)

  -- WithConnection of SQLPoolHelper; the function may set a variable of its caller, and returns an error or nil.
  unfoldable pub with_sql_connection : Call → (ℕ → Option A × Option ℕ) → ConnectionPool → Helped A
  unfolding on_got then_close
  with_sql_connection u run p = on_got (get u.answers u.wakes p) failed_to_get λ c q.
      then_close u c (
        if u.kind_ok c
        then put_value u (run c.id).0 (is_set (run c.id).1) c (u.others q)
        else returned none (some invalid_executor) q)

  abbrev pub both_of : A ⊎ ℕ → Option A × Option ℕ
  both_of (inl v) = (some v, none)
  both_of (inr e) = (none, some e)

  unfoldable pub exec : Call → (ℕ → A ⊎ ℕ) → ConnectionPool → Helped A
  unfolding with_sql_connection
  exec u run p = with_sql_connection u (λ n. both_of (run n)) p

  abbrev pub with_rows : A ⊎ ℕ → (A → Option ℕ) → Option ℕ
  with_rows (inl rows) handle = handle rows
  with_rows (inr e) handle = some e

unfoldable pub query :
    {A : Type 0} → Call → (ℕ → A ⊎ ℕ) → (A → Option ℕ) → ConnectionPool → Helped Unit
unfolding with_sql_connection
query u run handle p = with_sql_connection u (λ n. (none, with_rows (run n) handle)) p

unfoldable pub query_row :
    {A : Type 0} → Call → (ℕ → A) → (A → Option ℕ) → ConnectionPool → Helped Unit
unfolding with_sql_connection
query_row u run handle p = with_sql_connection u (λ n. (none, handle (run n))) p

-- Execute of SQLPoolHelper, which does not use its query.
unfoldable pub execute_sql : Call → (ℕ → Option ℕ) → ConnectionPool → Helped Unit
unfolding with_sql_connection
execute_sql u run p = with_sql_connection u (λ n. (none, run n)) p

-- WithConnection of GRPCClientPool
unfoldable pub with_connection : Call → (ℕ → Option ℕ) → ConnectionPool → Helped Unit
unfolding on_got then_close
with_connection u run p = on_got (get u.answers u.wakes p) from_pool λ c q. then_close u c (
    if u.kind_ok c
    then put_value u none (is_set (run c.id)) c (u.others q)
    else put_value u none false c q)

unfoldable pub with_client :
    {B : Type 0} → Call → (ℕ → B) → (B → Option ℕ) → ConnectionPool → Helped Unit
unfolding with_connection
with_client u factory run p = with_connection u (λ n. run (factory n)) p

-- The connection under the one of the pool is handed out, and the latter is dropped.
unfoldable pub get_conn : Call → ConnectionPool → Helped ℕ
unfolding on_got close_and_put
get_conn u p =
    on_got (get u.answers u.wakes p) from_pool
      λ c q. if u.kind_ok c then returned (some c.id) none q else close_and_put u false c q

-- Put of GRPCClientPool
unfoldable pub put_conn : ℕ → Option ℕ → ConnectionPool → Option HelpError × ConnectionPool
put_conn n e p = (none, p)

-- `conn.(*SQLConnection)`; `sql_at` gives the connections that are not the pool's own.
unfoldable pub as_sql : (ℕ → SqlConnection) → Handle → Option SqlConnection
as_sql sql_at (pooled c) = none
as_sql sql_at (foreign none) = none
as_sql sql_at (foreign (some n)) = some (sql_at n)

-- What a transaction meets: the answers of BeginTx, of the function, of RollbackTx and of CommitTx.
pub record TxAnswers : Type 0 where
  pub on_begin : Option SqlError
  pub on_run : Option SqlError
  pub on_rollback : Option SqlError
  pub on_commit : Option SqlError

abbrev pub with_rollback :
    SqlError → Option SqlError × SqlConnection → Option SqlError × SqlConnection
with_rollback e (none, c) = (some e, c)
with_rollback e (some e', c) = (some (rollback_failed_too e e'), c)

abbrev pub with_commit : Option SqlError × SqlConnection → Option SqlError × SqlConnection
with_commit (none, c) = (none, c)
with_commit (some e, c) = (some (failed_to_commit e), c)

unfoldable pub run_tx :
    TxAnswers → Option SqlError → SqlConnection → Option SqlError × SqlConnection
run_tx a (some e) c = with_rollback e (rollback_tx a.on_rollback c)
run_tx a none c = with_commit (commit_tx a.on_commit c)

unfoldable pub after_begin : TxAnswers → Begun × SqlConnection → Option SqlError × SqlConnection
unfolding run_tx
after_begin a (not_begun e, c) = (some e, c)
after_begin a (begun t, c) = run_tx a a.on_run c

-- The part of WithTransaction from BeginTx on: the error that it hands to Put, and the connection.
unfoldable pub transact : TxAnswers → SqlConnection → Option SqlError × SqlConnection
unfolding after_begin
transact a c = after_begin a (begin_tx a.on_begin c)

abbrev pub put_transaction :
    Call → Handle → Option SqlError × SqlConnection → ConnectionPool → Helped SqlConnection
put_transaction u h (e, s) p =
    let (pool_error, q) = put u.first h (is_set e) p in returned (some s) (put_error pool_error) q

unfoldable pub transaction_on :
    Call → TxAnswers → Handle → Option SqlConnection → ConnectionPool → Helped SqlConnection
unfolding transact
transaction_on u a h none p = returned none (some not_a_sql_connection) p
transaction_on u a h (some s) p = put_transaction u h (transact a s) (u.others p)

-- WithTransaction, whose value is the SQLConnection as it is left.
unfoldable pub with_transaction :
    Call → TxAnswers → (ℕ → SqlConnection) → ConnectionPool → Helped SqlConnection
unfolding on_got then_close transaction_on as_sql
with_transaction u a sql_at p =
    on_got (get u.answers u.wakes p) failed_to_get
      λ c q. then_close u c (transaction_on u a (pooled c) (as_sql sql_at (pooled c)) q)
