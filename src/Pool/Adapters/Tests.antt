-- ===== src/Pool/Adapters/Tests.antt =====
-- pool/adapters/: the theorems at concrete connections and pools.
use fyer_kit.Prelude.{
  ℕ, ◌+◌, ◌<◌, ◌≡◌, refl, inl, inr, true, false, List, [], ◌∷◌, none, some, arith,
}
use fyer_kit.Pool.Types.{Conn, idle_state, in_use, default_options, new_stats}
use fyer_kit.Pool.{ConnectionPool, Return, take_idle, expired, is_alive}
use fyer_kit.Pool.Get.{
  connected, GetResult, got, get, handle_idle, handle_pooled, select_idle, borrow,
}
use fyer_kit.Pool.Books.{IsValid, occurs}
use fyer_kit.Pool.Adapters.Sql
use fyer_kit.Pool.Adapters.Http
use fyer_kit.Pool.Adapters.Redis
use fyer_kit.Pool.Adapters.Grpc
use fyer_kit.Pool.Adapters.Sql.{
  SqlError, driver_error, begins, SqlConnection, select_one, is_set, raw_db,
}
use fyer_kit.Pool.Adapters.SqlFactory.{new_sql_connection}
use fyer_kit.Pool.Adapters.Http.{HttpConnection}
use fyer_kit.Pool.Adapters.Redis.{RedisConnection}
use fyer_kit.Pool.Adapters.Grpc.{GrpcConnection}
use fyer_kit.Pool.Adapters.Helpers.{
  Call, returned, panics, with_pooled_client, execute, execute_cmd, with_connection,
  with_sql_connection, get_conn, with_transaction, TxAnswers, transact,
}
use fyer_kit.Pool.Adapters.Settled.{
  SqlOp, op_close, op_reset, op_begin, op_commit, run_ops, Settled, run_ops-Settled,
}
use fyer_kit.Pool.Adapters.Transact.{Settles, transact-Settles}
use fyer_kit.Pool.Adapters.Helped.{Silent, errors_swallowed, execute_closes_idle}
use fyer_kit.Pool.Adapters.Kept.{HelpedValid, helpers_keep_books}
use fyer_kit.Pool.Adapters.Revived.{close_revived}

abbrev new_sql : SqlConnection
new_sql = record {
  db = some 1;
  conn = some 2;
  tx = none;
  last_used = 0;
  closed = false;
  health_sql = select_one;
  next_tx = 0;
  calls = [];
}

abbrev held_sql : SqlConnection
held_sql = record new_sql { tx = some 0; next_tx = 1; calls = begins 0 ∷ [] }

-- A reset whose rollback fails keeps its transaction, which Close rolls back again.
abbrev sql_ops : List SqlOp
sql_ops =
    op_begin none
    ∷ op_commit (some (driver_error 3))
    ∷ op_begin none
    ∷ op_reset (some (driver_error 4)) 7
    ∷ op_close none none
    ∷ op_begin none
    ∷ op_reset none 8
    ∷ op_begin none
    ∷ []

run_ops-Settled_example :
    Settled (run_ops sql_ops (new_sql_connection (some 1) (some 2) select_one 0))
run_ops-Settled_example = run_ops-Settled sql_ops (some 1) (some 2) select_one 0

abbrev tx_answers : TxAnswers
tx_answers = record { on_begin = none; on_run = none; on_rollback = none; on_commit = none }

transact-Settles_example :
    Settles none none new_sql (transact tx_answers new_sql)
    × ((transact tx_answers new_sql).1.tx ≡ none)
transact-Settles_example = transact-Settles tx_answers new_sql refl refl refl refl

close_revived_example :
    let h : HttpConnection = record {
      client = 1;
      last_used = 0;
      timer = some 4;
      closed = false;
      idle_closes = 0;
      stops = 0;
    } in
    let r : RedisConnection = record { client = 2; last_used = 0; closed = false; health = none } in
    let g : GrpcConnection = record {
      conn = 3;
      target = 0;
      last_used = 0;
      closed = false;
      health_cfg = none;
      raw_closes = 0;
      backoff_resets = 0;
    } in
    let s' = (Sql.reset_state none 9 (Sql.close (some (driver_error 7)) none held_sql).1).1 in
    (Http.is_alive (Http.reset_state 9 (Http.close h)) ≡ false)
    × (Redis.is_alive true (Redis.reset_state 9 (Redis.close r)) ≡ true)
    × (Grpc.is_alive Grpc.shutdown (Grpc.reset_state Grpc.shutdown 9 (Grpc.close none g).1) ≡ false)
    × (Sql.is_alive false true s' ≡ true)
    × (Sql.raw s' ≡ raw_db (some 1))
close_revived_example =
    close_revived
      (record {
        client = 1;
        last_used = 0;
        timer = some 4;
        closed = false;
        idle_closes = 0;
        stops = 0;
      })
      (record { client = 2; last_used = 0; closed = false; health = none })
      (record {
        conn = 3;
        target = 0;
        last_used = 0;
        closed = false;
        health_cfg = none;
        raw_closes = 0;
        backoff_resets = 0;
      })
      held_sql 9 true false true Grpc.shutdown none (some (driver_error 7)) none none refl refl refl

-- One connection is idle.
abbrev idle_one : ConnectionPool
idle_one = record {
  opts = default_options;
  idle = some (record { id = 0; created_at = 0; last_used = 0; state = idle_state } ∷ []);
  active_conns = [];
  stats = record new_stats {
    active = record { ups = 1; downs = 1 };
    idle = record { ups = 1; downs = 0 };
    total = record { ups = 1; downs = 0 };
  };
  closed = false;
  idle_closed = false;
  events = [];
  closed_raw = [];
  next_id = 1;
}

idle_one-IsValid : IsValid idle_one
unfolding occurs default_options new_stats
idle_one-IsValid = record {
  counts_active = refl;
  counted = (refl, refl);
  fits = omega arith;
  once = λ i. ground arith;
  old = λ i h. ground arith;
}

abbrev returns : Return
returns = record { now = 30; conn_alive = λ c. true; reset_ok = λ c. true }

abbrev call : Call
call = record {
  answers = record {
    now = 20;
    conn_alive = λ c. true;
    dial = record { others = λ p. p; dialed = connected; now = 20 };
  };
  wakes = [];
  kind_ok = λ c. true;
  others = λ p. p;
  first = returns;
  second = returns;
}

abbrev lent_one : Conn
lent_one = record { id = 0; created_at = 0; last_used = 0; state = in_use }

abbrev lent_pool : GetResult → ConnectionPool
lent_pool (got c p) = p
lent_pool r = idle_one

abbrev lent : ConnectionPool
lent = lent_pool (get call.answers call.wakes idle_one)

lent_at : get call.answers call.wakes idle_one ≡ got lent_one lent
unfolding get take_idle select_idle handle_idle handle_pooled expired is_alive borrow
    default_options
lent_at = refl

lent_room :
    (lent.closed ≡ false)
    × (lent.idle ≡ some [])
    × (0 < lent.opts.max_idle)
    × (lent.opts.test_on_return ≡ false)
unfolding get take_idle select_idle handle_idle handle_pooled expired is_alive borrow
    default_options
lent_room = (refl, refl, omega arith, refl)

errors_swallowed_example :
    Silent (with_pooled_client {A = ℕ} call (λ n. inr 5) idle_one)
    × Silent (execute {A = ℕ} call (λ n. inr 5) idle_one)
    × ((k : ConnectionPool) × (execute_cmd {A = ℕ} call (λ n. inr 5) idle_one ≡ panics k))
    × Silent (with_connection call (λ n. some 5) idle_one)
    × Silent (with_sql_connection {A = ℕ} call (λ n. (none, some 5)) idle_one)
errors_swallowed_example = errors_swallowed call idle_one lent lent_one 5 lent_at refl lent_room.0

execute_closes_idle_example :
    (k : ConnectionPool) × (execute call (λ n. inl (n + 3)) idle_one ≡ returned (some 3) none k)
    × (k.idle ≡ some (record { id = 0; created_at = 0; last_used = 30; state = idle_state } ∷ []))
    × (k.closed_raw ≡ 0 ∷ lent.closed_raw)
execute_closes_idle_example =
    execute_closes_idle call (λ n. inl (n + 3)) 3 idle_one lent lent_one [] lent_at refl refl
      lent_room.0 lent_room.1 lent_room.2 lent_room.3 refl

helpers_keep_books_example :
    HelpedValid (with_pooled_client {A = ℕ} call (λ n. inr 5) idle_one)
    × HelpedValid (execute {A = ℕ} call (λ n. inr 5) idle_one)
    × HelpedValid (with_connection call (λ n. none) idle_one)
    × HelpedValid (with_sql_connection {A = ℕ} call (λ n. (some 2, none)) idle_one)
    × HelpedValid (get_conn call idle_one)
    × HelpedValid (with_transaction call tx_answers (λ n. new_sql) idle_one)
helpers_keep_books_example =
    helpers_keep_books call idle_one (λ n. inr 5) (λ n. (some 2, none)) (λ n. none) tx_answers
      (λ n. new_sql) idle_one-IsValid
      (record { dialling = λ p v. v; waking = tt; using = λ c p h. h })
